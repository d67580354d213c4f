-- ===== src/Compiler/Symbols/Scope/References.antt =====
-- What refers to a tag of an enum has the tag's new Go name.
use goxdr.Prelude.{
  ℕ, zero, suc, List, [], ◌∷◌, ◌++◌, none, some, get_elem?, map, Bytes, All, ◌≡◌, sym, ap, subst,
  ◌∙◌, Option-cases, inl, inr,
}
use goxdr.Compiler.Symbols.{
  IdVal, Const, Sym, const_sym, typedef_sym, struct_sym, enum_sym, union_sym, program_sym, Ufields,
  no_ufield, ufield, Entry, global, tag, Syms, find,
}
use goxdr.Compiler.Symbols.Scope.{
  Renames, name_enum, collect, apply_rename, apply_vals, apply_cases, apply_fields, apply_sym,
  apply_const, apply_at, apply_globals, scope_enum_tags,
}
use goxdr.Compiler.Symbols.Scope.Tags.{
  tags, xids, Apart, push, collect-push, find-push, xids-tags, tags-apply, tags-apply_globals,
}

-- What may refer to a tag at the top level: the values of constants and tags, and the cases of unions.
-- Enums and unions that are declared inline, in a declaration of a struct or a union or in a typedef,
-- are not among the symbols, and scopeEnumTags does not visit them.
abbrev pub vals_then : List Const → List IdVal → List IdVal
vals_then [] rest = rest
vals_then (t ∷ ts) rest = t.val ∷ vals_then ts rest

abbrev pub fields_then : Ufields → List IdVal → List IdVal
fields_then no_ufield rest = rest
fields_then (ufield cases d h fs) rest = cases ++ fields_then fs rest

abbrev pub refs_then : Sym → List IdVal → List IdVal
refs_then (const_sym c) rest = c.val ∷ rest
refs_then (typedef_sym d) rest = rest
refs_then (struct_sym i ds) rest = rest
refs_then (enum_sym i ts) rest = vals_then ts rest
refs_then (union_sym i t g fs h) rest = fields_then fs rest
refs_then (program_sym i n vs) rest = rest

abbrev pub refs : List Sym → List IdVal
refs [] = []
refs (s ∷ ss) = refs_then s (refs ss)

-- The Go name is that of the rename, if there is one for the XDR name.
abbrev Renamed : Renames → IdVal → Type 0
Renamed rs r = (name : Bytes) → find r.xid rs ≡ some name → r.goid ≡ name

apply_rename-Renamed : (rs : Renames) (r : IdVal) → Renamed rs (apply_rename rs r)
unfolding apply_rename
apply_rename-Renamed rs r name = elim (Option-cases (find r.xid rs)) [
  | inl e ↦ rw e (λ h. absurd (nothing (sym e ∙ h)))
  | inr (other, e) ↦ rw e (λ h. only (sym e ∙ h))
]
  where
    nothing : none ≡ some name → ⊥
    nothing h = absurd (cc)

    only : {other : Bytes} → some other ≡ some name → other ≡ name
    only h = cc

vals-Renamed :
    (rs : Renames) (ts : List Const) (rest : List IdVal)
    → All (Renamed rs) rest
    → All (Renamed rs) (vals_then (apply_vals rs ts) rest)
unfolding apply_vals
vals-Renamed rs [] rest a = a
vals-Renamed rs (t ∷ ts) rest a = (apply_rename-Renamed rs t.val, vals-Renamed rs ts rest a)

cases-Renamed :
    (rs : Renames) (cs : List IdVal) (rest : List IdVal)
    → All (Renamed rs) rest
    → All (Renamed rs) (apply_cases rs cs ++ rest)
unfolding apply_cases
cases-Renamed rs [] rest a = a
cases-Renamed rs (c ∷ cs) rest a = (apply_rename-Renamed rs c, cases-Renamed rs cs rest a)

fields-Renamed :
    (rs : Renames) (fs : Ufields) (rest : List IdVal)
    → All (Renamed rs) rest
    → All (Renamed rs) (fields_then (apply_fields rs fs) rest)
unfolding apply_fields
fields-Renamed rs no_ufield rest a = a
fields-Renamed rs (ufield cases d h fs) rest a =
    cases-Renamed rs cases _ (fields-Renamed rs fs rest a)

refs-Renamed : (rs : Renames) (ss : List Sym) → All (Renamed rs) (refs (map (apply_sym rs) ss))
refs-Renamed rs [] = tt
refs-Renamed rs (const_sym c ∷ ss) = (apply_rename-Renamed rs c.val, refs-Renamed rs ss)
refs-Renamed rs (typedef_sym d ∷ ss) = refs-Renamed rs ss
refs-Renamed rs (struct_sym i ds ∷ ss) = refs-Renamed rs ss
refs-Renamed rs (enum_sym i ts ∷ ss) = vals-Renamed rs ts _ (refs-Renamed rs ss)
refs-Renamed rs (union_sym i t g fs h ∷ ss) = fields-Renamed rs fs _ (refs-Renamed rs ss)
refs-Renamed rs (program_sym i n vs ∷ ss) = refs-Renamed rs ss

-- The third loop renames once more, or not at all.
All-behind :
    (P : IdVal → Type 0) (xs ys zs : List IdVal)
    → (All P ys → All P zs)
    → All P (xs ++ ys)
    → All P (xs ++ zs)
All-behind P [] ys zs f a = f a
All-behind P (x ∷ xs) ys zs f (p, a) = (p, All-behind P xs ys zs f a)

vals-behind :
    (P : IdVal → Type 0) (ts : List Const) (ys zs : List IdVal)
    → (All P ys → All P zs)
    → All P (vals_then ts ys)
    → All P (vals_then ts zs)
vals-behind P [] ys zs f a = f a
vals-behind P (t ∷ ts) ys zs f (p, a) = (p, vals-behind P ts ys zs f a)

fields-behind :
    (P : IdVal → Type 0) (fs : Ufields) (ys zs : List IdVal)
    → (All P ys → All P zs)
    → All P (fields_then fs ys)
    → All P (fields_then fs zs)
fields-behind P no_ufield ys zs f a = f a
fields-behind P (ufield cases d h fs) ys zs f a =
    All-behind P cases (fields_then fs ys) (fields_then fs zs) (fields-behind P fs ys zs f) a

refs-behind :
    (P : IdVal → Type 0) (s : Sym) (ys zs : List IdVal)
    → (All P ys → All P zs)
    → All P (refs_then s ys)
    → All P (refs_then s zs)
refs-behind P (const_sym c) ys zs f (p, a) = (p, f a)
refs-behind P (typedef_sym d) ys zs f a = f a
refs-behind P (struct_sym i ds) ys zs f a = f a
refs-behind P (enum_sym i ts) ys zs f a = vals-behind P ts ys zs f a
refs-behind P (union_sym i t g fs h) ys zs f a = fields-behind P fs ys zs f a
refs-behind P (program_sym i n vs) ys zs f a = f a

apply_const-Renamed :
    (rs : Renames) (s : Sym) (rest : List IdVal)
    → All (Renamed rs) (refs_then s rest)
    → All (Renamed rs) (refs_then (apply_const rs s) rest)
apply_const-Renamed rs (const_sym c) rest (p, a) = (apply_rename-Renamed rs c.val, a)
apply_const-Renamed rs (typedef_sym d) rest a = a
apply_const-Renamed rs (struct_sym i ds) rest a = a
apply_const-Renamed rs (enum_sym i ts) rest a = a
apply_const-Renamed rs (union_sym i t g fs h) rest a = a
apply_const-Renamed rs (program_sym i n vs) rest a = a

apply_at-Renamed :
    (rs : Renames) (i : ℕ) (ss : List Sym)
    → All (Renamed rs) (refs ss)
    → All (Renamed rs) (refs (apply_at rs i ss))
unfolding apply_at
apply_at-Renamed rs i [] a = a
apply_at-Renamed rs zero (s ∷ ss) a = apply_const-Renamed rs s (refs ss) a
apply_at-Renamed rs (suc i) (s ∷ ss) a =
    refs-behind (Renamed rs) s (refs ss) (refs (apply_at rs i ss)) (apply_at-Renamed rs i ss) a

apply_globals-Renamed :
    (rs : Renames) (m : List (Bytes × Entry)) (ss : List Sym)
    → All (Renamed rs) (refs ss)
    → All (Renamed rs) (refs (apply_globals rs m ss))
unfolding apply_globals
apply_globals-Renamed rs [] ss a = a
apply_globals-Renamed rs ((x, global i) ∷ m) ss a =
    apply_globals-Renamed rs m (apply_at rs i ss) (apply_at-Renamed rs i ss a)
apply_globals-Renamed rs ((x, tag c) ∷ m) ss a = apply_globals-Renamed rs m ss a

All-elem :
    (P : IdVal → Type 0) (xs : List IdVal) (i : ℕ) (x : IdVal)
    → All P xs
    → get_elem? xs i ≡ some x
    → P x
All-elem P [] i x a e = absurd (cc)
All-elem P (y ∷ ys) zero x (p, a) e = subst P (the_same e) p
  where
    the_same : some y ≡ some x → y ≡ x
    the_same h = cc
All-elem P (y ∷ ys) (suc i) x (p, a) e = All-elem P ys i x a e

-- Behind scopeEnumTags, where no two top-level enums have a tag of one name: a value of a top-level
-- constant or of a tag of a top-level enum, and a case of a top-level union, that has the XDR name of such a
-- tag has that tag's Go name; and the tags keep their XDR names. Inline declarations are not covered.
pub scope_enum_tags_lem :
    (syms : Syms) (i j : ℕ) (r t : IdVal)
    → Apart (xids (tags syms.symbols))
    → get_elem? (refs (scope_enum_tags syms).symbols) i ≡ some r
    → get_elem? (tags (scope_enum_tags syms).symbols) j ≡ some t
    → r.xid ≡ t.xid
    → (r.goid ≡ t.goid) × (xids (tags (scope_enum_tags syms).symbols) ≡ xids (tags syms.symbols))
unfolding scope_enum_tags
scope_enum_tags_lem syms i j r t apart er et same =
    let rs : Renames = collect syms.symbols [] in
    let named : List Sym = map name_enum syms.symbols in
    let kept : tags (apply_globals rs syms.symbol_map (map (apply_sym rs) named)) ≡ tags named =
      tags-apply_globals rs syms.symbol_map (map (apply_sym rs) named) ∙ tags-apply rs named in
    let all : All (Renamed rs)
        (refs (apply_globals rs syms.symbol_map (map (apply_sym rs) named))) =
      apply_globals-Renamed rs syms.symbol_map (map (apply_sym rs) named) (refs-Renamed rs named) in
    let found : find t.xid (push (tags named) []) ≡ some t.goid =
      find-push j t (tags named) [] (subst Apart (sym (xids-tags syms.symbols)) apart)
        (ap (λ ts. get_elem? ts j) (sym kept) ∙ et) in
    (
      All-elem (Renamed rs) _ i r all er t.goid
          (ap (λ x. find x rs) same ∙ ap (find t.xid) (collect-push syms.symbols []) ∙ found),
      ap xids kept ∙ xids-tags syms.symbols,
    )
