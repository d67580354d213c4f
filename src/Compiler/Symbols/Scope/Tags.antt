-- ===== src/Compiler/Symbols/Scope/Tags.antt =====
-- The tags of enums and their new Go names, which scopeEnumTags collects and leaves.
use goxdr.Prelude.{
  ℕ, zero, suc, List, [], ◌∷◌, some, get_elem?, map, Bytes, bytes_eq, bytes_eq_iff, bytes_eq_refl,
  All, ◌≡◌, ◌≢◌, refl, sym, ap, ◌∙◌, Bool-cases, inl, inr,
}
use goxdr.Compiler.Symbols.{
  IdVal, Const, Sym, const_sym, typedef_sym, struct_sym, enum_sym, union_sym, program_sym, Entry,
  global, tag, find,
}
use goxdr.Compiler.Symbols.Scope.{
  Renames, tag_name, name_tags, name_enum, add_tags, add_enum, collect, apply_vals, apply_sym,
  apply_const, apply_at, apply_globals,
}

-- The tags of the enums among the symbols
abbrev pub ids_then : List Const → List IdVal → List IdVal
ids_then [] rest = rest
ids_then (t ∷ ts) rest = t.id ∷ ids_then ts rest

abbrev pub tags_then : Sym → List IdVal → List IdVal
tags_then (const_sym c) rest = rest
tags_then (typedef_sym d) rest = rest
tags_then (struct_sym i ds) rest = rest
tags_then (enum_sym i ts) rest = ids_then ts rest
tags_then (union_sym i t g fs h) rest = rest
tags_then (program_sym i n vs) rest = rest

abbrev pub tags : List Sym → List IdVal
tags [] = []
tags (s ∷ ss) = tags_then s (tags ss)

abbrev pub xids : List IdVal → List Bytes
xids [] = []
xids (t ∷ ts) = t.xid ∷ xids ts

-- No two are the same.
abbrev pub Apart : List Bytes → Type 0
Apart [] = Unit
Apart (x ∷ xs) = All (λ y. x ≢ y) xs × Apart xs

-- The renames of a list of tags
abbrev pub push : List IdVal → Renames → Renames
push [] renames = renames
push (t ∷ ts) renames = push ts ((t.xid, t.goid) ∷ renames)

push-ids :
    (prefix : Bytes) (ts : List Const) (rest : List IdVal) (rs : Renames)
    → push (ids_then (name_tags prefix ts) rest) rs ≡ push rest (add_tags prefix ts rs)
unfolding name_tags add_tags
push-ids prefix [] rest rs = refl
push-ids prefix (t ∷ ts) rest rs =
    push-ids prefix ts rest ((t.id.xid, tag_name prefix t.id.xid) ∷ rs)

push-tags :
    (s : Sym) (rest : List IdVal) (rs : Renames)
    → push (tags_then (name_enum s) rest) rs ≡ push rest (add_enum s rs)
push-tags (const_sym c) rest rs = refl
push-tags (typedef_sym d) rest rs = refl
push-tags (struct_sym i ds) rest rs = refl
push-tags (enum_sym i ts) rest rs = push-ids i.goid ts rest rs
push-tags (union_sym i t g fs h) rest rs = refl
push-tags (program_sym i n vs) rest rs = refl

pub collect-push :
    (ss : List Sym) (rs : Renames) → collect ss rs ≡ push (tags (map name_enum ss)) rs
unfolding collect
collect-push [] rs = refl
collect-push (s ∷ ss) rs =
    collect-push ss (add_enum s rs) ∙ sym (push-tags s (tags (map name_enum ss)) rs)

find_apart :
    (x : Bytes) (ts : List IdVal) (rs : Renames)
    → All (λ y. x ≢ y) (xids ts)
    → find x (push ts rs) ≡ find x rs
unfolding find
find_apart x [] rs a = refl
find_apart x (t ∷ ts) rs (ne, a) =
    find_apart x ts ((t.xid, t.goid) ∷ rs) a ∙ elim (Bool-cases (bytes_eq t.xid x)) [
      | inl e ↦ absurd (ne (sym ((bytes_eq_iff t.xid x).0 e)))
      | inr e ↦ rw e refl
    ]

pub find-push :
    (j : ℕ) (t : IdVal) (ts : List IdVal) (rs : Renames)
    → Apart (xids ts)
    → get_elem? ts j ≡ some t
    → find t.xid (push ts rs) ≡ some t.goid
unfolding find
find-push j t [] rs a e = absurd (cc)
find-push zero t (u ∷ ts) rs (ne, a) e =
    let same : u ≡ t = cc in
    rw (← same) (find_apart u.xid ts ((u.xid, u.goid) ∷ rs) ne ∙ rw (bytes_eq_refl u.xid) refl)
find-push (suc j) t (u ∷ ts) rs (ne, a) e = find-push j t ts ((u.xid, u.goid) ∷ rs) a e

-- The names in the XDR file stay.
xids-ids :
    (prefix : Bytes) (ts : List Const) (a b : List IdVal)
    → xids a ≡ xids b
    → xids (ids_then (name_tags prefix ts) a) ≡ xids (ids_then ts b)
unfolding name_tags
xids-ids prefix [] a b h = h
xids-ids prefix (t ∷ ts) a b h = ap (◌∷◌ t.id.xid) (xids-ids prefix ts a b h)

pub xids-tags : (ss : List Sym) → xids (tags (map name_enum ss)) ≡ xids (tags ss)
xids-tags [] = refl
xids-tags (const_sym c ∷ ss) = xids-tags ss
xids-tags (typedef_sym d ∷ ss) = xids-tags ss
xids-tags (struct_sym i ds ∷ ss) = xids-tags ss
xids-tags (enum_sym i ts ∷ ss) =
    xids-ids i.goid ts (tags (map name_enum ss)) (tags ss) (xids-tags ss)
xids-tags (union_sym i t g fs h ∷ ss) = xids-tags ss
xids-tags (program_sym i n vs ∷ ss) = xids-tags ss

-- The second and the third loop leave the tags.
ids-vals :
    (rs : Renames) (ts : List Const) (rest : List IdVal)
    → ids_then (apply_vals rs ts) rest ≡ ids_then ts rest
unfolding apply_vals
ids-vals rs [] rest = refl
ids-vals rs (t ∷ ts) rest = ap (◌∷◌ t.id) (ids-vals rs ts rest)

pub tags-apply : (rs : Renames) (ss : List Sym) → tags (map (apply_sym rs) ss) ≡ tags ss
tags-apply rs [] = refl
tags-apply rs (const_sym c ∷ ss) = tags-apply rs ss
tags-apply rs (typedef_sym d ∷ ss) = tags-apply rs ss
tags-apply rs (struct_sym i ds ∷ ss) = tags-apply rs ss
tags-apply rs (enum_sym i ts ∷ ss) =
    ids-vals rs ts (tags (map (apply_sym rs) ss)) ∙ ap (ids_then ts) (tags-apply rs ss)
tags-apply rs (union_sym i t g fs h ∷ ss) = tags-apply rs ss
tags-apply rs (program_sym i n vs ∷ ss) = tags-apply rs ss

tags-apply_const :
    (rs : Renames) (s : Sym) (rest : List IdVal)
    → tags_then (apply_const rs s) rest ≡ tags_then s rest
tags-apply_const rs (const_sym c) rest = refl
tags-apply_const rs (typedef_sym d) rest = refl
tags-apply_const rs (struct_sym i ds) rest = refl
tags-apply_const rs (enum_sym i ts) rest = refl
tags-apply_const rs (union_sym i t g fs h) rest = refl
tags-apply_const rs (program_sym i n vs) rest = refl

tags-apply_at : (rs : Renames) (i : ℕ) (ss : List Sym) → tags (apply_at rs i ss) ≡ tags ss
unfolding apply_at
tags-apply_at rs i [] = refl
tags-apply_at rs zero (s ∷ ss) = tags-apply_const rs s (tags ss)
tags-apply_at rs (suc i) (s ∷ ss) = ap (tags_then s) (tags-apply_at rs i ss)

pub tags-apply_globals :
    (rs : Renames) (m : List (Bytes × Entry)) (ss : List Sym)
    → tags (apply_globals rs m ss) ≡ tags ss
unfolding apply_globals
tags-apply_globals rs [] ss = refl
tags-apply_globals rs ((x, global i) ∷ m) ss =
    tags-apply_globals rs m (apply_at rs i ss) ∙ tags-apply_at rs i ss
tags-apply_globals rs ((x, tag c) ∷ m) ss = tags-apply_globals rs m ss
