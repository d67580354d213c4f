-- ===== src/Compiler/Symbols/Boolean.antt =====
-- cmd/goxdr/goxdr.go: is_bool follows a type through the typedefs. The source has no bound on the
-- rounds; here they are counted, and none says that there were too few.
use goxdr.Prelude.{
  ℕ, zero, suc, Bool, true, false, [], ◌∷◌, Option, none, some, if◌then◌else◌, Bytes, bytes_eq,
  bytes_eq_iff, bytes_eq_refl, codes, ◌≡◌, ◌≢◌, ◌↔◌, inl, inr, refl, Bool-cases, Option-cases,
}
use goxdr.Compiler.Symbols.{
  is_lower, IdVal, Qual, scalar, ptr, array, vec, Sym, const_sym, typedef_sym, struct_sym, enum_sym,
  union_sym, program_sym, decl, Inline, no_inline, inline, Syms, lookup_sym,
}

-- `gg == "" || (gg[0] >= 'a' && gg[0] <= 'z')`
unfoldable pub not_defined : Bytes → Bool
not_defined [] = true
not_defined (c ∷ s) = is_lower c

abbrev plain : Bytes → Option IdVal → Option IdVal
plain [] t = none
plain (c ∷ s) t = t

abbrev unqualified : Qual → Option IdVal → Option IdVal
unqualified scalar t = t
unqualified ptr t = none
unqualified array t = none
unqualified vec t = none

abbrev outlined : Inline → Option IdVal → Option IdVal
outlined no_inline t = t
outlined (inline s) t = none

-- `td.typ`, if the symbol is a typedef of an unqualified type that has a name
abbrev pub alias_of : Option Sym → Option IdVal
alias_of none = none
alias_of (some (const_sym c)) = none
alias_of (some (typedef_sym (decl id qual bound typ body))) =
    unqualified qual (plain typ.goid (outlined body (some typ)))
alias_of (some (struct_sym i ds)) = none
alias_of (some (enum_sym i ts)) = none
alias_of (some (union_sym i t g fs h)) = none
alias_of (some (program_sym i n vs)) = none

-- The type with which the loop goes on; none is `return false`.
unfoldable pub next_type : Syms → IdVal → Option IdVal
unfolding not_defined lookup_sym
next_type syms t = if not_defined t.goid then none else alias_of (lookup_sym t.xid syms)

unfoldable pub is_bool : ℕ → Syms → IdVal → Option Bool
is_bool zero syms t = none
is_bool (suc rounds) syms t =
    if bytes_eq t.xid (codes "bool")
    then some true
    else elim (next_type syms t) [ none ↦ some false | some u ↦ is_bool rounds syms u ]

-- The type is bool, or a typedef leads to such a type.
pub data IsBoolean (syms : Syms) : IdVal → Type 0 where
  bool_itself : {t : IdVal} → t.xid ≡ codes "bool" → IsBoolean syms t
  typedef_of :
      {t u : IdVal}
      → t.xid ≢ codes "bool"
      → next_type syms t ≡ some u
      → IsBoolean syms u
      → IsBoolean syms t

module _ (syms : Syms) where
  answered : (rounds : ℕ) (t : IdVal) → is_bool rounds syms t ≡ some true → IsBoolean syms t
  unfolding is_bool
  answered zero t h = absurd (cc)
  answered (suc rounds) t h = elim (Bool-cases (bytes_eq t.xid (codes "bool"))) [
    | inl e ↦ bool_itself ((bytes_eq_iff t.xid (codes "bool")).0 e)
    | inr e ↦ elim (Option-cases (next_type syms t)) [
      | inl last ↦ absurd (clash (rw (e, last) at h))
      | inr (u, next) ↦ typedef_of (differ e) next (answered rounds u (rw (e, next) at h))
    ]
  ]
    where
      clash : some false ≡ some true → ⊥
      clash e = absurd (cc)

      differ : bytes_eq t.xid (codes "bool") ≡ false → t.xid ≢ codes "bool"
      differ e same =
          let on : bytes_eq t.xid (codes "bool") ≡ true =
            (bytes_eq_iff t.xid (codes "bool")).1 same in
          absurd (cc)

  enough : {t : IdVal} → IsBoolean syms t → (rounds : ℕ) × (is_bool rounds syms t ≡ some true)
  unfolding is_bool
  enough {t} (bool_itself e) = (1, rw (e, bytes_eq_refl (codes "bool")) refl)
  enough {t} (typedef_of {u = u} apart next b) =
      let (rounds, h) = enough b in
      (
        suc rounds,
        elim (Bool-cases (bytes_eq t.xid (codes "bool"))) [
          | inl e ↦ absurd (apart ((bytes_eq_iff t.xid (codes "bool")).0 e))
          | inr e ↦ rw (e, next) h
        ],
      )

  -- is_bool answers true for some number of rounds exactly if the type is bool or typedefs lead to bool.
  is_bool_iff :
      (t : IdVal) → ((rounds : ℕ) × (is_bool rounds syms t ≡ some true)) ↔ IsBoolean syms t
  is_bool_iff t = ((λ h. answered h.0 t h.1), enough)

  -- Where typedefs lead from one type to another for ever and none is bool, no number of rounds is
  -- enough for is_bool.
  is_bool_circle :
      (Circle : IdVal → Type 0)
      → ((v : IdVal)
          → Circle v
          → (v.xid ≢ codes "bool") × ((u : IdVal) × (next_type syms v ≡ some u) × Circle u))
      → (t : IdVal) → Circle t
      → (rounds : ℕ) → is_bool rounds syms t ≡ none
  unfolding is_bool
  is_bool_circle Circle around t on zero = refl
  is_bool_circle Circle around t on (suc rounds) =
      let (apart, (u, next, on')) = around t on in
      elim (Bool-cases (bytes_eq t.xid (codes "bool"))) [
        | inl e ↦ absurd (apart ((bytes_eq_iff t.xid (codes "bool")).0 e))
        | inr e ↦ rw (e, next) (is_bool_circle Circle around u on' rounds)
      ]
