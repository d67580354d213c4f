-- ===== src/Compiler/Symbols/Bound/Ends.antt =====
-- The loop of get_bound ends.
use goxdr.Prelude.{
  ℕ, zero, suc, ◌+◌, ◌≤◌, ◌<◌, true, false, List, [], ◌∷◌, Option, none, some, length,
  if◌then◌else◌, Bytes, bytes_eq, bytes_eq_iff, bytes_eq_refl, All, ◌≡◌, ◌⊎◌, inl, inr, refl, ap,
  ◌∙◌, arith, Bool-cases, Option-cases,
}
use goxdr.Compiler.Symbols.{IdVal, Entry, Syms, find, lookup_sym}
use goxdr.Compiler.Symbols.Bound.{
  seen, next_bound, bound_loop, named_bound, get_bound, Follows, here, on,
}

-- How many entries have a key that was not seen.
abbrev unseen : List Bytes → List (Bytes × Entry) → ℕ
unseen loop [] = 0
unseen loop ((x, e) ∷ m) = (if seen x loop then 0 else 1) + unseen loop m

unseen_more :
    (x : Bytes) (loop : List Bytes) (m : List (Bytes × Entry)) → unseen (x ∷ loop) m ≤ unseen loop m
unfolding seen
unseen_more x loop [] = omega arith
unseen_more x loop ((y, e) ∷ m) = ground (arith, unseen_more x loop m)

unseen_found :
    (x : Bytes) (loop : List Bytes) (m : List (Bytes × Entry)) (e : Entry)
    → find x m ≡ some e
    → seen x loop ≡ false
    → unseen (x ∷ loop) m < unseen loop m
unfolding find seen
unseen_found x loop [] e h fresh = absurd (cc)
unseen_found x loop ((y, e') ∷ m) e h fresh = elim (Bool-cases (bytes_eq y x)) [
  | inl same ↦
      let eq : y ≡ x = (bytes_eq_iff y x).0 same in
      rw (eq, bytes_eq_refl x, fresh) (omega (arith, unseen_more x loop m))
  | inr other ↦
      let rest : find x m ≡ some e = rw other at h in
      ground (arith, unseen_found x loop m e rest fresh, unseen_more x loop m)
]

unseen_none : (m : List (Bytes × Entry)) → unseen [] m ≤ length m
unfolding seen
unseen_none [] = omega arith
unseen_none ((x, e) ∷ m) = omega (arith, unseen_none m)

next-found :
    (syms : Syms) (b v : IdVal)
    → next_bound syms b ≡ some v
    → (e : Entry) × (find b.xid syms.symbol_map ≡ some e)
unfolding next_bound lookup_sym
next-found syms b v h = elim (Option-cases (find b.xid syms.symbol_map)) [
  | inl missing ↦ absurd (nothing (rw missing at h))
  | inr found ↦ found
]
  where
    nothing : none ≡ some v → ⊥
    nothing e = absurd (cc)

module _ (syms : Syms) where
  Follows-on : {b v w : IdVal} → Follows syms b v → next_bound syms v ≡ some w → Follows syms b w
  Follows-on here e = on e here
  Follows-on (on e f) h = on e (Follows-on f h)

  -- A constant of this name was passed on the way to `b`.
  abbrev pub Passed : IdVal → Bytes → Type 0
  Passed b x =
      (u : IdVal) × (v : IdVal) × (u.xid ≡ x) × (next_bound syms u ≡ some v) × Follows syms v b

  -- The loop ends with a name that is no constant's, or with one that the constants lead back to.
  abbrev pub Final : IdVal → Type 0
  Final w = (next_bound syms w ≡ none) ⊎ Passed w w.xid

  Passed-seen :
      (x : Bytes) (loop : List Bytes) (b : IdVal)
      → seen x loop ≡ true
      → All (Passed b) loop
      → Passed b x
  unfolding seen
  Passed-seen x [] b h a = absurd (cc)
  Passed-seen x (y ∷ ys) b h ((u, w, same, step, f), ps) = elim (Bool-cases (bytes_eq y x)) [
    | inl e ↦ (u, w, same ∙ (bytes_eq_iff y x).0 e, step, f)
    | inr e ↦ Passed-seen x ys b (rw e at h) ps
  ]

  Passed-on :
      (loop : List Bytes) (b v : IdVal)
      → next_bound syms b ≡ some v
      → All (Passed b) loop
      → All (Passed v) loop
  Passed-on [] b v e a = tt
  Passed-on (x ∷ loop) b v e ((u, w, same, step, f), a) =
      ((u, w, same, step, Follows-on f e), Passed-on loop b v e a)

  loop_ends :
      (fuel : ℕ) (loop : List Bytes) (b : IdVal)
      → unseen loop syms.symbol_map < fuel
      → All (Passed b) loop
      → (w : IdVal) × (bound_loop fuel syms loop b ≡ some w) × Follows syms b w × Final w
  unfolding bound_loop
  loop_ends zero loop b h a = absurd (omega (arith, h))
  loop_ends (suc fuel) loop b h a = elim (Bool-cases (seen b.xid loop)) [
    | inl again ↦ (b, rw again refl, here, inr (Passed-seen b.xid loop b again a))
    | inr fresh ↦ elim (Option-cases (next_bound syms b)) [
      | inl last ↦ (b, rw (fresh, last) refl, here, inl last)
      | inr (v, e) ↦
          let (entry, found) = next-found syms b v e in
          let (w, r, f, final) =
            loop_ends fuel (b.xid ∷ loop) v
              (omega (arith, h, unseen_found b.xid loop syms.symbol_map entry found fresh))
              ((b, v, refl, e, here), Passed-on loop b v e a) in
          (w, rw (fresh, e) r, on e f, final)
    ]
  ]

  -- Whatever the symbols are, get_bound returns: it follows the constants to a name that is no
  -- constant's, or to one that the constants lead back to, and gives the bound of that name.
  pub get_bound_lem :
      (parse_uint : Bytes → Option ℕ) (print : ℕ → Bytes) (b0 : IdVal)
      → (w : IdVal) × (get_bound parse_uint print syms b0
          ≡ some (named_bound parse_uint print b0 w))
        × Follows syms b0 w
        × Final w
  unfolding get_bound
  get_bound_lem parse_uint print b0 =
      let (w, r, f, final) =
        loop_ends (suc (length syms.symbol_map)) [] b0 (omega (arith, unseen_none syms.symbol_map))
          tt in
      (w, named w r, f, final)
    where
      named :
          (w : IdVal)
          → bound_loop (suc (length syms.symbol_map)) syms [] b0 ≡ some w
          → get_bound parse_uint print syms b0 ≡ some (named_bound parse_uint print b0 w)
      named w r =
          ap (λ o. elim o [ none ↦ none | some b ↦ some (named_bound parse_uint print b0 b) ]) r
