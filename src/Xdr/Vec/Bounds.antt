-- ===== src/Xdr/Vec/Bounds.antt =====
-- What `SetVecLen` keeps, and how far it grows.
use goxdr.Prelude.{
  ℕ, zero, suc, ◌-◌, ◌≤◌, ◌<◌, max, min, false, List, [], ◌∷◌, ◌++◌, length, take, replicate, leb,
  ◌==◌, ==_iff, ◌≡◌, refl, ap, sym, ◌∙◌, arith, length-append, length-take, length-drop,
  length-replicate, Bool-cases, inl, inr, leb→le,
}
use goxdr.Xdr.Fault.{ok}
use goxdr.Xdr.Vec.{Slice, cap, reslice, new_cap, grow, set_vec_len}
use goxdr.Xdr.Vec.Rounds.{check_len_fits}

take-append :
    {A : Type 0} → (k : ℕ) (xs ys : List A) → k ≤ length xs → take k (xs ++ ys) ≡ take k xs
take-append zero xs ys h = refl
take-append (suc k) [] ys h = absurd (omega arith)
take-append (suc k) (x ∷ xs) ys h = ap (◌∷◌ x) (take-append k xs ys (omega arith))

take-take : {A : Type 0} → (k n : ℕ) (xs : List A) → k ≤ n → take k (take n xs) ≡ take k xs
take-take zero n xs h = refl
take-take (suc k) zero xs h = absurd (omega arith)
take-take (suc k) (suc n) [] h = refl
take-take (suc k) (suc n) (x ∷ xs) h = ap (◌∷◌ x) (take-take k n xs (omega arith))

-- A new array has room for `n` elements and for no more than the bound.
new_cap_bounds :
    (bound n old : ℕ) → n ≤ bound → (n ≤ new_cap bound n old) × (new_cap bound n old ≤ bound)
unfolding new_cap
new_cap_bounds bound n old h = ground arith

module _ {A : Type 0} (bound : ℕ) (blank : A) (n : ℕ) (v : Slice A) where
  -- The length is `n`, the elements that both lengths have stay, and the array is no longer than before or within
  -- the bound.
  abbrev pub Resized : Slice A → Type 0
  Resized w =
      (length w.items ≡ n)
      × (take (min n (length v.items)) w.items ≡ take (min n (length v.items)) v.items)
      × (cap w ≤ max (cap v) bound)

  reslice_lem : n ≤ cap v → Resized (reslice n v)
  unfolding reslice
  reslice_lem h = (
    omega (arith, length-take n (v.items ++ v.spare), length-append v.items v.spare),
    take-take (min n (length v.items)) n (v.items ++ v.spare) (omega arith)
        ∙ take-append (min n (length v.items)) v.items v.spare (omega arith),
    omega (
      arith,
      length-take n (v.items ++ v.spare),
      length-drop n (v.items ++ v.spare),
      length-append v.items v.spare,
    ),
  )

  grow_lem : cap v < n → n ≤ bound → Resized (grow bound blank n v)
  unfolding grow
  grow_lem h fits = (
    omega (
      arith,
      length-append v.items (replicate (n - length v.items) blank),
      length-replicate (n - length v.items) blank,
    ),
    take-append (min n (length v.items)) v.items _ (omega arith),
    omega (
      arith,
      length-append v.items (replicate (n - length v.items) blank),
      length-replicate (n - length v.items) blank,
      length-replicate (new_cap bound n (cap v) - n) blank,
      (new_cap_bounds bound n (cap v) fits).0,
      (new_cap_bounds bound n (cap v) fits).1,
    ),
  )

  -- For a length within the bound, SetVecLen gives a slice of this length with the elements that
  -- both lengths have, in an array that is no longer than before or within the bound.
  pub set_vec_len_lem : n ≤ bound → (w : Slice A) × (set_vec_len bound blank n v ≡ ok w) × Resized w
  unfolding set_vec_len
  set_vec_len_lem h = elim (Bool-cases (leb n (cap v))) [
    | inl room ↦ elim (Bool-cases (n == length v.items)) [
      | inl same ↦ (
        v,
        rw (check_len_fits bound n h, room, same) refl,
        (sym ((==_iff n (length v.items)).0 same), refl, omega arith),
      )
      | inr other ↦ (
        reslice n v,
        rw (check_len_fits bound n h, room, other) refl,
        reslice_lem (leb→le n (cap v) room),
      )
    ]
    | inr full ↦ (
      grow bound blank n v,
      rw (check_len_fits bound n h, full) refl,
      grow_lem (leb-false n (cap v) full) h,
    )
  ]
    where
      leb-false : (a b : ℕ) → leb a b ≡ false → b < a
      leb-false a b e = ground arith
