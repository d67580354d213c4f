-- ===== src/Xdr/Vec/Rounds.antt =====
-- One round of the loop of XdrMarshalN, and the slices that it leaves.
use goxdr.Prelude.{
  lt→ltb, ◌%◌, le→leb, false, ◌==◌, ℕ, suc, ◌+◌, ◌-◌, ◌^◌, ◌≤◌, ◌<◌, List, [], ◌∷◌, ◌++◌, length,
  take, drop, replicate, ltb, leb, Bytes, ◌≡◌, refl, ap, arith, length-append, append_assoc,
  take-length_append, append-nil,
}
use goxdr.Xdr.Fault.{Result, ok, ◌>>=◌}
use goxdr.Xdr.Vec.{
  new_cap, Slice, reslice, check_len, grow, set_vec_len, marshal_at, lengthen, shorten,
}

module _ {A X : Type 0} (marshal : A → X → Result (A × X)) where
  pub marshal_at-append :
      (done : List A) (a : A) (rest : List A) (x : X) (b : A) (y : X)
      → marshal a x ≡ ok (b, y)
      → marshal_at marshal (length done) (done ++ a ∷ rest) x ≡ ok (done ++ b ∷ rest, y)
  unfolding marshal_at
  marshal_at-append [] a rest x b y e = rw e refl
  marshal_at-append (d ∷ done) a rest x b y e = rw (marshal_at-append done a rest x b y e) refl

pub length-snoc : {A : Type 0} → (xs : List A) (a : A) → length (xs ++ a ∷ []) ≡ suc (length xs)
length-snoc xs a = omega (arith, length-append xs (a ∷ []))

take-suc-append :
    {A : Type 0}
    → (xs : List A) (a : A) (ys : List A) → take (suc (length xs)) (xs ++ a ∷ ys) ≡ xs ++ a ∷ []
take-suc-append [] a ys = refl
take-suc-append (x ∷ xs) a ys = ap (◌∷◌ x) (take-suc-append xs a ys)

pub ltb-false : (m n : ℕ) → n ≤ m → ltb m n ≡ false
ltb-false m n h = ground arith

pub leb-false : (m n : ℕ) → n < m → leb m n ≡ false
leb-false m n h = ground arith

suc-== : (n : ℕ) → (suc n == n) ≡ false
suc-== n = ground arith

-- With one element more than the slice has, it has the same elements and one behind them.
set_vec_len-next :
    {A : Type 0}
    → (bound : ℕ) (blank : A) (items spare : List A) → length items < bound
    → (a : A) × (rest : List A) × (set_vec_len bound blank
          (suc (length items))
          (record { items = items; spare = spare })
        ≡ ok (record { items = items ++ a ∷ []; spare = rest }))
unfolding set_vec_len check_len reslice grow
set_vec_len-next bound blank items [] h = (
  blank,
  replicate (new_cap bound (suc (length items)) (length items + 0) - suc (length items)) blank,
  rw
      (
        ltb-false bound (suc (length items)) (omega arith),
        leb-false (suc (length items)) (length items + 0) (omega arith),
        one (length items),
      )
      refl,
)
  where
    one : (n : ℕ) → suc n - n ≡ 1
    one n = omega arith
set_vec_len-next bound blank items (a ∷ spare) h = (
  a,
  drop (suc (length items)) (items ++ a ∷ spare),
  rw
      (
        ltb-false bound (suc (length items)) (omega arith),
        le→leb (suc (length items)) (length items + suc (length spare)) (omega arith),
        suc-== (length items),
        take-suc-append items a spare,
      )
      refl,
)

module _ {A : Type 0} (bound : ℕ) (blank : A) (get : A → Bytes → Result (A × Bytes)) where
  -- One round of the loop reads `x` behind the elements read before.
  pub round :
      {B : Type 0}
      → (F : Slice A → Bytes → Result B) (x : A) (done rest spare : List A) (s t : Bytes)
      → ((old : A) → get old s ≡ ok (x, t))
      → length done < bound
      → (left right : List A) × ((lengthen bound blank
              (length done)
              (record { items = done ++ rest; spare = spare })
            >>= λ w.
                marshal_at get (length done) w.items s >>= λ r. F (record w { items = r.0 }) r.1)
          ≡ F (record { items = done ++ x ∷ left; spare = right }) t)
  unfolding lengthen
  round F x done [] spare s t reads h =
      let (a, right, e) = set_vec_len-next bound blank done spare h in
      (
        [],
        right,
        rw
            (
              append-nil done,
              le→leb (length done) (length done) (omega arith),
              e,
              marshal_at-append get done a [] s x t (reads a),
            )
            refl,
      )
  round F x done (a ∷ rest) spare s t reads h = (
    rest,
    spare,
    rw
        (
          leb-false (length (done ++ a ∷ rest)) (length done)
              (omega (arith, length-append done (a ∷ rest))),
          marshal_at-append get done a rest s x t (reads a),
        )
        refl,
  )

pub mod_small : (n : ℕ) → n < 2 ^ 32 → n % 2 ^ 32 ≡ n
mod_small n h = omega arith

pub check_len_fits : (bound n : ℕ) → n ≤ bound → check_len bound n ≡ ok tt
unfolding check_len
check_len_fits bound n h = rw (ltb-false bound n h) refl

pub shorten-append :
    {A : Type 0}
    → (xs left right : List A)
    → (rest : List A) × (shorten (length xs) (record { items = xs ++ left; spare = right })
        ≡ record { items = xs; spare = rest })
unfolding shorten reslice
shorten-append xs [] right =
    (right, rw (append-nil xs, ltb-false (length xs) (length xs) (omega arith)) refl)
shorten-append xs (a ∷ left) right = (
  drop (length xs) (xs ++ (a ∷ left ++ right)),
  rw
      (
        lt→ltb (length xs) (length (xs ++ a ∷ left)) (omega (arith, length-append xs (a ∷ left))),
        append_assoc xs (a ∷ left) right,
        take-length_append xs (a ∷ left ++ right),
      )
      refl,
)
