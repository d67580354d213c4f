-- ===== src/Stat/Laws.antt =====
-- What a Counter holds behind any number of Adds, and what fmtDur shows of a duration.
use goxdr.Prelude.{
  ℕ, suc, ◌+◌, ◌*◌, ◌^◌, ◌≤◌, ◌<◌, Bool, Bool-cases, inl, inr, List, [], ◌∷◌, none, some, length,
  leb, All, ◌≡◌, refl, sym, subst, ap, ◌∙◌, arith,
}
use goxdr.Stat.{
  Floats, Counter, new_counter, add, average, DurUnit, DurText, hour, hour_tenths, whole,
  round_tenths, minutes, seconds, milliseconds, microseconds, nanoseconds, size, fmt_dur,
}

module _ {F : Type 0} (O : Floats F) where
  -- Adds of values at times, in their order
  abbrev pub add_all : List (ℕ × F) → Counter F → Counter F
  add_all [] x = x
  add_all ((now, v) ∷ vs) x = add_all vs (add O now v x)

  -- The sum of a function of the values, from the left
  abbrev pub total : (F → F) → F → List (ℕ × F) → F
  total f z [] = z
  total f z ((now, v) ∷ vs) = total f (O.add z (f v)) vs

  -- A value that is not the first
  abbrev later : ℕ → F → Counter F → Counter F
  later now v x = record x {
    min = O.min x.min v;
    max = O.max x.max v;
    sum = O.add x.sum v;
    sum2 = O.add x.sum2 (O.mul v v);
    count = suc x.count;
    last = some now;
  }

  add-later :
      (now : ℕ) (v : F) (x : Counter F) (t : ℕ) → x.first ≡ some t → add O now v x ≡ later now v x
  unfolding add
  add-later now v x t e =
      ap
        (λ o. elim o [
          | none ↦ record x { first = some now; min = v; max = v }
          | some u ↦ later now v x
        ])
        e

  -- What the values add to a counter that has its first
  abbrev Sums : ℕ → List (ℕ × F) → Counter F → Counter F → Type 0
  Sums t vs x y =
      (y.first ≡ some t)
      × (y.count ≡ length vs + x.count)
      × (y.sum ≡ total (λ v. v) x.sum vs)
      × (y.sum2 ≡ total (λ v. O.mul v v) x.sum2 vs)

  added :
      (t : ℕ) (vs : List (ℕ × F)) (x : Counter F) → x.first ≡ some t → Sums t vs x (add_all vs x)
  added t [] x e = (e, omega arith, refl, refl)
  added t ((now, v) ∷ vs) x e =
      let (first, count, sum, sum2) = added t vs (later now v x) e in
      subst (λ y. Sums t ((now, v) ∷ vs) x (add_all vs y)) (sym (add-later now v x t e))
        (first, omega (arith, count), sum, sum2)

  module _ (Le : F → F → Type 0) (le_refl : (a : F) → Le a a)
      (le_trans : (a b c : F) → Le a b → Le b c → Le a c)
      (min_le : (a b : F) → Le (O.min a b) a × Le (O.min a b) b)
      (le_max : (a b : F) → Le a (O.max a b) × Le b (O.max a b)) where
    -- The least and the greatest value stand below and above the values added and the earlier ones.
    abbrev Limits : List (ℕ × F) → Counter F → Counter F → Type 0
    Limits vs x y = Le y.min x.min × Le x.max y.max × All (λ p. Le y.min p.1 × Le p.1 y.max) vs

    limits :
        (t : ℕ) (vs : List (ℕ × F)) (x : Counter F) → x.first ≡ some t → Limits vs x (add_all vs x)
    limits t [] x e = (le_refl x.min, le_refl x.max, tt)
    limits t ((now, v) ∷ vs) x e =
        let (low, high, all) = limits t vs (later now v x) e in
        subst (λ y. Limits ((now, v) ∷ vs) x (add_all vs y)) (sym (add-later now v x t e))
          (
            le_trans _ _ _ low (min_le x.min v).0,
            le_trans _ _ _ (le_max x.max v).0 high,
            ((le_trans _ _ _ low (min_le x.min v).1, le_trans _ _ _ (le_max x.max v).1 high), all),
          )

    -- Behind the Adds of a first value and of others, the minimum and the maximum of a new Counter are
    -- limits of all of them, while its count, its sum and its average are those of the others
    -- alone; min and max are those of an order, which holds of float64 without NaN.
    pub add_all_lem :
        (now : ℕ) (v : F) (vs : List (ℕ × F))
        → ((add_all ((now, v) ∷ vs) (new_counter O)).count ≡ length vs)
          × ((add_all ((now, v) ∷ vs) (new_counter O)).sum ≡ total (λ w. w) O.zero vs)
          × (average O (add_all ((now, v) ∷ vs) (new_counter O))
              ≡ O.div (total (λ w. w) O.zero vs) (O.of_nat (length vs)))
          × All
              (λ p.
                Le (add_all ((now, v) ∷ vs) (new_counter O)).min p.1
                × Le p.1 (add_all ((now, v) ∷ vs) (new_counter O)).max)
              ((now, v) ∷ vs)
    unfolding add average
    add_all_lem now v vs =
        let x = add O now v (new_counter O) in
        let (first, count, sum, sum2) = added now vs x refl in
        let (low, high, all) = limits now vs x refl in
        let n : (add_all vs x).count ≡ length vs = omega (arith, count) in
        (
          n,
          sum,
          ap (λ s. O.div s (O.of_nat (add_all vs x).count)) sum
              ∙ ap (λ k. O.div (total (λ w. w) O.zero vs) (O.of_nat k)) n,
          ((low, high), all),
        )

-- How many of a unit make the next
abbrev limit : DurUnit → ℕ
limit minutes = 60
limit seconds = 60
limit milliseconds = 1000
limit microseconds = 1000
limit nanoseconds = 1000

-- What a text shows of a duration: of an hour or more the nearest tenth of an hour, and otherwise the
-- whole number of a unit, which is at least one and less than makes one of the next unit.
abbrev pub Shows : ℕ → DurText → Type 0
Shows d (hour_tenths t) =
    (hour ≤ d) × (10 ≤ t) × (20 * d ≤ 2 * (t * hour) + hour) × (2 * (t * hour) ≤ 20 * d + hour)
Shows d (whole u n) = (1 ≤ n) × (n < limit u) × (n * size u ≤ d) × (d < suc n * size u)

nearest_tenth : (up : ℕ → Bool) (d : ℕ) → hour ≤ d → Shows d (hour_tenths (round_tenths up d))
unfolding round_tenths
nearest_tenth up d h = elim (Bool-cases (up d)) [
  | inl a ↦ rw a (ground arith)
  | inr a ↦ rw a (ground arith)
]

-- Of a duration from one nanosecond up to 2 ^ 11 hours, fmtDur shows the nearest tenth of an hour if it
-- is an hour or more, whichever way halves of a tenth are rounded, and otherwise the whole number of
-- the unit of which there is at least one, and less than makes one of the next unit.
pub fmt_dur_lem : (up : ℕ → Bool) (d : ℕ) → 1 ≤ d → d < 2 ^ 11 * hour → Shows d (fmt_dur up d)
unfolding fmt_dur
fmt_dur_lem up d some_time few = elim (Bool-cases (leb hour d)) [
  | inl a ↦ rw a (nearest_tenth up d (ground arith))
  | inr a ↦ rw a (ground arith)
]
