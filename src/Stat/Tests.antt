-- ===== src/Stat/Tests.antt =====
-- A counter of whole numbers, and durations.
use goxdr.Prelude.{ℕ, ◌+◌, ◌-◌, ◌*◌, ◌/◌, ◌≤◌, Bool, true, [], ◌∷◌, All, min, max, ◌≡◌, refl, arith}
use goxdr.Stat.{Floats, new_counter, average, whole, hour_tenths, minutes, fmt_dur}
use goxdr.Stat.Laws.{add_all, add_all_lem, Shows, fmt_dur_lem}

abbrev naturals : Floats ℕ
naturals = record {
  zero = 0;
  add = λ a b. a + b;
  sub = λ a b. a - b;
  mul = λ a b. a * b;
  div = λ a b. a / b;
  sqrt = λ a. a;
  min = min;
  max = max;
  of_nat = λ n. n;
  seconds = λ a b. 1;
}

add_all_lem_example :
    ((add_all naturals ((1, 9) ∷ (2, 4) ∷ (3, 6) ∷ []) (new_counter naturals)).count ≡ 2)
    × ((add_all naturals ((1, 9) ∷ (2, 4) ∷ (3, 6) ∷ []) (new_counter naturals)).sum ≡ 10)
    × (average naturals (add_all naturals ((1, 9) ∷ (2, 4) ∷ (3, 6) ∷ []) (new_counter naturals))
        ≡ 5)
    × All {A = ℕ × ℕ}
        (λ p.
          ((add_all naturals ((1, 9) ∷ (2, 4) ∷ (3, 6) ∷ []) (new_counter naturals)).min ≤ p.1)
          × (p.1 ≤ (add_all naturals ((1, 9) ∷ (2, 4) ∷ (3, 6) ∷ []) (new_counter naturals)).max))
        ((1, 9) ∷ (2, 4) ∷ (3, 6) ∷ [])
add_all_lem_example =
    add_all_lem naturals ◌≤◌ (λ a. omega arith) (λ a b c h k. omega (arith, h, k))
      (λ a b. (omega arith, omega arith)) (λ a b. (omega arith, omega arith)) 1 9
      ((2, 4) ∷ (3, 6) ∷ [])

-- A float64 that is no less than the half of a tenth.
abbrev upwards : ℕ → Bool
upwards d = true

fmt_dur_lem_example : Shows 7080000000000 (fmt_dur upwards 7080000000000)
fmt_dur_lem_example = fmt_dur_lem upwards 7080000000000 (omega arith) (omega arith)

-- An hour and 58 minutes is shown as 2.0h, and 90 seconds as 1m.
hours_rounded : fmt_dur upwards 7080000000000 ≡ hour_tenths 20
unfolding fmt_dur
hours_rounded = refl

minute : fmt_dur upwards 90000000000 ≡ whole minutes 1
unfolding fmt_dur
minute = refl
