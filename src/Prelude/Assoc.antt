-- ===== src/Prelude/Assoc.antt =====
-- A Go `map` with keys of 32 bits, as an association list. Each key stands at most once where
-- the map is built by `insert`; `delete` removes every entry of its key.
use Prim.Native.Nat.{ℕ, ◌≤◌, ◌<◌}
use mathlib.Core.Path.{◌≡◌, refl}
use mathlib.Core.Logic.{◌≢◌}
use mathlib.Core.List.{List, [], ◌∷◌}
use mathlib.Core.Option.{Option, none, some}
use native.Mathlib.Omega.{arith}
use goxdr.Prelude.Tests.{◌==◌, if◌then◌else◌}
use goxdr.Prelude.Lists.{length, All}

abbrev pub Assoc {ℓ} : Type ℓ → Type ℓ
Assoc V = List (ℕ × V)

module _ {ℓ} {V : Type ℓ} where
  unfoldable pub lookup : ℕ → Assoc V → Option V
  lookup k [] = none
  lookup k ((j, v) ∷ m) = if j == k then some v else lookup k m

  unfoldable pub delete : ℕ → Assoc V → Assoc V
  delete k [] = []
  delete k ((j, w) ∷ m) = if j == k then delete k m else (j, w) ∷ delete k m

  -- `m[k] = v`; the order of the entries is nobody's business
  unfoldable pub insert : ℕ → V → Assoc V → Assoc V
  insert k v m = (k, v) ∷ delete k m

  pub lookup-delete :
      (k j : ℕ) (m : Assoc V) → lookup j (delete k m) ≡ (if k == j then none else lookup j m)
  unfolding lookup delete
  lookup-delete k j [] = ground arith
  lookup-delete k j ((i, w) ∷ m) = ground (arith, lookup-delete k j m)

  pub lookup-insert :
      (k j : ℕ) (v : V) (m : Assoc V)
      → lookup j (insert k v m) ≡ (if k == j then some v else lookup j m)
  unfolding lookup insert
  lookup-insert k j v m = ground (arith, lookup-delete k j m)

  -- No entry has the key `k`.
  abbrev pub Absent : ℕ → Assoc V → Type 0
  Absent k m = All (λ e. e.0 ≢ k) m

  -- Each key stands once.
  abbrev pub Distinct : Assoc V → Type 0
  Distinct [] = Unit
  Distinct ((k, v) ∷ m) = Absent k m × Distinct m

  pub lookup-Absent : (k : ℕ) (m : Assoc V) → lookup k m ≡ none → Absent k m
  unfolding lookup
  lookup-Absent k [] h = tt
  lookup-Absent k ((j, w) ∷ m) h = ground (arith, lookup-Absent k m)

  pub Absent-lookup : (k : ℕ) (m : Assoc V) → Absent k m → lookup k m ≡ none
  unfolding lookup
  Absent-lookup k [] h = refl
  Absent-lookup k ((j, w) ∷ m) h = ground (arith, Absent-lookup k m h.1, h.0)

  pub delete-Absent : (k j : ℕ) (m : Assoc V) → Absent j m → Absent j (delete k m)
  unfolding delete
  delete-Absent k j [] h = tt
  delete-Absent k j ((i, w) ∷ m) h = ground (arith, delete-Absent k j m h.1, h.0)

  pub delete-Distinct : (k : ℕ) (m : Assoc V) → Distinct m → Distinct (delete k m)
  unfolding delete
  delete-Distinct k [] h = tt
  delete-Distinct k ((i, w) ∷ m) h =
      ground (arith, delete-Absent k i m h.0, delete-Distinct k m h.1)

  pub delete_without : (k : ℕ) (m : Assoc V) → Absent k m → delete k m ≡ m
  unfolding delete
  delete_without k [] h = refl
  delete_without k ((i, w) ∷ m) h = ground (arith, delete_without k m h.1, h.0)

  pub delete_self-Absent : (k : ℕ) (m : Assoc V) → Absent k (delete k m)
  unfolding delete
  delete_self-Absent k [] = tt
  delete_self-Absent k ((i, w) ∷ m) = ground (arith, delete_self-Absent k m)

  pub insert-Distinct : (k : ℕ) (v : V) (m : Assoc V) → Distinct m → Distinct (insert k v m)
  unfolding insert
  insert-Distinct k v m h = (delete_self-Absent k m, delete-Distinct k m h)

  pub length-delete_le : (k : ℕ) (m : Assoc V) → length (delete k m) ≤ length m
  unfolding delete
  length-delete_le k [] = omega arith
  length-delete_le k ((i, w) ∷ m) = ground (arith, length-delete_le k m)

  pub length-delete_lt :
      (k : ℕ) (m : Assoc V) (v : V) → lookup k m ≡ some v → length (delete k m) < length m
  unfolding delete lookup
  length-delete_lt k [] v e = cc
  length-delete_lt k ((i, w) ∷ m) v e = ground (arith, length-delete_le k m, length-delete_lt k m v)
