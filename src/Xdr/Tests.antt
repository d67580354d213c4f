-- ===== src/Xdr/Tests.antt =====
-- The package xdr on concrete inputs.
mod Optionals
mod Enums
mod Vectors
use goxdr.Prelude.{ℕ, ◌+◌, ◌*◌, ◌^◌, ◌<◌, ◌↔◌, true, [], ◌∷◌, ◌++◌, none, ◌≡◌, refl, arith, inl}
use goxdr.Xdr.Fault.{ok}
use goxdr.Xdr.Heap.{Heap, remove}
use goxdr.Xdr.Codec.{put_bytes, put_var_bytes, get_var_bytes, get_fixed_bytes, put64, get64}
use goxdr.Xdr.Codec.RoundTrip.{get64-put64}
use goxdr.Xdr.Arena.{Arena, new_arena, contains}
use goxdr.Xdr.Arena
use goxdr.Xdr.Arena.Contains.{contains_iff}
use goxdr.Xdr.Arena.Ownership as ArenaOwnership
use goxdr.Xdr.Pool.{Pool, new_pool}
use goxdr.Xdr.Pool
use goxdr.Xdr.Pool.Ownership as PoolOwnership

get64-put64_example : get64 (put64 (2 ^ 40) ++ 1 ∷ []) ≡ ok (2 ^ 40, 1 ∷ [])
get64-put64_example = get64-put64 (2 ^ 40) (1 ∷ []) (omega arith)

contains_iff_example : (contains 100 8 4 116 ≡ true) ↔ ((i : ℕ) × (i < 4) × (116 ≡ 100 + i * 8))
contains_iff_example = contains_iff 100 8 4 116 (omega arith) (omega arith)

-- A heap of numbers, and an arena of two of them.
abbrev heap : Heap ℕ
heap = record { cell = λ p. 0; next = 1 }

abbrev two : Arena ℕ
two = new_arena 0 (λ v. 0) 8 2 heap

abbrev two_got : ℕ × Arena ℕ
two_got = Arena.get 0 (λ v. 0) two

two_got-Owns : ArenaOwnership.Owns two_got.1 (two_got.0 ∷ [])
two_got-Owns =
    ArenaOwnership.get-Owns 0 (λ v. 0) two []
      (ArenaOwnership.new_arena-Owns 0 (λ v. 0) 8 2 heap (omega arith) (omega arith))

recycle-Owns_example :
    ArenaOwnership.Owns
      (Arena.recycle 0 (λ v. 0) two_got.0 two_got.1)
      (remove two_got.0 (two_got.0 ∷ []))
recycle-Owns_example =
    ArenaOwnership.recycle-Owns 0 (λ v. 0) two_got.1 two_got.0 (two_got.0 ∷ []) two_got-Owns
      (inl refl)

abbrev empty_pool : Pool ℕ
empty_pool = new_pool (λ n. none) 8 0 (λ v. 0) heap

get-Owns_example :
    PoolOwnership.Owns
      (Pool.get (λ n. none) 8 0 (λ v. 0) empty_pool).1
      ((Pool.get (λ n. none) 8 0 (λ v. 0) empty_pool).0 ∷ [])
get-Owns_example =
    PoolOwnership.get-Owns (λ n. none) 8 0 (λ v. 0) empty_pool []
      (PoolOwnership.new_pool-Owns (λ n. none) 8 0 (λ v. 0) heap)
