-- ===== src/Xdr/Vec.antt =====
-- The vectors that gen_vec of cmd/goxdr/goxdr.go emits, for any element type. An `int` has 64 bits,
-- so that a length of 32 bits is never a negative `int`.
pub mod Rounds
pub mod RoundTrip
pub mod Bounds
use goxdr.Prelude.{
  ℕ, zero, suc, ◌+◌, ◌-◌, ◌*◌, ◌%◌, ◌^◌, List, [], ◌∷◌, ◌++◌, length, take, drop, replicate, ltb,
  leb, ◌==◌, if◌then◌else◌, Bytes,
}
use goxdr.Xdr.Fault.{Result, ok, throw, xdr_error, other_panic, ◌>>=◌}
use goxdr.Xdr.Codec.{put32, get32}

-- A slice: its elements and what stands behind them in its array, up to the capacity.
pub record Slice (A : Type 0) : Type 0 where
  pub items : List A
  pub spare : List A

-- `XdrCheckLen`
unfoldable pub check_len : ℕ → ℕ → Result {0} Unit
check_len bound n = if ltb bound n then throw xdr_error else ok tt

-- The capacity for `n` elements: twice the old one between `n` and the bound
unfoldable pub new_cap : ℕ → ℕ → ℕ → ℕ
new_cap bound n old = if ltb (2 * old) n then n else if ltb bound (2 * old) then bound else 2 * old

module _ {A : Type 0} where
  abbrev pub cap : Slice A → ℕ
  cap v = length v.items + length v.spare

  -- `v[:n]`, for `n` up to the capacity
  unfoldable pub reslice : ℕ → Slice A → Slice A
  reslice n v = record { items = take n (v.items ++ v.spare); spare = drop n (v.items ++ v.spare) }

  -- `make` and `copy`: the new array, whose elements are the zero value of the type
  unfoldable pub grow : ℕ → A → ℕ → Slice A → Slice A
  unfolding new_cap
  grow bound blank n v = record {
    items = v.items ++ replicate (n - length v.items) blank;
    spare = replicate (new_cap bound n (cap v) - n) blank;
  }

  -- `SetVecLen`
  unfoldable pub set_vec_len : ℕ → A → ℕ → Slice A → Result (Slice A)
  unfolding check_len reslice grow
  set_vec_len bound blank n v = check_len bound n >>= λ _.
      if leb n (cap v)
      then ok (if n == length v.items then v else reslice n v)
      else ok (grow bound blank n v)

  -- `if int(n) < len(*v) { *v = (*v)[:int(n)] }`
  unfoldable pub shorten : ℕ → Slice A → Slice A
  unfolding reslice
  shorten n v = if ltb n (length v.items) then reslice n v else v

  -- The slice grows as the loop comes to its end
  unfoldable pub lengthen : ℕ → A → ℕ → Slice A → Result (Slice A)
  unfolding set_vec_len
  lengthen bound blank i v =
      if leb (length v.items) i then set_vec_len bound blank (suc i) v else ok v

module _ {A X : Type 0} where
  -- `XDR_$TYPE(&(*v)[i]).XdrMarshal(x, …)`: the element is read or written in place
  unfoldable pub marshal_at : (A → X → Result (A × X)) → ℕ → List A → X → Result (List A × X)
  marshal_at marshal i [] x = throw other_panic
  marshal_at marshal zero (a ∷ vs) x = marshal a x >>= λ r. ok (r.0 ∷ vs, r.1)
  marshal_at marshal (suc i) (a ∷ vs) x = marshal_at marshal i vs x >>= λ r. ok (a ∷ r.0, r.1)

  -- The loop of `XdrMarshalN` with `k` rounds to go, at `i`
  unfoldable pub marshal_loop :
      ℕ → A → (A → X → Result (A × X)) → ℕ → ℕ → Slice A → X → Result (Slice A × X)
  unfolding lengthen marshal_at
  marshal_loop bound blank marshal zero i v x = ok (v, x)
  marshal_loop bound blank marshal (suc k) i v x = lengthen bound blank i v >>= λ w.
      marshal_at marshal i w.items x >>= λ r.
      marshal_loop bound blank marshal k (suc i) (record w { items = r.0 }) r.1

  -- `XdrMarshalN`
  unfoldable pub marshal_n :
      ℕ → A → (A → X → Result (A × X)) → ℕ → Slice A → X → Result (Slice A × X)
  unfolding check_len marshal_loop shorten
  marshal_n bound blank marshal n v x = check_len bound n >>= λ _.
      marshal_loop bound blank marshal n 0 v x >>= λ r. ok (shorten n r.0, r.1)

  -- `XdrRecurse`, over the marshalling of the size, an `XdrSize`
  unfoldable pub recurse :
      ℕ
      → A
      → (ℕ → X → Result (ℕ × X))
      → (A → X → Result (A × X))
      → Slice A
      → X
      → Result (Slice A × X)
  unfolding marshal_n
  recurse bound blank marshal_size marshal v x =
      marshal_size (length v.items % 2 ^ 32) x >>= λ r. marshal_n bound blank marshal r.0 v r.1

-- `XdrSize` in an `XdrIn`, where `SetU32` tests the bound, and in an `XdrOut`
unfoldable pub read_size : ℕ → ℕ → Bytes → Result (ℕ × Bytes)
read_size bound old s = get32 s >>= λ r. if ltb bound r.0 then throw xdr_error else ok (r.0, r.1)

unfoldable pub write_size : ℕ → Bytes → Result (ℕ × Bytes)
write_size n out = ok (n, out ++ put32 n)
