-- ===== src/Xdr/Optional.antt =====
-- The optional values that gen_ptr of cmd/goxdr/goxdr.go emits, and the arrays that gen_array emits,
-- for any element type. A pointer to an object that nothing else points to is an Option.
pub mod RoundTrip
use goxdr.Prelude.{
  ℕ, Bool, true, false, List, [], ◌∷◌, ◌++◌, Option, none, some, ◌==◌, if◌then◌else◌, Bytes,
}
use goxdr.Xdr.Fault.{Result, ok, throw, xdr_error, ◌>>=◌}
use goxdr.Xdr.Codec.{put32, get32}

module _ {A : Type 0} where
  -- What is there, or a new object
  abbrev pub present : A → Option A → A
  present blank none = blank
  present blank (some a) = a

  -- `GetU32` and `SetU32` of the flag
  unfoldable pub get_u32 : Option A → ℕ
  get_u32 none = 0
  get_u32 (some a) = 1

  unfoldable pub set_u32 : A → ℕ → Option A → Result (Option A)
  set_u32 blank nv p =
      if nv == 0 then ok none else if nv == 1 then ok (some (present blank p)) else throw xdr_error

  -- `GetPresent` and `SetPresent`
  unfoldable pub get_present : Option A → Bool
  get_present none = false
  get_present (some a) = true

  unfoldable pub set_present : A → Bool → Option A → Option A
  set_present blank flag p = if flag then some (present blank p) else none

  -- The flag in an `XdrIn` and in an `XdrOut`, as an `XdrNum32`
  unfoldable pub read_flag : A → Option A → Bytes → Result (Option A × Bytes)
  unfolding set_u32
  read_flag blank p s = get32 s >>= λ r. set_u32 blank r.0 p >>= λ q. ok (q, r.1)

  unfoldable pub write_flag : Option A → Bytes → Result (Option A × Bytes)
  unfolding get_u32
  write_flag p out = ok (p, out ++ put32 (get_u32 p))

module _ {A X : Type 0} where
  -- `XdrMarshalValue`
  unfoldable pub marshal_value : (A → X → Result (A × X)) → Option A → X → Result (Option A × X)
  marshal_value marshal none x = ok (none, x)
  marshal_value marshal (some a) x = marshal a x >>= λ r. ok (some r.0, r.1)

  -- `XdrRecurse` of an optional value, over the marshalling of its flag
  unfoldable pub recurse_ptr :
      (Option A → X → Result (Option A × X))
      → (A → X → Result (A × X))
      → Option A
      → X
      → Result (Option A × X)
  unfolding marshal_value
  recurse_ptr marshal_flag marshal p x = marshal_flag p x >>= λ r. marshal_value marshal r.0 r.1

  -- `XdrRecurse` of an array: its elements in place, from the first on
  unfoldable pub recurse_array : (A → X → Result (A × X)) → List A → X → Result (List A × X)
  recurse_array marshal [] x = ok ([], x)
  recurse_array marshal (a ∷ vs) x =
      marshal a x >>= λ r. recurse_array marshal vs r.1 >>= λ rs. ok (r.0 ∷ rs.0, rs.1)
