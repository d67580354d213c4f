-- ===== src/Xdr/Optional/RoundTrip.antt =====
-- Optional values and arrays that are written are read back.
use goxdr.Prelude.{
  ℕ, ◌^◌, ◌≤◌, ◌<◌, Bool, true, false, List, [], ◌∷◌, ◌++◌, Option, none, some, length, Bytes, All,
  ◌≡◌, refl, arith, append_assoc, append-nil,
}
use goxdr.Xdr.Fault.{Result, ok, throw, xdr_error}
use goxdr.Xdr.Codec.{put32}
use goxdr.Xdr.Codec.RoundTrip.{get32-put32}
use goxdr.Xdr.Vec.RoundTrip.{put_all}
use goxdr.Xdr.Optional.{
  get_u32, set_u32, get_present, set_present, read_flag, write_flag, marshal_value, recurse_ptr,
  recurse_array,
}

-- An optional value on the wire: its flag, and the value if there is one.
abbrev pub put_ptr {ℓ} : {A : Type ℓ} → (A → Bytes) → Option A → Bytes
put_ptr put none = put32 0
put_ptr put (some a) = put32 1 ++ put a

abbrev pub Holds {ℓ} : {A : Type ℓ} → (A → Type 0) → Option A → Type 0
Holds Good none = Unit
Holds Good (some a) = Good a

module _ {A : Type 0} (put : A → Bytes) (Good : A → Type 0)
    (get set : A → Bytes → Result (A × Bytes)) where
  -- An optional value is written as its flag and the value if there is one, and stays as it is;
  -- reading this into any other, present or absent, gives it back and leaves what follows; and a flag of
  -- two or more is an XdrError. The type of the value has such a round trip.
  pub recurse_ptr-recurse_ptr :
      (blank : A)
      → ((old x : A) (s : Bytes) → Good x → get old (put x ++ s) ≡ ok (x, s))
      → ((x : A) (out : Bytes) → set x out ≡ ok (x, out ++ put x))
      → (p : Option A) → Holds Good p
      → (flag : ℕ) → 2 ≤ flag
      → flag < 2 ^ 32
      → ((out : Bytes) → recurse_ptr write_flag set p out ≡ ok (p, out ++ put_ptr put p))
        × ((w : Option A) (s : Bytes)
            → recurse_ptr (read_flag blank) get w (put_ptr put p ++ s) ≡ ok (p, s))
        × ((w : Option A) (s : Bytes)
            → recurse_ptr (read_flag blank) get w (put32 flag ++ s) ≡ throw xdr_error)
  unfolding recurse_ptr marshal_value read_flag write_flag get_u32 set_u32
  recurse_ptr-recurse_ptr blank reads writes p good flag two small = (write p, read p good, bad)
    where
      write :
          (p : Option A) (out : Bytes)
          → recurse_ptr write_flag set p out ≡ ok (p, out ++ put_ptr put p)
      write none out = refl
      write (some a) out = rw (writes a (out ++ put32 1), append_assoc out (put32 1) (put a)) refl

      read :
          (p : Option A)
          → Holds Good p
          → (w : Option A) (s : Bytes)
          → recurse_ptr (read_flag blank) get w (put_ptr put p ++ s) ≡ ok (p, s)
      read none good w s = rw (get32-put32 0 s (omega arith)) refl
      read (some a) good none s =
          rw
            (
              append_assoc (put32 1) (put a) s,
              get32-put32 1 (put a ++ s) (omega arith),
              reads blank a s good,
            )
            refl
      read (some a) good (some b) s =
          rw
            (
              append_assoc (put32 1) (put a) s,
              get32-put32 1 (put a ++ s) (omega arith),
              reads b a s good,
            )
            refl

      bad :
          (w : Option A) (s : Bytes)
          → recurse_ptr (read_flag blank) get w (put32 flag ++ s) ≡ throw xdr_error
      bad w s = rw (get32-put32 flag s small) (ground arith)

  -- An array is written as its elements, and stays as it is; reading this into any array of the same
  -- length gives it back and leaves what follows. The element type has such a round trip.
  recurse_array-recurse_array :
      ((old x : A) (s : Bytes) → Good x → get old (put x ++ s) ≡ ok (x, s))
      → ((x : A) (out : Bytes) → set x out ≡ ok (x, out ++ put x))
      → (xs : List A) → All Good xs
      → (w : List A) → length w ≡ length xs
      → ((out : Bytes) → recurse_array set xs out ≡ ok (xs, out ++ put_all put xs))
        × ((s : Bytes) → recurse_array get w (put_all put xs ++ s) ≡ ok (xs, s))
  unfolding recurse_array
  recurse_array-recurse_array reads writes xs good w e = (write xs, λ s. read xs good w s e)
    where
      write :
          (xs : List A) (out : Bytes) → recurse_array set xs out ≡ ok (xs, out ++ put_all put xs)
      write [] out = rw (append-nil out) refl
      write (x ∷ xs) out =
          rw (writes x out, write xs (out ++ put x), append_assoc out (put x) (put_all put xs)) refl

      read :
          (xs : List A)
          → All Good xs
          → (w : List A) (s : Bytes) → length w ≡ length xs
          → recurse_array get w (put_all put xs ++ s) ≡ ok (xs, s)
      read [] good [] s e = refl
      read [] good (y ∷ w) s e = absurd (omega (arith, e))
      read (x ∷ xs) good [] s e = absurd (omega (arith, e))
      read (x ∷ xs) (g, good) (y ∷ w) s e =
          rw
            (
              append_assoc (put x) (put_all put xs) s,
              reads y x (put_all put xs ++ s) g,
              read xs good w s (omega (arith, e)),
            )
            refl

-- SetPresent makes GetPresent what it says, keeps a value that is there, and once more changes nothing.
set_present_lem :
    {A : Type 0} (blank : A) (flag : Bool) (p : Option A)
    → (get_present (set_present blank flag p) ≡ flag)
      × (set_present blank flag (set_present blank flag p) ≡ set_present blank flag p)
      × ((a : A) → p ≡ some a → set_present blank true p ≡ p)
unfolding get_present set_present
set_present_lem blank true none = (refl, refl, λ a e. cc)
set_present_lem blank false none = (refl, refl, λ a e. cc)
set_present_lem blank true (some b) = (refl, refl, λ a e. refl)
set_present_lem blank false (some b) = (refl, refl, λ a e. refl)
