-- ===== src/Xdr/Tests/Optionals.antt =====
-- Optional unsigned integers, and arrays of two of them.
use goxdr.Prelude.{ℕ, ◌^◌, ◌<◌, ◌++◌, Option, some, Bytes, ◌≡◌, refl, arith}
use goxdr.Xdr.Fault.{Result, ok, throw, xdr_error}
use goxdr.Xdr.Codec.{put32, get32}
use goxdr.Xdr.Codec.RoundTrip.{get32-put32}
use goxdr.Xdr.Optional.{read_flag, write_flag, recurse_ptr}
use goxdr.Xdr.Optional.RoundTrip.{put_ptr, recurse_ptr-recurse_ptr}

abbrev get_item : ℕ → Bytes → Result (ℕ × Bytes)
get_item old = get32

abbrev set_item : ℕ → Bytes → Result (ℕ × Bytes)
set_item x out = ok (x, out ++ put32 x)

recurse_ptr-recurse_ptr_example :
    ((out : Bytes)
      → recurse_ptr write_flag set_item (some 7) out ≡ ok (some 7, out ++ put_ptr put32 (some 7)))
    × ((w : Option ℕ) (s : Bytes)
        → recurse_ptr (read_flag 0) get_item w (put_ptr put32 (some 7) ++ s) ≡ ok (some 7, s))
    × ((w : Option ℕ) (s : Bytes)
        → recurse_ptr (read_flag 0) get_item w (put32 2 ++ s) ≡ throw xdr_error)
recurse_ptr-recurse_ptr_example =
    recurse_ptr-recurse_ptr put32 (λ x. x < 2 ^ 32) get_item set_item 0
      (λ old x s h. get32-put32 x s h) (λ x out. refl) (some 7) (omega arith) 2 (omega arith)
      (omega arith)
