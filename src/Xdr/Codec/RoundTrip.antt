-- ===== src/Xdr/Codec/RoundTrip.antt =====
-- What the writers of header.go.in write, its readers read back, and leave what follows.
use goxdr.Prelude.{
  ℕ, suc, ◌-◌, ◌%◌, ◌^◌, ◌≤◌, ◌<◌, true, [], ◌∷◌, ◌++◌, length, replicate, ◌==◌, Bytes, ◌≡◌, refl,
  subst, zero, arith, append_assoc, length-append, length-replicate, take-length_append,
  drop-length_append, Bool-cases, inl, inr,
}
use goxdr.Xdr.Fault.{ok}
use goxdr.Xdr.Codec.{
  zerofill, put_bytes, put32, put64, put_var_bytes, read_into, read_n, all_zero, check_zero,
  read_pad, uint32, get32, get64, set_byte_slice, get_var_bytes, get_fixed_bytes,
}

pub get32-put32 : (v : ℕ) (rest : Bytes) → v < 2 ^ 32 → get32 (put32 v ++ rest) ≡ ok (v, rest)
unfolding get32 put32 read_into uint32
get32-put32 v rest h = ground arith

pub get64-put64 : (v : ℕ) (rest : Bytes) → v < 2 ^ 64 → get64 (put64 v ++ rest) ≡ ok (v, rest)
unfolding get64 put64 put32 read_into uint32
get64-put64 v rest h = ground arith

pub read_n-append : (bs rest : Bytes) → read_n (length bs) (bs ++ rest) ≡ ok (bs, rest)
unfolding read_n
read_n-append bs rest =
    ground (arith, length-append bs rest, take-length_append bs rest, drop-length_append bs rest)

all_zero-replicate : (n : ℕ) → all_zero (replicate n 0) ≡ true
unfolding all_zero
all_zero-replicate zero = refl
all_zero-replicate (suc n) = all_zero-replicate n

pub read_into-append : (bs rest : Bytes) → read_into (length bs) (bs ++ rest) ≡ ok (bs, rest)
unfolding read_into
read_into-append [] rest = refl
read_into-append (b ∷ bs) rest =
    ground (arith, length-append bs rest, take-length_append bs rest, drop-length_append bs rest)

-- The fill of `k` zero bytes, whatever `k` is.
read_into-replicate :
    (k : ℕ) (rest : Bytes) → read_into k (replicate k 0 ++ rest) ≡ ok (replicate k 0, rest)
read_into-replicate k rest =
    subst (λ m. read_into m (replicate k 0 ++ rest) ≡ ok (replicate k 0, rest))
      (length-replicate k 0) (read_into-append (replicate k 0) rest)

pub read_pad-zerofill :
    (n : ℕ) (rest : Bytes) → read_pad n (replicate (zerofill n) 0 ++ rest) ≡ ok (tt, rest)
unfolding read_pad zerofill check_zero
read_pad-zerofill n rest = elim (Bool-cases (n % 4 == 0)) [
  | inl whole ↦ rw whole
  | inr part ↦ rw (part, read_into-replicate (4 - n % 4) rest, all_zero-replicate (4 - n % 4))
]

-- Every variable-length item takes a multiple of four bytes.
pub length-put_var_bytes : (bs : Bytes) → length (put_var_bytes bs) % 4 ≡ 0
unfolding put_var_bytes put32 put_bytes zerofill
length-put_var_bytes bs = ground (
  arith,
  length-append bs (replicate (zerofill (length bs)) 0),
  length-replicate {A = ℕ} (zerofill (length bs)) 0,
)

pub set_byte_slice_fits :
    (bound : ℕ) (bs s : Bytes) → length bs ≤ bound → set_byte_slice bound bs s ≡ ok (bs, s)
unfolding set_byte_slice
set_byte_slice_fits bound bs s h = ground arith

-- A byte string within the bound, of fewer than 2^32 bytes, is read back as it was written, and
-- what follows it is left.
pub get_var_bytes-put_var_bytes :
    (bound : ℕ) (bs rest : Bytes)
    → length bs ≤ bound
    → length bs < 2 ^ 32
    → get_var_bytes bound (put_var_bytes bs ++ rest) ≡ ok (bs, rest)
unfolding get_var_bytes put_var_bytes put_bytes
get_var_bytes-put_var_bytes bound bs rest fits small = simp (
  append_assoc,
  get32-put32 (length bs) _ small,
  read_n-append,
  set_byte_slice_fits bound bs _ fits,
  read_pad-zerofill,
)

-- A byte string of a fixed length is read back as it was written, and what follows it is left.
pub get_fixed_bytes-put_bytes :
    (bs rest : Bytes) → get_fixed_bytes (length bs) (put_bytes bs ++ rest) ≡ ok (bs, rest)
unfolding get_fixed_bytes put_bytes
get_fixed_bytes-put_bytes bs rest =
    simp
      (
        append_assoc,
        take-length_append,
        drop-length_append,
        read_pad-zerofill,
        length-append bs (replicate (zerofill (length bs)) 0 ++ rest),
      )
      (ground arith)
