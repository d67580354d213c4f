-- ===== src/Xdr/Codec.antt =====
-- The binary readers and writers of cmd/goxdr/header.go.in. The writer is the bytes that it has
-- written; the reader is the unread part of a bytes.Buffer (rpc.Message embeds one).
pub mod RoundTrip
use goxdr.Prelude.{
  ℕ, zero, suc, ◌+◌, ◌-◌, ◌*◌, ◌/◌, ◌%◌, ◌^◌, Bool, true, false, ◌&&◌, List, [], ◌∷◌, ◌++◌, length,
  take, drop, replicate, ltb, ◌==◌, if◌then◌else◌, Bytes,
}
use goxdr.Xdr.Fault.{Result, ok, throw, xdr_error, other_panic, ◌>>=◌}

-- What a reader returns: the value and the bytes left, or the panic.
abbrev pub Reader : Type 0 → Type 0
Reader A = Bytes → Result (A × Bytes)

infixl 5 ◌>>>=◌
abbrev pub ◌>>>=◌ : {A B : Type 0} → Reader A → (A → Reader B) → Reader B
◌>>>=◌ m f s = m s >>= λ r. f r.0 r.1

-- The number of zero bytes behind `n` bytes: the lengths in `xdrZerofill`.
unfoldable pub zerofill : ℕ → ℕ
zerofill n = if n % 4 == 0 then 0 else 4 - n % 4

-- `xdrPutBytes`
unfoldable pub put_bytes : Bytes → Bytes
put_bytes val = val ++ replicate (zerofill (length val)) 0

-- `xdrPut32`: big-endian
unfoldable pub put32 : ℕ → Bytes
put32 val = val / 2 ^ 24 % 256 ∷ val / 2 ^ 16 % 256 ∷ val / 2 ^ 8 % 256 ∷ val % 256 ∷ []

-- `xdrPut64`
unfoldable pub put64 : ℕ → Bytes
unfolding put32
put64 val = put32 (val / 2 ^ 32) ++ put32 (val % 2 ^ 32)

-- `XdrOut.Marshal` of an `XdrVarBytes`: the length, the bytes and the fill
unfoldable pub put_var_bytes : Bytes → Bytes
put_var_bytes bs = put32 (length bs) ++ put_bytes bs

-- `xdrReadInto` a slice of `n` bytes. `Read` of an empty buffer gives io.EOF, whose text the
-- code throws; a short `Read` gives no error, and the code's `err.Error()` on nil is a panic of
-- the runtime.
unfoldable pub read_into : ℕ → Reader Bytes
read_into n s =
    if n == 0
    then ok ([], s)
    else if length s == 0
    then throw xdr_error
    else if ltb (length s) n
    then throw other_panic
    else ok (take n s, drop n s)

-- `xdrReadN`, by io.ReadFull
unfoldable pub read_n : ℕ → Reader Bytes
read_n n s =
    if n == 0
    then ok ([], s)
    else if ltb (length s) n
    then throw xdr_error
    else ok (take n s, drop n s)

unfoldable pub all_zero : Bytes → Bool
all_zero [] = true
all_zero (b ∷ bs) = b == 0 && all_zero bs

-- The fill must be zero.
unfoldable pub check_zero : Bytes → Reader Unit
unfolding all_zero
check_zero got s = if all_zero got then ok (tt, s) else throw xdr_error

-- `xdrReadPad`
unfoldable pub read_pad : ℕ → Reader Unit
read_pad n s = if n % 4 == 0 then ok (tt, s) else (read_into (4 - n % 4) >>>= check_zero) s

-- `binary.BigEndian.Uint32`
unfoldable pub uint32 : Bytes → ℕ
uint32 (a ∷ b ∷ c ∷ d ∷ _) = a * 2 ^ 24 + b * 2 ^ 16 + c * 2 ^ 8 + d
uint32 _ = 0

-- `xdrGet32`
unfoldable pub get32 : Reader ℕ
get32 = read_into 4 >>>= λ b s. ok (uint32 b, s)

-- `xdrGet64`
unfoldable pub get64 : Reader ℕ
get64 = read_into 8 >>>= λ b s. ok (uint32 (take 4 b) * 2 ^ 32 + uint32 (drop 4 b), s)

-- `SetByteSlice` of an `XdrVecOpaque` or `XdrString` with this bound
unfoldable pub set_byte_slice : ℕ → Bytes → Reader Bytes
set_byte_slice bound bs s = if ltb bound (length bs) then throw xdr_error else ok (bs, s)

-- `XdrIn.Marshal` of an `XdrVarBytes`: the bound is checked behind the read of the bytes, and
-- before that of the fill.
unfoldable pub get_var_bytes : ℕ → Reader Bytes
get_var_bytes bound = get32 >>>= λ n.
    read_n n >>>= λ p. set_byte_slice bound p >>>= λ bs. read_pad n >>>= λ _ s. ok (bs, s)

-- `XdrIn.Marshal` of an `XdrBytes` of fixed size `n`: an error of io.ReadFull is thrown as it is,
-- and is no `XdrError`.
unfoldable pub get_fixed_bytes : ℕ → Reader Bytes
get_fixed_bytes n s =
    if ltb (length s) n
    then throw other_panic
    else (read_pad n >>>= λ _ s'. ok (take n s, s')) (drop n s)
