-- ===== src/Gorpc/Hex.antt =====
-- `hex.EncodeToString` and `hex.DecodeString`, as cmd/gorpc/jsonxdr.go uses them.
use goxdr.Prelude.{
  ℕ, ◌+◌, ◌-◌, ◌*◌, ◌/◌, ◌%◌, ◌<◌, ◌&&◌, [], ◌∷◌, Option, none, some, All, leb, ltb, if◌then◌else◌,
  Bytes, ◌≡◌, refl, arith,
}

unfoldable pub hex_digit : ℕ → ℕ
hex_digit n = if ltb n 10 then b'0' + n else b'a' + n - 10

unfoldable pub encode : Bytes → Bytes
unfolding hex_digit
encode [] = []
encode (b ∷ bs) = hex_digit (b / 16) ∷ hex_digit (b % 16) ∷ encode bs

unfoldable pub hex_value : ℕ → Option ℕ
hex_value c =
    if leb b'0' c && leb c b'9'
    then some (c - b'0')
    else if leb b'a' c && leb c b'f'
    then some (c - b'a' + 10)
    else if leb b'A' c && leb c b'F'
    then some (c - b'A' + 10)
    else none

abbrev pub cons_byte : Option ℕ → Option ℕ → Option Bytes → Option Bytes
cons_byte none l r = none
cons_byte (some h) none r = none
cons_byte (some h) (some l) none = none
cons_byte (some h) (some l) (some bs) = some ((16 * h + l) ∷ bs)

-- An odd length is an error, like a digit that is none.
unfoldable pub decode : Bytes → Option Bytes
unfolding hex_value
decode [] = some []
decode (c ∷ []) = none
decode (c ∷ d ∷ s) = cons_byte (hex_value c) (hex_value d) (decode s)

abbrev pub IsBytes : Bytes → Type 0
IsBytes bs = All (λ b. b < 256) bs

hex_value-hex_digit : (n : ℕ) → n < 16 → hex_value (hex_digit n) ≡ some n
unfolding hex_value hex_digit
hex_value-hex_digit n h = ground arith

pub decode-encode : (bs : Bytes) → IsBytes bs → decode (encode bs) ≡ some bs
unfolding encode decode
decode-encode [] h = refl
decode-encode (b ∷ bs) h =
    rw
      (
        hex_value-hex_digit (b / 16) (omega (arith, h.0)),
        hex_value-hex_digit (b % 16) (omega arith),
        decode-encode bs h.1,
      )
      (ground (arith, whole b))
  where
    whole : (b : ℕ) → 16 * (b / 16) + b % 16 ≡ b
    whole b = omega arith
