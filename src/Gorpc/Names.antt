-- ===== src/Gorpc/Names.antt =====
-- cmd/gorpc/jsonxdr.go: which field names are hidden.
pub mod Laws
use goxdr.Prelude.{
  ℕ, suc, ◌-◌, Bool, true, false, not, ◌&&◌, ◌||◌, List, [], ◌∷◌, ◌++◌, length, take, drop, ltb,
  leb, ◌==◌, if◌then◌else◌, Bytes, bytes_eq, codes,
}

-- `c >= '0' && c <= '9'`. A string that is not ASCII has no digit where its runes and its bytes differ.
abbrev pub is_digit : ℕ → Bool
is_digit c = leb b'0' c && leb c b'9'

unfoldable pub all_digits : Bytes → Bool
all_digits [] = true
all_digits (c ∷ s) = is_digit c && all_digits s

unfoldable pub starts_v : Bytes → Bool
starts_v [] = false
starts_v (c ∷ s) = c == b'v'

-- `vField`
unfoldable pub v_field : Bytes → Bool
unfolding starts_v all_digits
v_field field =
    if ltb (length field) 2 || not (starts_v field) then false else all_digits (drop 1 field)

-- `strings.HasPrefix` and `strings.HasSuffix`
unfoldable pub has_prefix : Bytes → Bytes → Bool
has_prefix s p = leb (length p) (length s) && bytes_eq (take (length p) s) p

unfoldable pub has_suffix : Bytes → Bytes → Bool
has_suffix s p = leb (length p) (length s) && bytes_eq (drop (length s - length p) s) p

unfoldable pub digits_then : Bytes → Bytes → Bool
unfolding has_suffix all_digits
digits_then target suffix =
    if leb (length target) (length suffix) || not (has_suffix target suffix)
    then false
    else all_digits (take (length target - length suffix) target)

-- `isDigitSandwich`
unfoldable pub is_digit_sandwich : Bytes → Bytes → Bytes → Bool
unfolding has_prefix digits_then
is_digit_sandwich target prefix suffix =
    if not (has_prefix target prefix)
    then false
    else digits_then (drop (length prefix) target) suffix

-- `field[i+1:]` behind the last '.', if there is one
unfoldable pub last_part : Bytes → Bytes → Bytes
last_part field [] = field
last_part field (c ∷ s) = last_part (if c == b'.' then s else field) s

-- `HideFieldName`, of a field and the type's name
unfoldable pub hide_field_name : Bytes → Bytes → Bool
unfolding last_part v_field is_digit_sandwich
hide_field_name field type_name =
    if not (v_field (last_part field field))
    then false
    else is_digit_sandwich type_name (codes "TransactionV") (codes "Envelope")
