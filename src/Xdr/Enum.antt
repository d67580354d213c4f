-- ===== src/Xdr/Enum.antt =====
-- The String and Scan methods of the enums that cmd/goxdr/goxdr.go emits, over the list of tags. Scan
-- reads bytes, and gives the bytes left or none for an error.
pub mod Scanning
use goxdr.Prelude.{
  ℕ, ◌+◌, ◌/◌, ◌%◌, Bool, true, false, ◌&&◌, ◌||◌, List, [], ◌∷◌, ◌++◌, Option, none, some, leb,
  ◌==◌, if◌then◌else◌, Bytes, bytes_eq,
}

-- `_XdrNames` and `_XdrValues`: the values and names of the tags
abbrev pub Tags : Type 0
Tags = List (ℕ × Bytes)

unfoldable pub name_of : ℕ → Tags → Option Bytes
name_of v [] = none
name_of v ((w, s) ∷ tags) = if w == v then some s else name_of v tags

unfoldable pub value_of : Bytes → Tags → Option ℕ
value_of s [] = none
value_of s ((v, t) ∷ tags) = if bytes_eq t s then some v else value_of s tags

-- `XdrSymChar`, with `r|0x20`
abbrev pub set_20 : ℕ → ℕ
set_20 c = if c / 32 % 2 == 1 then c else c + 32

unfoldable pub sym_char : ℕ → Bool
sym_char c = (leb b'a' (set_20 c) && leb (set_20 c) b'z') || (leb b'0' c && leb c b'9') || c == b'_'

-- `ss.Token(true, XdrSymChar)`: blanks are skipped, and the symbol is taken.
unfoldable pub skip_blanks : Bytes → Bytes
skip_blanks [] = []
skip_blanks (c ∷ s) = if c == 32 || (leb 9 c && leb c 13) then skip_blanks s else c ∷ s

unfoldable pub take_symbol : Bytes → Bytes
take_symbol [] = []
take_symbol (c ∷ s) = if sym_char c then c ∷ take_symbol s else []

unfoldable pub drop_symbol : Bytes → Bytes
drop_symbol [] = []
drop_symbol (c ∷ s) = if sym_char c then drop_symbol s else c ∷ s

-- `String`, of the type's name, its tags, and `%d` of an int32
unfoldable pub string : Bytes → Tags → (ℕ → Bytes) → ℕ → Bytes
string type tags print v = elim (name_of v tags) [ some s ↦ s | none ↦ type ++ b'#' ∷ print v ]

-- `Scan`, over what Fscanf reads for `%d`
module _ (type : Bytes) (tags : Tags) (scan_int : Bytes → Option (ℕ × Bytes)) where
  -- `fmt.Fscanf(ss, "#%d", (*int32)(v))`
  unfoldable pub scan_number : Bytes → Option (ℕ × Bytes)
  scan_number [] = none
  scan_number (c ∷ s) = if c == b'#' then scan_int s else none

  unfoldable pub scan_symbol : Bytes → Bytes → Option (ℕ × Bytes)
  scan_symbol tok rest = elim (value_of tok tags) [
    | some v ↦ some (v, rest)
    | none ↦ if bytes_eq tok type then scan_number rest else none
  ]

  unfoldable pub scan : Bytes → Option (ℕ × Bytes)
  scan s = scan_symbol (take_symbol (skip_blanks s)) (drop_symbol (skip_blanks s))
