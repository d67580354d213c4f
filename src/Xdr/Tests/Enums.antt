-- ===== src/Xdr/Tests/Enums.antt =====
-- enum color { red = 1, dark_blue = 5 };
use goxdr.Prelude.{
  ℕ, ◌+◌, ◌-◌, [], ◌∷◌, ◌++◌, Option, none, some, Bytes, codes, bytes_eq, bytes_eq-false, ◌≡◌, refl,
  arith,
}
use goxdr.Xdr.Enum.{
  Tags, value_of, sym_char, string, scan, scan_symbol, take_symbol, drop_symbol, skip_blanks,
}
use goxdr.Xdr.Enum.Scanning.{IsSymbol, Named, scan-string}

abbrev color : Tags
color = (1, codes "red") ∷ (5, codes "dark_blue") ∷ []

-- One digit
abbrev print_digit : ℕ → Bytes
print_digit n = (b'0' + n) ∷ []

abbrev scan_digit : Bytes → Option (ℕ × Bytes)
scan_digit [] = none
scan_digit (c ∷ s) = some (c - b'0', s)

color-Named : Named color
unfolding sym_char bytes_eq
color-Named = (
  (omega arith, (refl, (refl, (refl, tt)))),
  (bytes_eq-false _ _ refl, tt),
  (
    (omega arith, (refl, (refl, (refl, (refl, (refl, (refl, (refl, (refl, (refl, tt)))))))))),
    tt,
    tt,
  ),
)

type-IsSymbol : IsSymbol (codes "color")
unfolding sym_char
type-IsSymbol = (omega arith, (refl, (refl, (refl, (refl, (refl, tt))))))

scan-string_example :
    scan (codes "color") color scan_digit (string (codes "color") color print_digit 7 ++ codes ", ")
    ≡ some (7, codes ", ")
unfolding value_of bytes_eq sym_char
scan-string_example =
    scan-string (codes "color") color print_digit scan_digit 7 (codes ", ") color-Named
      type-IsSymbol refl refl refl

dark_blue : scan (codes "color") color scan_digit (codes " dark_blue;") ≡ some (5, codes ";")
unfolding scan scan_symbol value_of bytes_eq take_symbol drop_symbol skip_blanks sym_char
dark_blue = refl
