-- ===== src/Xdr/Enum/Scanning.antt =====
-- What String gives, Scan reads.
use goxdr.Prelude.{
  ℕ, ◌<◌, true, false, [], ◌∷◌, ◌++◌, Option, none, some, ◌==◌, ==_iff, if◌then◌else◌, length,
  Bytes, bytes_eq, bytes_eq_refl, bytes_eq_iff, Bool-cases, Option-cases, inl, inr, All, ◌≡◌, ◌≢◌,
  refl, sym, ap, ◌∙◌, append_assoc, arith,
}
use goxdr.Xdr.Enum.{
  Tags, name_of, value_of, sym_char, skip_blanks, take_symbol, drop_symbol, string, scan_number,
  scan_symbol, scan,
}

-- A name: at least one byte, and only those that a symbol has
abbrev pub IsSymbol : Bytes → Type 0
IsSymbol s = (0 < length s) × All (λ c. sym_char c ≡ true) s

-- Tags whose names are symbols, and differ
abbrev pub Named : Tags → Type 0
Named [] = Unit
Named ((v, s) ∷ tags) = IsSymbol s × All (λ t. s ≢ t.1) tags × Named tags

-- What does not go on with a symbol
abbrev pub Ends : Bytes → Type 0
Ends [] = Unit
Ends (c ∷ s) = sym_char c ≡ false

take-symbol :
    (s rest : Bytes) → All (λ c. sym_char c ≡ true) s → Ends rest → take_symbol (s ++ rest) ≡ s
unfolding take_symbol
take-symbol [] [] h e = refl
take-symbol [] (c ∷ rest) h e = rw e refl
take-symbol (c ∷ s) rest (h, hs) e = rw h (ap (◌∷◌ c) (take-symbol s rest hs e))

drop-symbol :
    (s rest : Bytes) → All (λ c. sym_char c ≡ true) s → Ends rest → drop_symbol (s ++ rest) ≡ rest
unfolding drop_symbol
drop-symbol [] [] h e = refl
drop-symbol [] (c ∷ rest) h e = rw e refl
drop-symbol (c ∷ s) rest (h, hs) e = rw h (drop-symbol s rest hs e)

no_blanks : (s rest : Bytes) → IsSymbol s → skip_blanks (s ++ rest) ≡ s ++ rest
unfolding skip_blanks sym_char
no_blanks [] rest (h, hs) = absurd (omega (arith, h))
no_blanks (c ∷ s) rest (h, (g, hs)) = ground arith

named :
    (v : ℕ) (s : Bytes) (tags : Tags)
    → Named tags
    → name_of v tags ≡ some s
    → IsSymbol s × (value_of s tags ≡ some v)
unfolding name_of value_of
named v s [] n h = absurd (cc)
named v s ((w, t) ∷ tags) (sym_t, ne, n) h = elim (Bool-cases (w == v)) [
  | inl e ↦
      let same : t ≡ s = only (rw e at h) in
      let here : w ≡ v = (==_iff w v).0 e in
      rw (← same) (sym_t, rw (bytes_eq_refl t) (ap some here))
  | inr e ↦
      let (sym_s, found) = named v s tags n (rw e at h) in
      (
        sym_s,
        elim (Bool-cases (bytes_eq t s)) [
          | inl same ↦ absurd (twice t s w v tags ne ((bytes_eq_iff t s).0 same) found)
          | inr differ ↦ rw differ found
        ],
      )
]
  where
    only : {a b : Bytes} → some a ≡ some b → a ≡ b
    only e = cc

    twice :
        (t s : Bytes) (w v : ℕ) (tags : Tags)
        → All (λ u. t ≢ u.1) tags
        → t ≡ s
        → value_of s tags ≡ some v
        → ⊥
    twice t s w v [] ne same h = absurd (cc)
    twice t s w v ((x, u) ∷ tags) (nu, ne) same h = elim (Bool-cases (bytes_eq u s)) [
      | inl e ↦ nu (same ∙ sym ((bytes_eq_iff u s).0 e))
      | inr e ↦ twice t s w v tags ne same (rw e at h)
    ]

hash_ends : sym_char b'#' ≡ false
unfolding sym_char
hash_ends = refl

module _ (type : Bytes) (tags : Tags) (print : ℕ → Bytes)
    (scan_int : Bytes → Option (ℕ × Bytes)) where
  symbol :
      (s rest : Bytes)
      → IsSymbol s
      → Ends rest
      → scan type tags scan_int (s ++ rest) ≡ scan_symbol type tags scan_int s rest
  unfolding scan
  symbol s rest h e =
      rw (no_blanks s rest h, take-symbol s rest h.1 e, drop-symbol s rest h.1 e) refl

  string_is :
      (v : ℕ) (o : Option Bytes)
      → name_of v tags ≡ o
      → string type tags print v ≡ elim o [ some s ↦ s | none ↦ type ++ b'#' ∷ print v ]
  unfolding string
  string_is v o e = ap (λ o. elim o [ some s ↦ s | none ↦ type ++ b'#' ∷ print v ]) e

  by_tag :
      (tok rest : Bytes) (o : Option ℕ)
      → value_of tok tags ≡ o
      → scan_symbol type tags scan_int tok rest ≡ elim o [
        | some v ↦ some (v, rest)
        | none ↦ if bytes_eq tok type then scan_number type tags scan_int rest else none
      ]
  unfolding scan_symbol
  by_tag tok rest o e =
      ap
        (λ o. elim o [
          | some v ↦ some (v, rest)
          | none ↦ if bytes_eq tok type then scan_number type tags scan_int rest else none
        ])
        e

  by_number :
      (s : Bytes)
      → (if bytes_eq type type then scan_number type tags scan_int (b'#' ∷ s) else none)
        ≡ scan_int s
  unfolding scan_number
  by_number s = rw (bytes_eq_refl type) refl

  -- Scan of what String gives for a value, named by a tag or not, is the value, and leaves what
  -- follows if this goes on with no symbol; the names of the tags are symbols and differ, that of the type
  -- is a symbol and no tag's, and what `%d` prints is read.
  pub scan-string :
      (v : ℕ) (rest : Bytes)
      → Named tags
      → IsSymbol type
      → value_of type tags ≡ none
      → Ends rest
      → scan_int (print v ++ rest) ≡ some (v, rest)
      → scan type tags scan_int (string type tags print v ++ rest) ≡ some (v, rest)
  scan-string v rest n t free e r = elim (Option-cases (name_of v tags)) [
    | inr (s, h) ↦
        let (sym_s, found) = named v s tags n h in
        ap (λ w. scan type tags scan_int (w ++ rest)) (string_is v (some s) h)
        ∙ symbol s rest sym_s e
        ∙ by_tag s rest (some v) found
    | inl h ↦
        ap (λ w. scan type tags scan_int (w ++ rest)) (string_is v none h)
        ∙ ap (scan type tags scan_int) (append_assoc type (b'#' ∷ print v) rest)
        ∙ symbol type (b'#' ∷ (print v ++ rest)) t hash_ends
        ∙ by_tag type (b'#' ∷ (print v ++ rest)) none free
        ∙ by_number (print v ++ rest)
        ∙ r
  ]
