-- ===== src/Compiler/Lexer/Hang.antt =====
-- cmd/goxdr/lex.go on input that it does not expect: a comment that is not closed, a lone sign.
use goxdr.Prelude.{
  ℕ, zero, suc, true, false, [], ◌∷◌, none, length, get_elem?, ltb, Bytes, refl, sym, subst, ◌≡◌,
  arith, inl, inr, ◌⊎◌,
}
use goxdr.Compiler.Lexer.{
  Lexer, slash, star, passes, clear_comment, is_digit, is_not_ws, is_id_start, is_punctuation,
}
use goxdr.Compiler.Lexer.Run.{ok, out_of_fuel}
use goxdr.Compiler.Lexer.Scan.{
  advance, index_func, index_close, is_eol, skip_ws, skip_wsnl, find_comment_start,
}
use goxdr.Compiler.Lexer.Comments.{
  get_line_comment, get_1line_block_comment, opened_comment, skip_block, skip_comment, skip_space,
}
use goxdr.Compiler.Lexer.Tokens.{is_sign, integer, next_at, next, lex}

-- The lexer at a "/*" with these bytes behind it.
abbrev pub opening : Bytes → Lexer → Lexer
opening s l = record l { input = slash ∷ star ∷ s }

find_star-opening :
    (s : Bytes) (l : Lexer) → find_comment_start star (opening s l) ≡ ok (true, opening s l)
unfolding find_comment_start advance index_func is_not_ws
find_star-opening s l =
    let fits : ltb (suc (suc (length s))) 0 ≡ false = ground arith in rw fits refl

find_slash-opening :
    (s : Bytes) (l : Lexer) → find_comment_start slash (opening s l) ≡ ok (false, opening s l)
unfolding find_comment_start index_func is_not_ws
find_slash-opening s l = refl

get_line_comment-opening :
    (s : Bytes) (l : Lexer)
    → index_close s ≡ none
    → get_line_comment (opening s l) ≡ ok ([], opening s l)
unfolding get_line_comment get_1line_block_comment opened_comment
get_line_comment-opening s l e =
    rw (get_line_comment, find_slash-opening s l, get_1line_block_comment, find_star-opening s l, e)
      refl

skip_comment-opening :
    (s : Bytes) (l : Lexer)
    → index_close s ≡ none
    → skip_comment (opening s l) ≡ ok (true, opening s (clear_comment l))
unfolding skip_comment skip_block
skip_comment-opening s l e =
    rw (skip_comment, get_line_comment-opening s l e, find_star-opening s l, e) refl

skip_wsnl-opening : (s : Bytes) (l : Lexer) → skip_wsnl (opening s l) ≡ ok (false, opening s l)
unfolding skip_wsnl skip_ws index_func is_not_ws is_eol
skip_wsnl-opening s l = refl

-- At a "/*" that no "*/" follows, the loop of `skipSpace` never ends: no number of rounds is enough.
pub skip_space-opening :
    (fuel : ℕ) (s : Bytes) (l : Lexer)
    → index_close s ≡ none
    → skip_space fuel (opening s l) ≡ out_of_fuel
unfolding skip_space
skip_space-opening zero s l e = refl
skip_space-opening (suc fuel) s l e =
    rw (skip_space, skip_comment-opening s l e, skip_wsnl-opening s (clear_comment l))
      (skip_space-opening fuel s (clear_comment l) e)

-- So `Lex` does not return.
pub lex-opening :
    (fuel : ℕ) (s : Bytes) (l : Lexer)
    → index_close s ≡ none
    → next fuel (opening s l) ≡ out_of_fuel
unfolding next
lex-opening zero s l e = refl
lex-opening (suc fuel) s l e = rw (next, skip_space-opening _ s l e) refl

-- The signs are plus and minus.
sign-cases : (c : ℕ) → is_sign c ≡ true → (c ≡ 43) ⊎ (c ≡ 45)
sign-cases c e = ground arith

-- Neither is skipped.
plus-find :
    (tp : ℕ) (s : Bytes) (l : Lexer)
    → find_comment_start tp (record l { input = 43 ∷ s }) ≡ ok (false, record l { input = 43 ∷ s })
unfolding find_comment_start index_func is_not_ws
plus-find tp [] l = refl
plus-find tp (x ∷ s) l = refl

minus-find :
    (tp : ℕ) (s : Bytes) (l : Lexer)
    → find_comment_start tp (record l { input = 45 ∷ s }) ≡ ok (false, record l { input = 45 ∷ s })
unfolding find_comment_start index_func is_not_ws
minus-find tp [] l = refl
minus-find tp (x ∷ s) l = refl

plus-wsnl :
    (s : Bytes) (l : Lexer)
    → skip_wsnl (record l { input = 43 ∷ s }) ≡ ok (false, record l { input = 43 ∷ s })
unfolding skip_wsnl skip_ws index_func is_not_ws is_eol
plus-wsnl [] l = refl
plus-wsnl (x ∷ s) l = refl

minus-wsnl :
    (s : Bytes) (l : Lexer)
    → skip_wsnl (record l { input = 45 ∷ s }) ≡ ok (false, record l { input = 45 ∷ s })
unfolding skip_wsnl skip_ws index_func is_not_ws is_eol
minus-wsnl [] l = refl
minus-wsnl (x ∷ s) l = refl

skip_space_stays :
    (fuel : ℕ) (l : Lexer)
    → ((tp : ℕ) → find_comment_start tp l ≡ ok (false, l))
    → skip_wsnl l ≡ ok (false, l)
    → skip_space (suc fuel) l ≡ ok l
unfolding skip_space skip_comment get_line_comment get_1line_block_comment
skip_space_stays fuel l f w =
    rw (skip_space, skip_comment, get_line_comment, f slash, get_1line_block_comment, f star)
      (rw (f star, w) refl)

lex-plus :
    (s : Bytes) (l : Lexer)
    → passes is_digit (get_elem? s 0) ≡ false
    → lex (record l { input = 43 ∷ s }) ≡ ok (none, record l { input = 43 ∷ s })
unfolding lex next next_at integer is_punctuation is_id_start is_digit
lex-plus s l d =
    rw
      (
        lex,
        next,
        skip_space_stays (suc (length s)) (record l { input = 43 ∷ s }) (λ tp. plus-find tp s l)
            (plus-wsnl s l),
      )
      (rw d refl)

lex-minus :
    (s : Bytes) (l : Lexer)
    → passes is_digit (get_elem? s 0) ≡ false
    → lex (record l { input = 45 ∷ s }) ≡ ok (none, record l { input = 45 ∷ s })
unfolding lex next next_at integer is_punctuation is_id_start is_digit
lex-minus s l d =
    rw
      (
        lex,
        next,
        skip_space_stays (suc (length s)) (record l { input = 45 ∷ s }) (λ tp. minus-find tp s l)
            (minus-wsnl s l),
      )
      (rw d refl)

-- At a sign that no digit follows, `Lex` reports the end of the input, and no error.
lex-sign :
    (c : ℕ) (s : Bytes) (l : Lexer)
    → is_sign c ≡ true
    → passes is_digit (get_elem? s 0) ≡ false
    → lex (record l { input = c ∷ s }) ≡ ok (none, record l { input = c ∷ s })
lex-sign c s l e d = elim (sign-cases c e) [
  | inl q ↦
      subst (λ b. lex (record l { input = b ∷ s }) ≡ ok (none, record l { input = b ∷ s })) (sym q)
        (lex-plus s l d)
  | inr q ↦
      subst (λ b. lex (record l { input = b ∷ s }) ≡ ok (none, record l { input = b ∷ s })) (sym q)
        (lex-minus s l d)
]
