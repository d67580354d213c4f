-- ===== src/Compiler/Lexer/Tokens.antt =====
-- cmd/goxdr/lex.go: tokens.
use goxdr.Prelude.{
  ℕ, zero, suc, ◌+◌, Bool, not, ◌&&◌, ◌||◌, [], ◌∷◌, Option, none, some, length, take, drop, ltb,
  ◌==◌, if◌then◌else◌, Bytes,
}
use goxdr.Compiler.Lexer.{
  TokenType, char, id, num, bad, Token, Lexer, at, clear_comment, error, is_digit, is_hex_digit,
  is_id_start, is_id_rest, is_punctuation, passes, find_keyword, keywords, set_20,
}
use goxdr.Compiler.Lexer.Run.{Run, ok, panic, out_of_fuel, ◌>>=◌}
use goxdr.Compiler.Lexer.Scan.{advance, skip_line}
use goxdr.Compiler.Lexer.Comments.{get_line_comment, skip_space}

-- `makeToken`
unfoldable pub make_token : TokenType → ℕ → Lexer → Run (Token × Lexer)
unfolding advance get_line_comment
make_token typ n l = if n == 0 || ltb (length l.input) n then panic else (do
  let l1 = record l { last_tok_line = l.lineno; last_tok_col = l.colno }
  l2 ← advance n (clear_comment l1)
  (comment, l3) ← get_line_comment l2
  ok (
    record {
      type = typ;
      value = take n l.input;
      block_comment = l.block_comment;
      line_comment = comment;
    },
    l3,
  ))

-- A loop `for ; f(l.at(i)); i++`: how many bytes of the input pass.
unfoldable pub count : (ℕ → Bool) → Bytes → ℕ
count f [] = 0
count f (c ∷ cs) = let rest = count f cs in if f c then suc rest else 0

-- `identifier`, at the start of one
unfoldable pub identifier : Lexer → Run (Option Token × Lexer)
unfolding is_id_start is_id_rest make_token count
identifier l =
    if not (passes is_id_start (at l 0))
    then ok (none, l)
    else (make_token id (1 + count is_id_rest (drop 1 l.input)) l >>= λ r. ok (some r.0, r.1))

-- Where the digits end, if they start at `i`.
unfoldable pub integer_end : ℕ → Lexer → ℕ
unfolding is_digit is_hex_digit count
integer_end i l =
    if passes (λ c. c == 48) (at l i)
      && (passes (λ c. set_20 c == 120) (at l (i + 1)) && passes is_hex_digit (at l (i + 2)))
    then i + 2 + count is_hex_digit (drop (i + 2) l.input)
    else i + 1 + count is_digit (drop (i + 1) l.input)

abbrev pub is_sign : ℕ → Bool
is_sign c = c == 43 || c == 45

-- `integer`
unfoldable pub integer : Lexer → Run (Option Token × Lexer)
unfolding is_digit integer_end make_token
integer l =
    let i = if passes is_sign (at l 0) then 1 else 0 in
    if not (passes is_digit (at l i))
    then ok (none, l)
    else (make_token num (integer_end i l) l >>= λ r. ok (some r.0, r.1))

-- The type of an identifier that is a keyword.
abbrev pub set_keyword : Token → Token
set_keyword t = elim (find_keyword t.value keywords) [ none ↦ t | some kw ↦ record t { type = kw } ]

-- The case of an identifier in `next`; nil, whose `t.Value` would be a panic, does not come.
unfoldable pub keyword_or_id : Option Token × Lexer → Run (Option Token × Lexer)
keyword_or_id (none, l) = panic
keyword_or_id (some t, l) = ok (some (set_keyword t), l)

-- One round of `next` at the byte `c`, for the rounds that follow.
unfoldable pub next_at :
    ℕ → Lexer → (Lexer → Run (Option Token × Lexer)) → Run (Option Token × Lexer)
unfolding is_punctuation make_token is_id_start identifier keyword_or_id is_digit integer skip_line
    error
next_at c l more =
    if is_punctuation c
    then (make_token (char c) 1 l >>= λ r. ok (some r.0, r.1))
    else if is_id_start c
    then identifier l >>= keyword_or_id
    else if is_digit c || is_sign c
    then integer l
    else if c == 37 && l.colno == 0
    then skip_line l >>= more
    else (make_token bad 1 l >>= λ r. more (error (c ∷ []) r.1))

-- `next`: the fuel counts the lines and the bytes that are skipped
unfoldable pub next : ℕ → Lexer → Run (Option Token × Lexer)
unfolding skip_space next_at
next zero l = out_of_fuel
next (suc fuel) l = do
  l1 ← skip_space (suc (length l.input)) l
  elim (at l1 0) [ none ↦ ok (none, l1) | some c ↦ next_at c l1 (next fuel) ]

-- `Lex`: nil, for 0 at the end, or the token with its type.
unfoldable pub lex : Lexer → Run (Option Token × Lexer)
unfolding next
lex l = next (suc (length l.input)) l
