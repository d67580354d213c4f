-- ===== src/Compiler/Lexer/Scan.antt =====
-- cmd/goxdr/lex.go: moving through the input.
use goxdr.Prelude.{
  ℕ, zero, suc, ◌+◌, ◌-◌, ◌%◌, Bool, true, false, ◌&&◌, [], ◌∷◌, Option, none, some, length,
  get_elem?, take, drop, ltb, ◌==◌, if◌then◌else◌, Bytes,
}
use goxdr.Compiler.Lexer.{
  Lexer, tabwidth, newline, return, tab, space, slash, star, is_not_ws, passes,
}
use goxdr.Compiler.Lexer.Run.{Run, ok, panic, ◌>>=◌}

abbrev pub advance_char : ℕ → Lexer → Lexer
advance_char c l =
    if c == newline
    then record l { lineno = suc l.lineno; colno = 0; midline = false }
    else if c == tab
    then record l { colno = l.colno + (8 - l.colno % tabwidth) }
    else if c == space
    then record l { colno = suc l.colno }
    else record l { colno = suc l.colno; midline = true }

abbrev pub advance_over : Bytes → Lexer → Lexer
advance_over [] l = l
advance_over (c ∷ cs) l = advance_over cs (advance_char c l)

unfoldable pub advance : ℕ → Lexer → Run Lexer
advance n l =
    if ltb (length l.input) n
    then panic
    else ok (record (advance_over (take n l.input) l) { input = drop n l.input })

-- A place in the list behind the first byte.
abbrev pub shift : Option ℕ → Option ℕ
shift none = none
shift (some i) = some (suc i)

-- `strings.IndexFunc`: the first byte that passes
unfoldable pub index_func : (ℕ → Bool) → Bytes → Option ℕ
index_func f [] = none
index_func f (c ∷ cs) = let rest = index_func f cs in if f c then some 0 else shift rest

abbrev pub index_byte : ℕ → Bytes → Option ℕ
index_byte c s = index_func (λ d. d == c) s

-- Whether the input starts with these two bytes.
abbrev pub starts : ℕ → ℕ → Bytes → Bool
starts a b (c ∷ d ∷ cs) = c == a && d == b
starts a b cs = false

-- `strings.Index(s, "*/")`
unfoldable pub index_close : Bytes → Option ℕ
index_close [] = none
index_close (c ∷ cs) =
    let rest = index_close cs in if starts star slash (c ∷ cs) then some 0 else shift rest

-- Whether the byte in front of place `n` is this one.
abbrev pub preceded : ℕ → ℕ → Bytes → Bool
preceded c zero s = false
preceded c (suc n) s = passes (λ d. d == c) (get_elem? s n)

-- `findEOL`
unfoldable pub find_eol : Bytes → ℕ
unfolding index_func
find_eol s = elim (index_byte newline s) [
  | none ↦ length s
  | some n ↦ if preceded return n s then n - 1 else n
]

-- `skipLine`
unfoldable pub skip_line : Lexer → Run Lexer
unfolding advance index_func
skip_line l = elim (index_byte newline l.input) [
  | none ↦ advance (length l.input) l
  | some i ↦ advance (i + 1) l
]

-- `RestOfLine`
unfoldable pub rest_of_line : Lexer → Run (Bytes × Lexer)
unfolding find_eol advance skip_line
rest_of_line l = do
  let i = find_eol l.input
  l1 ← advance i l
  l2 ← skip_line l1
  ok (take i l.input, l2)

-- `skipWS`
unfoldable pub skip_ws : Lexer → Run (Bool × Lexer)
unfolding index_func advance
skip_ws l = elim (index_func is_not_ws l.input) [
  | none ↦ ok (false, l)
  | some i ↦ if ltb 0 i then (advance i l >>= λ l1. ok (true, l1)) else ok (false, l)
]

-- `isEOL`
unfoldable pub is_eol : Bytes → ℕ
is_eol s =
    if passes (λ c. c == newline) (get_elem? s 0)
    then 1
    else if starts return newline s
    then 2
    else 0

-- `skipWSNL`
unfoldable pub skip_wsnl : Lexer → Run (Bool × Lexer)
unfolding skip_ws is_eol advance
skip_wsnl l = do
  (b, l1) ← skip_ws l
  let n = is_eol l1.input
  if ltb 0 n then (advance n l1 >>= λ l2. ok (true, l2)) else ok (false, l1)

-- `findCommentStart`
unfoldable pub find_comment_start : ℕ → Lexer → Run (Bool × Lexer)
unfolding index_func advance
find_comment_start tp l = elim (index_func is_not_ws l.input) [
  | none ↦ ok (false, l)
  | some i ↦
      if starts slash tp (drop i l.input)
      then (advance i l >>= λ l1. ok (true, l1))
      else ok (false, l)
]
