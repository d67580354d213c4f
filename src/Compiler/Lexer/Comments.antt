-- ===== src/Compiler/Lexer/Comments.antt =====
-- cmd/goxdr/lex.go: comments and white space.
use goxdr.Prelude.{
  ℕ, zero, suc, ◌+◌, ◌-◌, Bool, true, false, not, ◌&&◌, ◌||◌, List, [], ◌∷◌, ◌++◌, Option, none,
  some, length, take, drop, ltb, ◌==◌, if◌then◌else◌, Bytes, ◌%◌,
}
use goxdr.Compiler.Lexer.{
  Lexer, tabwidth, newline, return, tab, space, slash, star, is_not_ws, clear_comment,
}
use goxdr.Compiler.Lexer.Run.{Run, ok, out_of_fuel, ◌>>=◌}
use goxdr.Compiler.Lexer.Scan.{
  advance, index_func, index_byte, index_close, is_eol, rest_of_line, skip_wsnl, find_comment_start,
}

abbrev pub is_some : Option ℕ → Bool
is_some none = false
is_some (some i) = true

abbrev pub is_empty : Bytes → Bool
is_empty [] = true
is_empty (b ∷ bs) = false

-- `nskip`: behind the comment and its white space, or, where `strings.IndexFunc` gives -1 as nothing
-- but white space is left, one less than the end of the comment.
unfoldable pub comment_skip : ℕ → Bytes → ℕ
unfolding index_func
comment_skip j s = elim (index_func is_not_ws (drop (j + 4) s)) [
  | none ↦ j + 3
  | some k ↦ j + 4 + k
]

-- `get1LineBlockComment`, at a comment that is closed at `j`
unfoldable pub closed_comment : ℕ → Lexer → Run (Bytes × Lexer)
unfolding comment_skip index_func is_eol advance
closed_comment j l = do
  let comment = take (j + 4) l.input
  let multiline = is_some (index_byte newline comment)
  let nskip = comment_skip j l.input
  let eol = is_eol (drop nskip l.input)
  if not multiline && (ltb 0 eol || nskip == length l.input)
      then (advance (nskip + eol) l >>= λ l1. ok (comment, l1))
      else if eol == 0
      then (advance nskip l >>= λ l1. ok ([], l1))
      else ok ([], l)

unfoldable pub opened_comment : Lexer → Run (Bytes × Lexer)
unfolding index_close closed_comment
opened_comment l = elim (index_close (drop 2 l.input)) [
  | none ↦ ok ([], l)
  | some j ↦ closed_comment j l
]

-- `get1LineBlockComment`
unfoldable pub get_1line_block_comment : Lexer → Run (Bytes × Lexer)
unfolding find_comment_start opened_comment
get_1line_block_comment l = do
  (found, l1) ← find_comment_start star l
  if found then opened_comment l1 else ok ([], l1)

-- The loop of `getLineComment`; there is no column yet in the first round. The fuel counts lines.
unfoldable pub line_comments : ℕ → Option ℕ → Bytes → Lexer → Run (Bytes × Lexer)
unfolding find_comment_start rest_of_line
line_comments zero column out l = out_of_fuel
line_comments (suc fuel) column out l = do
  (found, l1) ← find_comment_start slash l
  let same : Bool = elim column [ none ↦ false | some c ↦ l1.colno == c ]
  if found
      then (rest_of_line l1 >>= λ r.
          line_comments fuel (some l1.colno) ((if same then out ++ newline ∷ [] else []) ++ r.0)
            r.1)
      else ok (out, l1)

-- `getLineComment`
unfoldable pub get_line_comment : Lexer → Run (Bytes × Lexer)
unfolding find_comment_start get_1line_block_comment rest_of_line line_comments
get_line_comment l = do
  (found, l1) ← find_comment_start slash l
  if not found
      then get_1line_block_comment l1
      else if l1.midline
      then rest_of_line l1
      else line_comments (suc (length l1.input)) none [] l1

-- The loop of `stripToColumn`: the rest of the input, and the column `c` at it.
abbrev pub strip_loop : ℕ → ℕ → Bytes → Bytes × ℕ
strip_loop column c [] = ([], c)
strip_loop column c (b ∷ bs) =
    let over_tab = strip_loop column ((c + tabwidth) % tabwidth) bs in
    let over_space = strip_loop column (suc c) bs in
    if not (ltb c column)
    then (b ∷ bs, c)
    else if b == tab
    then over_tab
    else if b == space
    then over_space
    else (b ∷ bs, c)

abbrev pub blanks : ℕ → Bytes
blanks zero = []
blanks (suc n) = space ∷ blanks n

-- `stripToColumn`
unfoldable pub strip_to_column : ℕ → Bytes → Bytes
strip_to_column column input =
    let (rest, c) = strip_loop column 0 input in
    if not (ltb column c) then rest else blanks (c - column) ++ rest

-- `strings.TrimSuffix(line, "\r")`
abbrev pub trim_return : Bytes → Bytes
trim_return [] = []
trim_return (b ∷ []) = if b == return then [] else b ∷ []
trim_return (b ∷ c ∷ bs) = b ∷ trim_return (c ∷ bs)

-- `strings.Split(s, "\n")`: the first line, and the others
abbrev pub split_lines : Bytes → Bytes × List Bytes
split_lines [] = ([], [])
split_lines (b ∷ bs) =
    let (line, lines) = split_lines bs in
    if b == newline then ([], line ∷ lines) else (b ∷ line, lines)

-- The lines behind the first, each with the newline in front of it.
abbrev pub strip_lines : ℕ → List Bytes → Bytes
unfolding strip_to_column
strip_lines column [] = []
strip_lines column (line ∷ lines) =
    newline ∷ trim_return (strip_to_column column line) ++ strip_lines column lines

-- What `skipComment` records of a comment that starts in this column.
unfoldable pub strip_comment : ℕ → Bytes → Bytes
strip_comment column comment =
    let (line, lines) = split_lines comment in trim_return line ++ strip_lines column lines

-- `skipComment`, at a block comment that is closed at `j`
unfoldable pub skip_closed : Bool → ℕ → Lexer → Run (Bool × Lexer)
unfolding advance skip_wsnl strip_comment
skip_closed was_midline j l = do
  let comment = take (j + 4) l.input
  l1 ← advance (j + 4) l
  if was_midline
      then ok (true, l1)
      else (skip_wsnl l1 >>= λ r.
          ok (
            true,
            if r.0 then record r.1 { block_comment = strip_comment l.colno comment } else r.1,
          ))

unfoldable pub skip_block : Bool → Lexer → Run (Bool × Lexer)
unfolding index_close skip_closed
skip_block was_midline l = elim (index_close (drop 2 l.input)) [
  | none ↦ ok (true, clear_comment l)
  | some j ↦ skip_closed was_midline j (clear_comment l)
]

-- `skipComment`
unfoldable pub skip_comment : Lexer → Run (Bool × Lexer)
unfolding get_line_comment find_comment_start skip_block
skip_comment l = do
  (comment, l1) ← get_line_comment l
  let kept = if l.midline then clear_comment l1 else record l1 { block_comment = comment }
  if is_empty comment
      then (find_comment_start star l1 >>= λ r.
          if r.0 then skip_block l.midline r.1 else ok (false, r.1))
      else ok (true, kept)

-- `skipSpace`: the fuel counts comments and ends of lines
unfoldable pub skip_space : ℕ → Lexer → Run Lexer
unfolding skip_comment skip_wsnl
skip_space zero l = out_of_fuel
skip_space (suc fuel) l = do
  (skipped, l1) ← skip_comment l
  (nl, l2) ← skip_wsnl l1
  if nl then skip_space fuel (clear_comment l2) else if skipped then skip_space fuel l2 else ok l2
