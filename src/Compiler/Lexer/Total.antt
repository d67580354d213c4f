-- ===== src/Compiler/Lexer/Total.antt =====
-- Comments, white space and tokens: the lexer ends without a panic.
use goxdr.Prelude.{
  ℕ, ◌+◌, ◌≤◌, Bool, true, false, not, ◌&&◌, ◌||◌, [], ◌++◌, some, length, take, drop, ltb, ◌==◌,
  if◌then◌else◌, Bytes, refl, ap, ◌≡◌, ◌∙◌, arith, inl, inr, Bool-cases, Option-cases, length-drop,
  append_assoc,
}
use goxdr.Compiler.Lexer.{Lexer, newline, slash, star, is_not_ws}
use goxdr.Compiler.Lexer.Run.{Run, ok, panic, out_of_fuel, Ends, Ends-bind}
use goxdr.Compiler.Lexer.Scan.{
  advance, index_func, index_byte, index_close, starts, rest_of_line, is_eol, find_comment_start,
}
use goxdr.Compiler.Lexer.Comments.{
  is_some, is_empty, comment_skip, closed_comment, opened_comment, get_1line_block_comment,
}
use goxdr.Compiler.Lexer.Rest.{
  After, After-refl, After-trans, Left, advance-Left, index_func_lt, index_close_lt, starts-length,
}
use goxdr.Compiler.Lexer.Skips.{rest_of_line-Left, is_eol_le, Found, find_comment_start-Found}

-- Every "/*" in these bytes has a "*/" behind it.
abbrev pub Closed : Bytes → Type 0
Closed s =
    (p t : Bytes)
    → p ++ t ≡ s
    → starts slash star t ≡ true
    → (j : ℕ) × (index_close (drop 2 t) ≡ some j)

pub Closed-After : (k : ℕ) (s t : Bytes) → After k s t → Closed s → Closed t
Closed-After k s t ((q, e), h) c p u f = c (q ++ p) u (append_assoc q p u ∙ ap (◌++◌ q) f ∙ e)

-- A comment is returned, of which something was consumed, or none.
abbrev pub Commented : Lexer → Bytes × Lexer → Type 0
Commented l r = Left 0 l r.1 × (is_empty r.0 ≡ false → Left 1 l r.1)

pub no_comment : (l l' : Lexer) → Left 0 l l' → Commented l ([], l')
no_comment l l' a = (a, λ e. absurd cc)

some_comment : (s : Bytes) (k : ℕ) (l l' : Lexer) → 1 ≤ k → Left k l l' → Commented l (s, l')
some_comment s k l l' one (p, h) = ((p, omega arith), λ e. (p, omega arith))

comment_skip_le : (j : ℕ) (s : Bytes) → j + 4 ≤ length s → comment_skip j s ≤ length s
unfolding comment_skip
comment_skip_le j s h = elim (Option-cases (index_func is_not_ws (drop (j + 4) s))) [
  | inl e ↦ rw (comment_skip, e) (omega arith)
  | inr (k, e) ↦
      let lt = index_func_lt _ (drop (j + 4) s) k e in
      rw (comment_skip, e) (omega (arith, length-drop (j + 4) s))
]

comment_skip_pos : (j : ℕ) (s : Bytes) → 1 ≤ comment_skip j s
unfolding comment_skip
comment_skip_pos j s = elim (Option-cases (index_func is_not_ws (drop (j + 4) s))) [
  | inl e ↦ rw (comment_skip, e) (omega arith)
  | inr (k, e) ↦ rw (comment_skip, e) (omega arith)
]

closed_comment-Commented :
    (j : ℕ) (l : Lexer) → j + 4 ≤ length l.input → Ends (Commented l) (closed_comment j l)
unfolding closed_comment
closed_comment-Commented j l h =
    let n = comment_skip j l.input in
    let eol = is_eol (drop n l.input) in
    let le = comment_skip_le j l.input h in
    let pos = comment_skip_pos j l.input in
    let room = is_eol_le (drop n l.input) in
    let cut = length-drop n l.input in
    elim (Bool-cases (
      not (is_some (index_byte newline (take (j + 4) l.input)))
      && (ltb 0 eol || n == length l.input))) [
        | inl b ↦
            rw (closed_comment, b)
              (Ends-bind (Left (n + eol) l) (Commented l) (advance (n + eol) l) _
                (advance-Left (n + eol) l (omega arith))
                (λ l1 a. some_comment _ (n + eol) l l1 (omega arith) a))
        | inr b ↦ elim (Bool-cases (eol == 0)) [
          | inl c ↦
              rw (closed_comment, b, c)
                (Ends-bind (Left n l) (Commented l) (advance n l) _ (advance-Left n l le) (λ l1 a.
                  no_comment l l1 (After-trans 0 n 0 (After-refl l.input) a (omega arith))))
          | inr c ↦ rw (closed_comment, b, c) (no_comment l l (After-refl l.input))
        ]
      ]

opened_comment-Commented : (l : Lexer) → 2 ≤ length l.input → Ends (Commented l) (opened_comment l)
unfolding opened_comment
opened_comment-Commented l two = elim (Option-cases (index_close (drop 2 l.input))) [
  | inl e ↦ rw (opened_comment, e) (no_comment l l (After-refl l.input))
  | inr (j, e) ↦
      let lt = index_close_lt (drop 2 l.input) j e in
      rw (opened_comment, e) (closed_comment-Commented j l (omega (arith, length-drop 2 l.input)))
]

-- What was found behind `l1`, which is left of `l`.
pub later :
    (l l1 : Lexer)
    → Left 0 l l1
    → (m : Run (Bytes × Lexer)) → Ends (Commented l1) m
    → Ends (Commented l) m
later l l1 a (ok (s, l2)) (b, c) =
    (After-trans 0 0 0 a b (omega arith), λ e. After-trans 0 1 1 a (c e) (omega arith))
later l l1 a panic h = h
later l l1 a out_of_fuel h = h

pub get_1line-Commented : (l : Lexer) → Ends (Commented l) (get_1line_block_comment l)
unfolding get_1line_block_comment
get_1line-Commented l =
    Ends-bind (Found star l) (Commented l) (find_comment_start star l) _
      (find_comment_start-Found star l) (λ (found, l1) (a, s). branch found l1 a s)
  where
    branch :
        (found : Bool) (l1 : Lexer)
        → Left 0 l l1
        → (found ≡ true → starts slash star l1.input ≡ true)
        → Ends (Commented l) (if found then opened_comment l1 else ok ([], l1))
    branch true l1 a s =
        later l l1 a (opened_comment l1)
          (opened_comment-Commented l1 (starts-length slash star l1.input (s refl)))
    branch false l1 a s = no_comment l l1 a

-- A line comment at the start takes some input.
pub rest-Commented :
    (l : Lexer) → starts slash slash l.input ≡ true → Ends (λ r. Left 1 l r.1) (rest_of_line l)
rest-Commented l s =
    let two = starts-length slash slash l.input s in
    rest_of_line-Left 1 l (omega arith) (omega arith)
