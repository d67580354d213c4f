-- ===== src/Compiler/Lexer/Skips.antt =====
-- What is left of the input behind lines, white space and the starts of comments.
use goxdr.Prelude.{
  ℕ, ◌-◌, ◌≤◌, Bool, true, false, [], ◌∷◌, length, drop, ltb, if◌then◌else◌, Bytes, sym, subst, ◌≡◌,
  arith, inl, inr, Bool-cases, Option-cases, length-drop, ltb→lt,
}
use goxdr.Compiler.Lexer.{Lexer, slash, is_not_ws}
use goxdr.Compiler.Lexer.Run.{ok, ◌>>=◌, Ends, Ends-bind}
use goxdr.Compiler.Lexer.Scan.{
  advance, index_func, starts, find_eol, skip_line, rest_of_line, skip_ws, is_eol, skip_wsnl,
  find_comment_start,
}
use goxdr.Compiler.Lexer.Rest.{
  After, After-refl, After-trans, After-drop, Left, advance-Ends, advance-Left, index_func_lt,
  find_eol_le, skip_line-Left,
}

-- If there is any input, the rest of the line takes some of it.
pub rest_of_line-Left :
    (k : ℕ) (l : Lexer) → k ≤ 1 → k ≤ length l.input → Ends (λ r. Left k l r.1) (rest_of_line l)
unfolding rest_of_line
rest_of_line-Left k l one h =
    let i = find_eol l.input in
    Ends-bind (λ l'. l'.input ≡ drop i l.input) _ (advance i l) _
      (advance-Ends i l (find_eol_le l.input))
      (λ l1 e.
        Ends-bind (Left (k - i) l1) _ (skip_line l1) _
          (skip_line-Left (k - i) l1 (omega arith)
            (subst (λ s. k - i ≤ length s) (sym e) (omega (arith, length-drop i l.input))))
          (λ l2 a.
            After-trans i (k - i) k
              (subst (After i l.input) (sym e) (After-drop i l.input (find_eol_le l.input))) a
              (omega arith)))

-- The flag says that something was skipped.
abbrev pub Flagged : Lexer → Bool × Lexer → Type 0
Flagged l r = Left 0 l r.1 × (r.0 ≡ true → Left 1 l r.1)

pub stays : (l : Lexer) → Flagged l (false, l)
stays l = (After-refl l.input, λ e. absurd cc)

pub moved : (b : Bool) (k : ℕ) (l l' : Lexer) → 1 ≤ k → Left k l l' → Flagged l (b, l')
moved b k l l' one (p, h) = ((p, omega arith), λ e. (p, omega arith))

pub skip_ws-Flagged : (l : Lexer) → Ends (Flagged l) (skip_ws l)
unfolding skip_ws
skip_ws-Flagged l = elim (Option-cases (index_func is_not_ws l.input)) [
  | inl e ↦ rw (skip_ws, e) (stays l)
  | inr (i, e) ↦ elim (Bool-cases (ltb 0 i)) [
    | inl b ↦
        let lt = index_func_lt _ l.input i e in
        rw (skip_ws, e, b)
          (Ends-bind (Left i l) (Flagged l) (advance i l) _ (advance-Left i l (omega arith))
            (λ l1 a. moved true i l l1 (ltb→lt 0 i b) a))
    | inr b ↦ rw (skip_ws, e, b) (stays l)
  ]
]

pub is_eol_le : (s : Bytes) → is_eol s ≤ length s
unfolding is_eol
is_eol_le [] = omega arith
is_eol_le (c ∷ []) = ground arith
is_eol_le (c ∷ d ∷ s) = ground arith

pub skip_wsnl-Flagged : (l : Lexer) → Ends (Flagged l) (skip_wsnl l)
unfolding skip_wsnl
skip_wsnl-Flagged l =
    Ends-bind (Flagged l) (Flagged l) (skip_ws l) _ (skip_ws-Flagged l) λ r f. line r.1 f.0
  where
    line :
        (l1 : Lexer)
        → Left 0 l l1
        → Ends (Flagged l) (
            if ltb 0 (is_eol l1.input)
            then (advance (is_eol l1.input) l1 >>= λ l2. ok (true, l2))
            else ok (false, l1))
    line l1 a = elim (Bool-cases (ltb 0 (is_eol l1.input))) [
      | inl b ↦
          let n = is_eol l1.input in
          rw b (
            Ends-bind (Left n l1) (Flagged l) (advance n l1) _
              (advance-Left n l1 (is_eol_le l1.input))
              (λ l2 c. moved true n l l2 (ltb→lt 0 n b) (After-trans 0 n n a c (omega arith))))
      | inr b ↦ rw b (a, λ e. absurd cc)
    ]

-- A comment that is found is at the start of what is left.
abbrev pub Found : ℕ → Lexer → Bool × Lexer → Type 0
Found tp l r = Left 0 l r.1 × (r.0 ≡ true → starts slash tp r.1.input ≡ true)

pub find_comment_start-Found : (tp : ℕ) (l : Lexer) → Ends (Found tp l) (find_comment_start tp l)
unfolding find_comment_start
find_comment_start-Found tp l = elim (Option-cases (index_func is_not_ws l.input)) [
  | inl e ↦ rw (find_comment_start, e) (After-refl l.input, λ e. absurd cc)
  | inr (i, e) ↦ elim (Bool-cases (starts slash tp (drop i l.input))) [
    | inl b ↦
        let lt = index_func_lt _ l.input i e in
        rw (find_comment_start, e, b)
          (Ends-bind (λ l'. l'.input ≡ drop i l.input) (Found tp l) (advance i l) _
            (advance-Ends i l (omega arith))
            (λ l1 same. (
              After-trans 0 i 0 (After-refl l.input)
                  (subst (After i l.input) (sym same) (After-drop i l.input (omega arith)))
                  (omega arith),
              λ e. subst (λ s. starts slash tp s ≡ true) (sym same) b,
            )))
    | inr b ↦ rw (find_comment_start, e, b) (After-refl l.input, λ e. absurd cc)
  ]
]
