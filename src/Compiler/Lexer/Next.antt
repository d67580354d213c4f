-- ===== src/Compiler/Lexer/Next.antt =====
-- Tokens: `Lex` ends without a panic, and each token takes some input.
use goxdr.Prelude.{
  ℕ, zero, suc, ◌+◌, ◌≤◌, ◌<◌, Bool, true, false, ◌&&◌, ◌||◌, [], ◌∷◌, Option, none, some, length,
  get_elem?, drop, ltb, ◌==◌, if◌then◌else◌, Bytes, refl, ◌≡◌, arith, inl, inr, Bool-cases,
  Option-cases, length-drop,
}
use goxdr.Compiler.Lexer.{
  TokenType, char, id, num, bad, Token, Lexer, at, passes, clear_comment, error, is_digit,
  is_hex_digit, is_id_start, is_id_rest, is_punctuation, set_20,
}
use goxdr.Compiler.Lexer.Run.{Run, ok, ◌>>=◌, Ends, Ends-bind, Ends-weaken}
use goxdr.Compiler.Lexer.Scan.{advance, skip_line}
use goxdr.Compiler.Lexer.Comments.{get_line_comment, skip_space}
use goxdr.Compiler.Lexer.Tokens.{
  make_token, count, identifier, integer_end, is_sign, integer, keyword_or_id, next_at, next, lex,
}
use goxdr.Compiler.Lexer.Rest.{After-refl, After-trans, Left, advance-Left, skip_line-Left}
use goxdr.Compiler.Lexer.Total.{Closed, Closed-After, Commented}
use goxdr.Compiler.Lexer.Space.{get_line_comment-Commented, skip_space-Left}

count_le : (f : ℕ → Bool) (s : Bytes) → count f s ≤ length s
unfolding count
count_le f [] = omega arith
count_le f (c ∷ s) = let h = count_le f s in ground arith

make_token-Left :
    (typ : TokenType) (n : ℕ) (l : Lexer)
    → 1 ≤ n
    → n ≤ length l.input
    → Ends (λ r. Left 1 l r.1) (make_token typ n l)
unfolding make_token
make_token-Left typ n l one h =
    let good : (n == 0 || ltb (length l.input) n) ≡ false = ground arith in
    let l1 : Lexer =
      clear_comment (record l { last_tok_line = l.lineno; last_tok_col = l.colno }) in
    rw good (
      Ends-bind (Left n l1) (λ r. Left 1 l r.1) (advance n l1) _ (advance-Left n l1 h)
        (λ l2 a.
          Ends-bind (Commented l2) (λ r. Left 1 l r.1) (get_line_comment l2) _
            (get_line_comment-Commented l2) (λ r b. After-trans n 0 1 a b.0 (omega arith))))

-- A token was read, of some of the input, or none.
abbrev pub Lexed : Lexer → Option Token × Lexer → Type 0
Lexed l r = Left 0 l r.1 × ((t : Token) → r.0 ≡ some t → Left 1 l r.1)

-- A token was read.
abbrev Read : Lexer → Option Token × Lexer → Type 0
Read l r = ((t : Token) × (r.0 ≡ some t)) × Left 1 l r.1

some_token :
    (typ : TokenType) (n : ℕ) (l : Lexer)
    → 1 ≤ n
    → n ≤ length l.input
    → Ends (Read l) (make_token typ n l >>= λ r. ok (some r.0, r.1))
some_token typ n l one h =
    Ends-bind (λ r. Left 1 l r.1) (Read l) (make_token typ n l) _ (make_token-Left typ n l one h)
      (λ r a. ((r.0, refl), a))

Read-Lexed : (l : Lexer) (r : Option Token × Lexer) → Read l r → Lexed l r
Read-Lexed l r (t, a) = ((a.0, omega (arith, a.1)), λ t e. a)

-- A place that passes a test is in the input.
passes-lt : (f : ℕ → Bool) (s : Bytes) (i : ℕ) → passes f (get_elem? s i) ≡ true → i < length s
passes-lt f [] i e = absurd cc
passes-lt f (c ∷ s) zero e = omega arith
passes-lt f (c ∷ s) (suc i) e = let h = passes-lt f s i e in omega arith

identifier-Read : (l : Lexer) → passes is_id_start (at l 0) ≡ true → Ends (Read l) (identifier l)
unfolding identifier
identifier-Read l e =
    let lt = passes-lt is_id_start l.input 0 e in
    let le = count_le is_id_rest (drop 1 l.input) in
    rw (identifier, e)
      (some_token id (1 + count is_id_rest (drop 1 l.input)) l (omega arith)
        (omega (arith, length-drop 1 l.input)))

third : (a b c : Bool) → (a && (b && c)) ≡ true → c ≡ true
third a b c e = ground arith

integer_end_le :
    (i : ℕ) (l : Lexer)
    → i < length l.input
    → (1 ≤ integer_end i l) × (integer_end i l ≤ length l.input)
unfolding integer_end
integer_end_le i l lt =
    let hex = count_le is_hex_digit (drop (i + 2) l.input) in
    let digits = count_le is_digit (drop (i + 1) l.input) in
    let cut2 = length-drop (i + 2) l.input in
    let cut1 = length-drop (i + 1) l.input in
    elim (Bool-cases (
      passes (λ c. c == 48) (at l i)
      && (passes (λ c. set_20 c == 120) (at l (i + 1)) && passes is_hex_digit (at l (i + 2))))) [
        | inl e ↦
            let more = passes-lt is_hex_digit l.input (i + 2) (third _ _ _ e) in
            rw (integer_end, e) (omega arith, omega arith)
        | inr e ↦ rw (integer_end, e) (omega arith, omega arith)
      ]

integer-Lexed : (l : Lexer) → Ends (Lexed l) (integer l)
unfolding integer
integer-Lexed l =
    let i : ℕ = if passes is_sign (at l 0) then 1 else 0 in
    elim (Bool-cases (passes is_digit (at l i))) [
      | inl e ↦
          let (pos, le) = integer_end_le i l (passes-lt is_digit l.input i e) in
          rw (integer, e)
            (Ends-weaken (Read l) (Lexed l) _ (some_token num (integer_end i l) l pos le)
              (Read-Lexed l))
      | inr e ↦ rw (integer, e) (After-refl l.input, λ t q. absurd cc)
    ]

keyword-Lexed : (l : Lexer) (r : Option Token × Lexer) → Read l r → Ends (Lexed l) (keyword_or_id r)
unfolding keyword_or_id
keyword-Lexed l (none, l1) ((t, e), a) = absurd cc
keyword-Lexed l (some t, l1) (q, a) = ((a.0, omega (arith, a.1)), λ u e. a)

-- What the rounds that follow make of a state that took some input.
abbrev Continues : Lexer → (Lexer → Run (Option Token × Lexer)) → Type 0
Continues l more = (l1 : Lexer) → Left 1 l l1 → Ends (Lexed l) (more l1)

next_at-Lexed :
    (c : ℕ) (l : Lexer) (more : Lexer → Run (Option Token × Lexer))
    → at l 0 ≡ some c
    → Continues l more
    → Ends (Lexed l) (next_at c l more)
unfolding next_at error
next_at-Lexed c l more e k =
    let lt : 0 < length l.input = passes-lt (λ d. true) l.input 0 (rw e refl) in
    elim (Bool-cases (is_punctuation c)) [
      | inl p ↦
          rw (next_at, p)
            (Ends-weaken (Read l) (Lexed l) _ (some_token (char c) 1 l (omega arith) (omega arith))
              (Read-Lexed l))
      | inr p ↦ elim (Bool-cases (is_id_start c)) [
        | inl q ↦
            rw (next_at, p, q)
              (Ends-bind (Read l) (Lexed l) (identifier l) _ (identifier-Read l (rw e q))
                (keyword-Lexed l))
        | inr q ↦ elim (Bool-cases (is_digit c || is_sign c)) [
          | inl r ↦ rw (next_at, p, q, r) (integer-Lexed l)
          | inr r ↦ elim (Bool-cases (c == 37 && l.colno == 0)) [
            | inl s ↦
                rw (next_at, p, q, r, s)
                  (Ends-bind (Left 1 l) (Lexed l) (skip_line l) _
                    (skip_line-Left 1 l (omega arith) (omega arith)) k)
            | inr s ↦
                rw (next_at, p, q, r, s)
                  (Ends-bind (λ t. Left 1 l t.1) (Lexed l) (make_token bad 1 l) _
                    (make_token-Left bad 1 l (omega arith) (omega arith))
                    (λ t a. k (error (c ∷ []) t.1) a))
          ]
        ]
      ]
    ]

next-Lexed :
    (fuel : ℕ) (l : Lexer) → length l.input < fuel → Closed l.input → Ends (Lexed l) (next fuel l)
unfolding next
next-Lexed zero l h c = absurd (omega arith)
next-Lexed (suc fuel) l h c =
    Ends-bind (Left 0 l) (Lexed l) (skip_space (suc (length l.input)) l) _
      (skip_space-Left (suc (length l.input)) l (omega arith) c)
      (λ l1 a. elim (Option-cases (at l1 0)) [
        | inl e ↦ rw e (a, λ t q. absurd cc)
        | inr (b, e) ↦ rw e (
            Ends-weaken (Lexed l1) (Lexed l) _
              (next_at-Lexed b l1 (next fuel) e (λ l2 d.
                Ends-weaken (Lexed l2) (Lexed l1) _
                  (next-Lexed fuel l2 (omega (arith, a.1, d.1))
                    (Closed-After 1 l.input l2.input (After-trans 0 1 1 a d (omega arith)) c))
                  (behind 1 l1 l2 d)))
              (behind 0 l l1 a))
      ])
  where
    behind :
        (k : ℕ) (l1 l2 : Lexer)
        → Left k l1 l2
        → (r : Option Token × Lexer) → Lexed l2 r
        → Lexed l1 r
    behind k l1 l2 d r (b, t) =
        (After-trans k 0 0 d b (omega arith), λ u q. After-trans k 1 1 d (t u q) (omega arith))

-- A token was read of at least one byte, or there was none.
abbrev pub Took : Lexer → Option Token × Lexer → Type 0
Took l (none, l1) = Left 0 l l1
Took l (some t, l1) = Left 1 l l1

-- On every input in which each "/*" has a "*/" behind it, `Lex` ends, without a panic, and a token
-- that it returns took at least one byte of the input; what is left is an end of the input.
pub lex_lem : (l : Lexer) → Closed l.input → Ends (Took l) (lex l)
unfolding lex
lex_lem l c =
    Ends-weaken (Lexed l) (Took l) (next (suc (length l.input)) l)
      (next-Lexed (suc (length l.input)) l (omega arith) c) took
  where
    took : (r : Option Token × Lexer) → Lexed l r → Took l r
    took (none, l1) (a, b) = a
    took (some t, l1) (a, b) = b t refl
