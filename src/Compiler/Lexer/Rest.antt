-- ===== src/Compiler/Lexer/Rest.antt =====
-- What is left of the input: moving through it ends, and leaves an end of it.
use goxdr.Prelude.{
  ℕ, suc, ◌+◌, ◌≤◌, ◌<◌, Bool, true, false, [], ◌∷◌, ◌++◌, Option, none, some, length, take, drop,
  ltb, Bytes, refl, sym, ap, ◌≡◌, ◌∙◌, arith, inl, inr, Bool-cases, Option-cases, length-drop,
  take-append-drop, append_assoc,
}
use goxdr.Compiler.Lexer.{Lexer, newline, return, slash, star}
use goxdr.Compiler.Lexer.Run.{Run, ok, panic, out_of_fuel, Ends}
use goxdr.Compiler.Lexer.Scan.{
  advance, index_func, index_byte, index_close, shift, starts, preceded, find_eol, skip_line,
}

-- `t` is what is left of `s` behind at least `k` bytes.
abbrev pub After : ℕ → Bytes → Bytes → Type 0
After k s t = ((p : Bytes) × (p ++ t ≡ s)) × (k + length t ≤ length s)

pub After-refl : (s : Bytes) → After 0 s s
After-refl s = (([], refl), omega arith)

pub After-trans : (j k m : ℕ) {s t u : Bytes} → After j s t → After k t u → m ≤ j + k → After m s u
After-trans j k m {u} ((p, e), h) ((q, f), i) le =
    ((p ++ q, append_assoc p q u ∙ ap (◌++◌ p) f ∙ e), omega arith)

pub After-drop : (n : ℕ) (s : Bytes) → n ≤ length s → After n s (drop n s)
After-drop n s h = ((take n s, take-append-drop n s), omega (arith, length-drop n s))

-- The state is an end of that of `l`.
abbrev pub Left : ℕ → Lexer → Lexer → Type 0
Left k l l' = After k l.input l'.input

pub advance-Ends :
    (n : ℕ) (l : Lexer) → n ≤ length l.input → Ends (λ l'. l'.input ≡ drop n l.input) (advance n l)
unfolding advance
advance-Ends n l h = let fits : ltb (length l.input) n ≡ false = ground arith in rw fits refl

pub advance-Left : (n : ℕ) (l : Lexer) → n ≤ length l.input → Ends (Left n l) (advance n l)
unfolding advance
advance-Left n l h =
    let fits : ltb (length l.input) n ≡ false = ground arith in rw fits (After-drop n l.input h)

shift-some : (o : Option ℕ) (j : ℕ) → shift o ≡ some j → (i : ℕ) × (o ≡ some i) × (j ≡ suc i)
shift-some none j e = absurd cc
shift-some (some i) j e = (i, refl, cc)

pub index_func_lt : (f : ℕ → Bool) (s : Bytes) (i : ℕ) → index_func f s ≡ some i → i < length s
unfolding index_func
index_func_lt f [] i e = absurd cc
index_func_lt f (c ∷ s) i e = elim (Bool-cases (f c)) [
  | inl b ↦
      let first : some 0 ≡ some i = sym (rw b refl) ∙ e in let same : 0 ≡ i = cc in omega arith
  | inr b ↦
      let (k, q, r) = shift-some (index_func f s) i (sym (rw b refl) ∙ e) in
      let lt = index_func_lt f s k q in omega arith
]

pub starts-length : (a b : ℕ) (s : Bytes) → starts a b s ≡ true → 2 ≤ length s
starts-length a b [] e = absurd cc
starts-length a b (c ∷ []) e = absurd cc
starts-length a b (c ∷ d ∷ s) e = omega arith

pub index_close_lt : (s : Bytes) (j : ℕ) → index_close s ≡ some j → j + 2 ≤ length s
unfolding index_close
index_close_lt [] j e = absurd cc
index_close_lt (c ∷ s) j e = elim (Bool-cases (starts star slash (c ∷ s))) [
  | inl b ↦
      let first : some 0 ≡ some j = sym (rw b refl) ∙ e in
      let same : 0 ≡ j = cc in let two = starts-length star slash (c ∷ s) b in omega arith
  | inr b ↦
      let (k, q, r) = shift-some (index_close s) j (sym (rw b refl) ∙ e) in
      let lt = index_close_lt s k q in omega arith
]

pub find_eol_le : (s : Bytes) → find_eol s ≤ length s
unfolding find_eol
find_eol_le s = elim (Option-cases (index_byte newline s)) [
  | inl e ↦ rw (find_eol, e) (omega arith)
  | inr (i, e) ↦
      let lt = index_func_lt _ s i e in
      elim (Bool-cases (preceded return i s)) [
        | inl b ↦ rw (find_eol, e, b) (omega arith)
        | inr b ↦ rw (find_eol, e, b) (omega arith)
      ]
]

pub weaken : (j k : ℕ) (l : Lexer) → k ≤ j → (m : Run Lexer) → Ends (Left j l) m → Ends (Left k l) m
weaken j k l le (ok l') (p, h) = (p, omega arith)
weaken j k l le panic h = h
weaken j k l le out_of_fuel h = h

-- A line is skipped, if there is one.
pub skip_line-Left :
    (k : ℕ) (l : Lexer) → k ≤ 1 → k ≤ length l.input → Ends (Left k l) (skip_line l)
unfolding skip_line
skip_line-Left k l one h = elim (Option-cases (index_byte newline l.input)) [
  | inl e ↦
      rw (skip_line, e)
        (weaken (length l.input) k l h _ (advance-Left (length l.input) l (omega arith)))
  | inr (i, e) ↦
      let lt = index_func_lt _ l.input i e in
      rw (skip_line, e) (weaken (i + 1) k l (omega arith) _ (advance-Left (i + 1) l (omega arith)))
]
