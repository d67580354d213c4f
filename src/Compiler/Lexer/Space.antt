-- ===== src/Compiler/Lexer/Space.antt =====
-- Line comments, and the loop over comments and white space: each round takes some input.
use goxdr.Prelude.{
  ℕ, zero, suc, ◌+◌, ◌≤◌, ◌<◌, Bool, true, false, not, [], ◌∷◌, ◌++◌, Option, none, some, length,
  take, drop, ◌==◌, if◌then◌else◌, Bytes, refl, sym, subst, ◌≡◌, arith, inl, inr, ◌⊎◌, length-drop,
}
use goxdr.Compiler.Lexer.{Lexer, newline, slash, star, clear_comment}
use goxdr.Compiler.Lexer.Run.{ok, ◌>>=◌, Ends, Ends-bind, Ends-weaken}
use goxdr.Compiler.Lexer.Scan.{advance, starts, rest_of_line, skip_wsnl, find_comment_start}
use goxdr.Compiler.Lexer.Comments.{
  is_empty, get_1line_block_comment, line_comments, get_line_comment, skip_closed, skip_block,
  skip_comment, skip_space, strip_comment,
}
use goxdr.Compiler.Lexer.Rest.{
  After, After-trans, Left, advance-Left, index_close_lt, starts-length,
}
use goxdr.Compiler.Lexer.Skips.{Flagged, skip_wsnl-Flagged, Found, find_comment_start-Found}
use goxdr.Compiler.Lexer.Total.{
  Closed, Closed-After, Commented, later, get_1line-Commented, rest-Commented,
}

-- Lines were added to `out`, of some of the input, or none.
abbrev Added : Bytes → Lexer → Bytes × Lexer → Type 0
Added out l r = Left 0 l r.1 × ((r.0 ≡ out) ⊎ Left 1 l r.1)

line_comments-Added :
    (fuel : ℕ) (column : Option ℕ) (out : Bytes) (l : Lexer)
    → length l.input < fuel
    → Ends (Added out l) (line_comments fuel column out l)
unfolding line_comments
line_comments-Added zero column out l h = absurd (omega arith)
line_comments-Added (suc fuel) column out l h =
    Ends-bind (Found slash l) (Added out l) (find_comment_start slash l) _
      (find_comment_start-Found slash l)
      (λ (found, l1) (a, s). branch found l1 (line_comments-Added fuel) a s)
  where
    behind :
        (l1 l2 : Lexer) (r : Bytes × Lexer)
        → Left 0 l l1
        → Left 1 l1 l2
        → Left 0 l2 r.1
        → Added out l r
    behind l1 l2 r a b c = (
      After-trans 0 1 0 a (After-trans 1 0 1 b c (omega arith)) (omega arith),
      inr (After-trans 0 1 1 a (After-trans 1 0 1 b c (omega arith)) (omega arith)),
    )

    branch :
        (found : Bool) (l1 : Lexer)
        → ((c : Option ℕ) (o : Bytes) (l2 : Lexer)
            → length l2.input < fuel
            → Ends (Added o l2) (line_comments fuel c o l2))
        → Left 0 l l1
        → (found ≡ true → starts slash slash l1.input ≡ true)
        → Ends (Added out l) (
            let same : Bool = elim column [ none ↦ false | some c ↦ l1.colno == c ] in
            if found
            then (rest_of_line l1 >>= λ r.
                line_comments fuel
                  (some l1.colno)
                  ((if same then out ++ newline ∷ [] else []) ++ r.0)
                  r.1)
            else ok (out, l1))
    branch false l1 again a s = (a, inl refl)
    branch true l1 again a s =
        Ends-bind (λ r. Left 1 l1 r.1) (Added out l) (rest_of_line l1) _
          (rest-Commented l1 (s refl))
          (λ (line, l2) b.
            Ends-weaken _ _ (line_comments fuel _ _ l2) (again _ _ l2 (omega (arith, a.1, b.1)))
              (λ r c. behind l1 l2 r a b c.0))

pub get_line_comment-Commented : (l : Lexer) → Ends (Commented l) (get_line_comment l)
unfolding get_line_comment
get_line_comment-Commented l =
    Ends-bind (Found slash l) (Commented l) (find_comment_start slash l) _
      (find_comment_start-Found slash l) (λ (found, l1) (a, s). branch found l1.midline l1 a s)
  where
    not_empty : (out : Bytes) → out ≡ [] → is_empty out ≡ false → ⊥
    not_empty [] same e = absurd cc
    not_empty (b ∷ out) same e = absurd cc

    branch :
        (found midline : Bool) (l1 : Lexer)
        → Left 0 l l1
        → (found ≡ true → starts slash slash l1.input ≡ true)
        → Ends (Commented l) (
            if not found
            then get_1line_block_comment l1
            else if midline
            then rest_of_line l1
            else line_comments (suc (length l1.input)) none [] l1)
    branch false midline l1 a s = later l l1 a (get_1line_block_comment l1) (get_1line-Commented l1)
    branch true true l1 a s =
        Ends-weaken _ _ (rest_of_line l1) (rest-Commented l1 (s refl))
          (λ r b. (After-trans 0 1 0 a b (omega arith), λ e. After-trans 0 1 1 a b (omega arith)))
    branch true false l1 a s =
        Ends-weaken _ _ (line_comments (suc (length l1.input)) none [] l1)
          (line_comments-Added (suc (length l1.input)) none [] l1 (omega arith))
          (λ (out, l2) (b, c). (
            After-trans 0 0 0 a b (omega arith),
            λ e. elim c [
              | inl same ↦ absurd (not_empty out same e)
              | inr d ↦ After-trans 0 1 1 a d (omega arith)
            ],
          ))

skip_closed-Left :
    (was_midline : Bool) (j : ℕ) (l : Lexer)
    → j + 4 ≤ length l.input
    → Ends (λ r. Left 1 l r.1) (skip_closed was_midline j l)
unfolding skip_closed
skip_closed-Left was_midline j l h =
    Ends-bind (Left (j + 4) l) (λ r. Left 1 l r.1) (advance (j + 4) l) _ (advance-Left (j + 4) l h)
      (λ l1 a. branch was_midline l1 a)
  where
    set : Bool × Lexer → Lexer
    set r =
        if r.0
        then record r.1 { block_comment = strip_comment l.colno (take (j + 4) l.input) }
        else r.1

    same : (r : Bool × Lexer) → (set r).input ≡ r.1.input
    same (true, l2) = refl
    same (false, l2) = refl

    branch :
        (m : Bool) (l1 : Lexer)
        → Left (j + 4) l l1
        → Ends {A = Bool × Lexer}
            (λ r. Left 1 l r.1)
            (if m then ok (true, l1) else (skip_wsnl l1 >>= λ r. ok (true, set r)))
    branch true l1 a = (a.0, omega (arith, a.1))
    branch false l1 a =
        Ends-bind (Flagged l1) (λ r. Left 1 l r.1) (skip_wsnl l1) _ (skip_wsnl-Flagged l1)
          (λ r b.
            subst (After 1 l.input) (sym (same r)) (After-trans (j + 4) 0 1 a b.0 (omega arith)))

-- At the start of a block comment.
skip_block-Left :
    (was_midline : Bool) (l : Lexer)
    → Closed l.input
    → starts slash star l.input ≡ true
    → Ends (λ r. Left 1 l r.1) (skip_block was_midline l)
unfolding skip_block
skip_block-Left was_midline l c s =
    let (j, e) = c [] l.input refl s in
    let lt = index_close_lt (drop 2 l.input) j e in
    let two = starts-length slash star l.input s in
    rw (skip_block, e)
      (skip_closed-Left was_midline j (clear_comment l) (omega (arith, length-drop 2 l.input)))

skip_comment-Flagged : (l : Lexer) → Closed l.input → Ends (Flagged l) (skip_comment l)
unfolding skip_comment
skip_comment-Flagged l c =
    Ends-bind (Commented l) (Flagged l) (get_line_comment l) _ (get_line_comment-Commented l)
      (λ (comment, l1) (a, s). branch comment l1 a s)
  where
    kept : Bytes → Lexer → Lexer
    kept comment l1 = if l.midline then clear_comment l1 else record l1 { block_comment = comment }

    same :
        (b : Bool) (comment : Bytes) (l1 : Lexer)
        → (if b then clear_comment l1 else record l1 { block_comment = comment }).input ≡ l1.input
    same true comment l1 = refl
    same false comment l1 = refl

    block :
        (found : Bool) (l1 l2 : Lexer)
        → Left 0 l l1
        → Left 0 l1 l2
        → (found ≡ true → starts slash star l2.input ≡ true)
        → Ends (Flagged l) (if found then skip_block l.midline l2 else ok (false, l2))
    block false l1 l2 a b s = (After-trans 0 0 0 a b (omega arith), λ e. absurd cc)
    block true l1 l2 a b s =
        let at = After-trans 0 0 0 a b (omega arith) in
        Ends-weaken (λ r. Left 1 l2 r.1) (Flagged l) (skip_block l.midline l2)
          (skip_block-Left l.midline l2 (Closed-After 0 l.input l2.input at c) (s refl))
          (λ r d. (After-trans 0 1 0 at d (omega arith), λ e. After-trans 0 1 1 at d (omega arith)))

    branch :
        (comment : Bytes) (l1 : Lexer)
        → Left 0 l l1
        → (is_empty comment ≡ false → Left 1 l l1)
        → Ends (Flagged l) (
            if is_empty comment
            then (find_comment_start star l1 >>= λ r.
                if r.0 then skip_block l.midline r.1 else ok (false, r.1))
            else ok (true, kept comment l1))
    branch [] l1 a s =
        Ends-bind (Found star l1) (Flagged l) (find_comment_start star l1) _
          (find_comment_start-Found star l1) (λ (found, l2) (b, t). block found l1 l2 a b t)
    branch (x ∷ xs) l1 a s = (
      subst (After 0 l.input) (sym (same l.midline (x ∷ xs) l1)) a,
      λ e. subst (After 1 l.input) (sym (same l.midline (x ∷ xs) l1)) (s refl),
    )

-- White space and comments end, if every comment does; each round takes some of the input.
pub skip_space-Left :
    (fuel : ℕ) (l : Lexer)
    → length l.input < fuel
    → Closed l.input
    → Ends (Left 0 l) (skip_space fuel l)
unfolding skip_space
skip_space-Left zero l h c = absurd (omega arith)
skip_space-Left (suc fuel) l h c =
    Ends-bind (Flagged l) (Left 0 l) (skip_comment l) _ (skip_comment-Flagged l c)
      (λ (skipped, l1) (a, s).
        Ends-bind (Flagged l1) (Left 0 l) (skip_wsnl l1) _ (skip_wsnl-Flagged l1)
          (λ (nl, l2) (b, t). branch skipped nl l1 l2 (skip_space-Left fuel) a s b t))
  where
    more :
        (l2 : Lexer)
        → ((k : Lexer)
            → length k.input < fuel
            → Closed k.input
            → Ends (Left 0 k) (skip_space fuel k))
        → Left 1 l l2
        → Ends (Left 0 l) (skip_space fuel l2)
    more l2 again a =
        Ends-weaken (Left 0 l2) (Left 0 l) (skip_space fuel l2)
          (again l2 (omega (arith, a.1)) (Closed-After 1 l.input l2.input a c))
          (λ l3 b. After-trans 1 0 0 a b (omega arith))

    branch :
        (skipped nl : Bool) (l1 l2 : Lexer)
        → ((k : Lexer)
            → length k.input < fuel
            → Closed k.input
            → Ends (Left 0 k) (skip_space fuel k))
        → Left 0 l l1
        → (skipped ≡ true → Left 1 l l1)
        → Left 0 l1 l2
        → (nl ≡ true → Left 1 l1 l2)
        → Ends (Left 0 l) (
            if nl
            then skip_space fuel (clear_comment l2)
            else if skipped
            then skip_space fuel l2
            else ok l2)
    branch skipped true l1 l2 again a s b t =
        more (clear_comment l2) again (After-trans 0 1 1 a (t refl) (omega arith))
    branch true false l1 l2 again a s b t =
        more l2 again (After-trans 1 0 1 (s refl) b (omega arith))
    branch false false l1 l2 again a s b t = After-trans 0 0 0 a b (omega arith)
