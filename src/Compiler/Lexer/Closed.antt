-- ===== src/Compiler/Lexer/Closed.antt =====
-- A test of `Closed`.
use goxdr.Prelude.{
  ℕ, Bool, true, false, not, ◌&&◌, ◌||◌, [], ◌∷◌, Option, none, some, drop, Bytes, refl, sym, ap,
  ◌≡◌, arith, subst,
}
use goxdr.Compiler.Lexer.{slash, star}
use goxdr.Compiler.Lexer.Scan.{starts, index_close}
use goxdr.Compiler.Lexer.Comments.{is_some}
use goxdr.Compiler.Lexer.Total.{Closed}

abbrev pub closed_here : Bytes → Bool
closed_here s = not (starts slash star s) || is_some (index_close (drop 2 s))

abbrev pub is_closed : Bytes → Bool
is_closed [] = true
is_closed (c ∷ s) = closed_here (c ∷ s) && is_closed s

must_close :
    (b : Bool) (o : Option ℕ) → (not b || is_some o) ≡ true → b ≡ true → (j : ℕ) × (o ≡ some j)
must_close b (some j) h f = (j, refl)
must_close true none h f = absurd cc
must_close false none h f = absurd cc

both : (a b : Bool) → (a && b) ≡ true → (a ≡ true) × (b ≡ true)
both a b e = ground arith

abbrev tail : Bytes → Bytes
tail [] = []
tail (c ∷ s) = s

nothing : (t : Bytes) → t ≡ [] → starts slash star t ≡ true → ⊥
nothing [] e f = cc
nothing (c ∷ t) e f = cc

pub is_closed-Closed : (s : Bytes) → is_closed s ≡ true → Closed s
is_closed-Closed [] h [] t e f = absurd (nothing t e f)
is_closed-Closed [] h (b ∷ p) t e f = absurd cc
is_closed-Closed (c ∷ s) h [] t e f =
    must_close (starts slash star t) (index_close (drop 2 t))
      (subst (λ u. closed_here u ≡ true) (sym e) (both _ _ h).0) f
is_closed-Closed (c ∷ s) h (b ∷ p) t e f = is_closed-Closed s (both _ _ h).1 p t (ap tail e) f
