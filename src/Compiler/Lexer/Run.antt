-- ===== src/Compiler/Lexer/Run.antt =====
-- How a function of the lexer ends, and what holds of it then.

-- A panic of Go's runtime or of the code, or the fuel of a loop used up.
pub data Run (A : Type 0) : Type 0 where
  ok : A → Run A
  panic : Run A
  out_of_fuel : Run A

infixl 5 ◌>>=◌
abbrev pub ◌>>=◌ : {A B : Type 0} → Run A → (A → Run B) → Run B
ok a >>= f = f a
panic >>= f = panic
out_of_fuel >>= f = out_of_fuel

-- It ends with a value, of which `P` holds.
abbrev pub Ends : {A : Type 0} → (A → Type 0) → Run A → Type 0
Ends P (ok a) = P a
Ends P panic = ⊥
Ends P out_of_fuel = ⊥

pub Ends-bind :
    {A B : Type 0} (P : A → Type 0) (Q : B → Type 0) (m : Run A) (f : A → Run B)
    → Ends P m
    → ((a : A) → P a → Ends Q (f a))
    → Ends Q (m >>= f)
Ends-bind P Q (ok a) f h k = k a h
Ends-bind P Q panic f h k = absurd h
Ends-bind P Q out_of_fuel f h k = absurd h

pub Ends-weaken :
    {A : Type 0} (P Q : A → Type 0) (m : Run A) → Ends P m → ((a : A) → P a → Q a) → Ends Q m
Ends-weaken P Q (ok a) h k = k a h
Ends-weaken P Q panic h k = h
Ends-weaken P Q out_of_fuel h k = h
