-- ===== src/Compiler/Tests.antt =====
-- The lexer on concrete inputs.
mod Symbols
use goxdr.Prelude.{[], ◌∷◌, Bytes, ◌≡◌, refl}
use goxdr.Compiler.Lexer.{new_lexer}
use goxdr.Compiler.Lexer.Run.{out_of_fuel, Ends}
use goxdr.Compiler.Lexer.Scan.{index_close}
use goxdr.Compiler.Lexer.Comments.{skip_space}
use goxdr.Compiler.Lexer.Tokens.{lex}
use goxdr.Compiler.Lexer.Total.{Closed}
use goxdr.Compiler.Lexer.Next.{Took, lex_lem}
use goxdr.Compiler.Lexer.Closed.{is_closed-Closed}
use goxdr.Compiler.Lexer.Hang.{opening, skip_space-opening}

-- "int /* */ x"
abbrev int_x : Bytes
int_x = 105 ∷ 110 ∷ 116 ∷ 32 ∷ 47 ∷ 42 ∷ 32 ∷ 42 ∷ 47 ∷ 32 ∷ 120 ∷ []

int_x-Closed : Closed int_x
unfolding index_close
int_x-Closed = is_closed-Closed int_x refl

lex_example : Ends (Took (new_lexer int_x)) (lex (new_lexer int_x))
lex_example = lex_lem (new_lexer int_x) int_x-Closed

skip_space-opening_example : skip_space 1000 (opening (120 ∷ []) (new_lexer [])) ≡ out_of_fuel
unfolding index_close
skip_space-opening_example = skip_space-opening 1000 (120 ∷ []) (new_lexer []) refl
