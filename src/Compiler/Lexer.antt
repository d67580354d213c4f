-- ===== src/Compiler/Lexer.antt =====
-- cmd/goxdr/lex.go: the state of the lexer, its tokens and the tests of characters. A string is a
-- list of bytes. `at` out of range is `none` for EOFRune.
pub mod Run
pub mod Scan
pub mod Comments
pub mod Tokens
pub mod Rest
pub mod Skips
pub mod Total
pub mod Space
pub mod Next
pub mod Hang
pub mod Closed
use goxdr.Prelude.{
  ℕ, zero, suc, ◌+◌, ◌-◌, ◌*◌, ◌/◌, ◌%◌, Bool, true, false, not, ◌&&◌, ◌||◌, List, [], ◌∷◌, ◌++◌,
  Option, none, some, length, get_elem?, take, drop, ltb, leb, ◌==◌, if◌then◌else◌, Bytes, bytes_eq,
}

pub data TokenType : Type 0 where
  -- a character, or T_ID, T_NUM, or what is not a token (-1)
  char : ℕ → TokenType
  id : TokenType
  num : TokenType
  bad : TokenType
  kw_const : TokenType
  kw_struct : TokenType
  kw_union : TokenType
  kw_enum : TokenType
  kw_typedef : TokenType
  kw_program : TokenType
  kw_namespace : TokenType
  kw_bool : TokenType
  kw_unsigned : TokenType
  kw_int : TokenType
  kw_hyper : TokenType
  kw_float : TokenType
  kw_double : TokenType
  kw_quadruple : TokenType
  kw_void : TokenType
  kw_version : TokenType
  kw_switch : TokenType
  kw_case : TokenType
  kw_default : TokenType
  kw_opaque : TokenType
  kw_string : TokenType

pub record Token : Type 0 where
  pub type : TokenType
  pub value : Bytes
  pub block_comment : Bytes
  pub line_comment : Bytes

-- A line written to stderr: where, and the text's argument.
pub record Diagnostic : Type 0 where
  pub line : ℕ
  pub col : ℕ
  pub text : Bytes

pub record Lexer : Type 0 where
  pub input : Bytes
  pub lineno : ℕ
  pub colno : ℕ
  pub last_tok_line : ℕ
  pub last_tok_col : ℕ
  pub midline : Bool
  pub block_comment : Bytes
  pub new_symbols : List Bytes
  pub failed : Bool
  pub diagnostics : List Diagnostic

-- `NewLexer`
abbrev pub new_lexer : Bytes → Lexer
new_lexer input = record {
  input = input;
  lineno = 1;
  colno = 0;
  last_tok_line = 0;
  last_tok_col = 0;
  midline = false;
  block_comment = [];
  new_symbols = [];
  failed = false;
  diagnostics = [];
}

abbrev pub tabwidth : ℕ
tabwidth = 8

abbrev pub newline : ℕ
newline = 10

abbrev pub return : ℕ
return = 13

abbrev pub tab : ℕ
tab = 9

abbrev pub space : ℕ
space = 32

abbrev pub slash : ℕ
slash = 47

abbrev pub star : ℕ
star = 42

abbrev pub quote : ℕ
quote = 39

abbrev pub keywords : List (Bytes × TokenType)
keywords =
    (99 ∷ 111 ∷ 110 ∷ 115 ∷ 116 ∷ [], kw_const)
    ∷ (115 ∷ 116 ∷ 114 ∷ 117 ∷ 99 ∷ 116 ∷ [], kw_struct)
    ∷ (117 ∷ 110 ∷ 105 ∷ 111 ∷ 110 ∷ [], kw_union)
    ∷ (101 ∷ 110 ∷ 117 ∷ 109 ∷ [], kw_enum)
    ∷ (116 ∷ 121 ∷ 112 ∷ 101 ∷ 100 ∷ 101 ∷ 102 ∷ [], kw_typedef)
    ∷ (112 ∷ 114 ∷ 111 ∷ 103 ∷ 114 ∷ 97 ∷ 109 ∷ [], kw_program)
    ∷ (110 ∷ 97 ∷ 109 ∷ 101 ∷ 115 ∷ 112 ∷ 97 ∷ 99 ∷ 101 ∷ [], kw_namespace)
    ∷ (98 ∷ 111 ∷ 111 ∷ 108 ∷ [], kw_bool)
    ∷ (117 ∷ 110 ∷ 115 ∷ 105 ∷ 103 ∷ 110 ∷ 101 ∷ 100 ∷ [], kw_unsigned)
    ∷ (105 ∷ 110 ∷ 116 ∷ [], kw_int)
    ∷ (104 ∷ 121 ∷ 112 ∷ 101 ∷ 114 ∷ [], kw_hyper)
    ∷ (102 ∷ 108 ∷ 111 ∷ 97 ∷ 116 ∷ [], kw_float)
    ∷ (100 ∷ 111 ∷ 117 ∷ 98 ∷ 108 ∷ 101 ∷ [], kw_double)
    ∷ (113 ∷ 117 ∷ 97 ∷ 100 ∷ 114 ∷ 117 ∷ 112 ∷ 108 ∷ 101 ∷ [], kw_quadruple)
    ∷ (118 ∷ 111 ∷ 105 ∷ 100 ∷ [], kw_void)
    ∷ (118 ∷ 101 ∷ 114 ∷ 115 ∷ 105 ∷ 111 ∷ 110 ∷ [], kw_version)
    ∷ (115 ∷ 119 ∷ 105 ∷ 116 ∷ 99 ∷ 104 ∷ [], kw_switch)
    ∷ (99 ∷ 97 ∷ 115 ∷ 101 ∷ [], kw_case)
    ∷ (100 ∷ 101 ∷ 102 ∷ 97 ∷ 117 ∷ 108 ∷ 116 ∷ [], kw_default)
    ∷ (111 ∷ 112 ∷ 97 ∷ 113 ∷ 117 ∷ 101 ∷ [], kw_opaque)
    ∷ (115 ∷ 116 ∷ 114 ∷ 105 ∷ 110 ∷ 103 ∷ [], kw_string)
    ∷ []

abbrev pub find_keyword : Bytes → List (Bytes × TokenType) → Option TokenType
find_keyword s [] = none
find_keyword s ((k, t) ∷ ks) = if bytes_eq k s then some t else find_keyword s ks

-- `c &^ 0x20` of a byte
abbrev pub clear_20 : ℕ → ℕ
clear_20 c = if c / 32 % 2 == 1 then c - 32 else c

-- `c | 0x20` of a byte
abbrev pub set_20 : ℕ → ℕ
set_20 c = if c / 32 % 2 == 1 then c else c + 32

unfoldable pub is_digit : ℕ → Bool
is_digit c = (leb 48 c && leb c 57) || c == quote

unfoldable pub is_hex_digit : ℕ → Bool
unfolding is_digit
is_hex_digit c = is_digit c || ((leb 65 (clear_20 c) && leb (clear_20 c) 70) || clear_20 c == quote)

unfoldable pub is_id_start : ℕ → Bool
is_id_start c = c == 95 || (leb 65 (clear_20 c) && leb (clear_20 c) 90)

unfoldable pub is_id_rest : ℕ → Bool
unfolding is_id_start is_digit
is_id_rest c = is_id_start c || is_digit c

unfoldable pub is_not_ws : ℕ → Bool
is_not_ws c = not (c == space) && not (c == tab)

-- `strings.ContainsRune("=;{}<>[]*,:()", c)`
unfoldable pub is_punctuation : ℕ → Bool
is_punctuation c = among c (61 ∷ 59 ∷ 123 ∷ 125 ∷ 60 ∷ 62 ∷ 91 ∷ 93 ∷ 42 ∷ 44 ∷ 58 ∷ 40 ∷ 41 ∷ [])
  where
    among : ℕ → List ℕ → Bool
    among c [] = false
    among c (d ∷ ds) = c == d || among c ds

-- A test of `l.at(i)`: EOFRune passes none.
abbrev pub passes : (ℕ → Bool) → Option ℕ → Bool
passes f none = false
passes f (some c) = f c

abbrev pub at : Lexer → ℕ → Option ℕ
at l i = get_elem? l.input i

abbrev pub clear_comment : Lexer → Lexer
clear_comment l = record l { block_comment = [] }

-- `Warn`
unfoldable pub warn : Bytes → Lexer → Lexer
warn e l = record l {
  diagnostics =
      l.diagnostics ++ record { line = l.last_tok_line; col = suc l.last_tok_col; text = e } ∷ [];
}

-- `Error`
unfoldable pub error : Bytes → Lexer → Lexer
unfolding warn
error e l = record (warn e l) { failed = true }

unfoldable pub known : Bytes → List Bytes → Bool
known s [] = false
known s (t ∷ ts) = bytes_eq s t || known s ts

-- `Checkdup`; the text of the error is `sym` with " re-defined" behind it
unfoldable pub checkdup : Bytes → Lexer → Lexer
unfolding error known
checkdup sym l =
    if known sym l.new_symbols then error sym l else record l { new_symbols = sym ∷ l.new_symbols }
