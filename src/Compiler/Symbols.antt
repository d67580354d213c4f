-- ===== src/Compiler/Symbols.antt =====
-- cmd/goxdr/syms.go and the head of cmd/goxdr/goxdr.go: what the parser leaves to the code generator.
-- The source's comments, which go to the output as they are, are left out.
pub mod Bound
pub mod Boolean
pub mod Scope
use goxdr.Prelude.{
  ℕ, zero, suc, Bool, true, false, ◌&&◌, List, [], ◌∷◌, ◌++◌, Option, none, some, get_elem?, leb,
  if◌then◌else◌, Bytes, bytes_eq, codes,
}
use goxdr.Compiler.Lexer.{clear_20, set_20}
use goxdr.Gorpc.Names.{has_prefix}

abbrev pub is_lower : ℕ → Bool
is_lower c = leb b'a' c && leb c b'z'

-- `capitalize` and `uncapitalize`, of an ASCII string
unfoldable pub capitalize : Bytes → Bytes
capitalize [] = []
capitalize (c ∷ s) = if is_lower c then clear_20 c ∷ s else c ∷ s

unfoldable pub uncapitalize : Bytes → Bytes
uncapitalize [] = []
uncapitalize (c ∷ s) = if leb b'A' c && leb c b'Z' then set_20 c ∷ s else c ∷ s

unfoldable pub xdrinline : Bytes → Bytes
unfolding has_prefix
xdrinline s = if has_prefix s (codes "XdrAnon_") then s else codes "XdrAnon_" ++ s

-- `idval`: the symbol in the XDR file, and the name in Go
pub record IdVal : Type 0 where
  pub xid : Bytes
  pub goid : Bytes

-- `setglobal`, `gid` and `setlocal`, `lid`
unfoldable pub gid : Bytes → IdVal
unfolding capitalize
gid s = record { xid = s; goid = capitalize s }

unfoldable pub lid : Bytes → IdVal
lid s = record { xid = s; goid = s }

pub data Qual : Type 0 where
  scalar : Qual
  ptr : Qual
  array : Qual
  vec : Qual

pub record Const : Type 0 where
  pub id : IdVal
  pub val : IdVal

pub record Proc : Type 0 where
  pub id : IdVal
  pub val : ℕ
  pub arg : List IdVal
  pub res : IdVal

pub record Vers : Type 0 where
  pub id : IdVal
  pub val : ℕ
  pub procs : List Proc

mutual
  -- `rpc_sym`, with the fields of the types that implement it
  pub data Sym : Type 0 where
    const_sym : Const → Sym
    typedef_sym : Decl → Sym
    struct_sym : IdVal → Decls → Sym
    enum_sym : IdVal → List Const → Sym
    -- id, tagtype, tagid, fields and hasdefault
    union_sym : IdVal → IdVal → IdVal → Ufields → Bool → Sym
    program_sym : IdVal → ℕ → List Vers → Sym

  -- `rpc_decl`: id, qual, bound, typ and inline_decl
  pub data Decl : Type 0 where
    decl : IdVal → Qual → IdVal → IdVal → Inline → Decl

  pub data Inline : Type 0 where
    no_inline : Inline
    inline : Sym → Inline

  pub data Decls : Type 0 where
    nil : Decls
    cons : Decl → Decls → Decls

  -- `rpc_ufield`s: cases, decl and hasdefault
  pub data Ufields : Type 0 where
    no_ufield : Ufields
    ufield : List IdVal → Decl → Bool → Ufields → Ufields

-- A value of `SymbolMap`: one of `Symbols`, by its index, or an object for a tag of an enum.
pub data Entry : Type 0 where
  global : ℕ → Entry
  tag : Const → Entry

-- `rpc_syms`
pub record Syms : Type 0 where
  pub symbol_map : List (Bytes × Entry)
  pub symbols : List Sym

-- A string-keyed Go map as a list of its entries, of which the first of a key counts
unfoldable pub find {ℓ} : {A : Type ℓ} → Bytes → List (Bytes × A) → Option A
find x [] = none
find x ((y, v) ∷ m) = if bytes_eq y x then some v else find x m

abbrev pub deref : List Sym → Option Entry → Option Sym
deref symbols none = none
deref symbols (some (global i)) = get_elem? symbols i
deref symbols (some (tag c)) = some (const_sym c)

-- `SymbolMap[x]`
unfoldable pub lookup_sym : Bytes → Syms → Option Sym
unfolding find
lookup_sym x syms = deref syms.symbols (find x syms.symbol_map)
