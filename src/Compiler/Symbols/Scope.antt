-- ===== src/Compiler/Symbols/Scope.antt =====
-- cmd/goxdr/goxdr.go: scopeEnumTags puts the name of its enum before each tag's Go name.
pub mod Tags
pub mod References
use goxdr.Prelude.{ℕ, zero, suc, List, [], ◌∷◌, ◌++◌, Option, none, some, map, Bytes}
use goxdr.Compiler.Symbols.{
  capitalize, IdVal, Const, Sym, const_sym, typedef_sym, struct_sym, enum_sym, union_sym,
  program_sym, Decl, Ufields, no_ufield, ufield, Entry, global, tag, Syms, find,
}

abbrev pub Renames : Type 0
Renames = List (Bytes × Bytes)

-- `newGoName`
unfoldable pub tag_name : Bytes → Bytes → Bytes
tag_name prefix xname = b'k' ∷ prefix ++ capitalize xname

-- The first loop: the tags of an enum get their names, and the names are put down.
unfoldable pub name_tags : Bytes → List Const → List Const
unfolding tag_name
name_tags prefix [] = []
name_tags prefix (t ∷ ts) =
    record t { id = record { xid = t.id.xid; goid = tag_name prefix t.id.xid } }
    ∷ name_tags prefix ts

abbrev pub name_enum : Sym → Sym
name_enum (const_sym c) = const_sym c
name_enum (typedef_sym d) = typedef_sym d
name_enum (struct_sym i ds) = struct_sym i ds
name_enum (enum_sym i ts) = enum_sym i (name_tags i.goid ts)
name_enum (union_sym i t g fs h) = union_sym i t g fs h
name_enum (program_sym i n vs) = program_sym i n vs

unfoldable pub add_tags : Bytes → List Const → Renames → Renames
unfolding tag_name
add_tags prefix [] renames = renames
add_tags prefix (t ∷ ts) renames =
    add_tags prefix ts ((t.id.xid, tag_name prefix t.id.xid) ∷ renames)

abbrev pub add_enum : Sym → Renames → Renames
add_enum (const_sym c) renames = renames
add_enum (typedef_sym d) renames = renames
add_enum (struct_sym i ds) renames = renames
add_enum (enum_sym i ts) renames = add_tags i.goid ts renames
add_enum (union_sym i t g fs h) renames = renames
add_enum (program_sym i n vs) renames = renames

unfoldable pub collect : List Sym → Renames → Renames
collect [] renames = renames
collect (s ∷ ss) renames = collect ss (add_enum s renames)

-- `applyRename`
abbrev pub set_go : IdVal → Option Bytes → IdVal
set_go iv none = iv
set_go iv (some name) = record iv { goid = name }

unfoldable pub apply_rename : Renames → IdVal → IdVal
unfolding find
apply_rename renames iv = set_go iv (find iv.xid renames)

-- The second loop, over what refers to a tag
unfoldable pub apply_vals : Renames → List Const → List Const
apply_vals renames [] = []
apply_vals renames (t ∷ ts) = record t { val = apply_rename renames t.val } ∷ apply_vals renames ts

unfoldable pub apply_cases : Renames → List IdVal → List IdVal
apply_cases renames [] = []
apply_cases renames (c ∷ cs) = apply_rename renames c ∷ apply_cases renames cs

unfoldable pub apply_fields : Renames → Ufields → Ufields
unfolding apply_cases
apply_fields renames no_ufield = no_ufield
apply_fields renames (ufield cases d h fs) =
    ufield (apply_cases renames cases) d h (apply_fields renames fs)

abbrev pub apply_sym : Renames → Sym → Sym
apply_sym renames (const_sym c) = const_sym (record c { val = apply_rename renames c.val })
apply_sym renames (typedef_sym d) = typedef_sym d
apply_sym renames (struct_sym i ds) = struct_sym i ds
apply_sym renames (enum_sym i ts) = enum_sym i (apply_vals renames ts)
apply_sym renames (union_sym i t g fs h) = union_sym i t g (apply_fields renames fs) h
apply_sym renames (program_sym i n vs) = program_sym i n vs

-- The third loop: the constants of `SymbolMap`, those of `Symbols` among them
abbrev pub apply_both : Renames → Const → Const
apply_both renames c = record { id = apply_rename renames c.id; val = apply_rename renames c.val }

abbrev pub apply_const : Renames → Sym → Sym
apply_const renames (const_sym c) = const_sym (apply_both renames c)
apply_const renames (typedef_sym d) = typedef_sym d
apply_const renames (struct_sym i ds) = struct_sym i ds
apply_const renames (enum_sym i ts) = enum_sym i ts
apply_const renames (union_sym i t g fs h) = union_sym i t g fs h
apply_const renames (program_sym i n vs) = program_sym i n vs

unfoldable pub apply_at : Renames → ℕ → List Sym → List Sym
apply_at renames i [] = []
apply_at renames zero (s ∷ ss) = apply_const renames s ∷ ss
apply_at renames (suc i) (s ∷ ss) = s ∷ apply_at renames i ss

abbrev pub apply_object : Renames → Entry → Entry
apply_object renames (global i) = global i
apply_object renames (tag c) = tag (apply_both renames c)

unfoldable pub apply_entries : Renames → List (Bytes × Entry) → List (Bytes × Entry)
apply_entries renames [] = []
apply_entries renames ((x, e) ∷ m) = (x, apply_object renames e) ∷ apply_entries renames m

unfoldable pub apply_globals : Renames → List (Bytes × Entry) → List Sym → List Sym
unfolding apply_at
apply_globals renames [] ss = ss
apply_globals renames ((x, global i) ∷ m) ss = apply_globals renames m (apply_at renames i ss)
apply_globals renames ((x, tag c) ∷ m) ss = apply_globals renames m ss

-- `scopeEnumTags`
unfoldable pub scope_enum_tags : Syms → Syms
unfolding collect apply_entries apply_globals
scope_enum_tags syms =
    let renames : Renames = collect syms.symbols [] in
    record {
      symbol_map = apply_entries renames syms.symbol_map;
      symbols =
          apply_globals renames syms.symbol_map
            (map (apply_sym renames) (map name_enum syms.symbols));
    }
