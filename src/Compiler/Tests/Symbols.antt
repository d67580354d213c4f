-- ===== src/Compiler/Tests/Symbols.antt =====
-- The symbols of a small XDR file.
use goxdr.Prelude.{
  ℕ, ◌+◌, true, false, [], ◌∷◌, Option, none, some, if◌then◌else◌, Bytes, bytes_eq, codes, ◌≡◌,
  refl,
}
use goxdr.Compiler.Symbols.{
  IdVal, lid, scalar, const_sym, typedef_sym, enum_sym, union_sym, decl, no_inline, no_ufield,
  ufield, global, tag, Syms, find, lookup_sym, capitalize,
}
use goxdr.Compiler.Symbols.Bound.{get_bound, named_bound, bound_loop, seen, next_bound, Follows}
use goxdr.Compiler.Symbols.Bound.Ends.{Final, get_bound_lem}
use goxdr.Compiler.Symbols.Boolean.{next_type, not_defined, is_bool}
use goxdr.Compiler.Symbols.Scope.{
  scope_enum_tags, collect, add_tags, tag_name, name_tags, apply_entries, apply_globals, apply_at,
  apply_rename, apply_vals, apply_cases, apply_fields,
}
use goxdr.Compiler.Symbols.Scope.Tags.{tags, xids}
use goxdr.Compiler.Symbols.Scope.References.{scope_enum_tags_lem}

abbrev name : Bytes → IdVal
name s = record { xid = s; goid = s }

-- enum Color { red = 3 }; const Size = red; typedef bool Flag; typedef Loop Loop;
-- union U switch (Color c) { case red: void; };
abbrev file : Syms
file = record {
  symbol_map =
      (codes "red", tag (record { id = name (codes "red"); val = name (codes "3") }))
      ∷ (codes "Size", global 1)
      ∷ (codes "Flag", global 2)
      ∷ (codes "Loop", global 3)
      ∷ [];
  symbols =
      enum_sym (name (codes "Color"))
        (record { id = name (codes "red"); val = name (codes "3") } ∷ [])
      ∷ const_sym (record { id = name (codes "Size"); val = name (codes "red") })
      ∷ typedef_sym (decl (name (codes "Flag")) scalar (name []) (name (codes "bool")) no_inline)
      ∷ typedef_sym (decl (name (codes "Loop")) scalar (name []) (name (codes "Loop")) no_inline)
      ∷ union_sym (name (codes "U")) (name (codes "Color")) (name (codes "c"))
          (ufield (name (codes "red") ∷ [])
            (decl (name []) scalar (name []) (name (codes "void")) no_inline) false no_ufield)
          false
      ∷ [];
}

-- One digit
abbrev parse_digit : Bytes → Option ℕ
parse_digit s = if bytes_eq s (codes "3") then some 3 else none

abbrev print_digit : ℕ → Bytes
print_digit n = (b'0' + n) ∷ []

get_bound_lem_example :
    (w : IdVal) × (get_bound parse_digit print_digit file (name (codes "Size"))
      ≡ some (named_bound parse_digit print_digit (name (codes "Size")) w))
    × Follows file (name (codes "Size")) w
    × Final file w
get_bound_lem_example = get_bound_lem file parse_digit print_digit (name (codes "Size"))

size_bound :
    get_bound parse_digit print_digit file (name (codes "Size")) ≡ some (codes "3", codes "3")
unfolding get_bound bound_loop seen next_bound lookup_sym find bytes_eq named_bound lid
size_bound = refl

flag_is_bool : is_bool 2 file (name (codes "Flag")) ≡ some true
unfolding is_bool next_type not_defined lookup_sym find bytes_eq
flag_is_bool = refl

abbrev scoped : IdVal
scoped = record { xid = codes "red"; goid = codes "kColorRed" }

scope_enum_tags_lem_example :
    (scoped.goid ≡ scoped.goid)
    × (xids (tags (scope_enum_tags file).symbols) ≡ xids (tags file.symbols))
unfolding scope_enum_tags collect add_tags tag_name capitalize name_tags apply_entries apply_globals
    apply_at apply_rename apply_vals apply_cases apply_fields find bytes_eq
scope_enum_tags_lem_example = scope_enum_tags_lem file 2 0 scoped scoped (tt, tt) refl refl refl
