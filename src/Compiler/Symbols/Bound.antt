-- ===== src/Compiler/Symbols/Bound.antt =====
-- cmd/goxdr/goxdr.go: get_bound follows a bound through the constants.
pub mod Ends
use goxdr.Prelude.{
  ℕ, zero, suc, ◌+◌, ◌≤◌, ◌<◌, Bool, false, ◌||◌, List, [], ◌∷◌, Option, none, some, length,
  if◌then◌else◌, Bytes, bytes_eq, bytes_eq_iff, bytes_eq_refl, codes, ◌≡◌, inl, inr, arith,
  Bool-cases, ◌==◌,
}
use goxdr.Compiler.Symbols.{
  IdVal, lid, Sym, const_sym, typedef_sym, struct_sym, enum_sym, union_sym, program_sym, Entry,
  Syms, find, lookup_sym,
}

unfoldable pub seen : Bytes → List Bytes → Bool
seen x [] = false
seen x (y ∷ ys) = bytes_eq y x || seen x ys

-- `d2.val`, if the symbol is a constant
abbrev pub const_val : Option Sym → Option IdVal
const_val none = none
const_val (some (const_sym c)) = some c.val
const_val (some (typedef_sym d)) = none
const_val (some (struct_sym i ds)) = none
const_val (some (enum_sym i ts)) = none
const_val (some (union_sym i t g fs h)) = none
const_val (some (program_sym i n vs)) = none

unfoldable pub next_bound : Syms → IdVal → Option IdVal
unfolding lookup_sym
next_bound syms b = const_val (lookup_sym b.xid syms)

-- The loop over `loop`, which holds the names that it was at; none if the fuel runs out
unfoldable pub bound_loop : ℕ → Syms → List Bytes → IdVal → Option IdVal
unfolding seen next_bound
bound_loop zero syms loop b = none
bound_loop (suc fuel) syms loop b =
    if seen b.xid loop
    then some b
    else elim (next_bound syms b) [ none ↦ some b | some v ↦ bound_loop fuel syms (b.xid ∷ loop) v ]

-- Behind the loop, over `strconv.ParseUint(…, 0, 32)` and `%d`: the bound, and its name in a type's
-- name. `b.getx()[0]` is reached only if the name is not empty.
abbrev pub starts_minus : Bytes → Bool
starts_minus [] = false
starts_minus (c ∷ s) = c == b'-'

unfoldable pub named_bound : (Bytes → Option ℕ) → (ℕ → Bytes) → IdVal → IdVal → Bytes × Bytes
unfolding lid
named_bound parse_uint print b0 b =
    let x : Bytes = if length b.xid == 0 then codes "0xffffffff" else b.xid in
    elim (parse_uint x) [
      | some n ↦
          if bytes_eq (print n) (codes "4294967295")
          then (print n, codes "unbounded")
          else (print n, print n)
      | none ↦
          if starts_minus x
          then (b0.xid, b0.xid)
          else if bytes_eq x (codes "4294967295")
          then (x, codes "unbounded")
          else (x, x)
    ]

-- `get_bound`
unfoldable pub get_bound : (Bytes → Option ℕ) → (ℕ → Bytes) → Syms → IdVal → Option (Bytes × Bytes)
get_bound parse_uint print syms b0 = elim (bound_loop (suc (length syms.symbol_map)) syms [] b0) [
  | none ↦ none
  | some b ↦ some (named_bound parse_uint print b0 b)
]

-- The names that the loop visits.
pub data Follows (syms : Syms) : IdVal → IdVal → Type 0 where
  here : {b : IdVal} → Follows syms b b
  on : {b v w : IdVal} → next_bound syms b ≡ some v → Follows syms v w → Follows syms b w
