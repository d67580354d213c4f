-- ===== src/Gorpc/ToJson.antt =====
-- cmd/gorpc/jsonxdr.go: jsonOut, over XDR values.
use goxdr.Prelude.{
  ℕ, suc, Bool, true, false, not, [], ◌∷◌, ◌++◌, Option, none, some, ltb, ◌==◌, if◌then◌else◌,
  Bytes, codes,
}
use goxdr.Xdr.Fault.{Result, ok, throw, xdr_error, ◌>>=◌}
use goxdr.Gorpc.Names.{hide_field_name}
use goxdr.Gorpc.Hex.{encode}
use goxdr.Gorpc.Values.{
  Kind, bool, enum, int32, uint32, float32, int64, uint64, float64, Value, scalar, string, opaque,
  fixed, pointer, vec, array, struct, union, Ptr, absent, present, Items, nil, cons, Fields, end,
  field, Arms, no_default, void_default, default, void_arm, arm, Body, unset, body, is_case, count,
  Fmt, access, index_name,
}

pub record JsonOut : Type 0 where
  pub out : Bytes
  pub indent : Bytes
  pub need_comma : Bool

abbrev pub write : Bytes → JsonOut → JsonOut
write text j = record j { out = j.out ++ text }

-- `len(name) > 0 && name[0] != '['`
abbrev pub has_key : Bytes → Bool
has_key [] = false
has_key (c ∷ name) = not (c == b'[')

-- `aggregate` before and behind the marshalling of the parts
unfoldable pub begin : ℕ → JsonOut → JsonOut
begin bracket j = record {
  out = j.out ++ bracket ∷ [];
  indent = j.indent ++ codes "    ";
  need_comma = false;
}

unfoldable pub finish : ℕ → Bytes → JsonOut → JsonOut
finish bracket old_indent j = record {
  out = j.out ++ (codes "\n" ++ (old_indent ++ bracket ∷ []));
  indent = old_indent;
  need_comma = true;
}

module _ (F : Fmt) where
  -- `printField`, of the formatted text
  unfoldable pub print_field : Bytes → Bytes → JsonOut → JsonOut
  print_field name text j = record j {
    out =
        j.out
        ++ ((if j.need_comma then codes ",\n" else codes "\n")
            ++ (j.indent ++ ((if has_key name then F.quote name ++ codes ": " else []) ++ text)));
    need_comma = true;
  }

  -- The cases for the basic types: `%v` of a Boolean, `%q` of an enum, the text of a number of 32
  -- bits, and `%q` of one of 64
  unfoldable pub scalar_text : Kind → ℕ → Bytes
  scalar_text bool n = F.show bool n
  scalar_text (enum name) n = F.quote (F.show (enum name) n)
  scalar_text int32 n = F.show int32 n
  scalar_text uint32 n = F.show uint32 n
  scalar_text float32 n = F.show float32 n
  scalar_text int64 n = F.quote (F.show int64 n)
  scalar_text uint64 n = F.quote (F.show uint64 n)
  scalar_text float64 n = F.quote (F.show float64 n)

  -- The case for aggregates, of which only structs and unions are hidden
  abbrev pub aggregate :
      Bool → Bytes → ℕ → ℕ → (JsonOut → Result JsonOut) → JsonOut → Result JsonOut
  unfolding print_field begin finish
  aggregate hidden name left right parts j =
      if hidden
      then parts j
      else parts (begin left (print_field name [] j)) >>= λ k. ok (finish right j.indent k)

  unfoldable mutual
    unfolding print_field scalar_text begin finish

    -- `(*jsonOut).Marshal`
    pub marshal : Value → Bytes → JsonOut → Result JsonOut
    marshal (scalar k n) name j = ok (print_field name (scalar_text k n) j)
    marshal (string bound s) name j = ok (print_field name (F.quote s) j)
    marshal (opaque bound s) name j =
        ok (write (codes "\"") (write (encode s) (print_field name (codes "\"") j)))
    marshal (fixed s) name j =
        ok (write (codes "\"") (write (encode s) (print_field name (codes "\"") j)))
    marshal (pointer blank p) name j = marshal_ptr p name j
    marshal (vec bound blank xs) name j =
        if ltb bound (count xs)
        then throw xdr_error
        else aggregate false name b'[' b']' (marshal_items xs 0) j
    marshal (array xs) name j = aggregate false name b'[' b']' (marshal_items xs 0) j
    marshal (struct type fs) name j =
        aggregate (hide_field_name name type) name b'{' b'}' (marshal_fields fs) j
    marshal (union type tag k n arms u) name j =
        aggregate (hide_field_name name type) name b'{' b'}'
          (λ i. marshal_arms arms n (marshal_body u) (print_field tag (scalar_text k n) i)) j

    pub marshal_ptr : Ptr → Bytes → JsonOut → Result JsonOut
    marshal_ptr absent name j = ok (print_field name (codes "null") j)
    marshal_ptr (present v) name j = marshal v name j

    -- The elements from the `i`th on
    pub marshal_items : Items → ℕ → JsonOut → Result JsonOut
    marshal_items nil i j = ok j
    marshal_items (cons x xs) i j = marshal x (index_name F i) j >>= marshal_items xs (suc i)

    pub marshal_fields : Fields → JsonOut → Result JsonOut
    marshal_fields end j = ok j
    marshal_fields (field name v fs) j = marshal v name j >>= marshal_fields fs

    -- The switch of a union's XdrRecurse
    pub marshal_arms :
        Arms → ℕ → Option (Bytes × (Bytes → JsonOut → Result JsonOut)) → JsonOut → Result JsonOut
    marshal_arms no_default n u j = throw xdr_error
    marshal_arms void_default n u j = ok j
    marshal_arms (default name type blank) n u j = access type u (marshal blank) name j
    marshal_arms (void_arm cases rest) n u j =
        if is_case n cases then ok j else marshal_arms rest n u j
    marshal_arms (arm cases name type blank rest) n u j =
        if is_case n cases then access type u (marshal blank) name j else marshal_arms rest n u j

    pub marshal_body : Body → Option (Bytes × (Bytes → JsonOut → Result JsonOut))
    marshal_body unset = none
    marshal_body (body type v) = some (type, marshal v)

  -- `XdrToJson`: any panic of it is an error, with no text.
  unfoldable pub xdr_to_json : Value → Result Bytes
  xdr_to_json v =
      marshal v [] (record { out = []; indent = []; need_comma = false }) >>= λ j. ok j.out
