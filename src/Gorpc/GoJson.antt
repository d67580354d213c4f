-- ===== src/Gorpc/GoJson.antt =====
-- cmd/gorpc/jsonxdr.go: marshalGo and aggregateGo, which write Go values by reflection. A value is what
-- the type switches and package reflect tell of it.
pub mod Text
use goxdr.Prelude.{ℕ, Bool, true, false, [], ◌++◌, Bytes, codes}
use goxdr.Gorpc.Hex.{encode}
use goxdr.Gorpc.Values.{Kind, bool, int32, uint32, int64, uint64, float32, float64, Fmt}
use goxdr.Gorpc.ToJson.{JsonOut, write, print_field, scalar_text, begin, finish}

-- The predeclared types that the switch of marshalGo names
pub data Basic : Type 0 where
  go_bool : Basic
  go_int32 : Basic
  go_uint32 : Basic
  go_int64 : Basic
  go_uint64 : Basic
  go_float32 : Basic
  go_float64 : Basic

abbrev pub kind : Basic → Kind
kind go_bool = bool
kind go_int32 = int32
kind go_uint32 = uint32
kind go_int64 = int64
kind go_uint64 = uint64
kind go_float32 = float32
kind go_float64 = float64

mutual
  pub data GoValue : Type 0 where
    basic : Basic → ℕ → GoValue
    go_string : Bytes → GoValue
    -- []byte, and other slices and arrays of bytes
    byte_slice : Bytes → GoValue
    byte_list : Bytes → GoValue
    -- time.Time, as %v prints it
    time : Bytes → GoValue
    -- slices and arrays
    list : GoItems → GoValue
    structure : GoFields → GoValue
    -- pointers and interfaces
    reference : GoRef → GoValue
    -- all else, as %v prints it
    other : Bytes → GoValue

  pub data GoRef : Type 0 where
    nil_ref : GoRef
    ref : GoValue → GoRef

  pub data GoItems : Type 0 where
    no_item : GoItems
    item : GoValue → GoItems → GoItems

  -- The fields of a struct: exported or not, the name, and the value
  pub data GoFields : Type 0 where
    no_field : GoFields
    go_field : Bool → Bytes → GoValue → GoFields → GoFields

module _ (F : Fmt) where
  unfoldable mutual
    unfolding print_field scalar_text begin finish

    -- `marshalGo`, whose cases for basic types, strings and []byte are those of `Marshal`
    pub marshal_go : GoValue → Bytes → JsonOut → JsonOut
    marshal_go (basic b n) name j = print_field F name (scalar_text F (kind b) n) j
    marshal_go (go_string s) name j = print_field F name (F.quote s) j
    marshal_go (byte_slice s) name j =
        write (codes "\"") (write (encode s) (print_field F name (codes "\"") j))
    marshal_go (byte_list s) name j =
        write (codes "\"") (write (encode s) (print_field F name (codes "\"") j))
    marshal_go (time t) name j = print_field F name t j
    marshal_go (list xs) name j =
        finish b']' j.indent (aggregate_items xs (begin b'[' (print_field F name [] j)))
    marshal_go (structure fs) name j =
        finish b'}' j.indent (aggregate_fields fs (begin b'{' (print_field F name [] j)))
    marshal_go (reference r) name j = marshal_ref r name j
    marshal_go (other t) name j = print_field F name t j

    pub marshal_ref : GoRef → Bytes → JsonOut → JsonOut
    marshal_ref nil_ref name j = print_field F name (codes "<nil>") j
    marshal_ref (ref v) name j = marshal_go v name j

    -- The loops of `aggregateGo`
    pub aggregate_items : GoItems → JsonOut → JsonOut
    aggregate_items no_item j = j
    aggregate_items (item v xs) j = aggregate_items xs (marshal_go v [] j)

    pub aggregate_fields : GoFields → JsonOut → JsonOut
    aggregate_fields no_field j = j
    aggregate_fields (go_field true name v fs) j = aggregate_fields fs (marshal_go v name j)
    aggregate_fields (go_field false name v fs) j = aggregate_fields fs j

  -- `AnyToJson` of a value that is no XdrType
  unfoldable pub any_to_json : GoValue → Bytes
  unfolding marshal_go
  any_to_json v = (marshal_go v [] (record { out = []; indent = []; need_comma = false })).out
