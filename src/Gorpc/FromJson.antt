-- ===== src/Gorpc/FromJson.antt =====
-- cmd/gorpc/jsonxdr.go: jsonIn, over XDR values. The document of a `jsonIn` is its state: an element
-- is taken off an array.
use goxdr.Prelude.{
  ℕ, zero, suc, ◌%◌, ◌^◌, Bool, [], ◌∷◌, Option, none, some, length, ltb, ◌==◌, if◌then◌else◌,
  Bytes, bytes_eq, codes,
}
use goxdr.Xdr.Fault.{Result, ok, throw, xdr_error, other_panic, ◌>>=◌}
use goxdr.Gorpc.Names.{hide_field_name}
use goxdr.Gorpc.Hex.{decode}
use goxdr.Gorpc.Values.{
  Kind, Value, scalar, string, opaque, fixed, pointer, vec, array, struct, union, Ptr, absent,
  present, Items, nil, cons, Fields, end, field, Arms, no_default, void_default, default, void_arm,
  arm, Body, unset, body, kind_name, type_name, is_case, Fmt, access, index_name, Json, null, lit,
  str, arr, obj, Elems, Members, member,
}

abbrev pub len : Elems → ℕ
len nil = 0
len (cons x xs) = suc (len xs)

-- A missing key gives nil, like the document null.
unfoldable pub find : Bytes → Members → Json
find name end = null
find name (member key x ms) = if bytes_eq key name then x else find name ms

abbrev pub pop : Json → Result (Json × Json)
pop null = throw other_panic
pop (lit t) = throw other_panic
pop (str t) = throw other_panic
pop (arr nil) = throw xdr_error
pop (arr (cons x xs)) = ok (x, arr xs)
pop (obj ms) = throw other_panic

abbrev pub member_of : Bytes → Json → Result (Json × Json)
unfolding find
member_of name null = throw other_panic
member_of name (lit t) = throw other_panic
member_of name (str t) = throw other_panic
member_of name (arr xs) = throw other_panic
member_of name (obj ms) = ok (find name ms, obj ms)

-- `get`: the field and the document left; an assertion on another type is a panic of the runtime.
unfoldable pub get : Bytes → Json → Result (Json × Json)
get [] o = ok (o, o)
get (c ∷ name) o = if c == b'[' then pop o else member_of (c ∷ name) o

-- `fmt.Sscan(mustString(jval), v)`, and `hex.DecodeString`, whose error is no XdrError
unfoldable pub scanned : Option ℕ → Result ℕ
scanned none = throw xdr_error
scanned (some n) = ok n

unfoldable pub unhex : Bytes → Result Bytes
unhex s = elim (decode s) [ none ↦ throw other_panic | some bs ↦ ok bs ]

-- `jval.([]interface{})`
unfoldable pub elems : Json → Result Elems
elems null = throw other_panic
elems (lit t) = throw other_panic
elems (str t) = throw other_panic
elems (arr xs) = ok xs
elems (obj ms) = throw other_panic

abbrev pub unless_null :
    {A : Type 0} → Json → A → (Json → Json → Result (A × Json)) → Json → Result (A × Json)
unless_null null v read o = ok (v, o)
unless_null (lit t) v read o = read (lit t) o
unless_null (str t) v read o = read (str t) o
unless_null (arr xs) v read o = read (arr xs) o
unless_null (obj ms) v read o = read (obj ms) o

-- What `Marshal` does before its switch; a nil leaves the value as it is.
unfoldable pub fetch :
    {A : Type 0} → A → Bool → Bytes → (Json → Json → Result (A × Json)) → Json → Result (A × Json)
fetch v hidden name read o =
    get name o >>= λ r. unless_null (if hidden then r.1 else r.0) v read r.1

-- The slice grows by new elements, which `read` fills, under the names from `i` on.
unfoldable pub read_new : ℕ → ℕ → (ℕ → Json → Result (Value × Json)) → Json → Result (Items × Json)
read_new zero i read o = ok (nil, o)
read_new (suc k) i read o =
    read i o >>= λ x. read_new k (suc i) read x.1 >>= λ xs. ok (cons x.0 xs.0, xs.1)

module _ (F : Fmt) where
  -- `mustString`
  unfoldable pub must_string : Json → Result Bytes
  must_string null = ok (codes "<nil>")
  must_string (lit t) = ok (F.reprint t)
  must_string (str s) = ok s
  must_string (arr xs) = throw xdr_error
  must_string (obj ms) = throw xdr_error

  unfoldable pub read_scalar : Kind → Json → Json → Result (ℕ × Json)
  unfolding must_string scanned
  read_scalar k jval o = must_string jval >>= λ t. scanned (F.scan k t) >>= λ n. ok (n, o)

  unfoldable mutual
    unfolding must_string elems

    -- `(*jsonIn).Marshal` from its switch on: the value, the field and the document
    pub read_at : Value → Bytes → Json → Json → Result (Value × Json)
    read_at (scalar k n) name jval o = read_scalar k jval o >>= λ r. ok (scalar k r.0, r.1)
    read_at (string bound s) name jval o = must_string jval >>= λ t.
        if ltb bound (length t) then throw xdr_error else ok (string bound t, o)
    read_at (opaque bound s) name jval o = must_string jval >>= unhex >>= λ bs.
        if ltb bound (length bs) then throw xdr_error else ok (opaque bound bs, o)
    read_at (fixed s) name jval o = must_string jval >>= unhex >>= λ bs.
        if length bs == length s then ok (fixed bs, o) else throw xdr_error
    -- `SetPresent`, and a Marshal of the value with the same name, which gets it again
    read_at (pointer blank p) name jval o =
        read_ptr p name o
          (fetch blank (hide_field_name name (type_name blank)) name (read_at blank name))
        >>= λ r. ok (pointer blank (present r.0), r.1)
    read_at (vec bound blank xs) name jval o = elems jval >>= λ es.
        if ltb bound (len es % 2 ^ 32)
        then throw xdr_error
        else read_vec xs (len es % 2 ^ 32) 0 jval (λ i.
          fetch blank (hide_field_name (index_name F i) (type_name blank)) (index_name F i)
            (read_at blank (index_name F i)))
          >>= λ r. ok (vec bound blank r.0, o)
    read_at (array xs) name jval o = read_items xs 0 jval >>= λ r. ok (array r.0, o)
    read_at (struct type fs) name jval o = read_fields fs jval >>= λ r. ok (struct type r.0, o)
    read_at (union type tag k n arms u) name jval o =
        fetch n (hide_field_name tag (kind_name k)) tag (read_scalar k) jval >>= λ t.
        read_arms arms t.0 u (read_body u) t.1 >>= λ r. ok (union type tag k t.0 arms r.0, o)

    pub read_ptr : Ptr → Bytes → Json → (Json → Result (Value × Json)) → Result (Value × Json)
    read_ptr absent name o fresh = fresh o
    read_ptr (present v) name o fresh =
        fetch v (hide_field_name name (type_name v)) name (read_at v name) o

    -- `XdrMarshalN`: the elements that are there are read in place, and cut off behind the last.
    pub read_vec : Items → ℕ → ℕ → Json → (ℕ → Json → Result (Value × Json)) → Result (Items × Json)
    read_vec nil k i o fresh = read_new k i fresh o
    read_vec (cons x xs) zero i o fresh = ok (nil, o)
    read_vec (cons x xs) (suc k) i o fresh =
        fetch x (hide_field_name (index_name F i) (type_name x)) (index_name F i)
          (read_at x (index_name F i)) o
        >>= λ r. read_vec xs k (suc i) r.1 fresh >>= λ rs. ok (cons r.0 rs.0, rs.1)

    pub read_items : Items → ℕ → Json → Result (Items × Json)
    read_items nil i o = ok (nil, o)
    read_items (cons x xs) i o =
        fetch x (hide_field_name (index_name F i) (type_name x)) (index_name F i)
          (read_at x (index_name F i)) o
        >>= λ r. read_items xs (suc i) r.1 >>= λ rs. ok (cons r.0 rs.0, rs.1)

    pub read_fields : Fields → Json → Result (Fields × Json)
    read_fields end o = ok (end, o)
    read_fields (field name v fs) o =
        fetch v (hide_field_name name (type_name v)) name (read_at v name) o >>= λ r.
        read_fields fs r.1 >>= λ rs. ok (field name r.0 rs.0, rs.1)

    -- The switch of a union's XdrRecurse: an arm is read into what its accessor gives.
    pub read_arms :
        Arms
        → ℕ
        → Body
        → Option (Bytes × (Bytes → Json → Result (Value × Json)))
        → Json
        → Result (Body × Json)
    read_arms no_default n u held o = throw xdr_error
    read_arms void_default n u held o = ok (u, o)
    read_arms (default name type blank) n u held o =
        access type held
          (λ key. fetch blank (hide_field_name key (type_name blank)) key (read_at blank key)) name
          o
        >>= λ r. ok (body type r.0, r.1)
    read_arms (void_arm cases rest) n u held o =
        if is_case n cases then ok (u, o) else read_arms rest n u held o
    read_arms (arm cases name type blank rest) n u held o =
        if is_case n cases
        then (access type held
              (λ key. fetch blank (hide_field_name key (type_name blank)) key (read_at blank key))
              name o
            >>= λ r. ok (body type r.0, r.1))
        else read_arms rest n u held o

    pub read_body : Body → Option (Bytes × (Bytes → Json → Result (Value × Json)))
    read_body unset = none
    read_body (body type v) =
        some (type, λ key. fetch v (hide_field_name key (type_name v)) key (read_at v key))

  -- `(*jsonIn).Marshal`
  unfoldable pub marshal : Value → Bytes → Json → Result (Value × Json)
  unfolding fetch
  marshal v name o = fetch v (hide_field_name name (type_name v)) name (read_at v name) o

  -- `JsonToXdr`, of a parsed document: any panic is an error.
  unfoldable pub json_to_xdr : Value → Json → Result Value
  unfolding marshal
  json_to_xdr dst src = marshal dst [] src >>= λ r. ok r.0
