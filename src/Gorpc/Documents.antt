-- ===== src/Gorpc/Documents.antt =====
-- What the conversions of cmd/gorpc/jsonxdr.go are to do: the document of a value, the text of a
-- document, the value that nothing was read into, and the values that are read back.
use goxdr.Prelude.{
  ℕ, ◌^◌, ◌≤◌, ◌<◌, true, false, [], ◌∷◌, ◌++◌, some, length, replicate, Bytes, codes, ◌≡◌, ◌≢◌,
}
use goxdr.Gorpc.Names.{hide_field_name}
use goxdr.Gorpc.Hex.{encode, IsBytes}
use goxdr.Gorpc.Values.{
  Kind, bool, enum, int32, uint32, float32, int64, uint64, float64, Value, scalar, string, opaque,
  fixed, pointer, vec, array, struct, union, Ptr, absent, present, Items, nil, cons, Fields, end,
  field, Body, unset, body, Selection, invalid, void, chosen, select, kind_name, type_name, count,
  Fmt, Json, null, lit, str, arr, obj, Elems, Members, member,
}
use goxdr.Gorpc.ToJson.{has_key}

-- The same type with no content.
unfoldable mutual
  pub fresh : Value → Value
  fresh (scalar k n) = scalar k 0
  fresh (string bound s) = string bound []
  fresh (opaque bound s) = opaque bound []
  fresh (fixed s) = fixed (replicate (length s) 0)
  fresh (pointer blank p) = pointer blank absent
  fresh (vec bound blank xs) = vec bound blank nil
  fresh (array xs) = array (fresh_items xs)
  fresh (struct type fs) = struct type (fresh_fields fs)
  fresh (union type tag k n arms u) = union type tag k 0 arms unset

  pub fresh_items : Items → Items
  fresh_items nil = nil
  fresh_items (cons x xs) = cons (fresh x) (fresh_items xs)

  pub fresh_fields : Fields → Fields
  fresh_fields end = end
  fresh_fields (field name v fs) = field name (fresh v) (fresh_fields fs)

-- A name that is a key of an object, of a value that is not hidden under it.
abbrev pub Shown : Bytes → Bytes → Type 0
Shown name type = (has_key name ≡ true) × (hide_field_name name type ≡ false)

abbrev pub IsDirect : Value → Type 0
IsDirect (scalar k n) = Unit
IsDirect (string bound s) = Unit
IsDirect (opaque bound s) = Unit
IsDirect (fixed s) = Unit
IsDirect (pointer blank p) = ⊥
IsDirect (vec bound blank xs) = Unit
IsDirect (array xs) = Unit
IsDirect (struct type fs) = Unit
IsDirect (union type tag k n arms u) = Unit

-- The name of the type under which a field's value is hidden; a pointer is passed on to its value.
abbrev pub key_type : Value → Bytes
key_type (scalar k n) = kind_name k
key_type (string bound s) = []
key_type (opaque bound s) = []
key_type (fixed s) = []
key_type (pointer blank p) = type_name blank
key_type (vec bound blank xs) = []
key_type (array xs) = []
key_type (struct type fs) = type
key_type (union type tag k n arms u) = type

abbrev pub NoField : Bytes → Fields → Type 0
NoField name end = Unit
NoField name (field other v fs) = (other ≢ name) × NoField name fs

module _ (F : Fmt) where
  -- The text that JsonToXdr scans for a basic value that was printed
  abbrev pub scanned_text : Kind → ℕ → Bytes
  scanned_text bool n = F.reprint (F.show bool n)
  scanned_text (enum name) n = F.show (enum name) n
  scanned_text int32 n = F.reprint (F.show int32 n)
  scanned_text uint32 n = F.reprint (F.show uint32 n)
  scanned_text float32 n = F.reprint (F.show float32 n)
  scanned_text int64 n = F.show int64 n
  scanned_text uint64 n = F.show uint64 n
  scanned_text float64 n = F.show float64 n

  abbrev pub Scans : Kind → ℕ → Type 0
  Scans k n = F.scan k (scanned_text k n) ≡ some n

  abbrev pub scalar_tree : Kind → ℕ → Json
  scalar_tree bool n = lit (F.show bool n)
  scalar_tree (enum name) n = str (F.show (enum name) n)
  scalar_tree int32 n = lit (F.show int32 n)
  scalar_tree uint32 n = lit (F.show uint32 n)
  scalar_tree float32 n = lit (F.show float32 n)
  scalar_tree int64 n = str (F.show int64 n)
  scalar_tree uint64 n = str (F.show uint64 n)
  scalar_tree float64 n = str (F.show float64 n)

  -- The document of a value of which nothing is hidden: numbers of 32 bits are literals, numbers of 64 bits and enums are strings, bytes are hexadecimal
  -- strings, an absent value is null, vectors and arrays are arrays, and a union is an object of its
  -- discriminant and its arm.
  unfoldable mutual
    pub tree : Value → Json
    tree (scalar k n) = scalar_tree k n
    tree (string bound s) = str s
    tree (opaque bound s) = str (encode s)
    tree (fixed s) = str (encode s)
    tree (pointer blank p) = tree_ptr p
    tree (vec bound blank xs) = arr (tree_items xs)
    tree (array xs) = arr (tree_items xs)
    tree (struct type fs) = obj (tree_fields fs)
    tree (union type tag k n arms u) =
        obj (member tag (scalar_tree k n) (tree_body (select n arms) u))

    pub tree_ptr : Ptr → Json
    tree_ptr absent = null
    tree_ptr (present v) = tree v

    pub tree_items : Items → Elems
    tree_items nil = nil
    tree_items (cons x xs) = cons (tree x) (tree_items xs)

    pub tree_fields : Fields → Members
    tree_fields end = end
    tree_fields (field name v fs) = member name (tree v) (tree_fields fs)

    pub tree_body : Selection → Body → Members
    tree_body sel unset = end
    tree_body invalid (body type v) = end
    tree_body void (body type v) = end
    tree_body (chosen name held blank) (body type v) = member name (tree v) end

  -- The text of a document: one element or member to a line, four blanks deeper than its brackets.
  unfoldable mutual
    pub render : Bytes → Json → Bytes
    render indent null = codes "null"
    render indent (lit t) = t
    render indent (str s) = F.quote s
    render indent (arr xs) =
        b'['
        ∷ (render_elems (codes "\n") (indent ++ codes "    ") xs
            ++ (codes "\n" ++ (indent ++ codes "]")))
    render indent (obj ms) =
        b'{'
        ∷ (render_members (codes "\n") (indent ++ codes "    ") ms
            ++ (codes "\n" ++ (indent ++ codes "}")))

    pub render_elems : Bytes → Bytes → Elems → Bytes
    render_elems sep indent nil = []
    render_elems sep indent (cons x xs) =
        sep ++ (indent ++ (render indent x ++ render_elems (codes ",\n") indent xs))

    pub render_members : Bytes → Bytes → Members → Bytes
    render_members sep indent end = []
    render_members sep indent (member name x ms) =
        sep
        ++ (indent
            ++ ((F.quote name ++ codes ": ")
                ++ (render indent x ++ render_members (codes ",\n") indent ms)))

  -- The values that are read back, of what is printed of them: the texts of basic values scan, lengths
  -- are within their bounds, names are distinct and shown, `_u` is that of the discriminant's arm,
  -- and elements and present values are no pointers.
  unfoldable mutual
    pub Readable : Value → Type 0
    Readable (scalar k n) = Scans k n
    Readable (string bound s) = length s ≤ bound
    Readable (opaque bound s) = (length s ≤ bound) × IsBytes s
    Readable (fixed s) = IsBytes s
    Readable (pointer blank p) = ReadablePtr blank p
    Readable (vec bound blank xs) =
        (count xs ≤ bound) × (count xs < 2 ^ 32) × ReadableElems blank xs
    Readable (array xs) = ReadableItems xs
    Readable (struct type fs) = ReadableFields fs
    Readable (union type tag k n arms u) =
        (Scans k n) × Shown tag (kind_name k) × ReadableBody tag (select n arms) u

    pub ReadablePtr : Value → Ptr → Type 0
    ReadablePtr blank absent = Unit
    ReadablePtr blank (present v) = Readable v × (fresh v ≡ blank) × IsDirect v

    pub ReadableElems : Value → Items → Type 0
    ReadableElems blank nil = Unit
    ReadableElems blank (cons x xs) =
        (Readable x × (fresh x ≡ blank) × IsDirect x) × ReadableElems blank xs

    pub ReadableItems : Items → Type 0
    ReadableItems nil = Unit
    ReadableItems (cons x xs) = (Readable x × IsDirect x) × ReadableItems xs

    pub ReadableFields : Fields → Type 0
    ReadableFields end = Unit
    ReadableFields (field name v fs) =
        (Readable v × Shown name (key_type v) × NoField name fs) × ReadableFields fs

    pub ReadableBody : Bytes → Selection → Body → Type 0
    ReadableBody tag invalid unset = ⊥
    ReadableBody tag void unset = Unit
    ReadableBody tag (chosen name type blank) unset = ⊥
    ReadableBody tag invalid (body held v) = ⊥
    ReadableBody tag void (body held v) = ⊥
    ReadableBody tag (chosen name type blank) (body held v) =
        Readable v × (held ≡ type) × (fresh v ≡ blank) × Shown name (key_type v) × (tag ≢ name)
