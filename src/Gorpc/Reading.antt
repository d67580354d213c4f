-- ===== src/Gorpc/Reading.antt =====
-- How the fields and elements of a document are got and read.
use goxdr.Prelude.{
  not, ℕ, Bool, true, false, [], ◌∷◌, none, ◌==◌, Bytes, bytes_eq, bytes_eq_refl, bytes_eq_iff,
  Bool-cases, inl, inr, ◌≡◌, ◌≢◌, refl, sym, ◌∙◌, arith,
}
use goxdr.Xdr.Fault.{Result, ok, throw, xdr_error, ◌>>=◌}
use goxdr.Gorpc.Names.{hide_field_name, is_digit_sandwich, has_prefix}
use goxdr.Gorpc.Values.{
  Kind, bool, enum, int32, uint32, float32, int64, uint64, float64, Value, scalar, string, opaque,
  fixed, pointer, vec, array, struct, union, absent, present, Fields, end, field, Arms, no_default,
  void_default, default, void_arm, arm, Body, unset, body, Selection, invalid, void, chosen, select,
  type_name, Fmt, Json, obj, Members, member,
}
use goxdr.Gorpc.ToJson.{has_key}
use goxdr.Gorpc.FromJson.{
  find, get, must_string, scanned, unless_null, fetch, read_scalar, read_at, read_arms,
}
use goxdr.Gorpc.Documents.{
  fresh, Scans, scalar_tree, tree, tree_fields, IsDirect, key_type, NoField, Readable,
  ReadableFields,
}

-- Nothing is hidden as a value of a type without a name.
pub hide_none : (name : Bytes) → hide_field_name name [] ≡ false
unfolding hide_field_name is_digit_sandwich has_prefix
hide_none name = ground arith

fresh_type : (v : Value) → IsDirect v → type_name (fresh v) ≡ key_type v
unfolding fresh
fresh_type (scalar k n) d = refl
fresh_type (string bound s) d = refl
fresh_type (opaque bound s) d = refl
fresh_type (fixed s) d = refl
fresh_type (pointer new p) d = absurd d
fresh_type (vec bound new xs) d = refl
fresh_type (array xs) d = refl
fresh_type (struct type fs) d = refl
fresh_type (union type tag k n arms u) d = refl

pub get_key :
    (name : Bytes) (ms : Members)
    → has_key name ≡ true
    → get name (obj ms) ≡ ok (find name ms, obj ms)
unfolding get find
get_key [] ms h = absurd (cc)
get_key (c ∷ name) ms h = elim (Bool-cases (c == b'[')) [
  | inl e ↦ absurd (no_key c e h)
  | inr e ↦ rw e refl
]
  where
    no_key : (c : ℕ) → (c == b'[') ≡ true → not (c == b'[') ≡ true → ⊥
    no_key c e h = absurd (ground arith)

-- A key is found behind other keys.
pub find_skip :
    (name other : Bytes) (x : Json) (ms : Members)
    → other ≢ name
    → find name (member other x ms) ≡ find name ms
unfolding find
find_skip name other x ms ne = elim (Bool-cases (bytes_eq other name)) [
  | inl e ↦ absurd (ne ((bytes_eq_iff other name).0 e))
  | inr e ↦ rw e refl
]

pub find_here : (name : Bytes) (x : Json) (ms : Members) → find name (member name x ms) ≡ x
unfolding find
find_here name x ms = rw (bytes_eq_refl name) refl

-- A document of a basic type is no null, and its text is read.
pub scalar_read :
    (F : Fmt) (k : Kind) (n w : ℕ) (o : Json)
    → Scans F k n
    → unless_null (scalar_tree F k n) w (read_scalar F k) o ≡ ok (n, o)
unfolding read_scalar must_string scanned
scalar_read F bool n w o h = rw h refl
scalar_read F (enum name) n w o h = rw h refl
scalar_read F int32 n w o h = rw h refl
scalar_read F uint32 n w o h = rw h refl
scalar_read F float32 n w o h = rw h refl
scalar_read F int64 n w o h = rw h refl
scalar_read F uint64 n w o h = rw h refl
scalar_read F float64 n w o h = rw h refl

pub read_scalar-tree :
    (F : Fmt) (k : Kind) (n : ℕ) (o : Json)
    → Scans F k n
    → read_scalar F k (scalar_tree F k n) o ≡ ok (n, o)
unfolding read_scalar must_string scanned
read_scalar-tree F bool n o h = rw h refl
read_scalar-tree F (enum name) n o h = rw h refl
read_scalar-tree F int32 n o h = rw h refl
read_scalar-tree F uint32 n o h = rw h refl
read_scalar-tree F float32 n o h = rw h refl
read_scalar-tree F int64 n o h = rw h refl
read_scalar-tree F uint64 n o h = rw h refl
read_scalar-tree F float64 n o h = rw h refl

-- The document of a value that is no pointer is no null.
unless_direct :
    (F : Fmt) {A : Type 0} (v : Value) (w : A) (read : Json → Json → Result (A × Json)) (o : Json)
    → IsDirect v
    → unless_null (tree F v) w read o ≡ read (tree F v) o
unfolding tree
unless_direct F (scalar bool n) w read o d = refl
unless_direct F (scalar (enum name) n) w read o d = refl
unless_direct F (scalar int32 n) w read o d = refl
unless_direct F (scalar uint32 n) w read o d = refl
unless_direct F (scalar float32 n) w read o d = refl
unless_direct F (scalar int64 n) w read o d = refl
unless_direct F (scalar uint64 n) w read o d = refl
unless_direct F (scalar float64 n) w read o d = refl
unless_direct F (string bound s) w read o d = refl
unless_direct F (opaque bound s) w read o d = refl
unless_direct F (fixed s) w read o d = refl
unless_direct F (pointer new p) w read o d = absurd d
unless_direct F (vec bound new xs) w read o d = refl
unless_direct F (array xs) w read o d = refl
unless_direct F (struct type fs) w read o d = refl
unless_direct F (union type tag k n arms u) w read o d = refl

-- A value that may be a pointer gets its document a second time.
abbrev pub Again : Fmt → Value → Bytes → Json → Type 0
Again F (scalar k n) name o = Unit
Again F (string bound s) name o = Unit
Again F (opaque bound s) name o = Unit
Again F (fixed s) name o = Unit
Again F (pointer blank absent) name o = ⊥
Again F (pointer blank (present v)) name o =
    (get name o ≡ ok (tree F v, o)) × (hide_field_name name (type_name blank) ≡ false)
Again F (vec bound blank xs) name o = Unit
Again F (array xs) name o = Unit
Again F (struct type fs) name o = Unit
Again F (union type tag k n arms u) name o = Unit

pub direct-Again : (F : Fmt) (v : Value) (name : Bytes) (o : Json) → IsDirect v → Again F v name o
direct-Again F (scalar k n) name o d = tt
direct-Again F (string bound s) name o d = tt
direct-Again F (opaque bound s) name o d = tt
direct-Again F (fixed s) name o d = tt
direct-Again F (pointer new p) name o d = absurd d
direct-Again F (vec bound new xs) name o d = tt
direct-Again F (array xs) name o d = tt
direct-Again F (struct type fs) name o d = tt
direct-Again F (union type tag k n arms u) name o d = tt

module _ (F : Fmt) where
  -- A document that is got, of a value that is no pointer.
  pub fetch-direct :
      {A : Type 0}
      → (v : Value) (w : A) (hidden : Bool) (name : Bytes) (read : Json → Json → Result (A × Json))
        (o rest : Json)
      → IsDirect v
      → hidden ≡ false
      → get name o ≡ ok (tree F v, rest)
      → fetch w hidden name read o ≡ read (tree F v) rest
  unfolding fetch
  fetch-direct v w hidden name read o rest d h e = rw (e, h) (unless_direct F v w read rest d)

  -- A field is read if its value is, at that document.
  pub fetch-tree :
      (v : Value) (name : Bytes) (o : Json)
      → Readable F v
      → hide_field_name name (key_type v) ≡ false
      → get name o ≡ ok (tree F v, o)
      → (Again F v name o → read_at F (fresh v) name (tree F v) o ≡ ok (v, o))
      → fetch
          (fresh v)
          (hide_field_name name (type_name (fresh v)))
          name
          (read_at F (fresh v) name)
          o
        ≡ ok (v, o)
  unfolding fetch tree fresh Readable
  fetch-tree (pointer blank absent) name o g h e read = rw (e, hide_none name) refl
  fetch-tree (pointer blank (present v)) name o g h e read =
      rw (e, hide_none name)
        (unless_direct F v _ (read_at F (pointer blank absent) name) o g.2 ∙ read (e, h))
  fetch-tree (scalar k n) name o g h e read =
      fetch-direct (scalar k n) _ _ name _ o o tt h e ∙ read tt
  fetch-tree (string bound s) name o g h e read =
      fetch-direct (string bound s) _ _ name _ o o tt h e ∙ read tt
  fetch-tree (opaque bound s) name o g h e read =
      fetch-direct (opaque bound s) _ _ name _ o o tt h e ∙ read tt
  fetch-tree (fixed s) name o g h e read = fetch-direct (fixed s) _ _ name _ o o tt h e ∙ read tt
  fetch-tree (vec bound blank xs) name o g h e read =
      fetch-direct (vec bound blank xs) _ _ name _ o o tt h e ∙ read tt
  fetch-tree (array xs) name o g h e read = fetch-direct (array xs) _ _ name _ o o tt h e ∙ read tt
  fetch-tree (struct type fs) name o g h e read =
      fetch-direct (struct type fs) _ _ name _ o o tt h e ∙ read tt
  fetch-tree (union type tag k n arms u) name o g h e read =
      fetch-direct (union type tag k n arms u) _ _ name _ o o tt h e ∙ read tt

  -- The arm that is read into a union with no value.
  unfoldable pub by_selection : Selection → Json → Result (Body × Json)
  by_selection invalid o = throw xdr_error
  by_selection void o = ok (unset, o)
  by_selection (chosen name type blank) o =
      fetch blank (hide_field_name name (type_name blank)) name (read_at F blank name) o >>= λ r.
      ok (body type r.0, r.1)

  pub read_arms-select :
      (arms : Arms) (n : ℕ) (o : Json)
      → read_arms F arms n unset none o ≡ by_selection (select n arms) o
  unfolding read_at select by_selection
  read_arms-select no_default n o = refl
  read_arms-select void_default n o = refl
  read_arms-select (default name type blank) n o = refl
  read_arms-select (void_arm cases rest) n o = ground (arith, read_arms-select rest n o)
  read_arms-select (arm cases name type blank rest) n o = ground (arith, read_arms-select rest n o)

  -- Each field finds its value.
  abbrev pub Finds : Fields → Members → Type 0
  Finds end ms = Unit
  Finds (field name v fs) ms = (find name ms ≡ tree F v) × Finds fs ms

  Finds-skip :
      (fs : Fields) (name : Bytes) (x : Json) (ms : Members)
      → NoField name fs
      → Finds fs ms
      → Finds fs (member name x ms)
  Finds-skip end name x ms apart h = tt
  Finds-skip (field other v fs) name x ms apart h =
      (find_skip other name x ms (λ e. apart.0 (sym e)) ∙ h.0, Finds-skip fs name x ms apart.1 h.1)

  pub tree-Finds : (fs : Fields) → ReadableFields F fs → Finds fs (tree_fields F fs)
  unfolding tree Readable
  tree-Finds end g = tt
  tree-Finds (field name v fs) (g, gs) = (
    find_here name (tree F v) (tree_fields F fs),
    Finds-skip fs name (tree F v) (tree_fields F fs) g.2 (tree-Finds fs gs),
  )
