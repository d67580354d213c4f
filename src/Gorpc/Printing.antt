-- ===== src/Gorpc/Printing.antt =====
-- What XdrToJson of cmd/gorpc/jsonxdr.go is to print: the document of a value, where the members of a
-- hidden struct or union stand among those of the object around it.
pub mod Trees
use goxdr.Prelude.{
  ℕ, ◌^◌, ◌≤◌, ◌<◌, Bool, true, false, [], ◌∷◌, ◌++◌, Bytes, codes, append_assoc, ◌≡◌, refl, sym,
  ap, if◌then◌else◌,
}
use goxdr.Gorpc.Names.{hide_field_name}
use goxdr.Gorpc.Hex.{encode}
use goxdr.Gorpc.Values.{
  Value, scalar, string, opaque, fixed, pointer, vec, array, struct, union, Ptr, absent, present,
  Items, nil, cons, Fields, end, field, Body, unset, body, Selection, invalid, void, chosen, select,
  count, Fmt, Json, null, lit, str, arr, obj, Elems, Members, member,
}
use goxdr.Gorpc.ToJson.{has_key, JsonOut}
use goxdr.Gorpc.Documents.{
  IsDirect, key_type, Shown, scalar_tree, render_members, tree, tree_items, tree_fields, tree_body,
  Readable, ReadablePtr, ReadableElems, ReadableItems, ReadableFields, ReadableBody,
}
use goxdr.Gorpc.Parts.{sep, more, direct_key, ReadableElems-ReadableItems}

-- Whether a value is hidden under a name: a struct or a union whose type has such a name, also behind
-- pointers
abbrev mutual
  pub hidden : Bytes → Value → Bool
  hidden name (scalar k n) = false
  hidden name (string bound s) = false
  hidden name (opaque bound s) = false
  hidden name (fixed s) = false
  hidden name (pointer blank p) = hidden_ptr name p
  hidden name (vec bound blank xs) = false
  hidden name (array xs) = false
  hidden name (struct type fs) = hide_field_name name type
  hidden name (union type tag k n arms u) = hide_field_name name type

  pub hidden_ptr : Bytes → Ptr → Bool
  hidden_ptr name absent = false
  hidden_ptr name (present v) = hidden name v

-- The members that a field adds to the object around it
abbrev pub splice : Bytes → Bool → Json → Members
splice name true (obj ms) = ms
splice name true null = end
splice name true (lit t) = end
splice name true (str t) = end
splice name true (arr xs) = end
splice name false x = member name x end

unfoldable pub join : Members → Members → Members
join end ns = ns
join (member name x ms) ns = member name x (join ms ns)

-- What is printed without a panic: vectors within their bounds, discriminants of a known arm and a `_u`
-- of that arm, and names that are keys of an object.
unfoldable mutual
  pub Prints : Value → Type 0
  Prints (scalar k n) = Unit
  Prints (string bound s) = Unit
  Prints (opaque bound s) = Unit
  Prints (fixed s) = Unit
  Prints (pointer blank p) = PrintsPtr p
  Prints (vec bound blank xs) = (count xs ≤ bound) × (count xs < 2 ^ 32) × PrintsItems xs
  Prints (array xs) = PrintsItems xs
  Prints (struct type fs) = PrintsFields fs
  Prints (union type tag k n arms u) = (has_key tag ≡ true) × PrintsBody (select n arms) u

  pub PrintsPtr : Ptr → Type 0
  PrintsPtr absent = Unit
  PrintsPtr (present v) = Prints v

  pub PrintsItems : Items → Type 0
  PrintsItems nil = Unit
  PrintsItems (cons x xs) = Prints x × PrintsItems xs

  pub PrintsFields : Fields → Type 0
  PrintsFields end = Unit
  PrintsFields (field name v fs) = (has_key name ≡ true) × Prints v × PrintsFields fs

  pub PrintsBody : Selection → Body → Type 0
  PrintsBody invalid u = ⊥
  PrintsBody void u = Unit
  PrintsBody (chosen name type blank) unset = ⊥
  PrintsBody (chosen name type blank) (body held v) =
      (held ≡ type) × (has_key name ≡ true) × Prints v

module _ (F : Fmt) where
  unfoldable mutual
    unfolding join

    pub document : Value → Json
    document (scalar k n) = scalar_tree F k n
    document (string bound s) = str s
    document (opaque bound s) = str (encode s)
    document (fixed s) = str (encode s)
    document (pointer blank p) = document_ptr p
    document (vec bound blank xs) = arr (document_items xs)
    document (array xs) = arr (document_items xs)
    document (struct type fs) = obj (document_fields fs)
    document (union type tag k n arms u) =
        obj (member tag (scalar_tree F k n) (document_body (select n arms) u))

    pub document_ptr : Ptr → Json
    document_ptr absent = null
    document_ptr (present v) = document v

    pub document_items : Items → Elems
    document_items nil = nil
    document_items (cons x xs) = cons (document x) (document_items xs)

    pub document_fields : Fields → Members
    document_fields end = end
    document_fields (field name v fs) =
        join (splice name (hidden name v) (document v)) (document_fields fs)

    pub document_body : Selection → Body → Members
    document_body sel unset = end
    document_body invalid (body type v) = end
    document_body void (body type v) = end
    document_body (chosen name held blank) (body type v) = splice name (hidden name v) (document v)

  abbrev pub after : Members → Bool → Bool
  after end b = b
  after (member name x ms) b = true

  pub after-true : (ms : Members) → after ms true ≡ true
  after-true end = refl
  after-true (member name x ms) = refl

  -- The members `ms` are written.
  abbrev pub written : Members → JsonOut → JsonOut
  written ms j = more (render_members F (sep j.need_comma) j.indent ms) (after ms j.need_comma) j

  render-join :
      (ms ns : Members) (b : Bool) (indent : Bytes)
      → render_members F (sep b) indent (join ms ns)
        ≡ render_members F (sep b) indent ms ++ render_members F (sep (after ms b)) indent ns
  unfolding render_members join
  render-join end ns b indent = refl
  render-join (member name x ms) ns b indent =
      rw (render-join ms ns true indent, after-true ms) (simp append_assoc)

  after-join : (ms ns : Members) (b : Bool) → after (join ms ns) b ≡ after ns (after ms b)
  unfolding join
  after-join end ns b = refl
  after-join (member name x ms) ns b = sym (after-true ns)

  pub written-join :
      (ms ns : Members) (j : JsonOut) → written ns (written ms j) ≡ written (join ms ns) j
  written-join ms ns j =
      rw (render-join ms ns j.need_comma j.indent, after-join ms ns j.need_comma)
        (simp append_assoc)
