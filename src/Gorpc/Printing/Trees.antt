-- ===== src/Gorpc/Printing/Trees.antt =====
-- cmd/gorpc/jsonxdr.go: the documents that XdrToJson prints of values that JsonToXdr reads back have no
-- hidden members.
use goxdr.Prelude.{Bytes, false, ◌≡◌, refl, ap}
use goxdr.Gorpc.Names.{hide_field_name}
use goxdr.Gorpc.Values.{
  Value, scalar, string, opaque, fixed, pointer, vec, array, struct, union, absent, present, Items,
  nil, cons, Fields, end, field, Body, unset, body, Selection, invalid, void, chosen, select, Fmt,
  arr, obj, Elems, Members, member,
}
use goxdr.Gorpc.Documents.{
  IsDirect, key_type, scalar_tree, tree, tree_items, tree_fields, tree_body, Readable,
  ReadableItems, ReadableFields, ReadableBody,
}
use goxdr.Gorpc.Parts.{direct_key, ReadableElems-ReadableItems}
use goxdr.Gorpc.Printing.{hidden, join, document, document_items, document_fields, document_body}

-- A value that is read back is not hidden.
unhidden-key :
    (name : Bytes) (v : Value)
    → IsDirect v
    → hide_field_name name (key_type v) ≡ false
    → hidden name v ≡ false
unhidden-key name (scalar k n) d h = refl
unhidden-key name (string bound s) d h = refl
unhidden-key name (opaque bound s) d h = refl
unhidden-key name (fixed s) d h = refl
unhidden-key name (pointer blank p) d h = absurd d
unhidden-key name (vec bound blank xs) d h = refl
unhidden-key name (array xs) d h = refl
unhidden-key name (struct type fs) d h = h
unhidden-key name (union type tag k n arms u) d h = h

module _ (F : Fmt) where
  unhidden :
      (name : Bytes) (v : Value)
      → Readable F v
      → hide_field_name name (key_type v) ≡ false
      → hidden name v ≡ false
  unfolding Readable
  unhidden name (scalar k n) g h = refl
  unhidden name (string bound s) g h = refl
  unhidden name (opaque bound s) g h = refl
  unhidden name (fixed s) g h = refl
  unhidden name (pointer blank absent) g h = refl
  unhidden name (pointer blank (present v)) (g, new, d) h =
      unhidden-key name v d (rw (direct_key v blank d new) h)
  unhidden name (vec bound blank xs) g h = refl
  unhidden name (array xs) g h = refl
  unhidden name (struct type fs) g h = h
  unhidden name (union type tag k n arms u) g h = h

  -- The documents of what is read back are plain trees.
  mutual
    unfolding document tree Readable join

    pub document-tree : (v : Value) → Readable F v → document F v ≡ tree F v
    document-tree (scalar k n) g = refl
    document-tree (string bound s) g = refl
    document-tree (opaque bound s) g = refl
    document-tree (fixed s) g = refl
    document-tree (pointer blank absent) g = refl
    document-tree (pointer blank (present v)) g = document-tree v g.0
    document-tree (vec bound blank xs) (few, small, g) =
        ap {A = Elems} arr (document_items-tree xs (ReadableElems-ReadableItems F blank xs g))
    document-tree (array xs) g = ap {A = Elems} arr (document_items-tree xs g)
    document-tree (struct type fs) g = ap {A = Members} obj (document_fields-tree fs g)
    document-tree (union type tag k n arms u) (sc, shown, g) =
        ap (λ ms. obj (member tag (scalar_tree F k n) ms))
          (document_body-tree u tag (select n arms) g)

    document_items-tree : (xs : Items) → ReadableItems F xs → document_items F xs ≡ tree_items F xs
    document_items-tree nil g = refl
    document_items-tree (cons x xs) (g, gs) =
        rw (document-tree x g.0, document_items-tree xs gs) refl

    document_fields-tree :
        (fs : Fields) → ReadableFields F fs → document_fields F fs ≡ tree_fields F fs
    document_fields-tree end g = refl
    document_fields-tree (field name v fs) ((g, (key, shown), apart), gs) =
        rw (unhidden name v g shown, document-tree v g, document_fields-tree fs gs) refl

    document_body-tree :
        (u : Body) (tag : Bytes) (sel : Selection)
        → ReadableBody F tag sel u
        → document_body F sel u ≡ tree_body F sel u
    document_body-tree unset tag sel g = refl
    document_body-tree (body held v) tag invalid g = absurd g
    document_body-tree (body held v) tag void g = absurd g
    document_body-tree (body held v) tag (chosen name type blank) (g, same, new, (key, shown), ne) =
        rw (unhidden name v g shown, document-tree v g) refl
