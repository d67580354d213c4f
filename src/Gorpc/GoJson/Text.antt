-- ===== src/Gorpc/GoJson/Text.antt =====
-- The text of a Go value is that of a document.
use goxdr.Prelude.{
  Bool, true, false, [], ◌++◌, Bytes, codes, append_assoc, append-nil, ◌≡◌, refl, sym, ap, ◌∙◌,
}
use goxdr.Gorpc.Hex.{encode}
use goxdr.Gorpc.Values.{Fmt, Json, null, str, arr, obj, Elems, nil, cons, Members, end, member}
use goxdr.Gorpc.ToJson.{JsonOut, has_key, print_field, begin, finish}
use goxdr.Gorpc.Documents.{scalar_tree, render, render_elems, render_members}
use goxdr.Gorpc.Parts.{sep, more, scalar_text-render, hex_field, bracketed, member_then}
use goxdr.Gorpc.GoJson.{
  kind, GoValue, basic, go_string, byte_slice, byte_list, time, list, structure, reference, other,
  GoRef, nil_ref, ref, GoItems, no_item, item, GoFields, no_field, go_field, marshal_go,
  aggregate_items, aggregate_fields, any_to_json,
}

-- The keys of the exported fields are no indices.
abbrev pub Keys : GoFields → Type 0
Keys no_field = Unit
Keys (go_field true name v fs) = (has_key name ≡ true) × Keys fs
Keys (go_field false name v fs) = Keys fs

abbrev after_list : GoItems → Bool → Bool
after_list no_item b = b
after_list (item v xs) b = true

abbrev after_struct : GoFields → Bool → Bool
after_struct no_field b = b
after_struct (go_field true name v fs) b = true
after_struct (go_field false name v fs) b = after_struct fs b

after_list-true : (xs : GoItems) → after_list xs true ≡ true
after_list-true no_item = refl
after_list-true (item v xs) = refl

after_struct-true : (fs : GoFields) → after_struct fs true ≡ true
after_struct-true no_field = refl
after_struct-true (go_field true name v fs) = refl
after_struct-true (go_field false name v fs) = after_struct-true fs

-- The values that have a document: those with keys for their members, and no nil, no time and nothing
-- else that has no case of its own
unfoldable mutual
  pub IsJson : GoValue → Type 0
  IsJson (basic b n) = Unit
  IsJson (go_string s) = Unit
  IsJson (byte_slice s) = Unit
  IsJson (byte_list s) = Unit
  IsJson (time t) = ⊥
  IsJson (list xs) = ItemsJson xs
  IsJson (structure fs) = Keys fs × FieldsJson fs
  IsJson (reference r) = RefJson r
  IsJson (other t) = ⊥

  pub RefJson : GoRef → Type 0
  RefJson nil_ref = ⊥
  RefJson (ref v) = IsJson v

  pub ItemsJson : GoItems → Type 0
  ItemsJson no_item = Unit
  ItemsJson (item v xs) = IsJson v × ItemsJson xs

  -- A field that is not exported may hold anything.
  pub FieldsJson : GoFields → Type 0
  FieldsJson no_field = Unit
  FieldsJson (go_field true name v fs) = IsJson v × FieldsJson fs
  FieldsJson (go_field false name v fs) = FieldsJson fs

module _ (F : Fmt) where
  -- The document: as of an XDR value, the exported fields of a struct being the members of an object,
  -- and null where a value has none.
  unfoldable mutual
    pub go_tree : GoValue → Json
    go_tree (basic b n) = scalar_tree F (kind b) n
    go_tree (go_string s) = str s
    go_tree (byte_slice s) = str (encode s)
    go_tree (byte_list s) = str (encode s)
    go_tree (time t) = null
    go_tree (list xs) = arr (go_elems xs)
    go_tree (structure fs) = obj (go_members fs)
    go_tree (reference r) = ref_tree r
    go_tree (other t) = null

    pub ref_tree : GoRef → Json
    ref_tree nil_ref = null
    ref_tree (ref v) = go_tree v

    pub go_elems : GoItems → Elems
    go_elems no_item = nil
    go_elems (item v xs) = cons (go_tree v) (go_elems xs)

    pub go_members : GoFields → Members
    go_members no_field = end
    go_members (go_field true name v fs) = member name (go_tree v) (go_members fs)
    go_members (go_field false name v fs) = go_members fs

  item_then :
      (text rest : Bytes) (j : JsonOut)
      → more rest true (print_field F [] text j)
        ≡ more (sep j.need_comma ++ (j.indent ++ (text ++ rest))) true j
  unfolding print_field
  item_then text rest j = simp append_assoc

  module _
      (quote_hex : (s : Bytes) → F.quote (encode s) ≡ codes "\"" ++ (encode s ++ codes "\"")) where
    mutual
      unfolding marshal_go go_tree render IsJson print_field begin

      go-render :
          (v : GoValue) (name : Bytes) (j : JsonOut)
          → IsJson v
          → marshal_go F v name j ≡ print_field F name (render F j.indent (go_tree v)) j
      go-render (basic b n) name j g =
          ap (λ t. print_field F name t j) (scalar_text-render F (kind b) n j.indent)
      go-render (go_string s) name j g = refl
      go-render (byte_slice s) name j g = hex_field F quote_hex s name j
      go-render (byte_list s) name j g = hex_field F quote_hex s name j
      go-render (time t) name j g = absurd g
      go-render (list xs) name j g =
          ap (finish b']' j.indent) (list-render xs (begin b'[' (print_field F name [] j)) g)
          ∙ bracketed F b'[' b']' name _ (after_list xs false) j
      go-render (structure fs) name j (keys, g) =
          ap (finish b'}' j.indent) (struct-render fs (begin b'{' (print_field F name [] j)) keys g)
          ∙ bracketed F b'{' b'}' name _ (after_struct fs false) j
      go-render (reference nil_ref) name j g = absurd g
      go-render (reference (ref v)) name j g = go-render v name j g
      go-render (other t) name j g = absurd g

      list-render :
          (xs : GoItems) (j : JsonOut)
          → ItemsJson xs
          → aggregate_items F xs j
            ≡ more
                (render_elems F (sep j.need_comma) j.indent (go_elems xs))
                (after_list xs j.need_comma)
                j
      list-render no_item j g = ap {A = Bytes} (λ t. record j { out = t }) (sym (append-nil j.out))
      list-render (item v xs) j (g, gs) =
          ap (aggregate_items F xs) (go-render v [] j g)
          ∙ list-render xs (print_field F [] (render F j.indent (go_tree v)) j) gs
          ∙ rw (after_list-true xs) (item_then (render F j.indent (go_tree v)) _ j)

      struct-render :
          (fs : GoFields) (j : JsonOut)
          → Keys fs
          → FieldsJson fs
          → aggregate_fields F fs j
            ≡ more
                (render_members F (sep j.need_comma) j.indent (go_members fs))
                (after_struct fs j.need_comma)
                j
      struct-render no_field j keys g =
          ap {A = Bytes} (λ t. record j { out = t }) (sym (append-nil j.out))
      struct-render (go_field true name v fs) j (key, keys) (g, gs) =
          ap (aggregate_fields F fs) (go-render v name j g)
          ∙ struct-render fs (print_field F name (render F j.indent (go_tree v)) j) keys gs
          ∙ rw (after_struct-true fs) (member_then F name (render F j.indent (go_tree v)) _ j key)
      struct-render (go_field false name v fs) j keys g = struct-render fs j keys g

    -- AnyToJson of a Go value is a new line and the text of its document, if it holds no nil, no time and
    -- nothing that has no case of its own in an exported place, the names of exported fields are keys of
    -- an object, and `%q` of hexadecimal digits puts them between quotes.
    pub any_to_json-render :
        (v : GoValue) → IsJson v → any_to_json F v ≡ codes "\n" ++ render F [] (go_tree v)
    unfolding any_to_json print_field
    any_to_json-render v g =
        ap (λ j. j.out) (go-render v [] (record { out = []; indent = []; need_comma = false }) g)
