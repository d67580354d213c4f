-- ===== src/Gorpc/Text.antt =====
-- The text that jsonOut writes is that of the value's document.
use goxdr.Prelude.{
  ℕ, suc, Bool, true, false, [], ◌++◌, Bytes, bytes_eq_refl, codes, append-nil, ◌≡◌, refl, sym, ap,
  ◌∙◌,
}
use goxdr.Xdr.Fault.{ok, ◌>>=◌}
use goxdr.Gorpc.Names.{hide_field_name}
use goxdr.Gorpc.Names.Laws.{Digits}
use goxdr.Gorpc.Hex.{encode}
use goxdr.Gorpc.Values.{
  Kind, uint32, Value, scalar, string, opaque, fixed, pointer, vec, array, struct, union, absent,
  present, Items, nil, cons, Fields, end, field, Arms, Body, unset, body, Selection, invalid, void,
  chosen, select, count, Fmt, index_name, Json, Members, member,
}
use goxdr.Gorpc.ToJson.{
  JsonOut, has_key, print_field, begin, finish, marshal, marshal_items, marshal_fields,
  marshal_arms, marshal_body, scalar_text, xdr_to_json,
}
use goxdr.Gorpc.Documents.{scalar_tree, render, render_elems, render_members}
use goxdr.Gorpc.Parts.{
  ltb-false, index_shown, sep, more, after_items, after_items-true, scalar_text-render, hex_field,
  bracketed, elem_then, member_then, by_selection, marshal_arms-select,
}
use goxdr.Gorpc.Printing.{
  hidden, splice, Prints, PrintsItems, PrintsFields, PrintsBody, document, document_items,
  document_fields, document_body, after, after-true, written, written-join,
}

-- An element is not hidden.
index_unhidden :
    (F : Fmt) (i : ℕ) (v : Value) → Digits (F.show uint32 i) → hidden (index_name F i) v ≡ false
index_unhidden F i (scalar k n) h = refl
index_unhidden F i (string bound s) h = refl
index_unhidden F i (opaque bound s) h = refl
index_unhidden F i (fixed s) h = refl
index_unhidden F i (pointer blank absent) h = refl
index_unhidden F i (pointer blank (present v)) h = index_unhidden F i v h
index_unhidden F i (vec bound blank xs) h = refl
index_unhidden F i (array xs) h = refl
index_unhidden F i (struct type fs) h = index_shown F i type h
index_unhidden F i (union type tag k n arms u) h = index_shown F i type h

top_unhidden : (v : Value) → hidden [] v ≡ false
unfolding hide_field_name
top_unhidden (scalar k n) = refl
top_unhidden (string bound s) = refl
top_unhidden (opaque bound s) = refl
top_unhidden (fixed s) = refl
top_unhidden (pointer blank absent) = refl
top_unhidden (pointer blank (present v)) = top_unhidden v
top_unhidden (vec bound blank xs) = refl
top_unhidden (array xs) = refl
top_unhidden (struct type fs) = refl
top_unhidden (union type tag k n arms u) = refl

module _ (F : Fmt)
    (quote_hex : (s : Bytes) → F.quote (encode s) ≡ codes "\"" ++ (encode s ++ codes "\""))
    (index_digits : (i : ℕ) → Digits (F.show uint32 i)) where
  -- A key with its value, and the members that follow.
  member-written :
      (name text : Bytes) (x : Json) (ms : Members) (j : JsonOut)
      → has_key name ≡ true
      → text ≡ render F j.indent x
      → written F ms (print_field F name text j) ≡ written F (member name x ms) j
  unfolding print_field render
  member-written name text x ms j key e =
      rw (after-true F ms, e)
        (member_then F name (render F j.indent x) (render_members F (codes ",\n") j.indent ms) j
          key)

  last-written :
      (name : Bytes) (x : Json) (j : JsonOut)
      → has_key name ≡ true
      → print_field F name (render F j.indent x) j ≡ written F (member name x end) j
  unfolding render print_field
  last-written name x j key =
      ap {A = Bytes} (λ t. record (print_field F name (render F j.indent x) j) { out = t })
        (sym (append-nil _))
      ∙ member-written name (render F j.indent x) x end j key refl

  -- What a value writes, by whether it is hidden: itself, or its members.
  abbrev Out : Bytes → Bool → Json → JsonOut → JsonOut
  Out name false x j = print_field F name (render F j.indent x) j
  Out name true x j = written F (splice name true x) j

  Out-written :
      (name : Bytes) (b : Bool) (x : Json) (j : JsonOut)
      → has_key name ≡ true
      → Out name b x j ≡ written F (splice name b x) j
  Out-written name false x j key = last-written name x j key
  Out-written name true x j key = refl

  union-written :
      (tag : Bytes) (k : Kind) (n : ℕ) (arms : Arms) (u : Body) (j : JsonOut)
      → has_key tag ≡ true
      → by_selection F (select n arms) u (print_field F tag (scalar_text F k n) j)
        ≡ ok (
            written F (document_body F (select n arms) u) (print_field F tag (scalar_text F k n) j))
      → marshal_arms F arms n (marshal_body F u) (print_field F tag (scalar_text F k n) j)
        ≡ ok (written F (member tag (scalar_tree F k n) (document_body F (select n arms) u)) j)
  union-written tag k n arms u j key e =
      marshal_arms-select F arms n u (print_field F tag (scalar_text F k n) j)
      ∙ e
      ∙ ap {A = JsonOut} ok (
          member-written tag (scalar_text F k n) (scalar_tree F k n)
            (document_body F (select n arms) u) j key (scalar_text-render F k n j.indent))

  mutual
    unfolding marshal document render Prints print_field by_selection begin

    marshal-render :
        (v : Value) (name : Bytes) (b : Bool) (j : JsonOut)
        → hidden name v ≡ b
        → Prints v
        → marshal F v name j ≡ ok (Out name b (document F v) j)
    marshal-render (scalar k n) name b j h g =
        rw (← h) (ap (λ t. ok (print_field F name t j)) (scalar_text-render F k n j.indent))
    marshal-render (string bound s) name b j h g = rw (← h) refl
    marshal-render (opaque bound s) name b j h g =
        rw (← h) (ap {A = JsonOut} ok (hex_field F quote_hex s name j))
    marshal-render (fixed s) name b j h g =
        rw (← h) (ap {A = JsonOut} ok (hex_field F quote_hex s name j))
    marshal-render (pointer blank absent) name b j h g = rw (← h) refl
    marshal-render (pointer blank (present v)) name b j h g = marshal-render v name b j h g
    marshal-render (vec bound blank xs) name b j h (few, small, g) =
        rw (← h, ltb-false bound (count xs) few)
          (ap (λ r. r >>= λ k. ok (finish b']' j.indent k))
              (items-render xs 0 (begin b'[' (print_field F name [] j)) g)
            ∙ ap {A = JsonOut} ok (bracketed F b'[' b']' name _ (after_items xs false) j))
    marshal-render (array xs) name b j h g = rw (← h) (
        ap (λ r. r >>= λ k. ok (finish b']' j.indent k))
          (items-render xs 0 (begin b'[' (print_field F name [] j)) g)
        ∙ ap {A = JsonOut} ok (bracketed F b'[' b']' name _ (after_items xs false) j))
    marshal-render (struct type fs) name false j h g = rw h (
        ap (λ r. r >>= λ k. ok (finish b'}' j.indent k))
          (fields-render fs (begin b'{' (print_field F name [] j)) g)
        ∙ ap {A = JsonOut} ok
            (bracketed F b'{' b'}' name _ (after F (document_fields F fs) false) j))
    marshal-render (struct type fs) name true j h g = rw h (fields-render fs j g)
    marshal-render (union type tag k n arms u) name false j h (key, g) = rw h (
        ap (λ r. r >>= λ i. ok (finish b'}' j.indent i))
          (union-written tag k n arms u (begin b'{' (print_field F name [] j)) key
            (body-render u (select n arms) _ g))
        ∙ ap {A = JsonOut} ok (bracketed F b'{' b'}' name _ true j))
    marshal-render (union type tag k n arms u) name true j h (key, g) =
        rw h (union-written tag k n arms u j key (body-render u (select n arms) _ g))

    items-render :
        (xs : Items) (i : ℕ) (j : JsonOut)
        → PrintsItems xs
        → marshal_items F xs i j
          ≡ ok (
              more
                (render_elems F (sep j.need_comma) j.indent (document_items F xs))
                (after_items xs j.need_comma)
                j)
    items-render nil i j g =
        ap {A = Bytes} (λ t. ok (record j { out = t })) (sym (append-nil j.out))
    items-render (cons x xs) i j (g, gs) =
        ap (λ r. r >>= marshal_items F xs (suc i))
          (marshal-render x (index_name F i) false j (index_unhidden F i x (index_digits i)) g)
        ∙ items-render xs (suc i)
            (print_field F (index_name F i) (render F j.indent (document F x)) j) gs
        ∙ ap {A = JsonOut} ok
            (rw (after_items-true xs) (elem_then F i (render F j.indent (document F x)) _ j))

    fields-render :
        (fs : Fields) (j : JsonOut)
        → PrintsFields fs
        → marshal_fields F fs j ≡ ok (written F (document_fields F fs) j)
    fields-render end j g = ap {A = Bytes} (λ t. ok (record j { out = t })) (sym (append-nil j.out))
    fields-render (field name v fs) j (key, g, gs) =
        ap (λ r. r >>= marshal_fields F fs)
          (marshal-render v name (hidden name v) j refl g
            ∙ ap {A = JsonOut} ok (Out-written name (hidden name v) (document F v) j key))
        ∙ fields-render fs (written F (splice name (hidden name v) (document F v)) j) gs
        ∙ ap {A = JsonOut} ok
            (written-join F (splice name (hidden name v) (document F v)) (document_fields F fs) j)

    body-render :
        (u : Body) (sel : Selection) (j : JsonOut)
        → PrintsBody sel u
        → by_selection F sel u j ≡ ok (written F (document_body F sel u) j)
    body-render u invalid j g = absurd g
    body-render unset void j g =
        ap {A = Bytes} (λ t. ok (record j { out = t })) (sym (append-nil j.out))
    body-render (body held v) void j g =
        ap {A = Bytes} (λ t. ok (record j { out = t })) (sym (append-nil j.out))
    body-render unset (chosen name type blank) j g = absurd g
    body-render (body held v) (chosen name type blank) j (same, key, g) =
        rw (same, bytes_eq_refl type)
          (marshal-render v name (hidden name v) j refl g
            ∙ ap {A = JsonOut} ok (Out-written name (hidden name v) (document F v) j key))

  -- XdrToJson of a value is a new line and the indented text of its document, if %q puts hexadecimal
  -- digits between quotes and an index is written in digits; the vectors are within their bounds and below
  -- 2 ^ 32 elements, each discriminant has an arm and `_u` is that arm's, and the names are keys of an
  -- object.
  pub xdr_to_json-render :
      (v : Value) → Prints v → xdr_to_json F v ≡ ok (codes "\n" ++ render F [] (document F v))
  unfolding xdr_to_json print_field
  xdr_to_json-render v g =
      ap (λ r. r >>= λ j. ok j.out)
        (marshal-render v [] false (record { out = []; indent = []; need_comma = false })
          (top_unhidden v) g)
