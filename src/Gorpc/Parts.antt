-- ===== src/Gorpc/Parts.antt =====
-- How the parts of a document follow one another in the text.
use goxdr.Prelude.{
  ℕ, ◌≤◌, Bool, true, false, [], ◌∷◌, ◌++◌, ltb, if◌then◌else◌, Bytes, codes, All, All-append, ◌≢◌,
  append_assoc, ◌≡◌, refl, sym, ap, ◌∙◌, arith,
}
use goxdr.Xdr.Fault.{Result, ok, throw, xdr_error}
use goxdr.Gorpc.Names.{hide_field_name, v_field, starts_v}
use goxdr.Gorpc.Names.Laws.{Digits, last_part_plain}
use goxdr.Gorpc.Hex.{encode}
use goxdr.Gorpc.Values.{
  Kind, bool, enum, int32, uint32, float32, int64, uint64, float64, Value, scalar, string, opaque,
  fixed, pointer, vec, array, struct, union, Items, nil, cons, Arms, no_default, void_default,
  default, void_arm, arm, Body, Selection, invalid, void, chosen, select, type_name, Fmt, access,
  index_name,
}
use goxdr.Gorpc.ToJson.{
  JsonOut, write, has_key, print_field, scalar_text, begin, finish, marshal, marshal_arms,
  marshal_body,
}
use goxdr.Gorpc.Documents.{
  IsDirect, key_type, fresh, scalar_tree, render, Readable, ReadableElems, ReadableItems,
}

pub ltb-false : (m n : ℕ) → n ≤ m → ltb m n ≡ false
ltb-false m n h = ground arith

-- An index is not the name of a hidden field.
pub index_shown :
    (F : Fmt) (i : ℕ) (type : Bytes)
    → Digits (F.show uint32 i)
    → hide_field_name (index_name F i) type ≡ false
unfolding hide_field_name v_field starts_v
index_shown F i type h =
    rw
      (last_part_plain (index_name F i) (index_name F i) (
        no_dot,
        All-append (λ c. c ≢ b'.') (F.show uint32 i) (codes "]") (plain (F.show uint32 i) h)
            (close, tt),
      ))
      (ground arith)
  where
    no_dot : ◌≢◌ {A = ℕ} b'[' b'.'
    no_dot e = absurd (omega arith)

    close : ◌≢◌ {A = ℕ} b']' b'.'
    close e = absurd (omega arith)

    plain : (s : Bytes) → Digits s → All (λ c. c ≢ b'.') s
    plain [] h = tt
    plain (c ∷ s) h = ((λ e. omega (arith, e, h.0.0)), plain s h.1)

abbrev pub sep : Bool → Bytes
sep b = if b then codes ",\n" else codes "\n"

-- What is written, and whether the next part needs a comma.
abbrev pub more : Bytes → Bool → JsonOut → JsonOut
more text b j = record j { out = j.out ++ text; need_comma = b }

abbrev pub after_items : Items → Bool → Bool
after_items nil b = b
after_items (cons x xs) b = true

pub after_items-true : (xs : Items) → after_items xs true ≡ true
after_items-true nil = refl
after_items-true (cons x xs) = refl

pub direct_key : (v blank : Value) → IsDirect v → fresh v ≡ blank → key_type v ≡ type_name blank
unfolding fresh
direct_key (scalar k n) blank d e = ap type_name e
direct_key (string bound s) blank d e = ap type_name e
direct_key (opaque bound s) blank d e = ap type_name e
direct_key (fixed s) blank d e = ap type_name e
direct_key (pointer new p) blank d e = absurd d
direct_key (vec bound new xs) blank d e = ap type_name e
direct_key (array xs) blank d e = ap type_name e
direct_key (struct type fs) blank d e = ap type_name e
direct_key (union type tag k n arms u) blank d e = ap type_name e

module _ (F : Fmt) where
  pub scalar_text-render :
      (k : Kind) (n : ℕ) (indent : Bytes) → scalar_text F k n ≡ render F indent (scalar_tree F k n)
  unfolding scalar_text render
  scalar_text-render bool n indent = refl
  scalar_text-render (enum name) n indent = refl
  scalar_text-render int32 n indent = refl
  scalar_text-render uint32 n indent = refl
  scalar_text-render float32 n indent = refl
  scalar_text-render int64 n indent = refl
  scalar_text-render uint64 n indent = refl
  scalar_text-render float64 n indent = refl

  -- What is written behind a field.
  pub print_field-write :
      (name text more : Bytes) (j : JsonOut)
      → write more (print_field F name text j) ≡ print_field F name (text ++ more) j
  unfolding print_field
  print_field-write name text more j = simp append_assoc

  -- Bytes between quotes are written as their quoted hexadecimal digits.
  pub hex_field :
      ((s : Bytes) → F.quote (encode s) ≡ codes "\"" ++ (encode s ++ codes "\""))
      → (s name : Bytes) (j : JsonOut)
      → write (codes "\"") (write (encode s) (print_field F name (codes "\"") j))
        ≡ print_field F name (F.quote (encode s)) j
  hex_field quote_hex s name j =
      ap (write (codes "\"")) (print_field-write name (codes "\"") (encode s) j)
      ∙ print_field-write name (codes "\"" ++ encode s) (codes "\"") j
      ∙ ap (λ t. print_field F name t j)
          (append_assoc (codes "\"") (encode s) (codes "\"") ∙ sym (quote_hex s))

  -- The text between brackets
  pub bracketed :
      (left right : ℕ) (name parts : Bytes) (b : Bool) (j : JsonOut)
      → finish right j.indent (record (begin left (print_field F name [] j)) {
        out = (begin left (print_field F name [] j)).out ++ parts;
        need_comma = b;
      })
        ≡ print_field F name (left ∷ (parts ++ (codes "\n" ++ (j.indent ++ right ∷ [])))) j
  unfolding finish begin print_field
  bracketed left right name parts b j = simp append_assoc

  -- An element and a member, with what follows them.
  pub elem_then :
      (i : ℕ) (text rest : Bytes) (j : JsonOut)
      → more rest true (print_field F (index_name F i) text j)
        ≡ more (sep j.need_comma ++ (j.indent ++ (text ++ rest))) true j
  unfolding print_field
  elem_then i text rest j = simp append_assoc

  pub member_then :
      (name text rest : Bytes) (j : JsonOut)
      → has_key name ≡ true
      → more rest true (print_field F name text j)
        ≡ more
            (sep j.need_comma ++ (j.indent ++ ((F.quote name ++ codes ": ") ++ (text ++ rest))))
            true
            j
  unfolding print_field
  member_then name text rest j h = rw h (simp append_assoc)

  -- The arm of the discriminant is the one that is written.
  unfoldable pub by_selection : Selection → Body → JsonOut → Result JsonOut
  by_selection invalid u j = throw xdr_error
  by_selection void u j = ok j
  by_selection (chosen name type blank) u j =
      access type (marshal_body F u) (marshal F blank) name j

  pub marshal_arms-select :
      (arms : Arms) (n : ℕ) (u : Body) (j : JsonOut)
      → marshal_arms F arms n (marshal_body F u) j ≡ by_selection (select n arms) u j
  unfolding marshal select by_selection
  marshal_arms-select no_default n u j = refl
  marshal_arms-select void_default n u j = refl
  marshal_arms-select (default name type blank) n u j = refl
  marshal_arms-select (void_arm cases rest) n u j = ground (arith, marshal_arms-select rest n u j)
  marshal_arms-select (arm cases name type blank rest) n u j =
      ground (arith, marshal_arms-select rest n u j)

  pub ReadableElems-ReadableItems :
      (blank : Value) (xs : Items) → ReadableElems F blank xs → ReadableItems F xs
  unfolding Readable
  ReadableElems-ReadableItems blank nil h = tt
  ReadableElems-ReadableItems blank (cons x xs) h =
      ((h.0.0, h.0.2), ReadableElems-ReadableItems blank xs h.1)
