-- ===== src/Gorpc/RoundTrip.antt =====
-- The document of a value, read into an empty value of its type, gives the value back.
use goxdr.Prelude.{
  ℕ, suc, ◌%◌, ◌^◌, ◌≤◌, ◌<◌, false, [], none, length, length-replicate, ltb, ==_refl, Bytes, ◌≡◌,
  refl, ap, subst, ◌∙◌, arith,
}
use goxdr.Xdr.Fault.{ok, throw, xdr_error, ◌>>=◌}
use goxdr.Gorpc.Names.{hide_field_name}
use goxdr.Gorpc.Names.Laws.{Digits}
use goxdr.Gorpc.Hex.{IsBytes, encode, decode-encode}
use goxdr.Gorpc.Values.{
  Kind, uint32, Value, scalar, string, opaque, fixed, pointer, vec, array, struct, union, absent,
  present, Items, nil, cons, Fields, end, field, Body, unset, body, Selection, invalid, void,
  chosen, select, type_name, kind_name, count, Fmt, index_name, Json, arr, obj, Elems, Members,
  member,
}
use goxdr.Gorpc.FromJson.{
  len, get, unhex, fetch, read_new, read_scalar, read_at, read_items, read_fields, read_arms,
  marshal, json_to_xdr,
}
use goxdr.Gorpc.Documents.{
  fresh, Scans, fresh_items, fresh_fields, scalar_tree, tree, tree_items, tree_fields, tree_body,
  IsDirect, Shown, Readable, ReadableElems, ReadableItems, ReadableFields, ReadableBody,
}
use goxdr.Gorpc.Parts.{index_shown}
use goxdr.Gorpc.Reading.{
  hide_none, get_key, find_skip, find_here, scalar_read, read_scalar-tree, Again, direct-Again,
  fetch-direct, fetch-tree, by_selection, read_arms-select, Finds, tree-Finds,
}

unhex-encode : (s : Bytes) → IsBytes s → unhex (encode s) ≡ ok s
unfolding unhex
unhex-encode s h = ground (arith, decode-encode s h)

len-tree_items : (F : Fmt) (xs : Items) → len (tree_items F xs) ≡ count xs
unfolding tree
len-tree_items F nil = refl
len-tree_items F (cons x xs) = ap suc (len-tree_items F xs)

ltb-false : (m n : ℕ) → n ≤ m → ltb m n ≡ false
ltb-false m n h = ground arith

mod_small : (n : ℕ) → n < 2 ^ 32 → n % 2 ^ 32 ≡ n
mod_small n h = omega arith

module _ (F : Fmt) (index_digits : (i : ℕ) → Digits (F.show uint32 i)) where
  -- An element is taken off the array and read into an empty one.
  fetch-elem :
      (x blank : Value) (i : ℕ) (rest : Elems)
      → IsDirect x
      → fresh x ≡ blank
      → read_at F (fresh x) (index_name F i) (tree F x) (arr rest) ≡ ok (x, arr rest)
      → fetch blank
          (hide_field_name (index_name F i) (type_name blank))
          (index_name F i)
          (read_at F blank (index_name F i))
          (arr (cons (tree F x) rest))
        ≡ ok (x, arr rest)
  unfolding get
  fetch-elem x blank i rest d e h =
      subst
        (λ b.
          fetch b (hide_field_name (index_name F i) (type_name b)) (index_name F i)
            (read_at F b (index_name F i)) (arr (cons (tree F x) rest))
          ≡ ok (x, arr rest))
        e
        (fetch-direct F x (fresh x) _ (index_name F i) _ (arr (cons (tree F x) rest)) (arr rest) d
            (index_shown F i (type_name (fresh x)) (index_digits i)) refl
          ∙ h)

  -- The discriminant is read into an empty one.
  tag_read :
      (tag : Bytes) (k : Kind) (n : ℕ) (rest : Members)
      → Scans F k n
      → Shown tag (kind_name k)
      → fetch 0
          (hide_field_name tag (kind_name k))
          tag
          (read_scalar F k)
          (obj (member tag (scalar_tree F k n) rest))
        ≡ ok (n, obj (member tag (scalar_tree F k n) rest))
  unfolding fetch
  tag_read tag k n rest sc (key, shown) =
      rw
        (
          get_key tag (member tag (scalar_tree F k n) rest) key,
          find_here tag (scalar_tree F k n) rest,
          shown,
        )
        (scalar_read F k n 0 _ sc)

  mutual
    unfolding read_at tree fresh Readable read_new by_selection

    read_at-tree :
        (v : Value) (name : Bytes) (o : Json)
        → Readable F v
        → Again F v name o
        → read_at F (fresh v) name (tree F v) o ≡ ok (v, o)
    read_at-tree (scalar k n) name o g a = rw (read_scalar-tree F k n o g) refl
    read_at-tree (string bound s) name o g a = rw (ltb-false bound (length s) g) refl
    read_at-tree (opaque bound s) name o g a =
        rw (unhex-encode s g.1, ltb-false bound (length s) g.0) refl
    read_at-tree (fixed s) name o g a =
        rw (unhex-encode s g, length-replicate {A = ℕ} (length s) 0, ==_refl (length s)) refl
    read_at-tree (pointer blank absent) name o g a = absurd a
    read_at-tree (pointer blank (present v)) name o (g, e, d) (again, shown) =
        ap (λ r. r >>= λ x. ok (pointer blank (present x.0), x.1))
          (subst
            (λ b.
              fetch b (hide_field_name name (type_name b)) name (read_at F b name) o ≡ ok (v, o))
            e
            (fetch-direct F v (fresh v) _ name _ o o d
                (ap (λ b. hide_field_name name (type_name b)) e ∙ shown) again
              ∙ read_at-tree v name o g (direct-Again F v name o d)))
    read_at-tree (vec bound blank xs) name o (few, small, g) a =
        rw (len-tree_items F xs, mod_small (count xs) small, ltb-false bound (count xs) few)
          (ap (λ r. r >>= λ x. ok (vec bound blank x.0, o)) (new_elems xs blank 0 g))
    read_at-tree (array xs) name o g a = ap (λ r. r >>= λ x. ok (array x.0, o)) (old_items xs 0 g)
    read_at-tree (struct type fs) name o g a =
        ap (λ r. r >>= λ x. ok (struct type x.0, o))
          (all_fields fs (tree_fields F fs) g (tree-Finds F fs g))
    read_at-tree (union type tag k n arms u) name o (sc, shown, g) a =
        ap
          (λ r. r >>= λ t.
            read_arms F arms t.0 unset none t.1 >>= λ x. ok (union type tag k t.0 arms x.0, o))
          (tag_read tag k n (tree_body F (select n arms) u) sc shown)
        ∙ ap (λ r. r >>= λ x. ok (union type tag k n arms x.0, o))
            (read_arms-select F arms n _ ∙ the_arm u tag (select n arms) (scalar_tree F k n) g)

    new_elems :
        (xs : Items) (blank : Value) (i : ℕ)
        → ReadableElems F blank xs
        → read_new
            (count xs)
            i
            (λ i.
              fetch blank
                (hide_field_name (index_name F i) (type_name blank))
                (index_name F i)
                (read_at F blank (index_name F i)))
            (arr (tree_items F xs))
          ≡ ok (xs, arr nil)
    new_elems nil blank i g = refl
    new_elems (cons x xs) blank i ((g, e, d), gs) =
        rw
          (
            fetch-elem x blank i (tree_items F xs) d e (
                read_at-tree x (index_name F i) (arr (tree_items F xs)) g (direct-Again F x _ _ d)),
            new_elems xs blank (suc i) gs,
          )
          refl

    old_items :
        (xs : Items) (i : ℕ)
        → ReadableItems F xs
        → read_items F (fresh_items xs) i (arr (tree_items F xs)) ≡ ok (xs, arr nil)
    old_items nil i g = refl
    old_items (cons x xs) i ((g, d), gs) =
        rw
          (
            fetch-elem x (fresh x) i (tree_items F xs) d refl (
                read_at-tree x (index_name F i) (arr (tree_items F xs)) g (direct-Again F x _ _ d)),
            old_items xs (suc i) gs,
          )
          refl

    all_fields :
        (fs : Fields) (ms : Members)
        → ReadableFields F fs
        → Finds F fs ms
        → read_fields F (fresh_fields fs) (obj ms) ≡ ok (fs, obj ms)
    all_fields end ms g h = refl
    all_fields (field name v fs) ms (g, gs) (found, h) =
        rw
          (
            fetch-tree F v name (obj ms) g.0 g.1.1
                (get_key name ms g.1.0 ∙ ap (λ x. ok (x, obj ms)) found)
                (read_at-tree v name (obj ms) g.0),
            all_fields fs ms gs h,
          )
          refl

    the_arm :
        (u : Body) (tag : Bytes) (sel : Selection) (t : Json)
        → ReadableBody F tag sel u
        → by_selection F sel (obj (member tag t (tree_body F sel u)))
          ≡ ok (u, obj (member tag t (tree_body F sel u)))
    the_arm unset tag invalid t g = absurd g
    the_arm unset tag void t g = refl
    the_arm unset tag (chosen name type blank) t g = absurd g
    the_arm (body held v) tag invalid t g = absurd g
    the_arm (body held v) tag void t g = absurd g
    the_arm (body held v) tag (chosen name type blank) t (g, same, e, (key, shown), apart) =
        let o = obj (member tag t (member name (tree F v) end)) in
        rw (← same) (
          ap (λ r. r >>= λ x. ok (body held x.0, x.1))
            (subst
              (λ b.
                fetch b (hide_field_name name (type_name b)) name (read_at F b name) o ≡ ok (v, o))
              e
              (fetch-tree F v name o g shown
                (get_key name (member tag t (member name (tree F v) end)) key
                  ∙ ap (λ x. ok (x, o))
                      (find_skip name tag t (member name (tree F v) end) apart
                        ∙ find_here name (tree F v) end))
                (read_at-tree v name o g))))

module _ (F : Fmt) where
  fetch-pointer :
      (blank v : Value) (i : ℕ)
      → IsDirect v
      → fetch
          (pointer blank absent)
          (hide_field_name (index_name F i) [])
          (index_name F i)
          (read_at F (pointer blank absent) (index_name F i))
          (arr (cons (tree F v) nil))
        ≡ throw xdr_error
  unfolding get
  fetch-pointer blank v i d =
      fetch-direct F v (pointer blank absent) _ (index_name F i) _ (arr (cons (tree F v) nil))
        (arr nil) d (hide_none (index_name F i)) refl
      ∙ no_more
    where
      no_more :
          read_at F (pointer blank absent) (index_name F i) (tree F v) (arr nil) ≡ throw xdr_error
      no_more = unfold read_at in unfold fetch in refl

  -- A vector of pointers is not read back: the pointer and its value both take an element off the
  -- array, so that the document of a vector with one present value is an error.
  pub json_to_xdr-pointers :
      (bound : ℕ) (blank v : Value)
      → 1 ≤ bound
      → IsDirect v
      → json_to_xdr F
          (vec bound (pointer blank absent) nil)
          (tree F (vec bound (pointer blank absent) (cons (pointer blank (present v)) nil)))
        ≡ throw xdr_error
  unfolding json_to_xdr marshal get hide_field_name tree read_at read_new
  json_to_xdr-pointers bound blank v h d =
      rw (ltb-false bound 1 h) (rw (fetch-pointer blank v 0 d) refl)
