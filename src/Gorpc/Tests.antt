-- ===== src/Gorpc/Tests.antt =====
-- The command gorpc on concrete inputs.
use goxdr.Prelude.{
  ℕ, zero, suc, ◌-◌, true, false, [], ◌∷◌, ◌++◌, some, length, replicate, codes, ◌≡◌, bytes_eq,
  refl, arith,
}
use goxdr.Xdr.Fault.{ok, throw, xdr_error}
use goxdr.Gorpc.Names.{hide_field_name}
use goxdr.Gorpc.Names.Laws.{Digits}
use goxdr.Gorpc.Values.{
  uint32, enum, Value, scalar, string, opaque, pointer, vec, struct, union, absent, present, nil,
  cons, end, field, void_default, arm, body, Fmt, select,
}
use goxdr.Gorpc.ToJson.{xdr_to_json}
use goxdr.Gorpc.FromJson.{json_to_xdr}
use goxdr.Gorpc.Documents.{tree, render}
use goxdr.Gorpc.Printing.{Prints, document}
use goxdr.Gorpc.Text.{xdr_to_json-render}
use goxdr.Gorpc.GoJson.{
  go_int32, GoValue, basic, byte_slice, list, structure, reference, ref, time, no_item, item,
  no_field, go_field, any_to_json,
}
use goxdr.Gorpc.GoJson.Text.{IsJson, go_tree, any_to_json-render}
use goxdr.Gorpc.RoundTrip.{json_to_xdr-pointers}

-- Numbers as tally marks, one more than the number.
abbrev tally : Fmt
tally = record {
  show = λ k n. replicate (suc n) b'1';
  scan = λ k t. some (length t - 1);
  quote = λ s. codes "\"" ++ (s ++ codes "\"");
  reprint = λ s. s;
}

tally-Digits : (i : ℕ) → Digits (replicate (suc i) b'1')
tally-Digits zero = ((omega arith, omega arith), tt)
tally-Digits (suc i) = ((omega arith, omega arith), tally-Digits i)

-- A struct with a vector of numbers, a present value, an absent one, and a union.
abbrev sample : Value
sample = struct (codes "msg") (
    field (codes "list")
      (vec 3 (scalar uint32 0) (cons (scalar uint32 2) (cons (scalar uint32 1) nil)))
      (field (codes "next") (pointer (string 5 []) (present (string 5 (codes "ab")))) (
        field (codes "last") (pointer (string 5 []) absent) (
          field (codes "body")
            (union (codes "result") (codes "stat") (enum (codes "status")) 1
              (arm (1 ∷ []) (codes "raw") (codes "[]byte") (opaque 4 []) void_default)
              (body (codes "[]byte") (opaque 4 (10 ∷ 255 ∷ []))))
            end))))

-- A vector of pointers, and a hidden struct.
abbrev envelope : Value
envelope = struct (codes "tx") (
    field (codes "v1")
      (struct (codes "TransactionV1Envelope") (field (codes "fee") (scalar uint32 4) end))
      (field (codes "next")
        (vec 2 (pointer (scalar uint32 0) absent)
          (cons (pointer (scalar uint32 0) (present (scalar uint32 7))) nil))
        (field (codes "body")
          (union (codes "result") (codes "stat") (enum (codes "status")) 1
            (arm (1 ∷ []) (codes "raw") (codes "[]byte") (opaque 4 []) void_default)
            (body (codes "[]byte") (opaque 4 (10 ∷ 255 ∷ []))))
          end)))

envelope-Prints : Prints envelope
unfolding Prints bytes_eq select
envelope-Prints = (
  refl,
  (refl, tt, tt),
  (refl, (omega arith, omega arith, (tt, tt)), (refl, (refl, (refl, refl, tt)), tt)),
)

xdr_to_json-render_example :
    xdr_to_json tally envelope ≡ ok (codes "\n" ++ render tally [] (document tally envelope))
xdr_to_json-render_example =
    xdr_to_json-render tally (λ s. refl) tally-Digits envelope envelope-Prints

json_to_xdr-pointers_example :
    json_to_xdr tally (vec 3 (pointer (scalar uint32 0) absent) nil) (
      tree tally (
        vec 3
          (pointer (scalar uint32 0) absent)
          (cons (pointer (scalar uint32 0) (present (scalar uint32 7))) nil)))
    ≡ throw xdr_error
json_to_xdr-pointers_example =
    json_to_xdr-pointers tally 3 (scalar uint32 0) (scalar uint32 7) (omega arith) tt

hidden : hide_field_name (codes "tx.v1") (codes "TransactionV1Envelope") ≡ true
unfolding hide_field_name bytes_eq
hidden = refl

-- A struct with a list of numbers, bytes, a time in a field that is not exported, and a pointer.
abbrev go_sample : GoValue
go_sample = structure (
    go_field true (codes "List") (list (item (basic go_int32 1) (item (basic go_int32 2) no_item)))
      (go_field true (codes "Raw") (byte_slice (10 ∷ 255 ∷ [])) (
        go_field false (codes "since") (time (codes "0001"))
          (go_field true (codes "Next") (reference (ref (basic go_int32 3))) no_field))))

go_sample-IsJson : IsJson go_sample
unfolding IsJson
go_sample-IsJson = ((refl, (refl, (refl, tt))), ((tt, (tt, tt)), (tt, (tt, tt))))

any_to_json-render_example :
    any_to_json tally go_sample ≡ codes "\n" ++ render tally [] (go_tree tally go_sample)
any_to_json-render_example = any_to_json-render tally (λ s. refl) go_sample go_sample-IsJson
