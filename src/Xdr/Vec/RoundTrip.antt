-- ===== src/Xdr/Vec/RoundTrip.antt =====
-- A vector that is written is read back into any slice.
use goxdr.Prelude.{
  All, ◌∙◌, ℕ, suc, ◌+◌, ◌^◌, ◌≤◌, ◌<◌, List, [], ◌∷◌, ◌++◌, length, Bytes, ◌≡◌, refl, arith,
  length-append, append_assoc, append-nil,
}
use goxdr.Xdr.Fault.{Result, ok}
use goxdr.Xdr.Codec.{put32}
use goxdr.Xdr.Codec.RoundTrip.{get32-put32}
use goxdr.Xdr.Vec.{
  Slice, reslice, lengthen, marshal_loop, shorten, marshal_n, recurse, read_size, write_size,
}
use goxdr.Xdr.Vec.Rounds.{
  marshal_at-append, length-snoc, ltb-false, leb-false, round, mod_small, check_len_fits,
  shorten-append,
}

-- The elements of a vector on the wire, and the vector with its length.
abbrev pub put_all {ℓ} : {A : Type ℓ} → (A → Bytes) → List A → Bytes
put_all put [] = []
put_all put (x ∷ xs) = put x ++ put_all put xs

abbrev pub put_vec {ℓ} : {A : Type ℓ} → (A → Bytes) → List A → Bytes
put_vec put xs = put32 (length xs) ++ put_all put xs

module _ {A : Type 0} (bound : ℕ) (blank : A) (put : A → Bytes) (Good : A → Type 0) where
  read_loop :
      (get : A → Bytes → Result (A × Bytes))
      → ((old x : A) (s : Bytes) → Good x → get old (put x ++ s) ≡ ok (x, s))
      → (xs done rest spare : List A) (s : Bytes) → All Good xs
      → length done + length xs ≤ bound
      → (left right : List A) × (marshal_loop bound blank get
            (length xs)
            (length done)
            (record { items = done ++ rest; spare = spare })
            (put_all put xs ++ s)
          ≡ ok (record { items = done ++ (xs ++ left); spare = right }, s))
  unfolding marshal_loop
  read_loop get reads [] done rest spare s good h = (rest, spare, refl)
  read_loop get reads (x ∷ xs) done rest spare s (g, good) h =
      let (left, right, e) =
        round bound blank get (marshal_loop bound blank get (length xs) (suc (length done))) x done
          rest spare (put x ++ (put_all put xs ++ s)) (put_all put xs ++ s) (λ old. reads old x _ g)
          (omega arith) in
      let (left', right', e') =
        read_loop get reads xs (done ++ x ∷ []) left right s good
          (omega (arith, length-append done (x ∷ []))) in
      (
        left',
        right',
        rw (append_assoc (put x) (put_all put xs) s) (e ∙ next left right left' right' e'),
      )
    where
      next :
          (left right left' right' : List A)
          → marshal_loop bound blank get
              (length xs)
              (length (done ++ x ∷ []))
              (record { items = done ++ x ∷ [] ++ left; spare = right })
              (put_all put xs ++ s)
            ≡ ok (record { items = done ++ x ∷ [] ++ (xs ++ left'); spare = right' }, s)
          → marshal_loop bound blank get
              (length xs)
              (suc (length done))
              (record { items = done ++ x ∷ left; spare = right })
              (put_all put xs ++ s)
            ≡ ok (record { items = done ++ (x ∷ xs ++ left'); spare = right' }, s)
      next left right left' right' e =
          rw
            (
              length-snoc done x,
              append_assoc done (x ∷ []) left,
              append_assoc done (x ∷ []) (xs ++ left'),
            )
            at e

  write_loop :
      (set : A → Bytes → Result (A × Bytes))
      → ((x : A) (out : Bytes) → set x out ≡ ok (x, out ++ put x))
      → (xs done spare : List A) (out : Bytes)
      → marshal_loop bound blank set
          (length xs)
          (length done)
          (record { items = done ++ xs; spare = spare })
          out
        ≡ ok (record { items = done ++ xs; spare = spare }, out ++ put_all put xs)
  unfolding marshal_loop lengthen
  write_loop set writes [] done spare out = rw (append-nil out) refl
  write_loop set writes (x ∷ xs) done spare out =
      let e = write_loop set writes xs (done ++ x ∷ []) spare (out ++ put x) in
      rw
        (
          leb-false (length (done ++ x ∷ xs)) (length done)
              (omega (arith, length-append done (x ∷ xs))),
          marshal_at-append set done x xs out x (out ++ put x) (writes x out),
        )
        (rw
          (
            length-snoc done x,
            append_assoc done (x ∷ []) xs,
            append_assoc out (put x) (put_all put xs),
          )
          at e)

  -- A vector within its bound is written as its length and its elements, and stays as it is; reading
  -- this into any slice, longer or shorter, with whatever elements, gives a slice of these elements
  -- and leaves what follows. The element type has the same property.
  pub recurse-recurse :
      (get set : A → Bytes → Result (A × Bytes))
      → ((old x : A) (s : Bytes) → Good x → get old (put x ++ s) ≡ ok (x, s))
      → ((x : A) (out : Bytes) → set x out ≡ ok (x, out ++ put x))
      → (xs : List A) (spare : List A) → All Good xs
      → length xs ≤ bound
      → bound < 2 ^ 32
      → ((out : Bytes)
          → recurse bound blank write_size set (record { items = xs; spare = spare }) out
            ≡ ok (record { items = xs; spare = spare }, out ++ put_vec put xs))
        × ((w : Slice A) (s : Bytes)
            → (rest : List A) × (recurse bound blank (read_size bound) get w (put_vec put xs ++ s)
                ≡ ok (record { items = xs; spare = rest }, s)))
  unfolding recurse marshal_n write_size read_size shorten reslice
  recurse-recurse get set reads writes xs spare good fits small = (write, read)
    where
      write :
          (out : Bytes)
          → recurse bound blank write_size set (record { items = xs; spare = spare }) out
            ≡ ok (record { items = xs; spare = spare }, out ++ put_vec put xs)
      write out =
          rw
            (
              mod_small (length xs) (omega arith),
              check_len_fits bound (length xs) fits,
              write_loop set writes xs [] spare (out ++ put32 (length xs)),
              ltb-false (length xs) (length xs) (omega arith),
              append_assoc out (put32 (length xs)) (put_all put xs),
            )
            refl

      read :
          (w : Slice A) (s : Bytes)
          → (rest : List A) × (recurse bound blank (read_size bound) get w (put_vec put xs ++ s)
              ≡ ok (record { items = xs; spare = rest }, s))
      read w s =
          let (left, right, e) = read_loop get reads xs [] w.items w.spare s good (omega arith) in
          let (rest, e') = shorten-append xs left right in
          (
            rest,
            rw
                (
                  append_assoc (put32 (length xs)) (put_all put xs) s,
                  get32-put32 (length xs) (put_all put xs ++ s) (omega arith),
                  ltb-false bound (length xs) fits,
                  check_len_fits bound (length xs) fits,
                  e,
                  e',
                )
                refl,
          )
