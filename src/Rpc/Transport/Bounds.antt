-- ===== src/Rpc/Transport/Bounds.antt =====
-- What `Send`, `Receive` and `fail` do on every stream: bounds, termination, errors and the pool.
use goxdr.Prelude.{
  ℕ, zero, suc, ◌+◌, ◌-◌, ◌≤◌, ◌<◌, Bool, true, false, List, [], ◌∷◌, ◌++◌, Option, none, some,
  Option-cases, length, drop, ltb, leb, ◌==◌, ==_iff, Bytes, refl, ◌≡◌, arith, length-append,
  length-drop, length-take, Bool-cases, inl, inr,
}
use goxdr.Rpc.Transport.{
  Err, push_chunk, read_chunks, copy_n, Received, got_message, got_error, out_of_fuel,
  receive_fragment, join_fragment, receive_loop, receive_chunks, total_length,
}

abbrev pub Within : ℕ → Received → Type 0
Within max (got_message buf) = length buf ≤ max
Within max (got_error e) = Unit
Within max out_of_fuel = ⊥

push_chunk_total :
    (c : Bytes) (cs : List Bytes) → total_length (push_chunk c cs) ≡ length c + total_length cs
push_chunk_total [] cs = omega arith
push_chunk_total (b ∷ c) cs = refl

read_chunks_total :
    (cs : List Bytes)
    → length (read_chunks 4 cs).got ≡ 4
    → total_length (read_chunks 4 cs).left < total_length cs
unfolding read_chunks
read_chunks_total [] e = absurd (omega arith)
read_chunks_total (c ∷ cs) e =
    let four = length-take 4 c in
    let rest = push_chunk_total (drop 4 c) cs in let cut = length-drop 4 c in omega arith

copy_n_total : (n : ℕ) (cs : List Bytes) → total_length (copy_n n cs).left ≤ total_length cs
unfolding copy_n
copy_n_total n [] = omega arith
copy_n_total n (c ∷ cs) =
    let rest = copy_n_total (n - length c) cs in
    let whole = push_chunk_total (drop n c) cs in
    let cut = length-drop n c in
    elim (Bool-cases (n == 0)) [
      | inl e ↦ rw e (omega arith)
      | inr e ↦ elim (Bool-cases (leb n (length c))) [
        | inl f ↦ rw (e, f) (omega arith)
        | inr f ↦ rw (e, f) (omega arith)
      ]
    ]

copy_n-length : (n : ℕ) (cs : List Bytes) → length (copy_n n cs).got ≤ n
unfolding copy_n
copy_n-length n [] = omega arith
copy_n-length n (c ∷ cs) =
    let rest = copy_n-length (n - length c) cs in
    let sum = length-append c (copy_n (n - length c) cs).got in
    let cut = length-take n c in
    elim (Bool-cases (n == 0)) [
      | inl e ↦ rw e (omega arith)
      | inr e ↦ elim (Bool-cases (leb n (length c))) [
        | inl f ↦ rw (e, f) (omega arith)
        | inr f ↦ let over : length c < n = ground arith in rw (e, f) (omega arith)
      ]
    ]

-- A continuation of the loop that ends within the maximum on what it may be given.
abbrev Continues : ℕ → List Bytes → (Bytes → List Bytes → Received × List Bytes) → Type 0
Continues max cs next =
    (buf : Bytes) (left : List Bytes)
    → length buf ≤ max
    → total_length left ≤ total_length cs
    → Within max (next buf left).0

join_fragment-Within :
    (max : ℕ) (buf : Bytes) (more : Bool) (cs : List Bytes)
    (next : Bytes → List Bytes → Received × List Bytes) (got : Bytes) (err : Option Err)
    (left : List Bytes)
    → Continues max cs next
    → length (buf ++ got) ≤ max
    → total_length left ≤ total_length cs
    → Within max (join_fragment buf more next (record { got = got; err = err; left = left })).0
unfolding join_fragment
join_fragment-Within max buf more cs next got (some e) left k h l = tt
join_fragment-Within max buf true cs next got none left k h l = k (buf ++ got) left h l
join_fragment-Within max buf false cs next got none left k h l = h

receive_fragment-Within :
    (max : ℕ) (buf : Bytes) (n : ℕ) (more : Bool) (cs : List Bytes)
    (next : Bytes → List Bytes → Received × List Bytes)
    → Continues max cs next
    → Within max (receive_fragment max buf n more cs next).0
unfolding receive_fragment
receive_fragment-Within max buf n more cs next k = elim (Bool-cases (ltb max (length buf + n))) [
  | inl over ↦ rw over tt
  | inr fits ↦
      let r = copy_n n cs in
      rw fits (
        join_fragment-Within max buf more cs next r.got r.err r.left k
          (let sum = length-append buf r.got in
            let small = copy_n-length n cs in
            let room : length buf + n ≤ max = ground arith in omega arith)
          (copy_n_total n cs))
]

receive_loop-Within :
    (max fuel : ℕ) (buf : Bytes) (cs : List Bytes)
    → total_length cs < fuel
    → length buf ≤ max
    → Within max (receive_loop max fuel buf cs).0
unfolding receive_loop
receive_loop-Within max zero buf cs h l = absurd (omega arith)
receive_loop-Within max (suc fuel) buf cs h l =
    let r = read_chunks 4 cs in
    let next = receive_loop max fuel in
    elim (Bool-cases (length r.got == 4)) [
      | inr part ↦ rw part tt
      | inl four ↦ elim (Option-cases r.err) [
        | inr (x, e) ↦ rw (four, e) tt
        | inl e ↦
            let less = read_chunks_total cs ((==_iff _ _).0 four) in
            rw (four, e)
              (receive_fragment-Within max buf _ _ r.left next
                (λ b left hb hl. receive_loop-Within max fuel b left (omega arith) hb))
      ]
    ]

-- On every stream the loop of `Receive` ends, with a message whose length is within the maximum or
-- with an error.
pub receive_chunks-Within : (max : ℕ) (cs : List Bytes) → Within max (receive_chunks max cs).0
receive_chunks-Within max cs = receive_loop-Within max _ [] cs (omega arith) (omega arith)
