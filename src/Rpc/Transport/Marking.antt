-- ===== src/Rpc/Transport/Marking.antt =====
-- Record marking as RFC 5531 has it, and the stream that `Send` writes and `Receive` reads.
use goxdr.Prelude.{
  ℕ, zero, suc, ◌+◌, ◌-◌, ◌/◌, ◌%◌, ◌^◌, ◌≤◌, ◌<◌, Bool, true, false, List, [], ◌∷◌, ◌++◌, none,
  length, take, drop, ltb, leb, ltb→lt, le→leb, ◌==◌, if◌then◌else◌, Bytes, refl, sym, ap, subst,
  ◌≡◌, ◌∙◌, arith, All, length-append, length-drop, length-take, append_assoc, append-nil, take_all,
  drop_all, take-append-drop, take-length_append, drop-length_append, Bool-cases, inl, inr,
}
use goxdr.Xdr.Codec.{put32, uint32}
use goxdr.Rpc.Transport.{
  push_chunk, read_chunks, copy_n, max_segment, segments, wire, Received, got_message,
  receive_fragment, join_fragment, more_follow, receive_loop, receive_chunks, total_length,
}

-- A record of one fragment or more: the first, and those behind it.
abbrev pub marked : Bytes → List Bytes → Bytes
marked x [] = put32 (2 ^ 31 + length x) ++ x
marked x (y ∷ ys) = put32 (length x) ++ x ++ marked y ys

abbrev pub joined : Bytes → List Bytes → Bytes
joined x [] = x
joined x (y ∷ ys) = x ++ joined y ys

abbrev pub Fragment : Bytes → Type 0
Fragment x = length x < 2 ^ 31

suc_nonzero : (k : ℕ) → (suc k == 0) ≡ false
suc_nonzero k = ground arith

sub_nonzero : (m n : ℕ) → m < n → (n - m == 0) ≡ false
sub_nonzero m n h = ground arith

-- Whatever the buffer's length, `Send` writes it as one record of fragments that a header can count,
-- and none is lost: joined, they are the buffer.
pub segments_lem :
    (fuel : ℕ) (buf : Bytes)
    → length buf < fuel
    → (x : Bytes) × (ys : List Bytes) × (segments fuel buf ≡ marked x ys)
      × (joined x ys ≡ buf)
      × All Fragment (x ∷ ys)
unfolding segments put32
segments_lem zero buf h = absurd (omega arith)
segments_lem (suc fuel) buf h = elim (Bool-cases (ltb max_segment (length buf))) [
  | inl long ↦
      let over : max_segment < length buf = ltb→lt _ _ long in
      let rest : length (drop max_segment buf) < fuel =
        rw (length-drop max_segment buf) (omega arith) in
      let more : (length (drop max_segment buf) == 0) ≡ false =
        rw (length-drop max_segment buf) (sub_nonzero max_segment (length buf) over) in
      let whole : length (take max_segment buf) ≡ max_segment =
        length-take max_segment buf ∙ omega arith in
      let (x, ys, e, j, f) = segments_lem fuel (drop max_segment buf) rest in
      (
        take max_segment buf,
        x ∷ ys,
        rw (long, more, whole, e) refl,
        rw j (take-append-drop max_segment buf),
        (rw whole (omega arith), f),
      )
  | inr short ↦ (
    buf,
    [],
    rw
        (
          short,
          take_all (length buf) buf (omega arith),
          drop_all (length buf) buf (omega arith),
          append-nil buf,
        )
        refl,
    refl,
    (ground arith, tt),
  )
]

read_chunks-append :
    (a b c d : ℕ) (bs : Bytes) (cs : List Bytes)
    → read_chunks 4 ((a ∷ b ∷ c ∷ d ∷ bs) ∷ cs)
      ≡ record { got = a ∷ b ∷ c ∷ d ∷ []; err = none; left = push_chunk bs cs }
unfolding read_chunks
read_chunks-append a b c d bs cs = refl

copy_n-zero : (cs : List Bytes) → copy_n 0 cs ≡ record { got = []; err = none; left = cs }
unfolding copy_n
copy_n-zero [] = refl
copy_n-zero (c ∷ cs) = refl

copy_n-one :
    (bs : Bytes) (cs : List Bytes) (k : ℕ)
    → leb (suc k) (length bs) ≡ true
    → copy_n (suc k) (bs ∷ cs)
      ≡ record { got = take (suc k) bs; err = none; left = push_chunk (drop (suc k) bs) cs }
unfolding copy_n
copy_n-one bs cs k e = rw (copy_n, suc_nonzero k, e) refl

-- A copy of what is at hand takes just that.
copy_n-append :
    (x rest : Bytes) (cs : List Bytes)
    → copy_n (length x) (push_chunk (x ++ rest) cs)
      ≡ record { got = x; err = none; left = push_chunk rest cs }
copy_n-append [] rest cs = copy_n-zero (push_chunk rest cs)
copy_n-append (a ∷ x) rest cs =
    let fits : leb (length (a ∷ x)) (length (a ∷ x ++ rest)) ≡ true =
      rw (length-append x rest) (le→leb _ _ (omega arith)) in
    (copy_n-one (a ∷ x ++ rest) cs (length x) fits)
    ∙ rw (take-length_append x rest, drop-length_append x rest) refl

-- The header of a fragment: its length, and the bit that marks the last.
header_last :
    (n : ℕ)
    → n < 2 ^ 31
    → (uint32 (put32 (2 ^ 31 + n)) % 2 ^ 31 ≡ n) × (more_follow (put32 (2 ^ 31 + n)) ≡ false)
unfolding uint32 put32 more_follow
header_last n h =
    let e : uint32 (put32 (2 ^ 31 + n)) ≡ 2 ^ 31 + n = omega arith in
    (rw e (omega arith), rw e (one n h))
  where
    one : (n : ℕ) → n < 2 ^ 31 → ((2 ^ 31 + n) / 2 ^ 31 % 2 == 0) ≡ false
    one n h = ap (λ k. k == 0) {y = 1} (omega arith)

header_more :
    (n : ℕ) → n < 2 ^ 31 → (uint32 (put32 n) % 2 ^ 31 ≡ n) × (more_follow (put32 n) ≡ true)
unfolding uint32 put32 more_follow
header_more n h =
    let e : uint32 (put32 n) ≡ n = omega arith in (rw e (omega arith), rw e (none_set n h))
  where
    none_set : (n : ℕ) → n < 2 ^ 31 → (n / 2 ^ 31 % 2 == 0) ≡ true
    none_set n h = ap (λ k. k == 0) {y = 0} (omega arith)

-- A round of the loop on the fragment behind a header.
receive_fragment_lem :
    (max : ℕ) (buf x rest : Bytes) (cs : List Bytes) (more : Bool)
    (next : Bytes → List Bytes → Received × List Bytes)
    → length buf + length x ≤ max
    → receive_fragment max buf (length x) more (push_chunk (x ++ rest) cs) next ≡ (
        if more
        then next (buf ++ x) (push_chunk rest cs)
        else (got_message (buf ++ x), push_chunk rest cs))
unfolding receive_fragment join_fragment
receive_fragment_lem max buf x rest cs more next h =
    let fits : ltb max (length buf + length x) ≡ false = ground arith in
    rw fits (ap (join_fragment buf more next) (copy_n-append x rest cs))

receive_loop_round :
    (max fuel v : ℕ) (buf x rest : Bytes) (cs : List Bytes) (more : Bool)
    → (uint32 (put32 v) % 2 ^ 31 ≡ length x) × (more_follow (put32 v) ≡ more)
    → length buf + length x ≤ max
    → receive_loop max (suc fuel) buf ((put32 v ++ x ++ rest) ∷ cs) ≡ (
        if more
        then receive_loop max fuel (buf ++ x) (push_chunk rest cs)
        else (got_message (buf ++ x), push_chunk rest cs))
unfolding receive_loop put32 read_chunks
receive_loop_round max fuel v buf x rest cs more e h =
    let next = receive_loop max fuel in
    ap (λ m. receive_fragment max buf m (more_follow (put32 v)) (push_chunk (x ++ rest) cs) next)
      e.0
    ∙ ap (λ m. receive_fragment max buf (length x) m (push_chunk (x ++ rest) cs) next) e.1
    ∙ receive_fragment_lem max buf x rest cs more next h

-- Behind a header there is a chunk.
push_chunk-put32 :
    (v : ℕ) (x bs : Bytes) (cs : List Bytes)
    → push_chunk (put32 v ++ x ++ bs) cs ≡ (put32 v ++ x ++ bs) ∷ cs
unfolding put32
push_chunk-put32 v x bs cs = refl

receive_loop-marked :
    (max fuel : ℕ) (buf x : Bytes) (ys : List Bytes) (rest : Bytes) (cs : List Bytes)
    → length ys < fuel
    → All Fragment (x ∷ ys)
    → length buf + length (joined x ys) ≤ max
    → receive_loop max fuel buf (push_chunk (marked x ys ++ rest) cs)
      ≡ (got_message (buf ++ joined x ys), push_chunk rest cs)
receive_loop-marked max zero buf x ys rest cs h f m = absurd (omega arith)
receive_loop-marked max (suc fuel) buf x [] rest cs h f m =
    ap (receive_loop max (suc fuel) buf) (push_chunk-put32 (2 ^ 31 + length x) x rest cs)
    ∙ receive_loop_round max fuel (2 ^ 31 + length x) buf x rest cs false
        (header_last (length x) f.0) m
receive_loop-marked max (suc fuel) buf x (y ∷ ys) rest cs h f m =
    let fits = length-append x (joined y ys) in
    let sum = length-append buf x in
    ap (λ w. receive_loop max (suc fuel) buf (push_chunk w cs))
      (append_assoc (put32 (length x) ++ x) (marked y ys) rest)
    ∙ ap (receive_loop max (suc fuel) buf) (push_chunk-put32 (length x) x (marked y ys ++ rest) cs)
    ∙ receive_loop_round max fuel (length x) buf x (marked y ys ++ rest) cs true
        (header_more (length x) f.0) (omega arith)
    ∙ receive_loop-marked max fuel (buf ++ x) y ys rest cs (omega arith) f.1 (omega arith)
    ∙ ap (λ b. (got_message b, push_chunk rest cs)) (append_assoc buf x (joined y ys))

length-marked : (x : Bytes) (ys : List Bytes) → length ys < length (marked x ys)
unfolding put32
length-marked x [] = omega arith
length-marked x (y ∷ ys) =
    let h = length-marked y ys in rw (length-append x (marked y ys)) (omega arith)

-- A record that has arrived, with `rest` and more chunks behind it, is received if its length is
-- within the maximum, and what follows is left. The fuel is enough.
pub receive_chunks-marked :
    (max : ℕ) (x : Bytes) (ys : List Bytes) (rest : Bytes) (cs : List Bytes)
    → All Fragment (x ∷ ys)
    → length (joined x ys) ≤ max
    → receive_chunks max (push_chunk (marked x ys ++ rest) cs)
      ≡ (got_message (joined x ys), push_chunk rest cs)
receive_chunks-marked max x ys rest cs f h =
    receive_loop-marked max (suc (total_length (push_chunk (marked x ys ++ rest) cs))) [] x ys rest
      cs (enough (marked x ys) (length ys) (length-marked x ys)) f (omega arith)
  where
    enough : (m : Bytes) (k : ℕ) → k < length m → k < suc (total_length (push_chunk (m ++ rest) cs))
    enough [] k h = absurd (omega arith)
    enough (b ∷ m) k h = let e = length-append m rest in omega arith

-- What `Send` writes of a message, `Receive` reads back, whatever the number of fragments, and it
-- leaves what follows on the stream, if the length of the message is within the receiver's maximum.
pub receive_chunks-wire :
    (max : ℕ) (buf rest : Bytes) (cs : List Bytes)
    → length buf ≤ max
    → receive_chunks max (push_chunk (wire buf ++ rest) cs) ≡ (got_message buf, push_chunk rest cs)
receive_chunks-wire max buf rest cs h =
    let (x, ys, e, j, f) = segments_lem (suc (length buf)) buf (omega arith) in
    ap (λ w. receive_chunks max (push_chunk (w ++ rest) cs)) e
    ∙ receive_chunks-marked max x ys rest cs f (subst (λ b. length b ≤ max) (sym j) h)
    ∙ ap (λ b. (got_message b, push_chunk rest cs)) j
