-- ===== src/Rpc/File/Rounds.antt =====
-- The records of a file, and one round of recvRpcMsg over them.
use goxdr.Prelude.{
  ℕ, ◌≤◌, true, List, [], ◌∷◌, ◌++◌, Option, none, some, length, Bytes, refl, sym, ap, subst, ◌≡◌,
  ◌∙◌, inl, inr, arith, ltb, length-append, Bool-cases,
}
use goxdr.Xdr.Fault.{Result, ok, throw}
use goxdr.Xdr.Heap.{remove_head}
use goxdr.Xdr.Codec.{put32}
use goxdr.Rpc.Header.{RpcMsg}
use goxdr.Rpc.Header.Wire.{put_msg}
use goxdr.Rpc.Header.Wire.RoundTrip.{IsMsg, read_msg-put_msg}
use goxdr.Rpc.Status.{get_msg, safe_marshal}
use goxdr.Rpc.Message.{MessagePool, recycle}
use goxdr.Rpc.Transport.{
  StreamTransport, is_okay, Receipt, receive, finish_receive, receive_chunks, receive_loop,
  read_chunks, total_length, wire, segments, push_chunk,
}
use goxdr.Rpc.Transport.Marking.{receive_chunks-wire}
use goxdr.Rpc.Transport.Methods.{receive_lem, receive-wire}
use goxdr.Rpc.File.{header_of, recycled, recv_rpc_msg}

-- A message of a file: its header, and the bytes of its arguments or results
abbrev pub Record : Type 0
Record = RpcMsg × Bytes

abbrev pub bytes_of : Result Bytes → Bytes
bytes_of (ok bs) = bs
bytes_of (throw e) = []

abbrev pub put_record : Record → Bytes
put_record r = bytes_of (put_msg r.0) ++ r.1

-- The file of a list of messages, as Send writes them
abbrev pub put_file : List Record → Bytes
put_file [] = []
put_file (r ∷ rs) = wire (put_record r) ++ put_file rs

abbrev pub IsRecord : ℕ → Record → Type 0
IsRecord max r = IsMsg r.0 × (length (put_record r) ≤ max)

abbrev pub headers : List Record → List RpcMsg
headers [] = []
headers (r ∷ rs) = r.0 ∷ headers rs

get_msg-put_record : (r : Record) → IsMsg r.0 → header_of (get_msg (put_record r)) ≡ ok (some r.0)
unfolding get_msg safe_marshal
get_msg-put_record (m, body) v = let (bs, p, g) = read_msg-put_msg m v in rw (p, g body) refl

length-wire : (buf : Bytes) → 1 ≤ length (wire buf)
unfolding segments put32
length-wire buf = elim (Bool-cases (ltb 2147483647 (length buf))) [
  | inl e ↦ rw e (omega arith)
  | inr e ↦ rw e (omega arith)
]

pub length-put_file : (rs : List Record) → length rs ≤ length (put_file rs)
length-put_file [] = omega arith
length-put_file (r ∷ rs) = omega (
  arith,
  length-wire (put_record r),
  length-put_file rs,
  length-append (wire (put_record r)) (put_file rs),
)

pub total-push : (bs : Bytes) → total_length (push_chunk bs []) ≡ length bs
total-push [] = refl
total-push (b ∷ bs) = omega arith

module _ (P : MessagePool) where
  -- What the transport is behind a message that it received
  receive-tx :
      (tx : StreamTransport) (l : ℕ) (s : P.State) (buf rest : Bytes) (cs : List Bytes)
      → is_okay tx.state ≡ true
      → tx.conn.chunks ≡ push_chunk (wire buf ++ rest) cs
      → length buf ≤ tx.max_msg_size
      → (receive P tx l s).tx ≡ record tx { conn = record tx.conn { chunks = push_chunk rest cs } }
  unfolding receive finish_receive
  receive-tx tx l s buf rest cs o e h =
      rw
        (
          o,
          ap (receive_chunks tx.max_msg_size) e ∙ receive_chunks-wire tx.max_msg_size buf rest cs h,
        )
        refl

  receive-end :
      (tx : StreamTransport) (l : ℕ) (s : P.State)
      → is_okay tx.state ≡ true
      → tx.conn.chunks ≡ []
      → (receive P tx l s).msg ≡ none
  unfolding receive finish_receive receive_loop read_chunks
  receive-end tx l s o e = rw (o, e) refl

  recv_some :
      (tx : StreamTransport) (l : ℕ) (s : P.State) (p : ℕ)
      → (receive P tx l s).msg ≡ some p
      → recv_rpc_msg P tx l s ≡ recycled P (receive P tx l s) p
  unfolding recv_rpc_msg
  recv_some tx l s p e =
      ap
        (λ o. elim o [
          | none ↦ record {
            tx = (receive P tx l s).tx;
            pool = (receive P tx l s).pool;
            reports = (receive P tx l s).reports;
            msg = ok none;
          }
          | some q ↦ recycled P (receive P tx l s) q
        ])
        e

  recv_none :
      (tx : StreamTransport) (l : ℕ) (s : P.State)
      → (receive P tx l s).msg ≡ none
      → recv_rpc_msg P tx l s ≡ record {
        tx = (receive P tx l s).tx;
        pool = (receive P tx l s).pool;
        reports = (receive P tx l s).reports;
        msg = ok none;
      }
  unfolding recv_rpc_msg
  recv_none tx l s e =
      ap
        (λ o. elim o [
          | none ↦ record {
            tx = (receive P tx l s).tx;
            pool = (receive P tx l s).pool;
            reports = (receive P tx l s).reports;
            msg = ok none;
          }
          | some q ↦ recycled P (receive P tx l s) q
        ])
        e

  -- Received, read and recycled
  recycled-Held :
      (r : Receipt P.State) (p : ℕ) (held : List ℕ)
      → P.Held r.pool (p ∷ held)
      → P.Held (recycled P r p).pool held
  unfolding recycled recycle
  recycled-Held r p held h =
      subst (P.Held _) (remove_head p held (P.held_nodup r.pool _ h).0)
        (P.recycle_held r.pool p _ h (inl refl))

  recycled-msg :
      (r : Receipt P.State) (p : ℕ) (m : Record)
      → (P.load r.pool p).buffer ≡ put_record m
      → IsMsg m.0
      → (recycled P r p).msg ≡ ok (some m.0)
  unfolding recycled
  recycled-msg r p m e v = ap (λ b. header_of (get_msg b)) e ∙ get_msg-put_record m v

  recycled-tx : (r : Receipt P.State) (p : ℕ) → (recycled P r p).tx ≡ r.tx
  unfolding recycled
  recycled-tx r p = refl

  pub recv-record :
      (tx : StreamTransport) (l : ℕ) (s : P.State) (held : List ℕ) (m : Record) (rest : Bytes)
      → is_okay tx.state ≡ true
      → tx.conn.chunks ≡ push_chunk (wire (put_record m) ++ rest) []
      → IsRecord tx.max_msg_size m
      → P.Held s held
      → ((recv_rpc_msg P tx l s).msg ≡ ok (some m.0))
        × ((recv_rpc_msg P tx l s).tx
            ≡ record tx { conn = record tx.conn { chunks = push_chunk rest [] } })
        × P.Held (recv_rpc_msg P tx l s).pool held
  recv-record tx l s held m rest o e (v, small) h =
      let (p, got, buffer, left) = receive-wire P tx l s (put_record m) rest [] o e small in
      let eq = recv_some tx l s p got in
      (
        ap (λ r. r.msg) eq ∙ recycled-msg (receive P tx l s) p m buffer v,
        ap (λ r. r.tx) eq
            ∙ recycled-tx (receive P tx l s) p
            ∙ receive-tx tx l s (put_record m) rest [] o e small,
        subst (λ r. P.Held r.pool held) (sym eq)
            (recycled-Held (receive P tx l s) p held (elim (receive_lem P tx l s held o h) [
              | inl (here, a, b, c, d) ↦
                  subst (λ q. P.Held (receive P tx l s).pool (q ∷ held)) (same here got) c
              | inr (nothing, a, b, c) ↦ absurd (clash nothing got)
            ])),
      )
    where
      same : {p q : ℕ} {o : Option ℕ} → o ≡ some p → o ≡ some q → p ≡ q
      same a b = cc

      clash : {q : ℕ} {o : Option ℕ} → o ≡ none → o ≡ some q → ⊥
      clash a b = absurd (cc)

  pub recv-end :
      (tx : StreamTransport) (l : ℕ) (s : P.State) (held : List ℕ)
      → is_okay tx.state ≡ true
      → tx.conn.chunks ≡ []
      → P.Held s held
      → ((recv_rpc_msg P tx l s).msg ≡ ok none) × P.Held (recv_rpc_msg P tx l s).pool held
  recv-end tx l s held o e h =
      let eq = recv_none tx l s (receive-end tx l s o e) in
      (
        ap (λ r. r.msg) eq,
        subst (λ r. P.Held r.pool held) (sym eq)
            (elim (receive_lem P tx l s held o h) [
              | inl (here, a, b, c, d) ↦ absurd (clash (receive-end tx l s o e) here)
              | inr (nothing, a, b, c) ↦ b
            ]),
      )
    where
      clash : {q : ℕ} {o : Option ℕ} → o ≡ none → o ≡ some q → ⊥
      clash a b = absurd (cc)
