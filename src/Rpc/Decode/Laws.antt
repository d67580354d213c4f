-- ===== src/Rpc/Decode/Laws.antt =====
-- Decoded calls, decoded replies, and the reply that no call is known for.
use goxdr.Prelude.{
  ℕ, true, false, [], ◌∷◌, Option, none, some, ◌==◌, ==_iff, Bytes, refl, ◌≡◌, arith, Bool-cases,
  inl, inr,
}
use goxdr.Xdr.Fault.{ok, throw, xdr_error}
use goxdr.Rpc.Header.{call, reply, RpcMsg, get_cbody, arm_call}
use goxdr.Rpc.Status.{safe_marshal, get_msg}
use goxdr.Rpc.Call.{XdrProc}
use goxdr.Rpc.Message.{Message}
use goxdr.Rpc.Decode.{
  CallKey, RpcDecoder, find_call, delete_call, key_eq, kept, catalog_proc, read_args, decode_call,
  decode_reply, decode_msg, decode,
}

-- The key of a message: its XID and its peer.
abbrev key_of : RpcMsg → Message → CallKey
key_of msg m = record { xid = msg.xid; peer = m.peer }

find_call-delete_call : (k : CallKey) (d : RpcDecoder) → find_call k (delete_call k d) ≡ none
unfolding find_call delete_call
find_call-delete_call k [] = refl
find_call-delete_call k ((k', p) ∷ d) = elim (Bool-cases (key_eq k k')) [
  | inl e ↦ rw (delete_call, e) (find_call-delete_call k d)
  | inr e ↦ rw (delete_call, e) (rw (find_call, e) (find_call-delete_call k d))
]

module _ (catalog : ℕ → Option (ℕ → Option XdrProc)) where
  -- A call is decoded to the procedure that the catalog has for its program, version and number, or
  -- to nil if there is none or the arguments are not read; the decoder stays as it is.
  decode-call :
      (d : RpcDecoder) (m : Message) (msg : RpcMsg) (s : Bytes) (p : Option XdrProc)
      → get_msg m.buffer ≡ ok (some (msg, s))
      → msg.body.mtype ≡ call
      → read_args catalog (catalog_proc catalog (arm_call msg.body.u)) s ≡ ok p
      → decode catalog d m ≡ ok (record { msg = some msg; proc = p; decoder = d })
  unfolding decode decode_msg decode_call get_cbody
  decode-call d m msg s p e t r =
      let is_call : (msg.body.mtype == call) ≡ true = (==_iff _ _).1 t in
      let not_reply : (msg.body.mtype == reply) ≡ false = ground arith in
      rw (decode, e) (rw (not_reply, is_call, r) refl)

  -- A reply to a call that the decoder knows is decoded to the procedure of that call, or to nil if
  -- the results are not read, and the call is forgotten.
  decode-reply :
      (d : RpcDecoder) (m : Message) (msg : RpcMsg) (s : Bytes) (p : XdrProc)
      (r : Option (Unit × Bytes))
      → get_msg m.buffer ≡ ok (some (msg, s))
      → msg.body.mtype ≡ reply
      → find_call (key_of msg m) d ≡ some p
      → safe_marshal (p.read_res s) ≡ ok r
      → (decode catalog d m
          ≡ ok (record { msg = some msg; proc = kept p r; decoder = delete_call (key_of msg m) d }))
        × (find_call (key_of msg m) (delete_call (key_of msg m) d) ≡ none)
  unfolding decode decode_msg decode_reply
  decode-reply d m msg s p r e t f g =
      let is_reply : (msg.body.mtype == reply) ≡ true = (==_iff _ _).1 t in
      (rw (decode, e) (rw (is_reply, f, g) refl), find_call-delete_call (key_of msg m) d)

  -- A reply to a call that the decoder does not know is a panic of the call's accessor, where the
  -- comment of `Decode` promises a nil procedure.
  decode_unknown :
      (d : RpcDecoder) (m : Message) (msg : RpcMsg) (s : Bytes)
      → get_msg m.buffer ≡ ok (some (msg, s))
      → msg.body.mtype ≡ reply
      → find_call (key_of msg m) d ≡ none
      → decode catalog d m ≡ throw xdr_error
  unfolding decode decode_msg decode_reply decode_call get_cbody
  decode_unknown d m msg s e t f =
      let is_reply : (msg.body.mtype == reply) ≡ true = (==_iff _ _).1 t in
      let not_call : (msg.body.mtype == call) ≡ false = ground arith in
      rw (decode, e) (rw (is_reply, f, not_call) refl)
