-- ===== src/Rpc/Decode.antt =====
-- rpc/decode.go: calls and replies of a trace.
pub mod Laws
use goxdr.Prelude.{
  ℕ, ◌+◌, ◌*◌, ◌^◌, Bool, true, false, not, ◌&&◌, List, [], ◌∷◌, Option, none, some, ◌==◌,
  if◌then◌else◌, Bytes, bytes_eq,
}
use goxdr.Xdr.Fault.{Result, ok, throw, ◌>>=◌}
use goxdr.Rpc.Header.{call, reply, CallBody, RpcMsg, get_cbody}
use goxdr.Rpc.Status.{safe_marshal, get_msg}
use goxdr.Rpc.Call.{XdrProc}
use goxdr.Rpc.Message.{Message}

pub record CallKey : Type 0 where
  pub xid : ℕ
  pub peer : Bytes

abbrev pub key_eq : CallKey → CallKey → Bool
key_eq a b = a.xid == b.xid && bytes_eq a.peer b.peer

-- `RpcDecoder`: the map `Calls`
abbrev pub RpcDecoder : Type 0
RpcDecoder = List (CallKey × XdrProc)

unfoldable pub find_call : CallKey → RpcDecoder → Option XdrProc
find_call k [] = none
find_call k ((k', p) ∷ calls) = if key_eq k k' then some p else find_call k calls

unfoldable pub delete_call : CallKey → RpcDecoder → RpcDecoder
delete_call k [] = []
delete_call k ((k', p) ∷ calls) =
    let rest = delete_call k calls in if key_eq k k' then rest else (k', p) ∷ rest

-- What `Decode` returns, either of which may be nil, and the decoder then.
pub record Decoded : Type 0 where
  pub msg : Option RpcMsg
  pub proc : Option XdrProc
  pub decoder : RpcDecoder

-- The procedure, or nil if its value is not read.
abbrev pub kept {ℓ} : {A : Type ℓ} → XdrProc → Option A → Option XdrProc
kept p none = none
kept p (some r) = some p

module _ (catalog : ℕ → Option (ℕ → Option XdrProc)) where
  -- The procedure for a call, by `XdrCatalog`, which generated code fills.
  unfoldable pub catalog_proc : CallBody → Option XdrProc
  catalog_proc c = elim (catalog (c.prog * 2 ^ 32 + c.vers)) [ none ↦ none | some f ↦ f c.proc ]

  unfoldable pub read_args : Option XdrProc → Bytes → Result (Option XdrProc)
  read_args none s = ok none
  read_args (some p) s = do r ← safe_marshal (p.read_arg s); ok (kept p r)

  -- `Decode`, behind the tests of the message's type; `Cbody` is an XdrPanic in all but a call.
  unfoldable pub decode_call : RpcDecoder → RpcMsg → Bytes → Result Decoded
  decode_call d msg s = do
    c ← get_cbody msg.body
    p ← read_args (catalog_proc c) s
    ok (record { msg = some msg; proc = p; decoder = d })

  unfoldable pub decode_reply :
      RpcDecoder → CallKey → RpcMsg → Bytes → Option XdrProc → Result Decoded
  decode_reply d k msg s none = decode_call d msg s
  decode_reply d k msg s (some p) = do
    r ← safe_marshal (p.read_res s)
    ok (record { msg = some msg; proc = kept p r; decoder = delete_call k d })

  unfoldable pub decode_msg : RpcDecoder → Bytes → RpcMsg → Bytes → Result Decoded
  decode_msg d peer msg s =
      let k : CallKey = record { xid = msg.xid; peer = peer } in
      if msg.body.mtype == reply
      then decode_reply d k msg s (find_call k d)
      else if not (msg.body.mtype == call)
      then ok (record { msg = some msg; proc = none; decoder = d })
      else decode_call d msg s

  -- `Decode(m)`
  unfoldable pub decode : RpcDecoder → Message → Result Decoded
  decode d m = do
    r ← get_msg m.buffer
    elim r [
      | none ↦ ok (record { msg = none; proc = none; decoder = d })
      | some (msg, s) ↦ decode_msg d m.peer msg s
    ]
