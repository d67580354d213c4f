-- ===== src/Rpc/Header/Wire.antt =====
-- `XdrMarshal` of a header through `XdrOut` and `XdrIn` (cmd/goxdr/header.go.in), by the
-- `XdrRecurse` methods that cmd/goxdr/goxdr.go emits: a struct field by field, a union as its
-- discriminant and the body that this selects.
pub mod RoundTrip
use goxdr.Prelude.{ℕ, Bool, true, false, List, [], ◌∷◌, ◌++◌, ◌==◌, if◌then◌else◌, Bytes}
use goxdr.Xdr.Fault.{Result, ok, throw, xdr_error, ◌>>=◌}
use goxdr.Xdr.Codec.{
  Reader, ◌>>>=◌, put32, get32, put_var_bytes, get_var_bytes, put_bytes, get_fixed_bytes,
}
use goxdr.Rpc.Header.{
  call, reply, msg_accepted, msg_denied, success, prog_mismatch, rpc_mismatch, auth_error,
  OpaqueAuth, MismatchInfo, CallBody, ReplyArm, ReplyData, AcceptedReply, RejectArm, rj_why,
  RejectedReply, ReplyBodyArm, areply, rreply, ReplyBody, MsgArm, cbody, rbody, MsgBody, RpcMsg,
  get_cbody, get_rbody, get_areply, get_rreply, get_reply_mismatch, get_reject_mismatch, get_rj_why,
}

-- opaque body<400>
abbrev pub auth_bound : ℕ
auth_bound = 400

unfoldable pub put_auth : OpaqueAuth → Bytes
put_auth a = put32 a.flavor ++ put_var_bytes a.body

unfoldable pub get_auth : Reader OpaqueAuth
get_auth = get32 >>>= λ flavor.
    get_var_bytes auth_bound >>>= λ body s. ok (record { flavor = flavor; body = body }, s)

unfoldable pub put_mismatch : MismatchInfo → Bytes
put_mismatch m = put32 m.low ++ put32 m.high

unfoldable pub get_mismatch : Reader MismatchInfo
get_mismatch = get32 >>>= λ low. get32 >>>= λ high s. ok (record { low = low; high = high }, s)

unfoldable pub put_call : CallBody → Bytes
put_call c =
    put32 c.rpcvers
    ++ (put32 c.prog ++ (put32 c.vers ++ (put32 c.proc ++ (put_auth c.cred ++ put_auth c.verf))))

unfoldable pub get_call : Reader CallBody
get_call = get32 >>>= λ rpcvers. get32 >>>= λ prog. get32 >>>= λ vers. get32 >>>= λ proc.
    get_auth >>>= λ cred. get_auth >>>= λ verf s. ok (
      record { rpcvers = rpcvers; prog = prog; vers = vers; proc = proc; cred = cred; verf = verf },
      s,
    )

-- union switch (accept_stat stat), with a default arm that is void
unfoldable pub put_reply_arm : ReplyData → Result Bytes
put_reply_arm d =
    if d.stat == success
    then ok (put_bytes [])
    else if d.stat == prog_mismatch
    then get_reply_mismatch d >>= (λ m. ok (put_mismatch m))
    else ok []

unfoldable pub get_reply_arm : ℕ → Reader ReplyArm
get_reply_arm stat =
    if stat == success
    then get_fixed_bytes 0 >>>= (λ _ s. ok (ReplyArm.results, s))
    else if stat == prog_mismatch
    then get_mismatch >>>= (λ m s. ok (ReplyArm.mismatch m, s))
    else λ s. ok (ReplyArm.unset, s)

unfoldable pub put_reply_data : ReplyData → Result Bytes
put_reply_data d = do bs ← put_reply_arm d; ok (put32 d.stat ++ bs)

unfoldable pub get_reply_data : Reader ReplyData
get_reply_data =
    get32 >>>= λ stat. get_reply_arm stat >>>= λ u s. ok (record { stat = stat; u = u }, s)

unfoldable pub put_accepted : AcceptedReply → Result Bytes
put_accepted a = do bs ← put_reply_data a.reply_data; ok (put_auth a.verf ++ bs)

unfoldable pub get_accepted : Reader AcceptedReply
get_accepted =
    get_auth >>>= λ verf. get_reply_data >>>= λ d s. ok (record { verf = verf; reply_data = d }, s)

-- union rejected_reply switch (reject_stat stat); another discriminant throws
unfoldable pub put_reject_arm : RejectedReply → Result Bytes
put_reject_arm r =
    if r.stat == rpc_mismatch
    then get_reject_mismatch r >>= (λ m. ok (put_mismatch m))
    else if r.stat == auth_error
    then get_rj_why r >>= (λ w. ok (put32 w))
    else throw xdr_error

unfoldable pub get_reject_arm : ℕ → Reader RejectArm
get_reject_arm stat =
    if stat == rpc_mismatch
    then get_mismatch >>>= (λ m s. ok (RejectArm.mismatch m, s))
    else if stat == auth_error
    then get32 >>>= (λ w s. ok (rj_why w, s))
    else λ s. throw xdr_error

unfoldable pub put_rejected : RejectedReply → Result Bytes
put_rejected r = do bs ← put_reject_arm r; ok (put32 r.stat ++ bs)

unfoldable pub get_rejected : Reader RejectedReply
get_rejected =
    get32 >>>= λ stat. get_reject_arm stat >>>= λ u s. ok (record { stat = stat; u = u }, s)

-- union reply_body switch (reply_stat stat)
unfoldable pub put_reply_body_arm : ReplyBody → Result Bytes
put_reply_body_arm b =
    if b.stat == msg_accepted
    then get_areply b >>= put_accepted
    else if b.stat == msg_denied
    then get_rreply b >>= put_rejected
    else throw xdr_error

unfoldable pub get_reply_body_arm : ℕ → Reader ReplyBodyArm
get_reply_body_arm stat =
    if stat == msg_accepted
    then get_accepted >>>= (λ a s. ok (areply a, s))
    else if stat == msg_denied
    then get_rejected >>>= (λ r s. ok (rreply r, s))
    else λ s. throw xdr_error

unfoldable pub put_reply : ReplyBody → Result Bytes
put_reply b = do bs ← put_reply_body_arm b; ok (put32 b.stat ++ bs)

unfoldable pub get_reply : Reader ReplyBody
get_reply =
    get32 >>>= λ stat. get_reply_body_arm stat >>>= λ u s. ok (record { stat = stat; u = u }, s)

-- union switch (msg_type mtype)
unfoldable pub put_msg_arm : MsgBody → Result Bytes
put_msg_arm b =
    if b.mtype == call
    then get_cbody b >>= (λ c. ok (put_call c))
    else if b.mtype == reply
    then get_rbody b >>= put_reply
    else throw xdr_error

unfoldable pub get_msg_arm : ℕ → Reader MsgArm
get_msg_arm mtype =
    if mtype == call
    then get_call >>>= (λ c s. ok (cbody c, s))
    else if mtype == reply
    then get_reply >>>= (λ r s. ok (rbody r, s))
    else λ s. throw xdr_error

unfoldable pub put_body : MsgBody → Result Bytes
put_body b = do bs ← put_msg_arm b; ok (put32 b.mtype ++ bs)

unfoldable pub get_body : Reader MsgBody
get_body = get32 >>>= λ mtype. get_msg_arm mtype >>>= λ u s. ok (record { mtype = mtype; u = u }, s)

unfoldable pub put_msg : RpcMsg → Result Bytes
put_msg m = do bs ← put_body m.body; ok (put32 m.xid ++ bs)

-- into a zero `Rpc_msg`
unfoldable pub read_msg : Reader RpcMsg
read_msg = get32 >>>= λ xid. get_body >>>= λ body s. ok (record { xid = xid; body = body }, s)
