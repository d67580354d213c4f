-- ===== src/Rpc/Header/Wire/RoundTrip.antt =====
-- A header that is marshalled and read back is itself.
use goxdr.Prelude.{ℕ, ◌^◌, ◌≤◌, ◌<◌, [], ◌++◌, length, Bytes, ◌≡◌, arith, append_assoc, ◌≢◌}
use goxdr.Xdr.Fault.{Result, ok}
use goxdr.Xdr.Codec.{Reader, put32, put_bytes}
use goxdr.Xdr.Codec.RoundTrip.{get32-put32, get_var_bytes-put_var_bytes, get_fixed_bytes-put_bytes}
use goxdr.Rpc.Header.{
  call, reply, msg_accepted, msg_denied, success, prog_mismatch, rpc_mismatch, auth_error,
  OpaqueAuth, MismatchInfo, CallBody, ReplyArm, ReplyData, AcceptedReply, RejectArm, rj_why,
  RejectedReply, ReplyBodyArm, areply, rreply, ReplyBody, MsgArm, cbody, rbody, MsgBody, RpcMsg,
  get_cbody, get_rbody, get_areply, get_rreply, get_reply_mismatch, get_reject_mismatch, get_rj_why,
}
use goxdr.Rpc.Header.Wire.{
  auth_bound, put_auth, get_auth, put_mismatch, get_mismatch, put_call, get_call, put_reply_arm,
  get_reply_arm, put_reply_data, get_reply_data, put_accepted, get_accepted, put_reject_arm,
  get_reject_arm, put_rejected, get_rejected, put_reply_body_arm, get_reply_body_arm, put_reply,
  get_reply, put_msg_arm, get_msg_arm, put_body, get_body, put_msg, read_msg,
}

-- A number of 32 bits.
abbrev pub IsU32 : ℕ → Type 0
IsU32 n = n < 2 ^ 32

pub record IsAuth (a : OpaqueAuth) : Type 0 where
  pub flavor : IsU32 a.flavor
  pub body : length a.body ≤ auth_bound

pub record IsMismatch (m : MismatchInfo) : Type 0 where
  pub low : IsU32 m.low
  pub high : IsU32 m.high

pub record IsCall (c : CallBody) : Type 0 where
  pub rpcvers : IsU32 c.rpcvers
  pub prog : IsU32 c.prog
  pub vers : IsU32 c.vers
  pub proc : IsU32 c.proc
  pub cred : IsAuth c.cred
  pub verf : IsAuth c.verf

-- The arm in `_u` is the one that the discriminant selects.
abbrev pub IsReplyArm : ℕ → ReplyArm → Type 0
IsReplyArm stat ReplyArm.unset = IsU32 stat × (stat ≢ success) × (stat ≢ prog_mismatch)
IsReplyArm stat ReplyArm.results = stat ≡ success
IsReplyArm stat (ReplyArm.mismatch m) = (stat ≡ prog_mismatch) × IsMismatch m

abbrev pub IsRejectArm : ℕ → RejectArm → Type 0
IsRejectArm stat RejectArm.unset = ⊥
IsRejectArm stat (RejectArm.mismatch m) = (stat ≡ rpc_mismatch) × IsMismatch m
IsRejectArm stat (rj_why w) = (stat ≡ auth_error) × IsU32 w

abbrev pub IsReplyBodyArm : ℕ → ReplyBodyArm → Type 0
IsReplyBodyArm stat ReplyBodyArm.unset = ⊥
IsReplyBodyArm stat (areply a) =
    (stat ≡ msg_accepted) × IsAuth a.verf × IsReplyArm a.reply_data.stat a.reply_data.u
IsReplyBodyArm stat (rreply r) = (stat ≡ msg_denied) × IsRejectArm r.stat r.u

abbrev pub IsMsgArm : ℕ → MsgArm → Type 0
IsMsgArm mtype MsgArm.unset = ⊥
IsMsgArm mtype (cbody c) = (mtype ≡ call) × IsCall c
IsMsgArm mtype (rbody r) = (mtype ≡ reply) × IsReplyBodyArm r.stat r.u

abbrev pub IsMsg : RpcMsg → Type 0
IsMsg m = IsU32 m.xid × IsMsgArm m.body.mtype m.body.u

get_auth-put_auth :
    (a : OpaqueAuth) (rest : Bytes) → IsAuth a → get_auth (put_auth a ++ rest) ≡ ok (a, rest)
unfolding get_auth put_auth
get_auth-put_auth a rest v = simp (
  append_assoc,
  get32-put32 a.flavor _ v.flavor,
  get_var_bytes-put_var_bytes auth_bound a.body rest v.body (omega (arith, v.body)),
)

get_mismatch-put_mismatch :
    (m : MismatchInfo) (rest : Bytes)
    → IsMismatch m
    → get_mismatch (put_mismatch m ++ rest) ≡ ok (m, rest)
unfolding get_mismatch put_mismatch
get_mismatch-put_mismatch m rest v =
    simp (append_assoc, get32-put32 m.low _ v.low, get32-put32 m.high rest v.high)

get_call-put_call :
    (c : CallBody) (rest : Bytes) → IsCall c → get_call (put_call c ++ rest) ≡ ok (c, rest)
unfolding get_call put_call
get_call-put_call c rest v = simp (
  append_assoc,
  get32-put32 c.rpcvers _ v.rpcvers,
  get32-put32 c.prog _ v.prog,
  get32-put32 c.vers _ v.vers,
  get32-put32 c.proc _ v.proc,
  get_auth-put_auth c.cred _ v.cred,
  get_auth-put_auth c.verf rest v.verf,
)

-- The value is marshalled without a panic, and is read back from the bytes, whatever follows.
abbrev pub Carries : {A : Type 0} → Reader A → Result Bytes → A → Type 0
Carries get r a = (bs : Bytes) × (r ≡ ok bs) × ((rest : Bytes) → get (bs ++ rest) ≡ ok (a, rest))

reply_arm-Carries :
    (stat : ℕ) (u : ReplyArm)
    → IsReplyArm stat u
    → Carries (get_reply_arm stat) (put_reply_arm (record { stat = stat; u = u })) u
unfolding get_reply_arm put_reply_arm get_reply_mismatch
reply_arm-Carries stat ReplyArm.unset v = ([], ground arith, λ rest. ground arith)
reply_arm-Carries stat ReplyArm.results v =
    (put_bytes [], ground arith, λ rest. ground (arith, get_fixed_bytes-put_bytes [] rest))
reply_arm-Carries stat (ReplyArm.mismatch m) v =
    (put_mismatch m, ground arith, λ rest. ground (arith, get_mismatch-put_mismatch m rest v.1))

reply_arm-IsU32 : (stat : ℕ) (u : ReplyArm) → IsReplyArm stat u → IsU32 stat
reply_arm-IsU32 stat ReplyArm.unset v = v.0
reply_arm-IsU32 stat ReplyArm.results v = omega arith
reply_arm-IsU32 stat (ReplyArm.mismatch m) v = omega (arith, v.0)

reply_data-Carries :
    (d : ReplyData) → IsReplyArm d.stat d.u → Carries get_reply_data (put_reply_data d) d
unfolding get_reply_data put_reply_data
reply_data-Carries d v =
    let (bs, p, g) = reply_arm-Carries d.stat d.u v in
    (
      put32 d.stat ++ bs,
      rw p,
      λ rest. simp (append_assoc, get32-put32 d.stat _ (reply_arm-IsU32 d.stat d.u v), g),
    )

accepted-Carries :
    (a : AcceptedReply)
    → IsAuth a.verf
    → IsReplyArm a.reply_data.stat a.reply_data.u
    → Carries get_accepted (put_accepted a) a
unfolding get_accepted put_accepted
accepted-Carries a w v =
    let (bs, p, g) = reply_data-Carries a.reply_data v in
    (put_auth a.verf ++ bs, rw p, λ rest. simp (append_assoc, get_auth-put_auth a.verf _ w, g))

reject_arm-Carries :
    (stat : ℕ) (u : RejectArm)
    → IsRejectArm stat u
    → Carries (get_reject_arm stat) (put_reject_arm (record { stat = stat; u = u })) u
unfolding get_reject_arm put_reject_arm get_reject_mismatch get_rj_why
reject_arm-Carries stat RejectArm.unset v = absurd v
reject_arm-Carries stat (RejectArm.mismatch m) v =
    (put_mismatch m, ground arith, λ rest. ground (arith, get_mismatch-put_mismatch m rest v.1))
reject_arm-Carries stat (rj_why w) v =
    (put32 w, ground arith, λ rest. ground (arith, get32-put32 w rest v.1))

reject_arm-IsU32 : (stat : ℕ) (u : RejectArm) → IsRejectArm stat u → IsU32 stat
reject_arm-IsU32 stat RejectArm.unset v = absurd v
reject_arm-IsU32 stat (RejectArm.mismatch m) v = omega (arith, v.0)
reject_arm-IsU32 stat (rj_why w) v = omega (arith, v.0)

rejected-Carries :
    (r : RejectedReply) → IsRejectArm r.stat r.u → Carries get_rejected (put_rejected r) r
unfolding get_rejected put_rejected
rejected-Carries r v =
    let (bs, p, g) = reject_arm-Carries r.stat r.u v in
    (
      put32 r.stat ++ bs,
      rw p,
      λ rest. simp (append_assoc, get32-put32 r.stat _ (reject_arm-IsU32 r.stat r.u v), g),
    )

reply_body_arm-Carries :
    (stat : ℕ) (u : ReplyBodyArm)
    → IsReplyBodyArm stat u
    → Carries (get_reply_body_arm stat) (put_reply_body_arm (record { stat = stat; u = u })) u
unfolding get_reply_body_arm put_reply_body_arm get_areply get_rreply
reply_body_arm-Carries stat ReplyBodyArm.unset v = absurd v
reply_body_arm-Carries stat (areply a) v =
    let (bs, p, g) = accepted-Carries a v.1 v.2 in
    (bs, ground arith, λ rest. ground (arith, g rest))
reply_body_arm-Carries stat (rreply r) v =
    let (bs, p, g) = rejected-Carries r v.1 in (bs, ground arith, λ rest. ground (arith, g rest))

reply_body_arm-IsU32 : (stat : ℕ) (u : ReplyBodyArm) → IsReplyBodyArm stat u → IsU32 stat
reply_body_arm-IsU32 stat ReplyBodyArm.unset v = absurd v
reply_body_arm-IsU32 stat (areply a) v = omega (arith, v.0)
reply_body_arm-IsU32 stat (rreply r) v = omega (arith, v.0)

reply-Carries : (b : ReplyBody) → IsReplyBodyArm b.stat b.u → Carries get_reply (put_reply b) b
unfolding get_reply put_reply
reply-Carries b v =
    let (bs, p, g) = reply_body_arm-Carries b.stat b.u v in
    (
      put32 b.stat ++ bs,
      rw p,
      λ rest. simp (append_assoc, get32-put32 b.stat _ (reply_body_arm-IsU32 b.stat b.u v), g),
    )

msg_arm-Carries :
    (mtype : ℕ) (u : MsgArm)
    → IsMsgArm mtype u
    → Carries (get_msg_arm mtype) (put_msg_arm (record { mtype = mtype; u = u })) u
unfolding get_msg_arm put_msg_arm get_cbody get_rbody
msg_arm-Carries mtype MsgArm.unset v = absurd v
msg_arm-Carries mtype (cbody c) v =
    (put_call c, ground arith, λ rest. ground (arith, get_call-put_call c rest v.1))
msg_arm-Carries mtype (rbody r) v =
    let (bs, p, g) = reply-Carries r v.1 in (bs, ground arith, λ rest. ground (arith, g rest))

msg_arm-IsU32 : (mtype : ℕ) (u : MsgArm) → IsMsgArm mtype u → IsU32 mtype
msg_arm-IsU32 mtype MsgArm.unset v = absurd v
msg_arm-IsU32 mtype (cbody c) v = omega (arith, v.0)
msg_arm-IsU32 mtype (rbody r) v = omega (arith, v.0)

body-Carries : (b : MsgBody) → IsMsgArm b.mtype b.u → Carries get_body (put_body b) b
unfolding get_body put_body
body-Carries b v =
    let (bs, p, g) = msg_arm-Carries b.mtype b.u v in
    (
      put32 b.mtype ++ bs,
      rw p,
      λ rest. simp (append_assoc, get32-put32 b.mtype _ (msg_arm-IsU32 b.mtype b.u v), g),
    )

-- Every header whose numbers are of 32 bits, whose authenticators have at most 400 bytes, and
-- whose union bodies are those that the discriminants select, is marshalled without a panic, and
-- reading the bytes gives the header back and leaves what follows them.
pub read_msg-put_msg : (m : RpcMsg) → IsMsg m → Carries read_msg (put_msg m) m
unfolding read_msg put_msg
read_msg-put_msg m v =
    let (bs, p, g) = body-Carries m.body v.1 in
    (put32 m.xid ++ bs, rw p, λ rest. simp (append_assoc, get32-put32 m.xid _ v.0, g))
