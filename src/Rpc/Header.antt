-- ===== src/Rpc/Header.antt =====
-- The message header of rpc/rpc_msg.x, as cmd/goxdr compiles it: a struct is a record, an enum a
-- number of 32 bits, and a union the pair of its discriminant and the `_u` field, which holds the
-- body that was accessed last. The accessors are those that cmd/goxdr/goxdr.go emits for a union.
pub mod Wire
use goxdr.Prelude.{ℕ, Bool, true, false, [], ◌==◌, if◌then◌else◌, Bytes}
use goxdr.Xdr.Fault.{Result, ok, throw, xdr_error, ◌>>=◌}

-- enum msg_type
abbrev pub call : ℕ
call = 0

abbrev pub reply : ℕ
reply = 1

-- enum reply_stat
abbrev pub msg_accepted : ℕ
msg_accepted = 0

abbrev pub msg_denied : ℕ
msg_denied = 1

-- enum accept_stat
abbrev pub success : ℕ
success = 0

abbrev pub prog_unavail : ℕ
prog_unavail = 1

abbrev pub prog_mismatch : ℕ
prog_mismatch = 2

abbrev pub proc_unavail : ℕ
proc_unavail = 3

abbrev pub garbage_args : ℕ
garbage_args = 4

abbrev pub system_err : ℕ
system_err = 5

-- enum reject_stat
abbrev pub rpc_mismatch : ℕ
rpc_mismatch = 0

abbrev pub auth_error : ℕ
auth_error = 1

pub record OpaqueAuth : Type 0 where
  pub flavor : ℕ
  pub body : Bytes

pub record MismatchInfo : Type 0 where
  pub low : ℕ
  pub high : ℕ

pub record CallBody : Type 0 where
  pub rpcvers : ℕ
  pub prog : ℕ
  pub vers : ℕ
  pub proc : ℕ
  pub cred : OpaqueAuth
  pub verf : OpaqueAuth

-- The `_u` of the union `reply_data`; `unset` is nil.
pub data ReplyArm : Type 0 where
  unset results : ReplyArm
  mismatch : MismatchInfo → ReplyArm

pub record ReplyData : Type 0 where
  pub stat : ℕ
  pub u : ReplyArm

pub record AcceptedReply : Type 0 where
  pub verf : OpaqueAuth
  pub reply_data : ReplyData

pub data RejectArm : Type 0 where
  unset : RejectArm
  mismatch : MismatchInfo → RejectArm
  rj_why : ℕ → RejectArm

pub record RejectedReply : Type 0 where
  pub stat : ℕ
  pub u : RejectArm

pub data ReplyBodyArm : Type 0 where
  unset : ReplyBodyArm
  areply : AcceptedReply → ReplyBodyArm
  rreply : RejectedReply → ReplyBodyArm

pub record ReplyBody : Type 0 where
  pub stat : ℕ
  pub u : ReplyBodyArm

pub data MsgArm : Type 0 where
  unset : MsgArm
  cbody : CallBody → MsgArm
  rbody : ReplyBody → MsgArm

pub record MsgBody : Type 0 where
  pub mtype : ℕ
  pub u : MsgArm

pub record RpcMsg : Type 0 where
  pub xid : ℕ
  pub body : MsgBody

-- The zero values, which an accessor allocates.
abbrev pub no_auth : OpaqueAuth
no_auth = record { flavor = 0; body = [] }

abbrev pub zero_mismatch : MismatchInfo
zero_mismatch = record { low = 0; high = 0 }

abbrev pub zero_call : CallBody
zero_call = record { rpcvers = 0; prog = 0; vers = 0; proc = 0; cred = no_auth; verf = no_auth }

abbrev pub zero_accepted : AcceptedReply
zero_accepted = record { verf = no_auth; reply_data = record { stat = 0; u = ReplyArm.unset } }

abbrev pub zero_rejected : RejectedReply
zero_rejected = record { stat = 0; u = RejectArm.unset }

abbrev pub zero_reply : ReplyBody
zero_reply = record { stat = 0; u = ReplyBodyArm.unset }

-- `Rpc_msg{Xid: xid}`
abbrev pub zero_msg : ℕ → RpcMsg
zero_msg xid = record { xid = xid; body = record { mtype = 0; u = MsgArm.unset } }

abbrev pub arm_call : MsgArm → CallBody
arm_call (cbody c) = c
arm_call _ = zero_call

abbrev pub arm_reply : MsgArm → ReplyBody
arm_reply (rbody r) = r
arm_reply _ = zero_reply

abbrev pub arm_accepted : ReplyBodyArm → AcceptedReply
arm_accepted (areply a) = a
arm_accepted _ = zero_accepted

abbrev pub arm_rejected : ReplyBodyArm → RejectedReply
arm_rejected (rreply r) = r
arm_rejected _ = zero_rejected

abbrev pub reply_arm_mismatch : ReplyArm → MismatchInfo
reply_arm_mismatch (ReplyArm.mismatch m) = m
reply_arm_mismatch _ = zero_mismatch

abbrev pub reject_arm_mismatch : RejectArm → MismatchInfo
reject_arm_mismatch (RejectArm.mismatch m) = m
reject_arm_mismatch _ = zero_mismatch

abbrev pub arm_why : RejectArm → ℕ
arm_why (rj_why w) = w
arm_why _ = 0

-- `body.Cbody()`: what the returned pointer points to. Accessed at another discriminant it
-- throws. A write through the pointer is `record b { u = cbody c' }`.
unfoldable pub get_cbody : MsgBody → Result CallBody
get_cbody b = if b.mtype == call then ok (arm_call b.u) else throw xdr_error

unfoldable pub get_rbody : MsgBody → Result ReplyBody
get_rbody b = if b.mtype == reply then ok (arm_reply b.u) else throw xdr_error

unfoldable pub get_areply : ReplyBody → Result AcceptedReply
get_areply b = if b.stat == msg_accepted then ok (arm_accepted b.u) else throw xdr_error

unfoldable pub get_rreply : ReplyBody → Result RejectedReply
get_rreply b = if b.stat == msg_denied then ok (arm_rejected b.u) else throw xdr_error

-- `reply_data.Mismatch_info()`
unfoldable pub get_reply_mismatch : ReplyData → Result MismatchInfo
get_reply_mismatch d =
    if d.stat == prog_mismatch then ok (reply_arm_mismatch d.u) else throw xdr_error

-- `rejected_reply.Mismatch_info()`
unfoldable pub get_reject_mismatch : RejectedReply → Result MismatchInfo
get_reject_mismatch r =
    if r.stat == rpc_mismatch then ok (reject_arm_mismatch r.u) else throw xdr_error

unfoldable pub get_rj_why : RejectedReply → Result ℕ
get_rj_why r = if r.stat == auth_error then ok (arm_why r.u) else throw xdr_error
