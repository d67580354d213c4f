-- ===== src/Rpc/Server.antt =====
-- rpc/util.go, lines 201-266: the services that a server has, and the reply header for a call.
pub mod Laws
pub mod Versions
use goxdr.Prelude.{
  ℕ, ◌^◌, ◌-◌, Bool, true, false, not, List, [], ◌∷◌, Option, none, some, ltb, ◌==◌, if◌then◌else◌,
  Bytes,
}
use goxdr.Prelude.Assoc.{Assoc, lookup, insert}
use goxdr.Xdr.Fault.{Result, ok, throw, ◌>>=◌}
use goxdr.Rpc.Header.{
  call, reply, msg_denied, success, prog_unavail, prog_mismatch, proc_unavail, garbage_args,
  rpc_mismatch, MismatchInfo, CallBody, ReplyArm, RejectArm, RejectedReply, ReplyBodyArm, areply,
  rreply, ReplyBody, MsgArm, rbody, MsgBody, RpcMsg, zero_msg, get_cbody, get_rbody, get_areply,
  get_rreply, get_reply_mismatch, get_reject_mismatch,
}
use goxdr.Rpc.Status.{safe_marshal, set_stat}
use goxdr.Rpc.Call.{XdrProc}

-- The interface `XdrSrv`, which generated code implements; `GetProc` gives nil for a number that the
-- version does not have.
pub record XdrSrv : Type 0 where
  pub prog : ℕ
  pub vers : ℕ
  pub get_proc : ℕ → Option XdrProc

-- `RpcSrv`: the map from programs to maps from versions
abbrev pub RpcSrv : Type 0
RpcSrv = Assoc (Assoc XdrSrv)

-- A missing map is made.
abbrev pub versions : Option (Assoc XdrSrv) → Assoc XdrSrv
versions none = []
versions (some m) = m

-- `Register(srv)`
unfoldable pub register : XdrSrv → RpcSrv → RpcSrv
register srv s = insert srv.prog (insert srv.vers srv (versions (lookup srv.prog s))) s

-- One round of the loop over the versions.
abbrev pub widen : ℕ → MismatchInfo → MismatchInfo
widen i m = record {
  low = if ltb i m.low then i else m.low;
  high = if ltb m.high i then i else m.high;
}

-- The loop: the lowest and the highest.
unfoldable pub range_versions : Assoc XdrSrv → MismatchInfo → MismatchInfo
range_versions [] m = m
range_versions ((i, srv) ∷ prog) m = range_versions prog (widen i m)

-- What `GetProc` returns: the reply header and the procedure, either of which may be nil.
pub record Dispatch : Type 0 where
  pub rmsg : Option RpcMsg
  pub proc : Option XdrProc

-- A reply with this status and no procedure.
unfoldable pub refuse : RpcMsg → ℕ → Result Dispatch
refuse rmsg stat = do m ← set_stat rmsg stat; ok (record { rmsg = some m; proc = none })

-- The reply to a call of another RPC version.
unfoldable pub deny_version : RpcMsg → Result Dispatch
deny_version rmsg = do
  let b1 = record rmsg.body { mtype = reply }
  r ← get_rbody b1
  let r1 = record r { stat = msg_denied }
  j ← get_rreply r1
  let j1 = record j { stat = rpc_mismatch }
  i ← get_reject_mismatch j1
  let i1 = record i { low = 2; high = 2 }
  let j2 = record j1 { u = RejectArm.mismatch i1 }
  let m = record rmsg { body = record b1 { u = rbody (record r1 { u = rreply j2 }) } }
  ok (record { rmsg = some m; proc = none })

-- The reply to a call of a version that is not registered, with the range of those that are.
unfoldable pub version_range : RpcMsg → Assoc XdrSrv → Result Dispatch
version_range rmsg prog = do
  m ← set_stat rmsg prog_mismatch
  r ← get_rbody m.body
  a ← get_areply r
  i ← get_reply_mismatch a.reply_data
  let i1 = range_versions prog (record i { low = 2 ^ 32 - 1 })
  let a1 = record a { reply_data = record a.reply_data { u = ReplyArm.mismatch i1 } }
  let m1 = record m { body = record m.body { u = rbody (record r { u = areply a1 }) } }
  ok (record { rmsg = some m1; proc = none })

-- Whether the arguments are read without an `XdrError`; nil skips them.
unfoldable pub args_good : XdrProc → Option Bytes → Result Bool
args_good proc none = ok true
args_good proc (some s) = do
  r ← safe_marshal (proc.read_arg s)
  ok (elim r [ none ↦ false | some _ ↦ true ])

unfoldable pub accept_call : RpcMsg → XdrProc → Bool → Result Dispatch
accept_call rmsg proc false = refuse rmsg garbage_args
accept_call rmsg proc true = do
  m ← set_stat rmsg success
  ok (record { rmsg = some m; proc = some proc })

unfoldable pub dispatch_proc : RpcMsg → Option Bytes → Option XdrProc → Result Dispatch
dispatch_proc rmsg in_bytes none = refuse rmsg proc_unavail
dispatch_proc rmsg in_bytes (some proc) = do
  good ← args_good proc in_bytes
  accept_call rmsg proc good

unfoldable pub dispatch_vers :
    RpcMsg → Option Bytes → ℕ → Assoc XdrSrv → Option XdrSrv → Result Dispatch
dispatch_vers rmsg in_bytes proc prog none = version_range rmsg prog
dispatch_vers rmsg in_bytes proc prog (some vers) = dispatch_proc rmsg in_bytes (vers.get_proc proc)

unfoldable pub dispatch_prog :
    RpcMsg → Option Bytes → CallBody → Option (Assoc XdrSrv) → Result Dispatch
dispatch_prog rmsg in_bytes c none = refuse rmsg prog_unavail
dispatch_prog rmsg in_bytes c (some prog) =
    dispatch_vers rmsg in_bytes c.proc prog (lookup c.vers prog)

unfoldable pub dispatch_call : RpcSrv → RpcMsg → Option Bytes → CallBody → Result Dispatch
dispatch_call s rmsg in_bytes c =
    if not (c.rpcvers == 2)
    then deny_version rmsg
    else dispatch_prog rmsg in_bytes c (lookup c.prog s)

-- `GetProc(cmsg, in)`
unfoldable pub get_proc : RpcSrv → RpcMsg → Option Bytes → Result Dispatch
get_proc s cmsg in_bytes =
    if cmsg.body.mtype == call
    then get_cbody cmsg.body >>= dispatch_call s (zero_msg cmsg.xid) in_bytes
    else ok (record { rmsg = none; proc = none })
