-- ===== src/Rpc/Server/Laws.antt =====
-- Which call a server runs, and what the reply header says of it.
use goxdr.Prelude.{
  ℕ, Bool, true, false, ◌&&◌, Option, none, some, ◌==◌, if◌then◌else◌, Bytes, ◌≡◌, refl, ap, ◌∙◌,
  inl, inr, Bool-cases, ==_iff,
}
use goxdr.Prelude.Assoc.{Assoc, lookup, insert, lookup-insert}
use goxdr.Xdr.Fault.{Result, ok}
use goxdr.Rpc.Header.{
  call, success, prog_unavail, proc_unavail, garbage_args, CallBody, RpcMsg, arm_call, zero_msg,
  get_cbody, get_rbody, get_rreply, get_reject_mismatch, get_areply, get_reply_mismatch,
}
use goxdr.Rpc.Status.{set_stat, is_success, reply_success}
use goxdr.Rpc.Status.Laws.{set_stat_lem}
use goxdr.Rpc.Call.{XdrProc}
use goxdr.Rpc.Server.{
  XdrSrv, RpcSrv, versions, register, Dispatch, refuse, deny_version, version_range, args_good,
  accept_call, dispatch_proc, dispatch_vers, dispatch_prog, dispatch_call, get_proc,
}

-- The service of a program and version.
abbrev pub find_vers : ℕ → Option (Assoc XdrSrv) → Option XdrSrv
find_vers vers none = none
find_vers vers (some m) = lookup vers m

abbrev pub find_srv : RpcSrv → ℕ → ℕ → Option XdrSrv
find_srv s prog vers = find_vers vers (lookup prog s)

found :
    (o : Option (Assoc XdrSrv)) (vers : ℕ) (b : Bool) (srv : XdrSrv)
    → (if b then some srv else lookup vers (versions o))
      ≡ (if b then some srv else find_vers vers o)
unfolding lookup
found none vers b srv = refl
found (some m) vers b srv = refl

-- A registered service is found under its program and version, in place of one that was there, and
-- all others are found as before.
find_srv-register :
    (srv : XdrSrv) (s : RpcSrv) (prog vers : ℕ)
    → find_srv (register srv s) prog vers
      ≡ (if srv.prog == prog && srv.vers == vers then some srv else find_srv s prog vers)
unfolding register
find_srv-register srv s prog vers = elim (Bool-cases (srv.prog == prog)) [
  | inl e ↦
      rw
        (
          lookup-insert srv.prog prog (insert srv.vers srv (versions (lookup srv.prog s))) s,
          e,
          lookup-insert srv.vers vers srv (versions (lookup srv.prog s)),
        )
        (found (lookup srv.prog s) vers (srv.vers == vers) srv
          ∙ ap (λ k. if srv.vers == vers then some srv else find_srv s k vers) ((==_iff _ _).0 e))
  | inr e ↦
      rw (lookup-insert srv.prog prog (insert srv.vers srv (versions (lookup srv.prog s))) s, e)
        refl
]

abbrev pub is_some : Option XdrProc → Bool
is_some none = false
is_some (some p) = true

-- The header carries the XID of the call, and says SUCCESS exactly if there is a procedure to run.
abbrev pub Agrees : ℕ → Dispatch → Type 0
Agrees xid d =
    (m : RpcMsg) × (d.rmsg ≡ some m) × (m.xid ≡ xid) × (is_success m ≡ ok (is_some d.proc))

-- The dispatch ends, with this procedure to run, if any.
abbrev pub Runs : ℕ → Option XdrProc → Result Dispatch → Type 0
Runs xid p r = (d : Dispatch) × (r ≡ ok d) × (d.proc ≡ p) × Agrees xid d

refuse-Runs :
    (rmsg : RpcMsg) (stat : ℕ) → (stat == success) ≡ false → Runs rmsg.xid none (refuse rmsg stat)
unfolding refuse
refuse-Runs rmsg stat bad =
    let (m, e, same, good) = set_stat_lem rmsg stat in
    (record { rmsg = some m; proc = none }, rw e refl, refl, (m, refl, same, good ∙ ap ok bad))

deny_version-Runs : (rmsg : RpcMsg) → Runs rmsg.xid none (deny_version rmsg)
unfolding deny_version get_rbody get_rreply get_reject_mismatch is_success reply_success
deny_version-Runs rmsg = (_, refl, refl, (_, refl, refl, refl))

version_range-Runs :
    (rmsg : RpcMsg) (prog : Assoc XdrSrv) → Runs rmsg.xid none (version_range rmsg prog)
unfolding version_range set_stat get_rbody get_areply get_reply_mismatch is_success reply_success
version_range-Runs rmsg prog = (_, refl, refl, (_, refl, refl, refl))

-- The procedure that a call names.
abbrev pub find_proc : ℕ → Option XdrSrv → Option XdrProc
find_proc proc none = none
find_proc proc (some v) = v.get_proc proc

abbrev pub candidate : RpcSrv → CallBody → Option XdrProc
candidate s c = if c.rpcvers == 2 then find_proc c.proc (find_srv s c.prog c.vers) else none

-- The arguments of the procedure are read without a panic, and are good or not.
abbrev pub ReadsArgs : Option XdrProc → Option Bytes → Bool → Type 0
ReadsArgs o in_bytes good = (p : XdrProc) → o ≡ some p → args_good p in_bytes ≡ ok good

abbrev kept : Bool → Option XdrProc → Option XdrProc
kept good p = if good then p else none

kept-none :
    (good : Bool) (xid : ℕ) {r : Result Dispatch} → Runs xid none r → Runs xid (kept good none) r
kept-none true xid h = h
kept-none false xid h = h

accept_call-Runs :
    (rmsg : RpcMsg) (proc : XdrProc) (good : Bool)
    → Runs rmsg.xid (kept good (some proc)) (accept_call rmsg proc good)
unfolding accept_call
accept_call-Runs rmsg proc true =
    let (m, e, same, good) = set_stat_lem rmsg success in
    (record { rmsg = some m; proc = some proc }, rw e refl, refl, (m, refl, same, good))
accept_call-Runs rmsg proc false = refuse-Runs rmsg garbage_args refl

dispatch_proc-Runs :
    (rmsg : RpcMsg) (in_bytes : Option Bytes) (good : Bool) (o : Option XdrProc)
    → ReadsArgs o in_bytes good
    → Runs rmsg.xid (kept good o) (dispatch_proc rmsg in_bytes o)
unfolding dispatch_proc
dispatch_proc-Runs rmsg in_bytes good none h =
    kept-none good rmsg.xid (refuse-Runs rmsg proc_unavail refl)
dispatch_proc-Runs rmsg in_bytes good (some p) h = rw (h p refl) (accept_call-Runs rmsg p good)

dispatch_vers-Runs :
    (rmsg : RpcMsg) (in_bytes : Option Bytes) (good : Bool) (proc : ℕ) (prog : Assoc XdrSrv)
    (o : Option XdrSrv)
    → ReadsArgs (find_proc proc o) in_bytes good
    → Runs rmsg.xid (kept good (find_proc proc o)) (dispatch_vers rmsg in_bytes proc prog o)
unfolding dispatch_vers
dispatch_vers-Runs rmsg in_bytes good proc prog none h =
    kept-none good rmsg.xid (version_range-Runs rmsg prog)
dispatch_vers-Runs rmsg in_bytes good proc prog (some v) h =
    dispatch_proc-Runs rmsg in_bytes good (v.get_proc proc) h

dispatch_prog-Runs :
    (rmsg : RpcMsg) (in_bytes : Option Bytes) (good : Bool) (c : CallBody)
    (o : Option (Assoc XdrSrv))
    → ReadsArgs (find_proc c.proc (find_vers c.vers o)) in_bytes good
    → Runs rmsg.xid
        (kept good (find_proc c.proc (find_vers c.vers o)))
        (dispatch_prog rmsg in_bytes c o)
unfolding dispatch_prog
dispatch_prog-Runs rmsg in_bytes good c none h =
    kept-none good rmsg.xid (refuse-Runs rmsg prog_unavail refl)
dispatch_prog-Runs rmsg in_bytes good c (some m) h =
    dispatch_vers-Runs rmsg in_bytes good c.proc m (lookup c.vers m) h

dispatch_call-Runs :
    (s : RpcSrv) (rmsg : RpcMsg) (in_bytes : Option Bytes) (good : Bool) (c : CallBody)
    → ReadsArgs (candidate s c) in_bytes good
    → Runs rmsg.xid (kept good (candidate s c)) (dispatch_call s rmsg in_bytes c)
unfolding dispatch_call
dispatch_call-Runs s rmsg in_bytes good c h = elim (Bool-cases (c.rpcvers == 2)) [
  | inl e ↦ rw e (dispatch_prog-Runs rmsg in_bytes good c (lookup c.prog s) (λ p q. h p (rw e q)))
  | inr e ↦ rw e (kept-none good rmsg.xid (deny_version-Runs rmsg))
]

-- Where the arguments of a call are read without a panic other than an `XdrError`, the server
-- answers it with a header that has the XID of the call and says SUCCESS exactly if a procedure is
-- returned; and it returns the procedure registered for the program, the version and the number,
-- exactly if the RPC version is 2, there is such a procedure, and the arguments are good.
pub get_proc_lem :
    (s : RpcSrv) (cmsg : RpcMsg) (in_bytes : Option Bytes) (good : Bool)
    → cmsg.body.mtype ≡ call
    → ReadsArgs (candidate s (arm_call cmsg.body.u)) in_bytes good
    → Runs cmsg.xid
        (if good then candidate s (arm_call cmsg.body.u) else none)
        (get_proc s cmsg in_bytes)
unfolding get_proc get_cbody
get_proc_lem s cmsg in_bytes good e h =
    rw ((==_iff _ _).1 e)
      (dispatch_call-Runs s (zero_msg cmsg.xid) in_bytes good (arm_call cmsg.body.u) h)
