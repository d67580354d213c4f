-- ===== src/Rpc/CallSet/Replies.antt =====
-- `GetReply`: which messages are taken as replies, and what becomes of the call.
use goxdr.Prelude.{
  ℕ, none, some, ◌&&◌, not, if◌then◌else◌, Bytes, Option, bytes_eq_iff, ◌≡◌, ◌≢◌, refl, sym, subst,
  arith, inl, inr, ◌⊎◌, ==_iff, ◌∙◌, ap, true, false, Bool,
}
use goxdr.Prelude.Assoc.{lookup}
use goxdr.Xdr.Fault.{Result, ok, throw, xdr_error, other_panic}
use goxdr.Rpc.Header.{reply, RpcMsg}
use goxdr.Rpc.Status.{garbage_ret, is_success, safe_marshal}
use goxdr.Rpc.Status.Laws.{is_success_lem, succeeds, set_reply_stat_lem}
use goxdr.Rpc.Call.{XdrProc, PendingCall, CallPool}
use goxdr.Rpc.CallSet.{CallSet, Reply, deref, read_results, accept_reply, check_server, get_reply}
use goxdr.Rpc.CallSet.Invariant.{IsValid}
use goxdr.Rpc.CallSet.Remove.{dropped, Removes, dropped-IsValid, pending-dropped}

-- Whether reading the results ends well
abbrev pub readable {ℓ} : {A : Type ℓ} → Result A → Bool
readable (ok _) = true
readable (throw _) = false

-- Whether the results are read, of a success only, and make a panic that is no `XdrError`
abbrev pub panics {ℓ} : {A : Type ℓ} → Bool → Result A → Bool
panics false r = false
panics true (ok _) = false
panics true (throw xdr_error) = false
panics true (throw other_panic) = true

module _ (P : CallPool) where
  -- A message that is no reply, whose XID is of no pending call, or that comes from another server
  -- than the call went to, is refused, and the set stays as it is.
  pub get_reply_refused :
      (server : Bytes) (rmsg : RpcMsg) (in_bytes : Bytes) (cs : CallSet P)
      → (rmsg.body.mtype ≢ reply)
        ⊎ ((lookup rmsg.xid cs.calls ≡ none)
            ⊎ ((p : ℕ) × (lookup rmsg.xid cs.calls ≡ some p)
                × ((P.load cs.pool p).server ≢ server)))
      → get_reply P server rmsg in_bytes cs ≡ ok (none, cs)
  unfolding get_reply check_server
  get_reply_refused server rmsg in_bytes cs (inl other) = ground arith
  get_reply_refused server rmsg in_bytes cs (inr (inl free)) = ground arith
  get_reply_refused server rmsg in_bytes cs (inr (inr (p, e, ne))) =
      ground (arith, bytes_eq_iff (P.load cs.pool p).server server)

  -- What `GetReply` makes of a message that it accepts, where `good` says whether the results could
  -- be read: a success that cannot be read becomes GARBAGE_RET, all else stays.
  abbrev pub Delivered : RpcMsg → RpcMsg → Bool → Type 0
  Delivered rmsg msg good =
      (msg.xid ≡ rmsg.xid)
      × (is_success msg ≡ ok (succeeds rmsg && good))
      × (((succeeds rmsg && not good) ≡ true) ⊎ (msg ≡ rmsg))

  -- The message behind the check of its status.
  abbrev checked : PendingCall → RpcMsg → Bytes → Bool → Result RpcMsg
  checked pc rmsg in_bytes success = if success then read_results pc in_bytes rmsg else ok rmsg

  -- The end of the check of the status, where it is a panic or no panic.
  Checks : RpcMsg → Bool → Bool → Result RpcMsg → Type 0
  Checks rmsg good true r = r ≡ throw other_panic
  Checks rmsg good false r = (msg : RpcMsg) × (r ≡ ok msg) × Delivered rmsg msg good

  checked_lem :
      (pc : PendingCall) (proc : XdrProc) (rmsg : RpcMsg) (in_bytes : Bytes) (success : Bool)
      (o : Result (Unit × Bytes))
      → pc.proc ≡ some proc
      → proc.read_res in_bytes ≡ o
      → succeeds rmsg ≡ success
      → Checks rmsg (readable o) (panics success o) (checked pc rmsg in_bytes success)
  unfolding Checks read_results deref safe_marshal
  checked_lem pc proc rmsg in_bytes false o filled r e =
      (rmsg, refl, (refl, is_success_lem rmsg ∙ ap ok (rw e), inr refl))
  checked_lem pc proc rmsg in_bytes true (ok a) filled r e =
      (rmsg, rw (filled, r), (refl, is_success_lem rmsg ∙ ap ok (rw e), inr refl))
  checked_lem pc proc rmsg in_bytes true (throw xdr_error) filled r e =
      let (msg, set, same, bad) =
        set_reply_stat_lem rmsg garbage_ret (is_success_lem rmsg ∙ ap ok e) in
      (msg, rw (filled, r) set, (same, bad ∙ ap ok (sym (rw e)), inl (rw e refl)))
  checked_lem pc proc rmsg in_bytes true (throw other_panic) filled r e = rw (filled, r)

  accept_run :
      (rmsg : RpcMsg) (in_bytes : Bytes) (cs : CallSet P) (p : ℕ) (msg : RpcMsg)
      → checked (P.load cs.pool p) rmsg in_bytes (succeeds rmsg) ≡ ok msg
      → accept_reply P p rmsg in_bytes cs
        ≡ ok (
          some (record { proc = (P.load cs.pool p).proc; cb = (P.load cs.pool p).cb; msg = msg }),
          dropped P rmsg.xid p cs,
        )
  unfolding accept_reply
  accept_run rmsg in_bytes cs p msg e = rw (is_success_lem rmsg, e)

  accept_panic :
      (rmsg : RpcMsg) (in_bytes : Bytes) (cs : CallSet P) (p : ℕ)
      → checked (P.load cs.pool p) rmsg in_bytes (succeeds rmsg) ≡ throw other_panic
      → accept_reply P p rmsg in_bytes cs ≡ throw other_panic
  unfolding accept_reply
  accept_panic rmsg in_bytes cs p e = rw (is_success_lem rmsg, e)

  -- The end of `GetReply` for the reply `rmsg` to the call `proc` with the callback `cb`, with the
  -- outcome of reading its results: that panic goes on, and else the call is taken out of the set.
  abbrev pub Accepts :
      (rmsg : RpcMsg) (proc : XdrProc) (cb : Option ℕ) (cs : CallSet P) (good panic : Bool)
      (r : Result (Option Reply × CallSet P))
      → Type 0
  Accepts rmsg proc cb cs good true r = r ≡ throw other_panic
  Accepts rmsg proc cb cs good false r =
      (msg : RpcMsg) × (cs' : CallSet P) × (r
        ≡ ok (some (record { proc = some proc; cb = cb; msg = msg }), cs'))
      × Delivered rmsg msg good
      × Removes P rmsg.xid cs cs'

  accepts_lem :
      (rmsg : RpcMsg) (in_bytes : Bytes) (cs : CallSet P) (p : ℕ) (proc : XdrProc)
      (good panic : Bool)
      → IsValid P cs
      → lookup rmsg.xid cs.calls ≡ some p
      → (P.load cs.pool p).proc ≡ some proc
      → Checks rmsg good panic (checked (P.load cs.pool p) rmsg in_bytes (succeeds rmsg))
      → Accepts rmsg proc (P.load cs.pool p).cb cs good panic (accept_reply P p rmsg in_bytes cs)
  unfolding Checks
  accepts_lem rmsg in_bytes cs p proc good true v e filled c = accept_panic rmsg in_bytes cs p c
  accepts_lem rmsg in_bytes cs p proc good false v e filled (msg, c, d) = (
    msg,
    dropped P rmsg.xid p cs,
    rw (← filled) (accept_run rmsg in_bytes cs p msg c),
    d,
    (dropped-IsValid P rmsg.xid p cs v e, λ j. pending-dropped P rmsg.xid p j cs v e),
  )

  -- A reply from the server of the pending call is accepted, with that call's procedure and
  -- callback, and the call is taken out of the set; a success whose results make an `XdrError`
  -- becomes no success, and all else stays as it is. Only where the results of a success make
  -- another panic does that panic go on.
  pub get_reply_accepted :
      (server : Bytes) (rmsg : RpcMsg) (in_bytes : Bytes) (cs : CallSet P) (p : ℕ) (proc : XdrProc)
      → IsValid P cs
      → rmsg.body.mtype ≡ reply
      → lookup rmsg.xid cs.calls ≡ some p
      → (P.load cs.pool p).server ≡ server
      → (P.load cs.pool p).proc ≡ some proc
      → Accepts rmsg proc
          (P.load cs.pool p).cb
          cs
          (readable (proc.read_res in_bytes))
          (panics (succeeds rmsg) (proc.read_res in_bytes))
          (get_reply P server rmsg in_bytes cs)
  unfolding get_reply check_server
  get_reply_accepted server rmsg in_bytes cs p proc v m e same filled =
      let eq = (bytes_eq_iff (P.load cs.pool p).server server).1 same in
      let run : get_reply P server rmsg in_bytes cs ≡ accept_reply P p rmsg in_bytes cs =
        rw ((==_iff rmsg.body.mtype reply).1 m, e, eq) refl in
      subst
        (Accepts rmsg proc (P.load cs.pool p).cb cs (readable (proc.read_res in_bytes))
          (panics (succeeds rmsg) (proc.read_res in_bytes)))
        (sym run)
        (accepts_lem rmsg in_bytes cs p proc _ _ v e filled
          (checked_lem (P.load cs.pool p) proc rmsg in_bytes (succeeds rmsg) _ filled refl refl))
