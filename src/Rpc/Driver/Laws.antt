-- ===== src/Rpc/Driver/Laws.antt =====
-- Replies reach their callback, and calls that are not sent or not waited for leave nothing behind.
use mathlib.Core.Option.{some-injective}
use goxdr.Prelude.{
  ℕ, ◌^◌, ◌<◌, Bool, true, false, [], ◌∷◌, ◌++◌, Option, none, some, if◌then◌else◌, Bytes, length,
  ◌==◌, ==_iff, refl, sym, ap, subst, ◌≡◌, ◌≢◌, ◌∙◌, Bool-cases, inl, inr,
}
use goxdr.Prelude.Assoc.{lookup}
use goxdr.Xdr.Fault.{Result, ok, throw, other_panic, ◌>>=◌}
use goxdr.Rpc.Header.{RpcMsg, reply}
use goxdr.Rpc.Header.Wire.{put_msg}
use goxdr.Rpc.Status.{get_msg}
use goxdr.Rpc.Status.Laws.{succeeds}
use goxdr.Rpc.Call.{XdrProc, PendingCall, CallPool}
use goxdr.Rpc.CallSet.{CallSet, Reply, deref, get_reply, new_call, delete_call}
use goxdr.Rpc.CallSet.Invariant.{IsValid, pending, new_call_lem, made}
use goxdr.Rpc.CallSet.Remove.{Removes, delete_call-Removes}
use goxdr.Rpc.CallSet.Replies.{readable, panics, Delivered, Accepts, get_reply_accepted}
use goxdr.Rpc.Driver.{
  transport_closed, context_done, CallErr, Ready, out_ready, driver_done, call_done, Packet,
  Service, Driver, safe_send, deliver, do_reply, do_msg, start_call,
}

module _ (P : CallPool) where
  -- The end of `doMsg` for a reply to a pending call with the callback `cb`, with the outcome of
  -- reading its results.
  abbrev pub Delivers :
      (msg : RpcMsg) (cb : ℕ) (d : Driver P) (good panic : Bool) (r : Result (Driver P)) → Type 0
  Delivers msg cb d good true r = r ≡ throw other_panic
  Delivers msg cb d good false r =
      (msg' : RpcMsg) × (d' : Driver P) × (r ≡ ok d')
      × (d'.events ≡ d.events ++ record { cb = cb; msg = msg' } ∷ [])
      × Delivered P msg msg' good
      × Removes P msg.xid d.cs d'.cs
      × (d'.out ≡ d.out)

  delivers_lem :
      (run : Service) (r : Ready) (peer : Bytes) (msg : RpcMsg) (rest : Bytes) (d : Driver P)
      (cb : ℕ) (proc : XdrProc) (good panic : Bool) (got : Result (Option Reply × CallSet P))
      → Accepts P msg proc (some cb) d.cs good panic got
      → Delivers msg cb d good panic (got >>= do_reply P run r peer msg rest d)
  unfolding do_reply deliver deref
  delivers_lem run r peer msg rest d cb proc good true got e =
      ap (λ x. x >>= do_reply P run r peer msg rest d) e
  delivers_lem run r peer msg rest d cb proc good false got (msg', cs', e, delivered, removes) = (
    msg',
    record d { cs = cs'; events = d.events ++ record { cb = cb; msg = msg' } ∷ [] },
    ap (λ x. x >>= do_reply P run r peer msg rest d) e,
    refl,
    delivered,
    removes,
    refl,
  )

  -- A reply from the server of a pending call reaches the callback of that call, once; the call is
  -- taken out, and nothing is sent. Only where the results of a success make a panic that is no
  -- `XdrError` does that panic go on, out of `doMsg`.
  pub do_msg-reply :
      (run : Service) (r : Ready) (m : Packet) (d : Driver P) (msg : RpcMsg) (rest : Bytes)
      (p cb : ℕ) (proc : XdrProc)
      → IsValid P d.cs
      → get_msg m.bytes ≡ ok (some (msg, rest))
      → msg.body.mtype ≡ reply
      → lookup msg.xid d.cs.calls ≡ some p
      → P.load d.cs.pool p ≡ record { proc = some proc; cb = some cb; server = m.peer }
      → Delivers msg cb d
          (readable (proc.read_res rest))
          (panics (succeeds msg) (proc.read_res rest))
          (do_msg P run r m d)
  unfolding do_msg
  do_msg-reply run r m d msg rest p cb proc v e t at same = rw e (
      delivers_lem run r m.peer msg rest d cb proc _ _ (get_reply P m.peer msg rest d.cs) (
        subst
          (λ o.
            Accepts P msg proc o d.cs (readable (proc.read_res rest))
              (panics (succeeds msg) (proc.read_res rest)) (get_reply P m.peer msg rest d.cs))
          (ap {A = PendingCall} (λ c. c.cb) same)
          (get_reply_accepted P m.peer msg rest d.cs p proc v t at
            (ap {A = PendingCall} (λ c. c.server) same) (ap {A = PendingCall} (λ c. c.proc) same))))

  -- Deleting the call that was just added leaves what was pending before.
  Undone : CallSet P → RpcMsg × CallSet P → Type 0
  Undone before x =
      IsValid P (delete_call P x.0.xid x.1)
      × ((j : ℕ) → pending P (delete_call P x.0.xid x.1) j ≡ pending P before j)

  new_call-Undone :
      (peer : Bytes) (proc : XdrProc) (cb : ℕ) (before : CallSet P) (x : RpcMsg × CallSet P)
      → IsValid P before
      → length before.calls < 2 ^ 32
      → new_call P peer proc cb before ≡ some x
      → Undone before x
  unfolding Undone
  new_call-Undone peer proc cb before x v few n =
      let (m, cs', e, valid, free, pend) = new_call_lem P peer proc cb before v few in
      let (kept, gone) = delete_call-Removes P m.xid cs' valid in
      subst (Undone before) (some-injective (m, cs') x (sym e ∙ n))
        (kept, λ j. gone j ∙ back m cs' j free (pend j))
    where
      back :
          (m : RpcMsg) (cs' : CallSet P) (j : ℕ)
          → pending P before m.xid ≡ none
          → pending P cs' j
            ≡ (if m.xid == j then some (made P peer proc cb) else pending P before j)
          → (if m.xid == j then none else pending P cs' j) ≡ pending P before j
      back m cs' j free p = elim (Bool-cases (m.xid == j)) [
        | inl hit ↦ rw hit (sym (ap (pending P before) (sym ((==_iff m.xid j).0 hit)) ∙ free))
        | inr miss ↦ rw miss (p ∙ rw miss refl)
      ]

  -- A call whose message is not sent leaves no pending call behind: the set is valid, and what is
  -- pending is what was. The error says which context was done, and nothing is sent.
  start_call_unsent :
      (r : Ready) (peer : Bytes) (proc : XdrProc) (args header : Bytes) (cb : ℕ) (d : Driver P)
      (cmsg : RpcMsg) (cs : CallSet P)
      → IsValid P d.cs
      → length d.cs.calls < 2 ^ 32
      → r ≢ out_ready
      → new_call P peer proc cb d.cs ≡ some (cmsg, cs)
      → put_msg cmsg ≡ ok header
      → (e : CallErr) × (d' : Driver P) × (start_call P r peer proc args cb d
          ≡ some (ok (cmsg, (some e, d'))))
        × IsValid P d'.cs
        × ((j : ℕ) → pending P d'.cs j ≡ pending P d.cs j)
        × (d'.out ≡ d.out)
  unfolding start_call safe_send Undone
  start_call_unsent out_ready peer proc args header cb d cmsg cs v few ne n h = absurd (ne refl)
  start_call_unsent driver_done peer proc args header cb d cmsg cs v few ne n h =
      let (valid, same) = new_call-Undone peer proc cb d.cs (cmsg, cs) v few n in
      (
        transport_closed,
        record d { cs = delete_call P cmsg.xid cs; canceled = true },
        rw (start_call, n) (rw h refl),
        valid,
        same,
        refl,
      )
  start_call_unsent call_done peer proc args header cb d cmsg cs v few ne n h =
      let (valid, same) = new_call-Undone peer proc cb d.cs (cmsg, cs) v few n in
      (
        context_done,
        record d { cs = delete_call P cmsg.xid cs },
        rw (start_call, n) (rw h refl),
        valid,
        same,
        refl,
      )
