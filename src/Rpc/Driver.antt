-- ===== src/Rpc/Driver.antt =====
-- rpc/driver.go: what a driver does with one message, run by itself. The call set, the server and
-- the pool of messages are those of their modules. A send is an entry of `out`, which `safeSend`
-- writes unless a context is done.
pub mod Laws
pub mod Loops
pub mod Calls
use goxdr.Prelude.{
  ℕ, ◌+◌, Bool, true, false, List, [], ◌∷◌, ◌++◌, Option, none, some, if◌then◌else◌, Bytes,
}
use goxdr.Xdr.Fault.{Result, ok, throw, other_panic, ◌>>=◌}
use goxdr.Rpc.Header.{RpcMsg, system_err}
use goxdr.Rpc.Header.Wire.{put_msg}
use goxdr.Rpc.Status.{is_success, set_stat, get_msg}
use goxdr.Rpc.Call.{XdrProc, CallPool}
use goxdr.Rpc.CallSet.{CallSet, Event, Reply, deref, get_reply, new_call, delete_call}
use goxdr.Rpc.Server.{RpcSrv, Dispatch, get_proc}
use goxdr.Rpc.Message.{MessagePool}

-- The errors of a send or a call: the driver's context is done, the call's is, or the reply.
pub data CallErr : Type 0 where
  transport_closed : CallErr
  context_done : CallErr
  failed_reply : RpcMsg → CallErr

-- What the select of `safeSend` finds ready, if more than one is: any of them.
pub data Ready : Type 0 where
  out_ready : Ready
  driver_done : Ready
  call_done : Ready

-- A message on its way: its peer and its bytes.
pub record Packet : Type 0 where
  pub peer : Bytes
  pub bytes : Bytes

-- How a procedure ends: with the bytes of its result, or with a panic.
pub data Outcome : Type 0 where
  returned : Bytes → Outcome
  panicked : Outcome

-- What a server procedure does; it stands for `proc.Do()`, generated and user code.
abbrev pub Service : Type 0
Service = XdrProc → Outcome

module _ (P : CallPool) where
  pub record Driver : Type 0 where
    pub cs : CallSet P
    pub srv : RpcSrv
    pub out : List Packet
    pub canceled : Bool
    -- callbacks made
    pub events : List Event

  -- `safeSend(driverCtx, callReplyCtx, m)`
  unfoldable pub safe_send : Ready → Packet → Driver → Option CallErr × Driver
  safe_send out_ready m d = (none, record d { out = d.out ++ m ∷ [] })
  safe_send driver_done m d = (some transport_closed, record d { canceled = true })
  safe_send call_done m d = (some context_done, d)

  -- The reply of a procedure: the header, and the results if it still says SUCCESS.
  unfoldable pub reply_bytes : RpcMsg → Bytes → Result Bytes
  reply_bytes rmsg results = do
    header ← put_msg rmsg
    good ← is_success rmsg
    ok (header ++ (if good then results else []))

  -- The deferred function of `doMsg`, behind a panic: SYSTEM_ERR in place of SUCCESS.
  unfoldable pub recovered : RpcMsg → Result RpcMsg
  recovered rmsg = is_success rmsg >>= λ good. if good then set_stat rmsg system_err else ok rmsg

  unfoldable pub run_proc : RpcMsg → Outcome → Result Bytes
  unfolding reply_bytes recovered
  run_proc rmsg (returned results) = reply_bytes rmsg results
  run_proc rmsg panicked = recovered rmsg >>= λ m. reply_bytes m []

  -- The part of `doMsg` for calls, where the reply is sent if the select is `r`.
  unfoldable pub serve : Service → Ready → Bytes → Dispatch → Driver → Result Driver
  unfolding safe_send run_proc
  serve run r peer c d = elim c.rmsg [
    | none ↦ ok d
    | some rmsg ↦ elim c.proc [
      | none ↦ put_msg rmsg >>= λ bs. ok (safe_send r (record { peer = peer; bytes = bs }) d).1
      | some proc ↦ run_proc rmsg (run proc) >>= λ bs.
          ok (safe_send r (record { peer = peer; bytes = bs }) d).1
    ]
  ]

  -- The callback of a reply that was accepted.
  unfoldable pub deliver : Reply → Driver → Result Driver
  deliver r d = deref r.cb >>= λ cb.
      ok (record d { events = d.events ++ record { cb = cb; msg = r.msg } ∷ [] })

  unfoldable pub do_reply :
      Service → Ready → Bytes → RpcMsg → Bytes → Driver → Option Reply × CallSet P → Result Driver
  unfolding serve deliver
  do_reply run r peer msg rest d (some reply, cs) = deliver reply (record d { cs = cs })
  do_reply run r peer msg rest d (none, cs) =
      get_proc d.srv msg (some rest) >>= λ c. serve run r peer c (record d { cs = cs })

  -- `doMsg(m)`, of a message with this peer and these bytes
  unfoldable pub do_msg : Service → Ready → Packet → Driver → Result Driver
  unfolding do_reply
  do_msg run r m d = get_msg m.bytes >>= λ o. elim o [
    | none ↦ ok (record d { canceled = true })
    | some (msg, rest) ↦ get_reply P m.peer msg rest d.cs >>= do_reply run r m.peer msg rest d
  ]

  -- The first half of `SendCall`, to the end of the send; nil arguments of `NewCall` are the XIDs
  -- used up, which its loop would look for without end.
  unfoldable pub start_call :
      Ready
      → Bytes
      → XdrProc
      → Bytes
      → ℕ
      → Driver
      → Option (Result (RpcMsg × (Option CallErr × Driver)))
  unfolding safe_send
  start_call r peer proc args cb d = elim (new_call P peer proc cb d.cs) [
    | none ↦ none
    | some (cmsg, cs) ↦ some (
        put_msg cmsg >>= λ header.
        let m : Packet = record { peer = peer; bytes = header ++ args } in
        let sent = safe_send r m (record d { cs = cs }) in
        ok (
          cmsg,
          elim sent.0 [
            | none ↦ sent
            | some e ↦ (some e, record sent.1 { cs = delete_call P cmsg.xid sent.1.cs })
          ],
        ))
  ]

  -- What the select at the end of `SendCall` finds ready.
  pub data Wait : Type 0 where
    answered : RpcMsg → Wait
    driver_gone : Wait
    caller_gone : Wait

  -- The second half of `SendCall`
  unfoldable pub finish_call : Wait → ℕ → Driver → Result (Option CallErr × Driver)
  finish_call (answered rmsg) xid d =
      is_success rmsg >>= λ good. ok (if good then none else some (failed_reply rmsg), d)
  finish_call driver_gone xid d =
      ok (some transport_closed, record d { cs = delete_call P xid d.cs })
  finish_call caller_gone xid d = ok (some context_done, record d { cs = delete_call P xid d.cs })
