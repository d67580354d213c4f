-- ===== src/Rpc/CallSet.antt =====
-- rpc/util.go, lines 84-199: the pending calls of a client. Every method holds `lock` for its
-- whole body, so a call is one step. A callback is an event: its name and the message it gets.
-- A nil map reads as the empty one, and `NewCall` makes it before it writes. What the code prints
-- on stderr is not modelled.
pub mod Xid
pub mod Invariant
pub mod Pointers
pub mod Remove
pub mod Replies
pub mod CancelAll
use goxdr.Prelude.{
  ℕ, zero, suc, ◌+◌, ◌%◌, ◌^◌, List, [], ◌∷◌, length, Option, none, some, ◌==◌, if◌then◌else◌,
  Bytes, bytes_eq,
}
use goxdr.Prelude.Assoc.{Assoc, lookup, insert, delete}
use goxdr.Xdr.Fault.{Result, ok, throw, other_panic, ◌>>=◌}
use goxdr.Rpc.Header.{call, reply, success, zero_call, zero_msg, cbody, RpcMsg}
use goxdr.Rpc.Status.{canceled, garbage_ret, safe_marshal, set_stat, set_reply_stat, is_success}
use goxdr.Rpc.Call.{XdrProc, PendingCall, CallPool}

-- The loop of `NewCall` over the last XID, a uint32. `none`: the fuel ran out.
unfoldable pub next_xid : ℕ → Assoc ℕ → ℕ → Option ℕ
next_xid zero calls last = none
next_xid (suc f) calls last =
    let xid = (last + 1) % 2 ^ 32 in
    elim (lookup xid calls) [ none ↦ some xid | some p ↦ next_xid f calls xid ]

-- The header that `NewCall` returns.
unfoldable pub call_header : ℕ → XdrProc → RpcMsg
call_header xid proc = record {
  xid = xid;
  body = record {
    mtype = call;
    u =
        cbody
          (record zero_call { rpcvers = 2; prog = proc.prog; vers = proc.vers; proc = proc.proc });
  };
}

pub record Event : Type 0 where
  pub cb : ℕ
  pub msg : RpcMsg

-- What `GetReply` returns, with the message that it may have changed.
pub record Reply : Type 0 where
  pub proc : Option XdrProc
  pub cb : Option ℕ
  pub msg : RpcMsg

-- A nil pointer or function panics when it is used.
unfoldable pub deref {ℓ} : {A : Type ℓ} → Option A → Result A
deref none = throw other_panic
deref (some a) = ok a

-- The status that `Cancel` reports for its optional reason.
unfoldable pub cancel_stat : Option ℕ → ℕ
cancel_stat none = canceled
cancel_stat (some reason) = if reason == success then canceled else reason

-- The status of a reply whose results cannot be read.
unfoldable pub read_results : PendingCall → Bytes → RpcMsg → Result RpcMsg
read_results pc in_bytes rmsg = do
  proc ← deref pc.proc
  r ← safe_marshal (proc.read_res in_bytes)
  elim r [ none ↦ set_reply_stat rmsg garbage_ret | some _ ↦ ok rmsg ]

module _ (P : CallPool) where
  pub record CallSet : Type 0 where
    pub pool : P.State
    pub last_xid : ℕ
    pub calls : Assoc ℕ

  -- `NewCall`, once the XID is found
  unfoldable pub add_call : Bytes → XdrProc → ℕ → CallSet → ℕ → RpcMsg × CallSet
  add_call server proc cb cs xid =
      let (pc, pool) = P.get cs.pool in
      let v = record (P.load pool pc) { proc = some proc; cb = some cb; server = server } in
      (
        call_header xid proc,
        record { pool = P.store pool pc v; last_xid = xid; calls = insert xid pc cs.calls },
      )

  -- `NewCall(server, proc, cb)`, with fuel for one more XID than there are pending calls
  unfoldable pub new_call : Bytes → XdrProc → ℕ → CallSet → Option (RpcMsg × CallSet)
  new_call server proc cb cs = elim (next_xid (suc (length cs.calls)) cs.calls cs.last_xid) [
    | none ↦ none
    | some xid ↦ some (add_call server proc cb cs xid)
  ]

  unfoldable pub recycle_found : Option ℕ → P.State → P.State
  recycle_found none s = s
  recycle_found (some pc) s = P.recycle pc s

  -- `Delete(xid)`
  unfoldable pub delete_call : ℕ → CallSet → CallSet
  delete_call xid cs = record cs {
    pool = recycle_found (lookup xid cs.calls) cs.pool;
    calls = delete xid cs.calls;
  }

  -- `SetStat`, the callback and the recycling of one call
  unfoldable pub fail_call : ℕ → ℕ → ℕ → P.State → Result (Event × P.State)
  fail_call xid stat pc s = do
    rmsg ← set_stat (zero_msg xid) stat
    cb ← deref (P.load s pc).cb
    ok (record { cb = cb; msg = rmsg }, P.recycle pc s)

  unfoldable pub cancel_found : ℕ → ℕ → Option ℕ → CallSet → Result (List Event × CallSet)
  cancel_found xid stat none cs = ok ([], cs)
  cancel_found xid stat (some pc) cs = do
    r ← fail_call xid stat pc cs.pool
    ok (r.0 ∷ [], record cs { pool = r.1; calls = delete xid cs.calls })

  -- `Cancel(xid, reason...)`
  unfoldable pub cancel : ℕ → Option ℕ → CallSet → Result (List Event × CallSet)
  cancel xid reason cs = cancel_found xid (cancel_stat reason) (lookup xid cs.calls) cs

  -- The loop of `CancelAll`, in the order in which the map gives its entries
  unfoldable pub cancel_calls : Assoc ℕ → P.State → Result (List Event × P.State)
  cancel_calls [] s = ok ([], s)
  cancel_calls ((xid, pc) ∷ calls) s = do
    r ← fail_call xid canceled pc s
    q ← cancel_calls calls r.1
    ok (r.0 ∷ q.0, q.1)

  -- `CancelAll()`
  unfoldable pub cancel_all : CallSet → Result (List Event × CallSet)
  cancel_all cs = do
    q ← cancel_calls cs.calls cs.pool
    ok (q.0, record cs { pool = q.1; calls = [] })

  -- `GetReply`, behind the checks
  unfoldable pub accept_reply : ℕ → RpcMsg → Bytes → CallSet → Result (Option Reply × CallSet)
  accept_reply p rmsg in_bytes cs = do
    let pc = P.load cs.pool p
    good ← is_success rmsg
    rmsg' ← (if good then read_results pc in_bytes rmsg else ok rmsg)
    ok (
      some (record { proc = pc.proc; cb = pc.cb; msg = rmsg' }),
      record cs { pool = P.recycle p cs.pool; calls = delete rmsg.xid cs.calls },
    )

  unfoldable pub check_server :
      Bytes → RpcMsg → Bytes → Option ℕ → CallSet → Result (Option Reply × CallSet)
  check_server server rmsg in_bytes none cs = ok (none, cs)
  check_server server rmsg in_bytes (some p) cs =
      if bytes_eq (P.load cs.pool p).server server
      then accept_reply p rmsg in_bytes cs
      else ok (none, cs)

  -- `GetReply(server, rmsg, in)`; `none` where the code returns false
  unfoldable pub get_reply : Bytes → RpcMsg → Bytes → CallSet → Result (Option Reply × CallSet)
  get_reply server rmsg in_bytes cs =
      if rmsg.body.mtype == reply
      then check_server server rmsg in_bytes (lookup rmsg.xid cs.calls) cs
      else ok (none, cs)
