-- ===== src/Rpc/Driver/Calls.antt =====
-- rpc/driver.go: goroutines in SendCall, and those that make their callbacks, one step at a time and
-- in any order. A method of CallSet is one step; the callbacks of Cancel and CancelAll run while
-- they hold the lock, which a step that waits would never release.
pub mod Shares
pub mod Local
pub mod Channels
use goxdr.Prelude.{
  ℕ, zero, suc, ◌<◌, Bool, true, false, ◌||◌, List, [], ◌∷◌, ◌++◌, Option, none, some, length, leb,
  if◌then◌else◌, ◌==◌, ◌≡◌,
}
use goxdr.Prelude.Assoc.{Assoc, lookup, delete}
use goxdr.Xdr.Heap.{update}
use goxdr.Rpc.Header.{RpcMsg}

-- Where in SendCall a goroutine is: before NewCall, in safeSend, at the select, before
-- `r.cs.Delete`, and behind its return, with the message from `c` if it has one.
pub data Pc : Type 0 where
  calling : Pc
  sending : Pc
  waiting : Pc
  deleting : Pc
  returned : Option RpcMsg → Pc

-- A call of SendCall: the XID of `cmsg`, the channel `c` of size one, and how often it was closed.
pub record Caller : Type 0 where
  pub pc : Pc
  pub xid : ℕ
  pub chan : List RpcMsg
  pub closes : ℕ

-- The two statements of the callback.
pub data Stage : Type 0 where
  putting : Stage
  closing : Stage

-- A goroutine in the callback of a caller.
pub record Callback : Type 0 where
  pub caller : ℕ
  pub msg : RpcMsg
  pub stage : Stage

-- The pending calls with their callers, by XID, the callers, and the callbacks that run.
pub record Calls : Type 0 where
  pub pending : Assoc ℕ
  pub callers : ℕ → Caller
  pub flight : List Callback
  pub panicked : Bool

abbrev pub no_caller : Caller
no_caller = record { pc = calling; xid = 0; chan = []; closes = 0 }

abbrev pub init : Calls
init = record { pending = []; callers = λ i. no_caller; flight = []; panicked = false }

abbrev pub put_caller : ℕ → Caller → Calls → Calls
put_caller i c s = record s { callers = update s.callers i c }

pub data Step (s : Calls) : Calls → Type 0 where
  -- `NewCall`, with an XID of no pending call
  new_call :
      (i x : ℕ)
      → (s.callers i).pc ≡ calling
      → lookup x s.pending ≡ none
      → Step s (record s {
        pending = (x, i) ∷ s.pending;
        callers = update s.callers i (record (s.callers i) { pc = sending; xid = x });
      })
  -- `safeSend` returns nil or an error.
  sent :
      (i : ℕ)
      → (s.callers i).pc ≡ sending
      → Step s (put_caller i (record (s.callers i) { pc = waiting }) s)
  unsent :
      (i : ℕ)
      → (s.callers i).pc ≡ sending
      → Step s (put_caller i (record (s.callers i) { pc = deleting }) s)
  -- `case rmsg := <-c`
  answer :
      (i : ℕ) (m : RpcMsg) (rest : List RpcMsg)
      → (s.callers i).pc ≡ waiting
      → (s.callers i).chan ≡ m ∷ rest
      → Step s (put_caller i (record (s.callers i) { pc = returned (some m); chan = rest }) s)
  -- A closed and empty channel gives nil, of which IsSuccess is false, so that SendCall would return it as
  -- an error without a message. This counts as a panic here, as what must not happen.
  nil_answer :
      (i : ℕ)
      → (s.callers i).pc ≡ waiting
      → (s.callers i).chan ≡ []
      → 0 < (s.callers i).closes
      → Step s (record s { panicked = true })
  -- `case <-r.ctx.Done()` and `case <-ctx.Done()`
  interrupt :
      (i : ℕ)
      → (s.callers i).pc ≡ waiting
      → Step s (put_caller i (record (s.callers i) { pc = deleting }) s)
  -- `r.cs.Delete(cmsg.Xid)`, and the return of the error
  delete_call :
      (i : ℕ)
      → (s.callers i).pc ≡ deleting
      → Step s (record s {
        pending = delete (s.callers i).xid s.pending;
        callers = update s.callers i (record (s.callers i) { pc = returned none });
      })
  -- `GetReply`, `Cancel` or `CancelAll` takes a pending call out, and runs its callback with a
  -- message of this XID.
  take_call :
      (i : ℕ) (m : RpcMsg) (before after : Assoc ℕ)
      → s.pending ≡ before ++ (m.xid, i) ∷ after
      → Step s (record s {
        pending = before ++ after;
        flight = record { caller = i; msg = m; stage = putting } ∷ s.flight;
      })
  -- `c <- rmsg`, which waits while the channel is full, and panics if it is closed
  put :
      (i : ℕ) (m : RpcMsg) (before after : List Callback)
      → s.flight ≡ before ++ record { caller = i; msg = m; stage = putting } ∷ after
      → length (s.callers i).chan < 1
      → Step s (record s {
        flight = before ++ record { caller = i; msg = m; stage = closing } ∷ after;
        callers = update s.callers i (record (s.callers i) { chan = (s.callers i).chan ++ m ∷ [] });
        panicked = s.panicked || leb 1 (s.callers i).closes;
      })
  -- `close(c)`, which panics if it is closed
  close :
      (i : ℕ) (m : RpcMsg) (before after : List Callback)
      → s.flight ≡ before ++ record { caller = i; msg = m; stage = closing } ∷ after
      → Step s (record s {
        flight = before ++ after;
        callers = update s.callers i (record (s.callers i) { closes = suc (s.callers i).closes });
        panicked = s.panicked || leb 1 (s.callers i).closes;
      })

pub data Reach : Calls → Type 0 where
  start : Reach init
  later : {s t : Calls} → Reach s → Step s t → Reach t
