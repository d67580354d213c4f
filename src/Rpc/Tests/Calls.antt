-- ===== src/Rpc/Tests/Calls.antt =====
-- Calls, over an arena of one call.
use goxdr.Prelude.{ℕ, true, false, [], ◌∷◌, none, some, ◌≡◌, refl, ap, arith, inl, inr, List}
use goxdr.Prelude.Assoc.{lookup, insert, delete}
use goxdr.Xdr.Fault.{ok}
use goxdr.Xdr.Heap.{Heap}
use goxdr.Xdr.Arena.{new_arena}
use goxdr.Xdr.Arena.Ownership.{new_arena-Owns}
use goxdr.Rpc.Header.{RpcMsg, zero_msg, reply}
use goxdr.Rpc.Status.{is_success}
use goxdr.Rpc.Call.{XdrProc, PendingCall, no_call, reset_call, call_arena}
use goxdr.Rpc.CallSet.{CallSet, Event, add_call, delete_call, cancel, cancel_all, get_reply}
use goxdr.Rpc.CallSet.Pointers.{pointers}
use goxdr.Rpc.CallSet.Invariant.{IsValid, NewCallDone, new_call_lem, add_call-IsValid, pending}
use goxdr.Rpc.CallSet.Remove.{Removes, delete_call-Removes, cancel_pending}
use goxdr.Rpc.CallSet.CancelAll.{Answers, cancel_all_lem}
use goxdr.Rpc.CallSet.Replies.{Delivered, get_reply_accepted, get_reply_refused}

abbrev heap : Heap PendingCall
heap = record { cell = λ p. no_call; next = 8 }

-- Its procedure reads anything.
abbrev pub ping : XdrProc
ping = record {
  prog = 7;
  vers = 1;
  proc = 2;
  read_arg = λ s. ok (tt, s);
  read_res = λ s. ok (tt, s);
}

abbrev pub no_calls : CallSet call_arena
no_calls = record { pool = new_arena no_call reset_call 16 1 heap; last_xid = 4; calls = [] }

pub no_calls-IsValid : IsValid call_arena no_calls
unfolding lookup pointers
no_calls-IsValid = record {
  distinct = tt;
  held = new_arena-Owns no_call reset_call 16 1 heap (omega arith) (omega arith);
  filled = λ xid p e. absurd cc;
  word = λ xid p e. absurd cc;
}

new_call_example : NewCallDone call_arena (9 ∷ []) ping 3 no_calls
new_call_example = new_call_lem call_arena (9 ∷ []) ping 3 no_calls no_calls-IsValid (omega arith)

-- The call with the XID 5.
abbrev pub one_call : CallSet call_arena
one_call = (add_call call_arena (9 ∷ []) ping 3 no_calls 5).1

pub one_call-IsValid : IsValid call_arena one_call
unfolding lookup
one_call-IsValid =
    add_call-IsValid call_arena (9 ∷ []) ping 3 5 no_calls no_calls-IsValid refl (omega arith)

-- Where the call is.
abbrev pub place : ℕ
place = (call_arena.get no_calls.pool).0

pub one_call-place : lookup 5 one_call.calls ≡ some place
unfolding add_call lookup insert
one_call-place = refl

pub one_call-load :
    call_arena.load one_call.pool place ≡ record { proc = some ping; cb = some 3; server = 9 ∷ [] }
unfolding add_call
one_call-load =
    call_arena.load_store_self (call_arena.get no_calls.pool).1 place
      (record { proc = some ping; cb = some 3; server = 9 ∷ [] })

delete_call-Removes_example : Removes call_arena 5 one_call (delete_call call_arena 5 one_call)
delete_call-Removes_example = delete_call-Removes call_arena 5 one_call one_call-IsValid

cancel_pending_example :
    (ev : Event) × (cs' : CallSet call_arena) × (cancel call_arena 5 none one_call
      ≡ ok (ev ∷ [], cs'))
    × ((call_arena.load one_call.pool place).cb ≡ some ev.cb)
    × (ev.msg.xid ≡ 5)
    × (is_success ev.msg ≡ ok false)
    × Removes call_arena 5 one_call cs'
cancel_pending_example =
    cancel_pending call_arena 5 place none one_call one_call-IsValid one_call-place

cancel_all_example :
    (evs : List Event) × (cs' : CallSet call_arena) × (cancel_all call_arena one_call
      ≡ ok (evs, cs'))
    × Answers call_arena one_call.pool one_call.calls evs
    × IsValid call_arena cs'
    × ((xid : ℕ) → pending call_arena cs' xid ≡ none)
cancel_all_example = cancel_all_lem call_arena one_call one_call-IsValid

-- A reply to that call.
abbrev answer : RpcMsg
answer = record (zero_msg 5) { body = record { mtype = reply; u = (zero_msg 5).body.u } }

get_reply_accepted_example :
    (msg : RpcMsg) × (cs' : CallSet call_arena) × (get_reply call_arena
        (9 ∷ [])
        answer
        (1 ∷ [])
        one_call
      ≡ ok (
        some
            (record { proc = some ping; cb = (call_arena.load one_call.pool place).cb; msg = msg }),
        cs',
      ))
    × Delivered call_arena answer msg true
    × Removes call_arena 5 one_call cs'
get_reply_accepted_example =
    get_reply_accepted call_arena (9 ∷ []) answer (1 ∷ []) one_call place ping one_call-IsValid refl
      one_call-place (ap {A = PendingCall} (λ pc. pc.server) one_call-load)
      (ap {A = PendingCall} (λ pc. pc.proc) one_call-load)

get_reply_refused_example :
    get_reply call_arena (9 ∷ []) (record answer { xid = 6 }) (1 ∷ []) one_call
    ≡ ok (none, one_call)
unfolding lookup add_call insert delete
get_reply_refused_example =
    get_reply_refused call_arena (9 ∷ []) (record answer { xid = 6 }) (1 ∷ []) one_call
      (inr (inl refl))
