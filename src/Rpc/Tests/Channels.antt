-- ===== src/Rpc/Tests/Channels.antt =====
-- A run of two calls.
use goxdr.Prelude.{ℕ, ◌+◌, ◌≤◌, false, List, [], ◌∷◌, some, length, All, ◌≡◌, ◌≢◌, refl, arith}
use goxdr.Prelude.Assoc.{lookup}
use goxdr.Xdr.Heap.{update}
use goxdr.Rpc.Header.{RpcMsg}
use goxdr.Rpc.Driver.Calls.{
  Pc, sending, waiting, returned, putting, closing, Caller, Calls, init, Reach, new_call, sent,
  answer, take_call, put, start, later,
}
use goxdr.Rpc.Driver.Calls.Shares.{puts_of}
use goxdr.Rpc.Driver.Calls.Local.{answers}
use goxdr.Rpc.Driver.Calls.Channels.{callback_ready, returned_lem}
use goxdr.Rpc.Tests.Traces.{reply_msg}

-- A caller in its stages: with the XID 5, and with the reply taken from its channel.
abbrev at_stage : Pc → List RpcMsg → ℕ → Caller
at_stage pc chan closes = record { pc = pc; xid = 5; chan = chan; closes = closes }

-- The caller waits, and the callback of its reply is about to send.
abbrev replying : Calls
replying = record {
  pending = [];
  callers = update (update init.callers 0 (at_stage sending [] 0)) 0 (at_stage waiting [] 0);
  flight = record { caller = 0; msg = reply_msg; stage = putting } ∷ [];
  panicked = false;
}

replying-Reach : Reach replying
unfolding lookup
replying-Reach =
    later (later (later start (new_call 0 5 refl refl)) (sent 0 refl))
      (take_call 0 reply_msg [] [] refl)

-- The reply is sent and received, and the channel not closed yet.
abbrev answered : Calls
answered = record {
  pending = [];
  callers =
      update (update replying.callers 0 (at_stage waiting (reply_msg ∷ []) 0)) 0
        (at_stage (returned (some reply_msg)) [] 0);
  flight = record { caller = 0; msg = reply_msg; stage = closing } ∷ [];
  panicked = false;
}

answered-Reach : Reach answered
answered-Reach =
    later (later replying-Reach (put 0 reply_msg [] [] refl (omega arith)))
      (answer 0 reply_msg [] refl refl)

callback_ready_example :
    (replying.panicked ≡ false)
    × ((replying.callers 0).chan ≡ [])
    × ((replying.callers 0).closes ≡ 0)
    × (reply_msg.xid ≡ 5)
callback_ready_example = callback_ready 0 reply_msg [] [] replying-Reach refl

returned_lem_example :
    ((x : ℕ) → lookup x answered.pending ≢ some 0)
    × All (λ m. m.xid ≡ 5) (answers (returned (some reply_msg)))
    × (length (puts_of 0 answered.flight) + length (answered.callers 0).chan + 1 ≤ 1)
returned_lem_example = returned_lem 0 (some reply_msg) answered-Reach refl
