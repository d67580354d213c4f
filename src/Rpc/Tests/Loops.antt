-- ===== src/Rpc/Tests/Loops.antt =====
-- A run of a driver's goroutines.
use goxdr.Prelude.{ℕ, ◌≤◌, true, false, List, [], ◌∷◌, ◌++◌, length, ◌⊎◌, ◌≡◌, refl, arith}
use goxdr.Rpc.Driver.Loops.{
  stopped, returned, gone, idle, finished, looping, offering, sending, Loops, Reach, Moves,
  new_driver, default_regime, start, own, outside, message, enqueue, go, dispatch, offer, accept,
  take_out, cancel,
}
use goxdr.Rpc.Driver.Loops.Order.{offered, in_send, messages_in_order}
use goxdr.Rpc.Driver.Loops.Closing.{Closes, Reach-Closes}
use goxdr.Rpc.Driver.Loops.Shutdown.{shutdown_possible}

-- Two messages arrive, the first of them is passed to doMsg, a reply is on its way, another waits in
-- safeSend, and the context is done.
abbrev busy : Loops
busy = record new_driver {
  done = true;
  reader = offering 2;
  main = looping;
  workers = 1 ∷ [];
  senders = 8 ∷ [];
  sender = sending 7;
  received = 1 ∷ 2 ∷ [];
  dispatched = 1 ∷ [];
  accepted = 7 ∷ [];
}

busy-Reach : Reach default_regime busy
busy-Reach =
    outside
      (outside
        (own
          (own
            (outside
              (own
                (outside
                  (own (outside (outside start (go refl)) (message 1 refl refl))
                    (enqueue 1 refl (omega arith)))
                  (message 2 refl refl))
                (dispatch 1 [] refl refl))
              (offer 7))
            (accept 7 [] [] refl (omega arith)))
          (take_out 7 [] refl refl))
        (offer 8))
      cancel

messages_in_order_example :
    (◌≡◌ {A = List ℕ} (1 ∷ 2 ∷ []) (1 ∷ 2 ∷ []))
    × (length (offered busy.reader ++ busy.dropped) ≤ 1)
    × (busy.accepted ≡ busy.sent ++ (in_send busy.sender ++ busy.out))
    × (length busy.queue ≤ 10)
    × (length busy.out ≤ 10)
messages_in_order_example = messages_in_order busy-Reach

Reach-Closes_example : Closes busy
Reach-Closes_example = Reach-Closes busy-Reach

shutdown_possible_example :
    (t : Loops) × Moves default_regime busy t
    × (t.reader ≡ stopped)
    × (t.sender ≡ returned)
    × (t.watcher ≡ gone)
    × ((t.main ≡ idle) ⊎ (t.main ≡ finished))
    × (t.senders ≡ [])
    × ((t.in_closed ≡ true) × (t.out_closed ≡ true) × (t.conn_closed ≡ true))
    × (t.panicked ≡ false)
shutdown_possible_example = shutdown_possible busy-Reach refl
