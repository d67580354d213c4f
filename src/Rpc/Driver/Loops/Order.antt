-- ===== src/Rpc/Driver/Loops/Order.antt =====
-- Messages keep their order on their way through the queues, and none is lost or doubled.
use goxdr.Prelude.{
  ℕ, ◌≤◌, List, [], ◌∷◌, ◌++◌, length, length-append, append_assoc, append-nil, ◌≡◌, arith,
}
use goxdr.Rpc.Driver.Loops.{
  Reader, receiving, offering, quitting, quit, stopped, Sender, selecting, sending, returned, Loops,
  Regime, Move, Event, Reach, receive_fails, enqueue, abandon, close_in, close_conn, take_out,
  send_fails, stop_sender, watch, close_out, dispatch, drained, leave, close_driver, cancel_all,
  accept, refuse, message, connection_lost, delivered, undelivered, offer, withdraw, handled,
  cancel, go, start, own, outside,
}

-- The message at the select of ReceiveChan, and the one in Send.
abbrev pub offered : Reader → List ℕ
offered receiving = []
offered (offering m) = m ∷ []
offered quitting = []
offered quit = []
offered stopped = []

abbrev pub in_send : Sender → List ℕ
in_send selecting = []
in_send (sending m) = m ∷ []
in_send returned = []

-- ReceiveChan recycles nothing before it stops.
abbrev Keeps : Reader → List ℕ → Type 0
Keeps receiving l = l ≡ []
Keeps (offering m) l = l ≡ []
Keeps quitting l = Unit
Keeps quit l = Unit
Keeps stopped l = Unit

record InOrder (g : Regime) (s : Loops) : Type 0 where
  keeps : Keeps s.reader s.dropped
  few : length s.dropped ≤ 1
  inward : s.received ≡ s.dispatched ++ (s.queue ++ (offered s.reader ++ s.dropped))
  outward : s.accepted ≡ s.sent ++ (in_send s.sender ++ s.out)
  short_in : length s.queue ≤ g.recv_queue_len
  short_out : length s.out ≤ g.send_queue_len

Move-InOrder : {g : Regime} {s t : Loops} → Move g s t → InOrder g s → InOrder g t
Move-InOrder (receive_fails e c) v = ground arith
Move-InOrder {s} (enqueue m e h) v =
    ground (arith, append_assoc s.queue (m ∷ []) s.dropped, length-append s.queue (m ∷ []))
Move-InOrder {s} (abandon m e d) v = ground arith
Move-InOrder (close_in e) v = ground arith
Move-InOrder (close_conn e) v = ground arith
Move-InOrder (take_out m rest e o) v = ground arith
Move-InOrder {s} (send_fails m e c) v = ground (arith, append_assoc s.sent (m ∷ []) s.out)
Move-InOrder (stop_sender e c) v = ground arith
Move-InOrder (watch e d) v = ground arith
Move-InOrder (close_out e) v = ground arith
Move-InOrder {s} (dispatch m rest e q) v =
    ground (arith, append_assoc s.dispatched (m ∷ []) (rest ++ (offered s.reader ++ s.dropped)))
Move-InOrder (drained e q c) v = ground arith
Move-InOrder (leave e d) v = ground arith
Move-InOrder (close_driver e) v = ground arith
Move-InOrder (cancel_all e) v = ground arith
Move-InOrder {s} (accept m before after e h) v = ground (
  arith,
  append_assoc s.sent (in_send s.sender ++ s.out) (m ∷ []),
  append_assoc (in_send s.sender) s.out (m ∷ []),
  length-append s.out (m ∷ []),
)
Move-InOrder (refuse m before after e d) v = ground arith

Event-InOrder : {g : Regime} {s t : Loops} → Event s t → InOrder g s → InOrder g t
Event-InOrder {s} (message m e c) v =
    ground (arith, append_assoc s.dispatched s.queue (m ∷ []), append-nil s.queue)
Event-InOrder (connection_lost e) v = ground arith
Event-InOrder {s} (delivered m e c) v = ground (arith, append_assoc s.sent (m ∷ []) s.out)
Event-InOrder {s} (undelivered m e) v = ground (arith, append_assoc s.sent (m ∷ []) s.out)
Event-InOrder (offer m) v = ground arith
Event-InOrder (withdraw m before after e) v = ground arith
Event-InOrder (handled m before after e) v = ground arith
Event-InOrder cancel v = ground arith
Event-InOrder (go e) v = ground arith

Reach-InOrder : {g : Regime} {s : Loops} → Reach g s → InOrder g s
Reach-InOrder start = ground arith
Reach-InOrder (own r mv) = Move-InOrder mv (Reach-InOrder r)
Reach-InOrder (outside r ev) = Event-InOrder ev (Reach-InOrder r)

-- In every state that a driver can reach, the messages that Receive returned are, in their order, those
-- passed to doMsg, those queued, and at most one that ReceiveChan holds or recycled; the messages
-- that safeSend accepted are, in their order, those passed to Send, the one in Send and those
-- queued; and the queues are no longer than their sizes.
pub messages_in_order :
    {g : Regime} {s : Loops}
    → Reach g s
    → (s.received ≡ s.dispatched ++ (s.queue ++ (offered s.reader ++ s.dropped)))
      × (length (offered s.reader ++ s.dropped) ≤ 1)
      × (s.accepted ≡ s.sent ++ (in_send s.sender ++ s.out))
      × (length s.queue ≤ g.recv_queue_len)
      × (length s.out ≤ g.send_queue_len)
messages_in_order {s} r =
    let v = Reach-InOrder r in
    (v.inward, held s.reader s.dropped v.keeps v.few, v.outward, v.short_in, v.short_out)
  where
    held : (rd : Reader) (l : List ℕ) → Keeps rd l → length l ≤ 1 → length (offered rd ++ l) ≤ 1
    held receiving l k h = h
    held (offering m) l k h = rw k (omega arith)
    held quitting l k h = h
    held quit l k h = h
    held stopped l k h = h
