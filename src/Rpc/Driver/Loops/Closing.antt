-- ===== src/Rpc/Driver/Loops/Closing.antt =====
-- What is closed when a goroutine of the driver has returned, and that nothing is closed twice.
use goxdr.Prelude.{true, false, ◌≡◌, arith}
use goxdr.Rpc.Driver.Loops.{
  Reader, receiving, offering, quitting, quit, stopped, Sender, selecting, sending, returned,
  Watcher, waiting, closed, gone, Main, idle, looping, leaving, canceling, finished, Loops, Regime,
  Move, Event, Reach, receive_fails, enqueue, abandon, close_in, close_conn, take_out, send_fails,
  stop_sender, watch, close_out, dispatch, drained, leave, close_driver, cancel_all, accept, refuse,
  message, connection_lost, delivered, undelivered, offer, withdraw, handled, cancel, go, start,
  own, outside,
}

-- The channel `in` is closed exactly when ReceiveChan is behind `close(c)`; when it has returned, so
-- is the transport.
abbrev pub ReaderCloses : Reader → Loops → Type 0
ReaderCloses receiving s = s.in_closed ≡ false
ReaderCloses (offering m) s = s.in_closed ≡ false
ReaderCloses quitting s = s.in_closed ≡ false
ReaderCloses quit s = s.in_closed ≡ true
ReaderCloses stopped s = (s.in_closed ≡ true) × (s.conn_closed ≡ true)

-- The channel of SendChan is closed exactly when the goroutine of NewDriver has returned, and the
-- transport before it.
abbrev pub WatcherCloses : Watcher → Loops → Type 0
WatcherCloses waiting s = s.out_closed ≡ false
WatcherCloses closed s = (s.out_closed ≡ false) × (s.conn_closed ≡ true) × (s.done ≡ true)
WatcherCloses gone s = (s.out_closed ≡ true) × (s.conn_closed ≡ true) × (s.done ≡ true)

abbrev pub SenderCloses : Sender → Loops → Type 0
SenderCloses selecting s = Unit
SenderCloses (sending m) s = Unit
SenderCloses returned s = (s.out_closed ≡ true) × (s.conn_closed ≡ true)

-- The context is done behind the deferred `r.Close()` of doMsgs.
abbrev pub MainCloses : Main → Loops → Type 0
MainCloses idle s = Unit
MainCloses looping s = Unit
MainCloses leaving s = s.done ≡ true
MainCloses canceling s = s.done ≡ true
MainCloses finished s = s.done ≡ true

pub record Closes (s : Loops) : Type 0 where
  pub by_reader : ReaderCloses s.reader s
  pub by_watcher : WatcherCloses s.watcher s
  pub by_sender : SenderCloses s.sender s
  pub by_main : MainCloses s.main s
  pub no_panic : s.panicked ≡ false

Move-Closes : {g : Regime} {s t : Loops} → Move g s t → Closes s → Closes t
Move-Closes (receive_fails e c) v = ground arith
Move-Closes (enqueue m e h) v = ground arith
Move-Closes (abandon m e d) v = ground arith
Move-Closes (close_in e) v = ground arith
Move-Closes (close_conn e) v = ground arith
Move-Closes (take_out m rest e o) v = ground arith
Move-Closes (send_fails m e c) v = ground arith
Move-Closes (stop_sender e c) v = ground arith
Move-Closes (watch e d) v = ground arith
Move-Closes (close_out e) v = ground arith
Move-Closes (dispatch m rest e q) v = ground arith
Move-Closes (drained e q c) v = ground arith
Move-Closes (leave e d) v = ground arith
Move-Closes (close_driver e) v = ground arith
Move-Closes (cancel_all e) v = ground arith
Move-Closes (accept m before after e h) v = ground arith
Move-Closes (refuse m before after e d) v = ground arith

Event-Closes : {s t : Loops} → Event s t → Closes s → Closes t
Event-Closes (message m e c) v = ground arith
Event-Closes (connection_lost e) v = ground arith
Event-Closes (delivered m e c) v = ground arith
Event-Closes (undelivered m e) v = ground arith
Event-Closes (offer m) v = ground arith
Event-Closes (withdraw m before after e) v = ground arith
Event-Closes (handled m before after e) v = ground arith
Event-Closes cancel v = ground arith
Event-Closes (go e) v = ground arith

-- In every state that a driver can reach, no closed channel was closed again; the channel `in` is
-- closed if and only if ReceiveChan has closed it, and the channel of SendChan only after the
-- transport and the end of the context; a goroutine that has returned has closed the transport, and
-- doMsgs has ended the context.
pub Reach-Closes : {g : Regime} {s : Loops} → Reach g s → Closes s
Reach-Closes start = ground arith
Reach-Closes (own r mv) = Move-Closes mv (Reach-Closes r)
Reach-Closes (outside r ev) = Event-Closes ev (Reach-Closes r)
