-- ===== src/Rpc/Driver/Loops.antt =====
-- rpc/driver.go: the goroutines of one driver and their channels, one step at a time and in any
-- order: ReceiveChan, SendChan, the goroutine of NewDriver, doMsgs, and the senders in safeSend.
pub mod Order
pub mod Closing
pub mod Shutdown
use goxdr.Prelude.{ℕ, ◌<◌, Bool, true, false, ◌||◌, List, [], ◌∷◌, ◌++◌, length, ◌≡◌}

-- Where the goroutine of ReceiveChan is: in Receive, at its select with a message, and at the two
-- calls before its return, which close the channel and the transport.
pub data Reader : Type 0 where
  receiving : Reader
  offering : ℕ → Reader
  quitting : Reader
  quit : Reader
  stopped : Reader

-- The goroutine of SendChan: at its select, in Send, and returned.
pub data Sender : Type 0 where
  selecting : Sender
  sending : ℕ → Sender
  returned : Sender

-- The goroutine of NewDriver: before `<-ctx.Done()`, behind `t.Close()`, and returned.
pub data Watcher : Type 0 where
  waiting : Watcher
  closed : Watcher
  gone : Watcher

-- `Go` and `doMsgs`: before Go, in the loop, at the two calls of the deferred function, returned.
pub data Main : Type 0 where
  idle : Main
  looping : Main
  leaving : Main
  canceling : Main
  finished : Main

-- A driver. Messages are named by numbers. The channels `in` and `out` are queues, and the close of
-- a closed channel is a panic. The last five fields record what has happened.
pub record Loops : Type 0 where
  pub done : Bool
  pub conn_closed : Bool
  pub reader : Reader
  pub queue : List ℕ
  pub in_closed : Bool
  pub main : Main
  pub workers : List ℕ
  pub senders : List ℕ
  pub out : List ℕ
  pub out_closed : Bool
  pub sender : Sender
  pub watcher : Watcher
  pub panicked : Bool
  -- returned by Receive, passed to doMsg, and recycled by ReceiveChan
  pub received : List ℕ
  pub dispatched : List ℕ
  pub dropped : List ℕ
  -- put into `out`, and passed to Send
  pub accepted : List ℕ
  pub sent : List ℕ

-- What NewDriver returns
abbrev pub new_driver : Loops
new_driver = record {
  done = false;
  conn_closed = false;
  reader = receiving;
  queue = [];
  in_closed = false;
  main = idle;
  workers = [];
  senders = [];
  out = [];
  out_closed = false;
  sender = selecting;
  watcher = waiting;
  panicked = false;
  received = [];
  dispatched = [];
  dropped = [];
  accepted = [];
  sent = [];
}

-- The sizes of the two queues, `DriverRegime`.
pub record Regime : Type 0 where
  pub recv_queue_len : ℕ
  pub send_queue_len : ℕ

abbrev pub default_regime : Regime
default_regime = record { recv_queue_len = 10; send_queue_len = 10 }

-- What the driver's goroutines do by themselves.
pub data Move (g : Regime) (s : Loops) : Loops → Type 0 where
  -- Receive fails on a closed transport.
  receive_fails :
      s.reader ≡ receiving → s.conn_closed ≡ true → Move g s (record s { reader = quitting })
  -- `case c <- m`
  enqueue :
      (m : ℕ)
      → s.reader ≡ offering m
      → length s.queue < g.recv_queue_len
      → Move g s (record s { reader = receiving; queue = s.queue ++ m ∷ [] })
  -- `case <-ctx.Done()`: the message is recycled.
  abandon :
      (m : ℕ)
      → s.reader ≡ offering m
      → s.done ≡ true
      → Move g s (record s { reader = quitting; dropped = s.dropped ++ m ∷ [] })
  close_in :
      s.reader ≡ quitting
      → Move g s
          (record s { reader = quit; in_closed = true; panicked = s.panicked || s.in_closed })
  close_conn : s.reader ≡ quit → Move g s (record s { reader = stopped; conn_closed = true })
  -- `case m, ok := <-ch`
  take_out :
      (m : ℕ) (rest : List ℕ)
      → s.sender ≡ selecting
      → s.out ≡ m ∷ rest
      → Move g s (record s { sender = sending m; out = rest })
  -- Send fails on a closed transport, and the loop goes on.
  send_fails :
      (m : ℕ)
      → s.sender ≡ sending m
      → s.conn_closed ≡ true
      → Move g s (record s { sender = selecting; sent = s.sent ++ m ∷ [] })
  -- `case <-cancel`
  stop_sender :
      s.sender ≡ selecting
      → s.out_closed ≡ true
      → Move g s (record s { sender = returned; conn_closed = true })
  watch :
      s.watcher ≡ waiting
      → s.done ≡ true
      → Move g s (record s { watcher = closed; conn_closed = true })
  close_out :
      s.watcher ≡ closed
      → Move g s
          (record s { watcher = gone; out_closed = true; panicked = s.panicked || s.out_closed })
  -- doMsgs: a message, the closed and empty channel, and the end of the context
  dispatch :
      (m : ℕ) (rest : List ℕ)
      → s.main ≡ looping
      → s.queue ≡ m ∷ rest
      → Move g s (record s {
        queue = rest;
        workers = s.workers ++ m ∷ [];
        dispatched = s.dispatched ++ m ∷ [];
      })
  drained :
      s.main ≡ looping → s.queue ≡ [] → s.in_closed ≡ true → Move g s (record s { done = true })
  leave : s.main ≡ looping → s.done ≡ true → Move g s (record s { main = leaving })
  close_driver : s.main ≡ leaving → Move g s (record s { main = canceling; done = true })
  cancel_all : s.main ≡ canceling → Move g s (record s { main = finished })
  -- safeSend: `case r.out <- m` and `case <-driverCtx.Done()`
  accept :
      (m : ℕ) (before after : List ℕ)
      → s.senders ≡ before ++ m ∷ after
      → length s.out < g.send_queue_len
      → Move g s (record s {
        senders = before ++ after;
        out = s.out ++ m ∷ [];
        accepted = s.accepted ++ m ∷ [];
      })
  refuse :
      (m : ℕ) (before after : List ℕ)
      → s.senders ≡ before ++ m ∷ after
      → s.done ≡ true
      → Move g s (record s { senders = before ++ after; done = true })

-- What comes from outside: the connection, the callers and the handlers of messages.
pub data Event (s : Loops) : Loops → Type 0 where
  message :
      (m : ℕ)
      → s.reader ≡ receiving
      → s.conn_closed ≡ false
      → Event s (record s { reader = offering m; received = s.received ++ m ∷ [] })
  connection_lost : s.reader ≡ receiving → Event s (record s { reader = quitting })
  delivered :
      (m : ℕ)
      → s.sender ≡ sending m
      → s.conn_closed ≡ false
      → Event s (record s { sender = selecting; sent = s.sent ++ m ∷ [] })
  -- A failed Send closes the transport.
  undelivered :
      (m : ℕ)
      → s.sender ≡ sending m
      → Event s (record s { sender = selecting; conn_closed = true; sent = s.sent ++ m ∷ [] })
  -- A caller or a handler enters safeSend, and leaves it when its own context is done.
  offer : (m : ℕ) → Event s (record s { senders = s.senders ++ m ∷ [] })
  withdraw :
      (m : ℕ) (before after : List ℕ)
      → s.senders ≡ before ++ m ∷ after
      → Event s (record s { senders = before ++ after })
  -- A handler returns.
  handled :
      (m : ℕ) (before after : List ℕ)
      → s.workers ≡ before ++ m ∷ after
      → Event s (record s { workers = before ++ after })
  -- Close, a context that is done, and the message that GetMsg does not read
  cancel : Event s (record s { done = true })
  go : s.main ≡ idle → Event s (record s { main = looping })

pub data Reach (g : Regime) : Loops → Type 0 where
  start : Reach g new_driver
  own : {s t : Loops} → Reach g s → Move g s t → Reach g t
  outside : {s t : Loops} → Reach g s → Event s t → Reach g t

-- A run of the driver's own goroutines.
pub data Moves (g : Regime) (s : Loops) : Loops → Type 0 where
  none : Moves g s s
  more : {t u : Loops} → Moves g s t → Move g t u → Moves g s u
