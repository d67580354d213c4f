-- ===== src/Rpc/Message.antt =====
-- rpc/msg.go and rpc/msgpool.go: messages, their pools and their reports.
pub mod Laws
use goxdr.Prelude.{
  ℕ, ◌+◌, ◌-◌, ◌≤◌, List, [], ◌∷◌, ◌++◌, Option, none, some, length, leb, if◌then◌else◌, Bytes,
  refl,
}
use goxdr.Xdr.Codec.{uint32}
use goxdr.Xdr.ObjectPool.{ObjectPool}
use goxdr.Xdr.ObjectPool.Instances.{arena_pool, sync_pool}

-- `Message`, with the unread bytes of its Buffer. Times and durations are nanoseconds; a report
-- function is named by a number. The field `pool` is left out: a message stays in one pool.
pub record Message : Type 0 where
  pub buffer : Bytes
  pub peer : Bytes
  pub entered_queue : ℕ
  pub io_latency : ℕ
  pub queue_latency : ℕ
  pub serde_latency : ℕ
  pub report : Option ℕ

abbrev pub empty_message : Message
empty_message = record {
  buffer = [];
  peer = [];
  entered_queue = 0;
  io_latency = 0;
  queue_latency = 0;
  serde_latency = 0;
  report = none;
}

-- The reset function of NewMsgArena and NewMsgPool; every field is assigned.
abbrev pub reset_message : Message → Message
reset_message m = record m {
  buffer = [];
  peer = [];
  entered_queue = 0;
  io_latency = 0;
  queue_latency = 0;
  serde_latency = 0;
  report = none;
}

-- The allocator behind the interface `MessagePool`
abbrev pub MessagePool : Type 1
MessagePool = ObjectPool Message empty_message

-- `NewMsgArena`
abbrev pub msg_arena : MessagePool
msg_arena = arena_pool empty_message reset_message empty_message (λ t. refl)

-- `NewMsgPool`
abbrev pub msg_pool : (ℕ → Option ℕ) → ℕ → MessagePool
msg_pool = sync_pool empty_message reset_message empty_message (λ t. refl)

-- `Xid`
unfoldable pub xid : Message → ℕ
xid m = if leb 4 (length m.buffer) then uint32 m.buffer else 0

-- `Serialize`, of what the values write, between two readings of the clock
unfoldable pub serialize : Bytes → ℕ → ℕ → Message → Message
serialize out t0 t1 m = record m { buffer = m.buffer ++ out; serde_latency = t1 - t0 }

abbrev pub set_report : Option ℕ → Message → Message
set_report r m = record m { report = r }

abbrev pub cancel_report : Message → Message
cancel_report m = record m { report = none }

abbrev pub set_io_latency : ℕ → Message → Message
set_io_latency l m = record m { io_latency = l }

abbrev pub set_serde_latency : ℕ → Message → Message
set_serde_latency l m = record m { serde_latency = l }

abbrev pub entering_queue : ℕ → Message → Message
entering_queue now m = record m { entered_queue = now }

abbrev pub leaving_queue : ℕ → Message → Message
leaving_queue now m = record m { queue_latency = now - m.entered_queue }

-- A call of a report function, with the latencies.
pub record Reported : Type 0 where
  pub report : ℕ
  pub io_latency : ℕ
  pub queue_latency : ℕ
  pub serde_latency : ℕ

unfoldable pub report_to : Message → Option ℕ → List Reported
report_to m none = []
report_to m (some r) =
    record {
      report = r;
      io_latency = m.io_latency;
      queue_latency = m.queue_latency;
      serde_latency = m.serde_latency;
    }
    ∷ []

module _ (P : MessagePool) where
  -- `NewMessage`
  unfoldable pub new_message : Bytes → P.State → ℕ × P.State
  new_message peer s =
      let (p, s1) = P.get s in (p, P.store s1 p (record (P.load s1 p) { peer = peer }))

  -- A method of `*Message` that changes its message.
  unfoldable pub modify : (Message → Message) → ℕ → P.State → P.State
  modify f p s = P.store s p (f (P.load s p))

  -- `(*Message).Recycle`: the report, then the pool's
  unfoldable pub recycle : ℕ → P.State → List Reported × P.State
  unfolding report_to
  recycle p s = (report_to (P.load s p) (P.load s p).report, P.recycle p s)
