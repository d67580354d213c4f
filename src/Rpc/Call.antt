-- ===== src/Rpc/Call.antt =====
-- A procedure as rpc sees it (the interface `XdrProc` of cmd/goxdr/header.go.in, which generated
-- code implements), and a pending call of rpc/util.go.
use goxdr.Prelude.{ℕ, [], Bytes, Option, none, refl}
use goxdr.Xdr.Codec.{Reader}
use goxdr.Xdr.ObjectPool.{ObjectPool}
use goxdr.Xdr.ObjectPool.Instances.{arena_pool, sync_pool}

-- `read_arg` and `read_res` unmarshal into what `GetArg()` and `GetRes()` return.
pub record XdrProc : Type 0 where
  pub prog : ℕ
  pub vers : ℕ
  pub proc : ℕ
  pub read_arg : Reader Unit
  pub read_res : Reader Unit

-- A callback is named by a number; nil is `none`.
pub record PendingCall : Type 0 where
  pub proc : Option XdrProc
  pub cb : Option ℕ
  pub server : Bytes

-- `PendingCall{}`
abbrev pub no_call : PendingCall
no_call = record { proc = none; cb = none; server = [] }

-- The reset function of NewCallArena and NewCallPool: `*p = PendingCall{}`
abbrev pub reset_call : PendingCall → PendingCall
reset_call p = no_call

-- The interface `CallPool`
abbrev pub CallPool : Type 1
CallPool = ObjectPool PendingCall no_call

-- `NewCallArena`; the arena itself is a state of this pool
abbrev pub call_arena : CallPool
call_arena = arena_pool no_call reset_call no_call (λ t. refl)

-- `NewCallPool`, over the choices of sync.Pool and the size of a `PendingCall`
abbrev pub call_pool : (ℕ → Option ℕ) → ℕ → CallPool
call_pool = sync_pool no_call reset_call no_call (λ t. refl)
