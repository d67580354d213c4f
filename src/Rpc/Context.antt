-- ===== src/Rpc/Context.antt =====
-- rpc/driver.go: the peer of a context, and the lock that a server call holds until it replies or
-- detaches itself.
pub mod Laws
use goxdr.Prelude.{
  ℕ, suc, ◌+◌, Bool, true, false, List, [], ◌∷◌, Option, none, some, if◌then◌else◌, Bytes, bytes_eq,
}

-- The values under `ctxKey`: `peerCtx`, and `srvCtx` with its function `unlock`, named by a number.
pub data PeerCtxVal : Type 0 where
  peer_ctx : Bytes → PeerCtxVal
  srv_ctx : Bytes → ℕ → PeerCtxVal

-- A context as far as it is used: what `context.WithValue` adds under `ctxKey`.
pub data Context : Type 0 where
  background : Context
  with_value : PeerCtxVal → Context → Context

-- `ctx.Value(ctxKey)`
abbrev pub value : Context → Option PeerCtxVal
value background = none
value (with_value v ctx) = some v

-- The methods `GetPeer` and `WithPeer` of both
abbrev pub val_peer : PeerCtxVal → Bytes
val_peer (peer_ctx p) = p
val_peer (srv_ctx p unlock) = p

abbrev pub val_with_peer : Bytes → PeerCtxVal → PeerCtxVal
val_with_peer peer (peer_ctx p) = peer_ctx peer
val_with_peer peer (srv_ctx p unlock) = srv_ctx peer unlock

abbrev pub peer_of : Option PeerCtxVal → Bytes
peer_of none = []
peer_of (some v) = val_peer v

-- `GetPeer(ctx)`, of nil too
unfoldable pub get_peer : Option Context → Bytes
get_peer none = []
get_peer (some ctx) = peer_of (value ctx)

unfoldable pub put_peer : Bytes → Context → Option PeerCtxVal → Context
put_peer peer ctx none = with_value (peer_ctx peer) ctx
put_peer peer ctx (some v) =
    if bytes_eq (val_peer v) peer then ctx else with_value (val_with_peer peer v) ctx

-- `WithPeer(ctx, peer)`
unfoldable pub with_peer : Context → Bytes → Context
unfolding put_peer
with_peer ctx peer = put_peer peer ctx (value ctx)

abbrev pub unlock_of : Option PeerCtxVal → Option ℕ
unlock_of none = none
unlock_of (some (peer_ctx p)) = none
unlock_of (some (srv_ctx p unlock)) = some unlock

-- The unlock function that `Detach(ctx)` calls, if any
unfoldable pub detach : Context → Option ℕ
detach ctx = unlock_of (value ctx)

-- The lock and the Once of one `mkUnlocker`: how often the lock was taken and released, and whether
-- the Once is used up. A nil lock is `none`.
pub record Unlocker : Type 0 where
  pub taken : ℕ
  pub released : ℕ
  pub once : Bool

unfoldable pub mk_unlocker : Bool → Option Unlocker
mk_unlocker false = none
mk_unlocker true = some (record { taken = 1; released = 0; once = false })

-- A call of the function that it returns
unfoldable pub unlock : Option Unlocker → Option Unlocker
unlock none = none
unlock (some u) = some (if u.once then u else record u { released = suc u.released; once = true })
