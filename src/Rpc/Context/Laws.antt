-- ===== src/Rpc/Context/Laws.antt =====
-- Peers are set and kept, and a lock is released once.
use goxdr.Prelude.{
  ℕ, zero, suc, true, false, Option, none, some, Bytes, bytes_eq, bytes_eq_iff, bytes_eq_refl,
  Bool-cases, inl, inr, ◌≡◌, refl,
}
use goxdr.Rpc.Context.{
  peer_ctx, srv_ctx, Context, background, with_value, get_peer, put_peer, with_peer, detach,
  Unlocker, mk_unlocker, unlock,
}

-- What `WithPeer` sets, `GetPeer` finds, and setting it again changes nothing; the context detaches
-- the same call as before.
with_peer_lem :
    (ctx : Context) (peer : Bytes)
    → (get_peer (some (with_peer ctx peer)) ≡ peer)
      × (with_peer (with_peer ctx peer) peer ≡ with_peer ctx peer)
      × (detach (with_peer ctx peer) ≡ detach ctx)
unfolding get_peer with_peer put_peer detach
with_peer_lem background peer = (refl, rw (bytes_eq_refl peer) refl, refl)
with_peer_lem (with_value (peer_ctx p) ctx) peer = elim (Bool-cases (bytes_eq p peer)) [
  | inl e ↦ rw e ((bytes_eq_iff p peer).0 e, rw e refl, refl)
  | inr e ↦ rw e (refl, rw (bytes_eq_refl peer) refl, refl)
]
with_peer_lem (with_value (srv_ctx p u) ctx) peer = elim (Bool-cases (bytes_eq p peer)) [
  | inl e ↦ rw e ((bytes_eq_iff p peer).0 e, rw e refl, refl)
  | inr e ↦ rw e (refl, rw (bytes_eq_refl peer) refl, refl)
]

-- The function called `n` times.
abbrev unlocks : ℕ → Option Unlocker → Option Unlocker
unfolding unlock
unlocks zero u = u
unlocks (suc n) u = unlocks n (unlock u)

used_up :
    (n : ℕ)
    → unlocks n (some (record { taken = 1; released = 1; once = true }))
      ≡ some (record { taken = 1; released = 1; once = true })
unfolding unlocks unlock
used_up zero = refl
used_up (suc n) = used_up n

-- However often the unlock function is called, by `Detach` and at the end of the call, the lock was
-- taken once and is released once; a nil lock is left alone.
unlocks_lem :
    (n : ℕ)
    → (unlocks (suc n) (mk_unlocker true) ≡ some (record { taken = 1; released = 1; once = true }))
      × (unlocks (suc n) (mk_unlocker false) ≡ none)
unfolding mk_unlocker unlock unlocks
unlocks_lem n = (used_up n, nil n)
  where
    nil : (n : ℕ) → unlocks n none ≡ none
    nil zero = refl
    nil (suc n) = nil n
