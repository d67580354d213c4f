-- ===== src/Xdr/ObjectPool/Instances.antt =====
-- Both allocators of the package xdr fill the interface, for a reset that leaves one value.
use goxdr.Prelude.{ℕ, ◌∙◌, ◌≡◌, Option, List}
use goxdr.Xdr.Heap.{load, store, load-store_self, load-store_ne}
use goxdr.Xdr.Arena.{Arena}
use goxdr.Xdr.Arena
use goxdr.Xdr.Arena.Ownership as ArenaOwnership
use goxdr.Xdr.Pool.{Pool}
use goxdr.Xdr.Pool
use goxdr.Xdr.Pool.Ownership as PoolOwnership
use goxdr.Xdr.ObjectPool.{ObjectPool}

abbrev pub store_arena : {T : Type 0} → Arena T → ℕ → T → Arena T
store_arena a p v = record a { heap = store a.heap p v }

pub store_arena-Owns :
    {T : Type 0} (a : Arena T) (p : ℕ) (v : T) (held : List ℕ)
    → ArenaOwnership.Owns a held
    → ArenaOwnership.Owns (store_arena a p v) held
unfolding store
store_arena-Owns a p v held h = record {
  free_nodup = h.free_nodup;
  free_alloc = h.free_alloc;
  free_object = h.free_object;
  held_nodup = h.held_nodup;
  held_alloc = h.held_alloc;
  apart = h.apart;
}

abbrev pub store_pool : {T : Type 0} → Pool T → ℕ → T → Pool T
store_pool x p v = record x { heap = store x.heap p v }

pub store_pool-Owns :
    {T : Type 0} (x : Pool T) (p : ℕ) (v : T) (held : List ℕ)
    → PoolOwnership.Owns x held
    → PoolOwnership.Owns (store_pool x p v) held
unfolding store
store_pool-Owns x p v held h = record {
  items_nodup = h.items_nodup;
  items_alloc = h.items_alloc;
  held_nodup = h.held_nodup;
  held_alloc = h.held_alloc;
  apart = h.apart;
}

module _ {T : Type 0} (zero_value : T) (reset : T → T) (fresh : T)
    (resets : (t : T) → reset t ≡ fresh) where
  abbrev pub arena_pool : ObjectPool T fresh
  arena_pool = record {
    State = Arena T;
    get = Arena.get zero_value reset;
    recycle = Arena.recycle zero_value reset;
    load = λ a. load a.heap;
    store = store_arena;
    Held = ArenaOwnership.Owns;
    held_nodup = λ a ps v. v.held_nodup;
    get_held = ArenaOwnership.get-Owns zero_value reset;
    get_fresh = λ a. let (t, e) = ArenaOwnership.load-get_self zero_value reset a in e ∙ resets t;
    get_keeps = ArenaOwnership.load-get_ne zero_value reset;
    recycle_held = ArenaOwnership.recycle-Owns zero_value reset;
    recycle_keeps = ArenaOwnership.load-recycle_ne zero_value reset;
    store_held = store_arena-Owns;
    load_store_self = λ a p v. load-store_self a.heap p v;
    load_store_ne = λ a p q v ne. load-store_ne a.heap p q v ne;
  }

  -- For every choice that sync.Pool makes.
  abbrev pub sync_pool : (ℕ → Option ℕ) → ℕ → ObjectPool T fresh
  sync_pool pick size = record {
    State = Pool T;
    get = Pool.get pick size zero_value reset;
    recycle = Pool.recycle pick size zero_value reset;
    load = λ x. load x.heap;
    store = store_pool;
    Held = PoolOwnership.Owns;
    held_nodup = λ x ps v. v.held_nodup;
    get_held = PoolOwnership.get-Owns pick size zero_value reset;
    get_fresh =
        λ x. let (t, e) = PoolOwnership.load-get_self pick size zero_value reset x in e ∙ resets t;
    get_keeps = PoolOwnership.load-get_ne pick size zero_value reset;
    recycle_held = PoolOwnership.recycle-Owns pick size zero_value reset;
    recycle_keeps = PoolOwnership.load-recycle_ne pick size zero_value reset;
    store_held = store_pool-Owns;
    load_store_self = λ x p v. load-store_self x.heap p v;
    load_store_ne = λ x p q v ne. load-store_ne x.heap p q v ne;
  }
