-- ===== src/Xdr/ObjectPool.antt =====
-- What rpc needs of an allocator, the interfaces CallPool (rpc/callpool.go) and MessagePool
-- (rpc/msgpool.go): operations on pointers, and who holds them.
pub mod Instances
use goxdr.Prelude.{ℕ, List, ◌∷◌, ◌≡◌, ◌≢◌}
use goxdr.Xdr.Heap.{Nodup, Member, remove}

pub record ObjectPool (T : Type 0) (fresh : T) : Type 1 where
  pub State : Type 0
  pub get : State → ℕ × State
  pub recycle : ℕ → State → State
  pub load : State → ℕ → T
  pub store : State → ℕ → T → State
  -- the pointers that are handed out and not yet recycled
  pub Held : State → List ℕ → Type 0
  pub held_nodup : (s : State) (ps : List ℕ) → Held s ps → Nodup ps
  pub get_held : (s : State) (ps : List ℕ) → Held s ps → Held (get s).1 ((get s).0 ∷ ps)
  pub get_fresh : (s : State) → load (get s).1 (get s).0 ≡ fresh
  pub get_keeps : (s : State) (q : ℕ) → q ≢ (get s).0 → load (get s).1 q ≡ load s q
  pub recycle_held :
      (s : State) (x : ℕ) (ps : List ℕ) → Held s ps → Member x ps → Held (recycle x s) (remove x ps)
  pub recycle_keeps : (s : State) (x q : ℕ) → x ≢ q → load (recycle x s) q ≡ load s q
  pub store_held : (s : State) (p : ℕ) (v : T) (ps : List ℕ) → Held s ps → Held (store s p v) ps
  pub load_store_self : (s : State) (p : ℕ) (v : T) → load (store s p v) p ≡ v
  pub load_store_ne : (s : State) (p q : ℕ) (v : T) → p ≢ q → load (store s p v) q ≡ load s q
