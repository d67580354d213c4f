-- ===== src/Xdr/Pool.antt =====
-- xdr/pool.go: a pool of objects over sync.Pool, whose `Get` returns any item that was put, or
-- none, and then makes a new one. The choice is `pick`, a function of the number of the call: the
-- position of the item, or `none` for an empty pool. `StatString` prints the counters.
pub mod Ownership
use goxdr.Prelude.{ℕ, zero, suc, ◌+◌, List, [], ◌∷◌, Option, none, some}
use goxdr.Xdr.Heap.{Heap, load, store, alloc}

pub record Pool {ℓ} (T : Type ℓ) : Type ℓ where
  pub items : List ℕ
  pub calls : ℕ
  pub num_get : ℕ
  pub num_miss : ℕ
  pub heap : Heap T

unfoldable pub keep_item : ℕ → Option (ℕ × List ℕ) → Option (ℕ × List ℕ)
keep_item p none = none
keep_item p (some (q, qs)) = some (q, p ∷ qs)

-- The item at a position, and the others.
unfoldable pub take_item : ℕ → List ℕ → Option (ℕ × List ℕ)
take_item i [] = none
take_item zero (p ∷ ps) = some (p, ps)
take_item (suc i) (p ∷ ps) = keep_item p (take_item i ps)

-- What `pick` chooses among the items.
unfoldable pub choose : Option ℕ → List ℕ → Option (ℕ × List ℕ)
choose none items = none
choose (some i) items = take_item i items

module _ {ℓ} {T : Type ℓ} (pick : ℕ → Option ℕ) (size : ℕ) (zero_value : T) (reset : T → T) where
  -- `NewPool(reset)`
  unfoldable pub new_pool : Heap T → Pool T
  new_pool h = record { items = []; calls = 0; num_get = 0; num_miss = 0; heap = h }

  -- `pool.Get`, with the function `New` of NewPool on a miss
  unfoldable pub pool_get : Pool T → Option (ℕ × List ℕ) → ℕ × Pool T
  pool_get x none =
      let (p, h) = alloc size (reset zero_value) x.heap in
      (p, record x { calls = x.calls + 1; num_miss = x.num_miss + 1; heap = h })
  pool_get x (some (p, rest)) = (p, record x { calls = x.calls + 1; items = rest })

  -- `x.reset(o)` and the count, behind `pool.Get`
  unfoldable pub finish_get : ℕ × Pool T → ℕ × Pool T
  finish_get (p, x) =
      (p, record x { heap = store x.heap p (reset (load x.heap p)); num_get = x.num_get + 1 })

  -- `Get`
  unfoldable pub get : Pool T → ℕ × Pool T
  get x = finish_get (pool_get x (choose (pick x.calls) x.items))

  -- `Recycle`
  unfoldable pub recycle : ℕ → Pool T → Pool T
  recycle o x = record x { heap = store x.heap o (reset (load x.heap o)); items = o ∷ x.items }
