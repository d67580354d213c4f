-- ===== src/Xdr/Arena.antt =====
-- xdr/arena.go: a free list over one array of objects. Each method holds `lk` for its whole body,
-- but for the reset in `Recycle`, so a call is one step here. `StatString` prints the counters.
pub mod Contains
pub mod Ownership
use goxdr.Prelude.{
  ℕ, zero, suc, ◌+◌, ◌-◌, ◌*◌, ◌%◌, List, [], ◌∷◌, Bool, true, false, ◌&&◌, ◌||◌, leb, ◌==◌,
  if◌then◌else◌,
}
use goxdr.Xdr.Heap.{Heap, load, store, alloc}

-- The `len` objects of `size` bytes stand one after the other from `first`. The head of `free`
-- is the end of the slice.
pub record Arena {ℓ} (T : Type ℓ) : Type ℓ where
  pub first : ℕ
  pub size : ℕ
  pub len : ℕ
  pub free : List ℕ
  pub num_get : ℕ
  pub num_miss : ℕ
  pub heap : Heap T

-- `contains(slice, ptr)`, over the addresses of its elements
unfoldable pub contains : ℕ → ℕ → ℕ → ℕ → Bool
contains first size len addr =
    if len == 0 || addr == 0
    then false
    else let last = first + (len - 1) * size in
      if size == 0
      then addr == first
      else leb first addr && leb addr last && (addr - first) % size == 0

-- The addresses of the first `n` objects, the last one in front.
unfoldable pub addresses : ℕ → ℕ → ℕ → List ℕ
addresses first size zero = []
addresses first size (suc n) = (first + n * size) ∷ addresses first size n

-- `zero` is the zero value of `T`, and `reset` what the function of that name leaves in its object.
module _ {ℓ} {T : Type ℓ} (zero_value : T) (reset : T → T) where
  -- `NewArena(n, reset)`: the array is allocated as a whole
  unfoldable pub new_arena : ℕ → ℕ → Heap T → Arena T
  new_arena size n h = record {
    first = h.next;
    size = size;
    len = n;
    free = addresses h.next size n;
    num_get = 0;
    num_miss = 0;
    heap = record { cell = λ _. zero_value; next = h.next + n * size + 1 };
  }

  unfoldable pub get_miss : Arena T → ℕ × Arena T
  get_miss a =
      let (p, h) = alloc a.size (reset zero_value) a.heap in
      (p, record a { heap = h; num_miss = a.num_miss + 1 })

  unfoldable pub get_hit : Arena T → ℕ → List ℕ → ℕ × Arena T
  get_hit a p rest = (
    p,
    record a {
      free = rest;
      num_get = a.num_get + 1;
      heap = store a.heap p (reset (load a.heap p));
    },
  )

  unfoldable pub get_from : Arena T → List ℕ → ℕ × Arena T
  get_from a [] = get_miss a
  get_from a (p ∷ rest) = get_hit a p rest

  -- `Get`
  unfoldable pub get : Arena T → ℕ × Arena T
  get a = get_from a a.free

  -- `Recycle`
  unfoldable pub recycle : ℕ → Arena T → Arena T
  recycle x a =
      if contains a.first a.size a.len x
      then record a { heap = store a.heap x (reset (load a.heap x)); free = x ∷ a.free }
      else a
