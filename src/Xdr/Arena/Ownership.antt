-- ===== src/Xdr/Arena/Ownership.antt =====
-- Who owns the objects of xdr/arena.go: a pointer is free or held by a caller, never both, so that
-- what one caller does to its object leaves those of the others alone.
use goxdr.Prelude.{
  ℕ, zero, suc, ◌+◌, ◌*◌, ◌≤◌, ◌<◌, List, [], ◌∷◌, true, All, ◌≡◌, refl, ◌≢◌, inl, inr, sym, arith,
  Bool-cases,
}
use goxdr.Xdr.Heap.{
  Heap, load, store, alloc, load-store_self, load-store_ne, NotIn, Nodup, Disjoint, NotIn-of_below,
  All-below_mono, Disjoint-cons_right, Disjoint-tail_right, NotIn-of_Disjoint, Member, All-Member,
  remove, remove-All, remove-NotIn, remove-Nodup,
}
use goxdr.Xdr.Arena.Contains.{contains_iff}
use goxdr.Xdr.Arena.{
  Arena, contains, addresses, new_arena, get_miss, get_hit, get_from, get, recycle,
}

-- `held` are the pointers that `Get` has handed out and that are not yet recycled.
pub record Owns {ℓ} {T : Type ℓ} (a : Arena T) (held : List ℕ) : Type 0 where
  pub free_nodup : Nodup a.free
  pub free_alloc : All (λ p. p < a.heap.next) a.free
  pub free_object : All (λ p. contains a.first a.size a.len p ≡ true) a.free
  pub held_nodup : Nodup held
  pub held_alloc : All (λ p. p < a.heap.next) held
  pub apart : Disjoint held a.free

module _ {ℓ} {T : Type ℓ} (zero_value : T) (reset : T → T) where
  get_miss-Owns :
      (a : Arena T) (held : List ℕ)
      → Owns a held
      → Owns (get_miss zero_value reset a).1 ((get_miss zero_value reset a).0 ∷ held)
  unfolding get_miss alloc
  get_miss-Owns a held v = record {
    free_nodup = v.free_nodup;
    free_alloc = All-below_mono n (n + suc a.size) a.free (omega arith) v.free_alloc;
    free_object = v.free_object;
    held_nodup = (NotIn-of_below n n held v.held_alloc (omega arith), v.held_nodup);
    held_alloc = (omega arith, All-below_mono n (n + suc a.size) held (omega arith) v.held_alloc);
    apart = (NotIn-of_below n n a.free v.free_alloc (omega arith), v.apart);
  }
    where
      n : ℕ
      n = a.heap.next

  get_hit-Owns :
      (a : Arena T) (p : ℕ) (rest held : List ℕ)
      → a.free ≡ p ∷ rest
      → Owns a held
      → Owns (get_hit zero_value reset a p rest).1 (p ∷ held)
  unfolding get_hit store
  get_hit-Owns a p rest held e v =
      let nodup : Nodup (p ∷ rest) = rw e at v.free_nodup in
      let below : All (λ q. q < a.heap.next) (p ∷ rest) = rw e at v.free_alloc in
      let object : All (λ q. contains a.first a.size a.len q ≡ true) (p ∷ rest) =
        rw e at v.free_object in
      let apart : Disjoint held (p ∷ rest) = rw e at v.apart in
      record {
        free_nodup = nodup.1;
        free_alloc = below.1;
        free_object = object.1;
        held_nodup = (NotIn-of_Disjoint held rest p apart, v.held_nodup);
        held_alloc = (below.0, v.held_alloc);
        apart = (nodup.0, Disjoint-tail_right held rest p apart);
      }

  get_from-Owns :
      (a : Arena T) (free held : List ℕ)
      → a.free ≡ free
      → Owns a held
      → Owns (get_from zero_value reset a free).1 ((get_from zero_value reset a free).0 ∷ held)
  unfolding get_from get_hit
  get_from-Owns a [] held e v = get_miss-Owns a held v
  get_from-Owns a (p ∷ rest) held e v = get_hit-Owns a p rest held e v

  -- `Get` hands out a pointer that no caller holds, on a hit and on a miss.
  pub get-Owns :
      (a : Arena T) (held : List ℕ)
      → Owns a held
      → Owns (get zero_value reset a).1 ((get zero_value reset a).0 ∷ held)
  unfolding get
  get-Owns a held v = get_from-Owns a a.free held refl v

  load-get_from_self :
      (a : Arena T) (free : List ℕ)
      → (t : T) × (load
            (get_from zero_value reset a free).1.heap
            (get_from zero_value reset a free).0
          ≡ reset t)
  unfolding get_from get_miss get_hit alloc load
  load-get_from_self a [] = (zero_value, ground arith)
  load-get_from_self a (p ∷ rest) = (load a.heap p, load-store_self a.heap p _)

  -- What `Get` returns has been reset.
  pub load-get_self :
      (a : Arena T)
      → (t : T) × (load (get zero_value reset a).1.heap (get zero_value reset a).0 ≡ reset t)
  unfolding get
  load-get_self a = load-get_from_self a a.free

  load-get_from_ne :
      (a : Arena T) (free : List ℕ) (q : ℕ)
      → q ≢ (get_from zero_value reset a free).0
      → load (get_from zero_value reset a free).1.heap q ≡ load a.heap q
  unfolding get_from get_miss get_hit alloc load
  load-get_from_ne a [] q ne = ground arith
  load-get_from_ne a (p ∷ rest) q ne = load-store_ne a.heap p q _ (λ e. ne (sym e))

  -- `Get` changes no other object.
  pub load-get_ne :
      (a : Arena T) (q : ℕ)
      → q ≢ (get zero_value reset a).0
      → load (get zero_value reset a).1.heap q ≡ load a.heap q
  unfolding get
  load-get_ne a = load-get_from_ne a a.free

  -- Recycling a held pointer keeps the free list without duplicates and apart from the pointers still
  -- held, whether or not the object is one of the array.
  pub recycle-Owns :
      (a : Arena T) (x : ℕ) (held : List ℕ)
      → Owns a held
      → Member x held
      → Owns (recycle zero_value reset x a) (remove x held)
  unfolding recycle store
  recycle-Owns a x held v m = elim (Bool-cases (contains a.first a.size a.len x)) [
    | inl e ↦ rw e (record {
      free_nodup = (All-Member (λ p. NotIn p a.free) x held v.apart m, v.free_nodup);
      free_alloc = (All-Member (λ p. p < a.heap.next) x held v.held_alloc m, v.free_alloc);
      free_object = (e, v.free_object);
      held_nodup = remove-Nodup x held v.held_nodup;
      held_alloc = remove-All (λ p. p < a.heap.next) x held v.held_alloc;
      apart =
          Disjoint-cons_right (remove x held) a.free x (remove-NotIn x held)
            (remove-All (λ p. NotIn p a.free) x held v.apart);
    })
    | inr e ↦ rw e (record {
      free_nodup = v.free_nodup;
      free_alloc = v.free_alloc;
      free_object = v.free_object;
      held_nodup = remove-Nodup x held v.held_nodup;
      held_alloc = remove-All (λ p. p < a.heap.next) x held v.held_alloc;
      apart = remove-All (λ p. NotIn p a.free) x held v.apart;
    })
  ]

  -- `Recycle` changes no other object.
  pub load-recycle_ne :
      (a : Arena T) (x q : ℕ) → x ≢ q → load (recycle zero_value reset x a).heap q ≡ load a.heap q
  unfolding recycle
  load-recycle_ne a x q ne = ground (arith, load-store_ne a.heap x q (reset (load a.heap x)) ne)

  addresses-NotIn :
      (first size n i : ℕ) → 0 < size → n ≤ i → NotIn (first + i * size) (addresses first size n)
  unfolding addresses
  addresses-NotIn first size zero i hs le = tt
  addresses-NotIn first size (suc n) i hs le =
      (λ e. absurd (distinct e), addresses-NotIn first size n i hs (omega arith))
    where
      distinct : first + n * size ≡ first + i * size → ⊥
      distinct e = grind arith

  addresses-Nodup : (first size n : ℕ) → 0 < size → Nodup (addresses first size n)
  unfolding addresses
  addresses-Nodup first size zero hs = tt
  addresses-Nodup first size (suc n) hs =
      (addresses-NotIn first size n n hs (omega arith), addresses-Nodup first size n hs)

  addresses-below :
      (first size n top : ℕ) → first + n * size < top → All (λ p. p < top) (addresses first size n)
  unfolding addresses
  addresses-below first size zero top h = tt
  addresses-below first size (suc n) top h =
      (omega arith, addresses-below first size n top (omega arith))

  addresses-object :
      (first size n len : ℕ)
      → 0 < first
      → 0 < size
      → n ≤ len
      → All (λ p. contains first size len p ≡ true) (addresses first size n)
  unfolding addresses
  addresses-object first size zero len hf hs le = tt
  addresses-object first size (suc n) len hf hs le = (
    (contains_iff first size len (first + n * size) hf hs).1 (n, le, refl),
    addresses-object first size n len hf hs (omega arith),
  )

  -- At first every object is free.
  pub new_arena-Owns :
      (size n : ℕ) (h : Heap T)
      → 0 < size
      → 0 < h.next
      → Owns (new_arena zero_value reset size n h) []
  unfolding new_arena
  new_arena-Owns size n h hs hf = record {
    free_nodup = addresses-Nodup h.next size n hs;
    free_alloc = addresses-below h.next size n (h.next + n * size + 1) (omega arith);
    free_object = addresses-object h.next size n n hf hs (omega arith);
    held_nodup = tt;
    held_alloc = tt;
    apart = tt;
  }
