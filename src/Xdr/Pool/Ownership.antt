-- ===== src/Xdr/Pool/Ownership.antt =====
-- Who owns the objects of xdr/pool.go: a pointer lies in the pool or is held by a caller, never
-- both, whatever item sync.Pool chooses.
use goxdr.Prelude.{
  ℕ, zero, suc, ◌+◌, ◌<◌, List, [], ◌∷◌, Option, none, some, All, ◌≡◌, refl, ◌≢◌, sym, ◌∙◌, arith,
}
use goxdr.Xdr.Heap.{
  Heap, load, store, alloc, load-store_self, load-store_ne, NotIn, Nodup, Disjoint, NotIn-of_below,
  All-below_mono, Disjoint-cons_right, Member, All-Member, remove, remove-All, remove-NotIn,
  remove-Nodup, Disjoint-remove_right, Disjoint-Member_right,
}
use goxdr.Xdr.Pool.{
  Pool, keep_item, take_item, choose, new_pool, pool_get, finish_get, get, recycle,
}

pub record Owns {ℓ} {T : Type ℓ} (x : Pool T) (held : List ℕ) : Type 0 where
  pub items_nodup : Nodup x.items
  pub items_alloc : All (λ p. p < x.heap.next) x.items
  pub held_nodup : Nodup held
  pub held_alloc : All (λ p. p < x.heap.next) held
  pub apart : Disjoint x.items held

-- Of what `choose` returns: `P` holds of the item and of the others.
abbrev ChosenAll {κ} : (ℕ → Type κ) → Option (ℕ × List ℕ) → Type κ
ChosenAll P none = Unit
ChosenAll P (some (p, rest)) = P p × All P rest

-- The item is none of the others, which are distinct.
abbrev ChosenNodup : Option (ℕ × List ℕ) → Type 0
ChosenNodup none = Unit
ChosenNodup (some (p, rest)) = NotIn p rest × Nodup rest

keep_item-All {κ} :
    (P : ℕ → Type κ) (q : ℕ) (r : Option (ℕ × List ℕ))
    → P q
    → ChosenAll P r
    → ChosenAll P (keep_item q r)
unfolding keep_item
keep_item-All P q none h c = tt
keep_item-All P q (some (p, rest)) h c = (c.0, (h, c.1))

take_item-All {κ} : (P : ℕ → Type κ) (i : ℕ) (ps : List ℕ) → All P ps → ChosenAll P (take_item i ps)
unfolding take_item
take_item-All P i [] h = tt
take_item-All P zero (q ∷ ps) h = h
take_item-All P (suc i) (q ∷ ps) h = keep_item-All P q _ h.0 (take_item-All P i ps h.1)

keep_item-Nodup :
    (q : ℕ) (r : Option (ℕ × List ℕ))
    → ChosenAll (λ p. p ≢ q) r
    → ChosenNodup r
    → ChosenNodup (keep_item q r)
unfolding keep_item
keep_item-Nodup q none h c = tt
keep_item-Nodup q (some (p, rest)) h c = ((λ e. h.0 (sym e), c.0), (h.1, c.1))

take_item-Nodup : (i : ℕ) (ps : List ℕ) → Nodup ps → ChosenNodup (take_item i ps)
unfolding take_item
take_item-Nodup i [] h = tt
take_item-Nodup zero (q ∷ ps) h = h
take_item-Nodup (suc i) (q ∷ ps) h =
    keep_item-Nodup q _ (take_item-All (λ p. p ≢ q) i ps h.0) (take_item-Nodup i ps h.1)

choose-All {κ} :
    (P : ℕ → Type κ) (o : Option ℕ) (ps : List ℕ) → All P ps → ChosenAll P (choose o ps)
unfolding choose
choose-All P none ps h = tt
choose-All P (some i) ps h = take_item-All P i ps h

choose-Nodup : (o : Option ℕ) (ps : List ℕ) → Nodup ps → ChosenNodup (choose o ps)
unfolding choose
choose-Nodup none ps h = tt
choose-Nodup (some i) ps h = take_item-Nodup i ps h

module _ {ℓ} {T : Type ℓ} (pick : ℕ → Option ℕ) (size : ℕ) (zero_value : T) (reset : T → T) where
  pool_get-Owns :
      (x : Pool T) (c : Option (ℕ × List ℕ)) (held : List ℕ)
      → ChosenAll (λ p. p < x.heap.next) c
      → ChosenAll (λ p. NotIn p held) c
      → ChosenNodup c
      → Owns x held
      → Owns
          (pool_get pick size zero_value reset x c).1
          ((pool_get pick size zero_value reset x c).0 ∷ held)
  unfolding pool_get alloc
  pool_get-Owns x none held alloced apart nodup v = record {
    items_nodup = v.items_nodup;
    items_alloc = All-below_mono n (n + suc size) x.items (omega arith) v.items_alloc;
    held_nodup = (NotIn-of_below n n held v.held_alloc (omega arith), v.held_nodup);
    held_alloc = (omega arith, All-below_mono n (n + suc size) held (omega arith) v.held_alloc);
    apart =
        Disjoint-cons_right x.items held n (NotIn-of_below n n x.items v.items_alloc (omega arith))
          v.apart;
  }
    where
      n : ℕ
      n = x.heap.next
  pool_get-Owns x (some (p, rest)) held alloced apart nodup v = record {
    items_nodup = nodup.1;
    items_alloc = alloced.1;
    held_nodup = (apart.0, v.held_nodup);
    held_alloc = (alloced.0, v.held_alloc);
    apart = Disjoint-cons_right rest held p nodup.0 apart.1;
  }

  finish_get-Owns :
      (r : ℕ × Pool T) (held : List ℕ)
      → Owns r.1 held
      → Owns (finish_get pick size zero_value reset r).1 held
  unfolding finish_get store
  finish_get-Owns (p, x) held v = record {
    items_nodup = v.items_nodup;
    items_alloc = v.items_alloc;
    held_nodup = v.held_nodup;
    held_alloc = v.held_alloc;
    apart = v.apart;
  }

  -- `Get` hands out a pointer that no caller holds, whatever the pool chooses.
  pub get-Owns :
      (x : Pool T) (held : List ℕ)
      → Owns x held
      → Owns (get pick size zero_value reset x).1 ((get pick size zero_value reset x).0 ∷ held)
  unfolding get finish_get
  get-Owns x held v =
      let o = pick x.calls in
      finish_get-Owns (pool_get pick size zero_value reset x (choose o x.items)) _ (
        pool_get-Owns x (choose o x.items) held
          (choose-All (λ p. p < x.heap.next) o x.items v.items_alloc)
          (choose-All (λ p. NotIn p held) o x.items v.apart) (choose-Nodup o x.items v.items_nodup)
          v)

  -- What `Get` returns has been reset.
  pub load-get_self :
      (x : Pool T)
      → (t : T) × (load
            (get pick size zero_value reset x).1.heap
            (get pick size zero_value reset x).0
          ≡ reset t)
  unfolding get finish_get
  load-get_self x =
      let r = pool_get pick size zero_value reset x (choose (pick x.calls) x.items) in
      (load r.1.heap r.0, load-store_self r.1.heap r.0 _)

  load-pool_get_ne :
      (x : Pool T) (c : Option (ℕ × List ℕ)) (q : ℕ)
      → q ≢ (pool_get pick size zero_value reset x c).0
      → load (pool_get pick size zero_value reset x c).1.heap q ≡ load x.heap q
  unfolding pool_get alloc load
  load-pool_get_ne x none q ne = ground arith
  load-pool_get_ne x (some (p, rest)) q ne = refl

  -- `Get` changes no other object.
  pub load-get_ne :
      (x : Pool T) (q : ℕ)
      → q ≢ (get pick size zero_value reset x).0
      → load (get pick size zero_value reset x).1.heap q ≡ load x.heap q
  unfolding get finish_get
  load-get_ne x q ne =
      let c = choose (pick x.calls) x.items in
      let r = pool_get pick size zero_value reset x c in
      load-store_ne r.1.heap r.0 q _ (λ e. ne (sym e)) ∙ load-pool_get_ne x c q ne

  pub recycle-Owns :
      (x : Pool T) (o : ℕ) (held : List ℕ)
      → Owns x held
      → Member o held
      → Owns (recycle pick size zero_value reset o x) (remove o held)
  unfolding recycle store
  recycle-Owns x o held v m = record {
    items_nodup = (Disjoint-Member_right o x.items held v.apart m, v.items_nodup);
    items_alloc = (All-Member (λ p. p < x.heap.next) o held v.held_alloc m, v.items_alloc);
    held_nodup = remove-Nodup o held v.held_nodup;
    held_alloc = remove-All (λ p. p < x.heap.next) o held v.held_alloc;
    apart = (remove-NotIn o held, Disjoint-remove_right o x.items held v.apart);
  }

  -- `Recycle` changes no other object.
  pub load-recycle_ne :
      (x : Pool T) (o q : ℕ)
      → o ≢ q
      → load (recycle pick size zero_value reset o x).heap q ≡ load x.heap q
  unfolding recycle
  load-recycle_ne x o q ne = load-store_ne x.heap o q _ ne

  -- At first the pool is empty.
  pub new_pool-Owns : (h : Heap T) → Owns (new_pool pick size zero_value reset h) []
  unfolding new_pool
  new_pool-Owns h = record {
    items_nodup = tt;
    items_alloc = tt;
    held_nodup = tt;
    held_alloc = tt;
    apart = tt;
  }
