-- ===== src/Xdr/Heap.antt =====
-- The Go heap as far as the allocators of the package xdr use it: an address is a number, 0 is
-- nil, and what is not allocated yet lies at `next` and above.
use goxdr.Prelude.{
  ℕ, subst, ◌⊎◌, inl, inr, Bool-cases, refl, suc, ◌+◌, ◌≤◌, ◌<◌, List, [], ◌∷◌, All, ◌≡◌, ◌≢◌, sym,
  arith, if◌then◌else◌, ◌==◌,
}

pub record Heap {ℓ} (T : Type ℓ) : Type ℓ where
  pub cell : ℕ → T
  pub next : ℕ

module _ {ℓ} {T : Type ℓ} where
  abbrev pub update : (ℕ → T) → ℕ → T → ℕ → T
  update f p v q = if p == q then v else f q

  -- `*p`
  unfoldable pub load : Heap T → ℕ → T
  load h p = h.cell p

  -- `*p = v`
  unfoldable pub store : Heap T → ℕ → T → Heap T
  store h p v = record h { cell = update h.cell p v }

  -- `new(T)`, for a type of `size` bytes, holding `v`
  unfoldable pub alloc : ℕ → T → Heap T → ℕ × Heap T
  alloc size v h = (h.next, record { cell = update h.cell h.next v; next = h.next + suc size })

  pub load-store_self : (h : Heap T) (p : ℕ) (v : T) → load (store h p v) p ≡ v
  unfolding load store
  load-store_self h p v = ground arith

  pub load-store_ne : (h : Heap T) (p q : ℕ) (v : T) → p ≢ q → load (store h p v) q ≡ load h q
  unfolding load store
  load-store_ne h p q v ne = ground arith

-- `p` is none of the addresses.
abbrev pub NotIn : ℕ → List ℕ → Type 0
NotIn p = All (λ q. q ≢ p)

abbrev pub Nodup : List ℕ → Type 0
Nodup [] = Unit
Nodup (p ∷ ps) = NotIn p ps × Nodup ps

-- No address of the first list stands in the second.
abbrev pub Disjoint : List ℕ → List ℕ → Type 0
Disjoint ps qs = All (λ p. NotIn p qs) ps

pub NotIn-of_below : (n p : ℕ) (ps : List ℕ) → All (λ q. q < n) ps → n ≤ p → NotIn p ps
NotIn-of_below n p [] h le = tt
NotIn-of_below n p (q ∷ ps) h le = (λ e. absurd (omega arith), NotIn-of_below n p ps h.1 le)

pub All-below_mono : (m n : ℕ) (ps : List ℕ) → m ≤ n → All (λ q. q < m) ps → All (λ q. q < n) ps
All-below_mono m n [] le h = tt
All-below_mono m n (q ∷ ps) le h = (omega arith, All-below_mono m n ps le h.1)

pub Disjoint-cons_right :
    (ps qs : List ℕ) (q : ℕ) → NotIn q ps → Disjoint ps qs → Disjoint ps (q ∷ qs)
Disjoint-cons_right [] qs q n d = tt
Disjoint-cons_right (p ∷ ps) qs q n d =
    ((λ e. n.0 (sym e), d.0), Disjoint-cons_right ps qs q n.1 d.1)

pub Disjoint-tail_right : (ps qs : List ℕ) (q : ℕ) → Disjoint ps (q ∷ qs) → Disjoint ps qs
Disjoint-tail_right [] qs q d = tt
Disjoint-tail_right (p ∷ ps) qs q d = (d.0.1, Disjoint-tail_right ps qs q d.1)

pub NotIn-of_Disjoint : (ps qs : List ℕ) (q : ℕ) → Disjoint ps (q ∷ qs) → NotIn q ps
NotIn-of_Disjoint [] qs q d = tt
NotIn-of_Disjoint (p ∷ ps) qs q d = (λ e. d.0.0 (sym e), NotIn-of_Disjoint ps qs q d.1)

-- `p` is one of the addresses.
abbrev pub Member : ℕ → List ℕ → Type 0
Member p [] = ⊥
Member p (q ∷ ps) = (q ≡ p) ⊎ Member p ps

pub All-Member {κ} : (P : ℕ → Type κ) (p : ℕ) (ps : List ℕ) → All P ps → Member p ps → P p
All-Member P p [] h m = absurd m
All-Member P p (q ∷ ps) h (inl e) = subst P e h.0
All-Member P p (q ∷ ps) h (inr m) = All-Member P p ps h.1 m

unfoldable pub remove : ℕ → List ℕ → List ℕ
remove p [] = []
remove p (q ∷ ps) = if q == p then remove p ps else q ∷ remove p ps

pub remove-All {κ} : (P : ℕ → Type κ) (p : ℕ) (ps : List ℕ) → All P ps → All P (remove p ps)
unfolding remove
remove-All P p [] h = tt
remove-All P p (q ∷ ps) h = elim (Bool-cases (q == p)) [
  | inl e ↦ rw e (remove-All P p ps h.1)
  | inr e ↦ rw e (h.0, remove-All P p ps h.1)
]

pub remove-NotIn : (p : ℕ) (ps : List ℕ) → NotIn p (remove p ps)
unfolding remove
remove-NotIn p [] = tt
remove-NotIn p (q ∷ ps) = ground (arith, remove-NotIn p ps)

pub remove-Nodup : (p : ℕ) (ps : List ℕ) → Nodup ps → Nodup (remove p ps)
unfolding remove
remove-Nodup p [] h = tt
remove-Nodup p (q ∷ ps) h = ground (arith, remove-All (λ r. r ≢ q) p ps h.0, remove-Nodup p ps h.1)

pub remove_absent : (p : ℕ) (ps : List ℕ) → NotIn p ps → remove p ps ≡ ps
unfolding remove
remove_absent p [] h = refl
remove_absent p (q ∷ ps) h = ground (arith, remove_absent p ps h.1, h.0)

pub Disjoint-remove_right : (p : ℕ) (ps qs : List ℕ) → Disjoint ps qs → Disjoint ps (remove p qs)
Disjoint-remove_right p [] qs d = tt
Disjoint-remove_right p (q ∷ ps) qs d =
    (remove-All (λ r. r ≢ q) p qs d.0, Disjoint-remove_right p ps qs d.1)

pub NotIn-Member : (p q : ℕ) (qs : List ℕ) → NotIn q qs → Member p qs → q ≢ p
NotIn-Member p q qs n m e = All-Member (λ r. r ≢ q) p qs n m (sym e)

pub Disjoint-Member_right : (p : ℕ) (ps qs : List ℕ) → Disjoint ps qs → Member p qs → NotIn p ps
Disjoint-Member_right p [] qs d m = tt
Disjoint-Member_right p (q ∷ ps) qs d m =
    (NotIn-Member p q qs d.0 m, Disjoint-Member_right p ps qs d.1 m)

pub remove_head : (p : ℕ) (ps : List ℕ) → NotIn p ps → remove p (p ∷ ps) ≡ ps
unfolding remove
remove_head p ps n = ground (arith, remove_absent p ps n)
