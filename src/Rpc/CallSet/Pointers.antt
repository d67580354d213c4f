-- ===== src/Rpc/CallSet/Pointers.antt =====
-- The pointers that the map of pending calls holds.
use goxdr.Prelude.{ℕ, none, List, [], ◌∷◌, some, ◌==◌, ◌≡◌, ◌≢◌, arith, inl, inr, Bool-cases}
use goxdr.Prelude.Assoc.{Assoc, lookup, insert, delete, lookup-Absent, Distinct, delete_without}
use goxdr.Xdr.Heap.{Nodup, Member, remove, remove_absent, NotIn-Member}

unfoldable pub pointers : Assoc ℕ → List ℕ
pointers [] = []
pointers ((xid, p) ∷ m) = p ∷ pointers m

pub lookup-Member : (xid : ℕ) (m : Assoc ℕ) (p : ℕ) → lookup xid m ≡ some p → Member p (pointers m)
unfolding lookup pointers
lookup-Member xid [] p e = absurd cc
lookup-Member xid ((j, q) ∷ m) p e = elim (Bool-cases (j == xid)) [
  | inl hit ↦ inl (ground arith)
  | inr miss ↦ inr (lookup-Member xid m p (ground arith))
]

-- Two keys have different pointers.
pub lookup_ne :
    (j k : ℕ) (m : Assoc ℕ) (p q : ℕ)
    → Nodup (pointers m)
    → j ≢ k
    → lookup j m ≡ some p
    → lookup k m ≡ some q
    → p ≢ q
unfolding lookup pointers
lookup_ne j k [] p q n ne ej ek = absurd cc
lookup_ne j k ((i, r) ∷ m) p q n ne ej ek = ground (
  arith,
  lookup_ne j k m p q n.1 ne,
  λ (e : lookup j m ≡ some p). NotIn-Member p r (pointers m) n.0 (lookup-Member j m p e),
  λ (e : lookup k m ≡ some q). NotIn-Member q r (pointers m) n.0 (lookup-Member k m q e),
)

-- Deleting an entry removes its pointer.
pub pointers-delete :
    (xid : ℕ) (m : Assoc ℕ) (p : ℕ)
    → Distinct m
    → Nodup (pointers m)
    → lookup xid m ≡ some p
    → pointers (delete xid m) ≡ remove p (pointers m)
unfolding lookup pointers delete remove
pointers-delete xid [] p d n e = absurd cc
pointers-delete xid ((j, q) ∷ m) p d n e = elim (Bool-cases (j == xid)) [
  | inl hit ↦
      let same : q ≡ p = ground arith in
      ground (arith, delete_without j m d.0, remove_absent q (pointers m) n.0)
  | inr miss ↦
      let later : lookup xid m ≡ some p = ground arith in
      ground (
        arith,
        pointers-delete xid m p d.1 n.1 later,
        NotIn-Member p q (pointers m) n.0 (lookup-Member xid m p later),
      )
]

pub pointers-insert :
    (xid p : ℕ) (m : Assoc ℕ) → lookup xid m ≡ none → pointers (insert xid p m) ≡ p ∷ pointers m
unfolding pointers insert
pointers-insert xid p m free = rw (delete_without xid m (lookup-Absent xid m free))
