-- ===== src/Xdr/Arena/Contains.antt =====
-- The address test of xdr/arena.go accepts the addresses of the objects and no other.
use native.Mathlib.Nat.{div-add-mod', add-mul-mod_self_right, zero-add, mod-eq_of_lt}
use goxdr.Prelude.{ℕ, zero, suc, ◌+◌, ◌-◌, ◌*◌, ◌/◌, ◌%◌, ◌≤◌, ◌<◌, true, ◌≡◌, ◌↔◌, ◌∙◌, arith}
use goxdr.Xdr.Arena.{contains}

contains_parts :
    (first size len addr : ℕ)
    → 0 < size
    → contains first size len addr ≡ true
    → (0 < len) × (first ≤ addr) × (addr ≤ first + (len - 1) * size) × ((addr - first) % size ≡ 0)
unfolding contains
contains_parts first size len addr hs h = ground arith

contains_intro :
    (first size len addr : ℕ)
    → 0 < first
    → 0 < size
    → 0 < len
    → first ≤ addr
    → addr ≤ first + (len - 1) * size
    → (addr - first) % size ≡ 0
    → contains first size len addr ≡ true
unfolding contains
contains_intro first size len addr hf hs hl lo hi m = ground arith

quotient_lt : (d size len : ℕ) → 0 < len → d * size ≤ (len - 1) * size → 0 < size → d < len
quotient_lt d size zero hl le hs = absurd (omega arith)
quotient_lt d size (suc len) hl le hs = grind arith

multiple_le : (i size len : ℕ) → i < len → i * size ≤ (len - 1) * size
multiple_le i size zero lt = absurd (omega arith)
multiple_le i size (suc len) lt = grind arith

-- Over objects of at least one byte that do not start at nil, `contains` accepts an address exactly
-- when it is that of one of the `len` objects.
pub contains_iff :
    (first size len addr : ℕ)
    → 0 < first
    → 0 < size
    → (contains first size len addr ≡ true) ↔ ((i : ℕ) × (i < len) × (addr ≡ first + i * size))
contains_iff first size len addr hf hs = (fwd, bwd)
  where
    fwd : contains first size len addr ≡ true → (i : ℕ) × (i < len) × (addr ≡ first + i * size)
    fwd h =
        let (hl, lo, hi, m) = contains_parts first size len addr hs h in
        let e = div-add-mod' (addr - first) size in
        ((addr - first) / size, quotient_lt _ size len hl (omega arith) hs, omega arith)

    multiple_mod : (i : ℕ) → i * size % size ≡ 0
    multiple_mod i = (rw zero-add at (add-mul-mod_self_right 0 i size)) ∙ mod-eq_of_lt hs

    offset : (i : ℕ) → addr ≡ first + i * size → addr - first ≡ i * size
    offset i e = omega (arith, e)

    bwd : (i : ℕ) × (i < len) × (addr ≡ first + i * size) → contains first size len addr ≡ true
    bwd (i, lt, e) =
        contains_intro first size len addr hf hs (omega arith) (omega (arith, e))
          (omega (arith, e, multiple_le i size len lt)) (rw (offset i e) (multiple_mod i))
