-- ===== src/Rpc/CallSet/Xid.antt =====
-- The loop of `NewCall` that looks for an XID: it ends, and the XID is of no pending call.
use goxdr.Prelude.{
  ℕ, zero, suc, ◌+◌, ◌%◌, ◌^◌, ◌≤◌, ◌<◌, length, none, some, ◌≡◌, ◌≢◌, refl, arith, inl, inr,
  Option-cases,
}
use goxdr.Prelude.Assoc.{Assoc, lookup, delete, lookup-delete, length-delete_lt}
use goxdr.Rpc.CallSet.{next_xid}

-- What the loop returns is a uint32 that is no key of the map.
pub next_xid-fresh :
    (f : ℕ) (calls : Assoc ℕ) (last : ℕ) {xid : ℕ}
    → next_xid f calls last ≡ some xid
    → (lookup xid calls ≡ none) × (xid < 2 ^ 32)
unfolding next_xid
next_xid-fresh zero calls last e = cc
next_xid-fresh (suc f) calls last e = elim (Option-cases (lookup ((last + 1) % 2 ^ 32) calls)) [
  | inl free ↦ ground arith
  | inr (p, used) ↦ next_xid-fresh f calls ((last + 1) % 2 ^ 32) (ground arith)
]

-- Deleting a key that the next `f` numbers do not meet again changes nothing.
next_xid-delete :
    (f k d last : ℕ) (calls : Assoc ℕ)
    → k < 2 ^ 32
    → last ≡ (k + d) % 2 ^ 32
    → d + f < 2 ^ 32
    → next_xid f (delete k calls) last ≡ next_xid f calls last
unfolding next_xid
next_xid-delete zero k d last calls hk e h = refl
next_xid-delete (suc f) k d last calls hk e h =
    let xid = (last + 1) % 2 ^ 32 in
    let ne : k ≢ xid = omega arith in
    let later = next_xid-delete f k (d + 1) xid calls hk (omega arith) (omega arith) in
    ground (arith, lookup-delete k xid calls, later)

-- With more fuel than there are entries, and fewer entries than numbers, the loop finds an XID.
pub next_xid_total :
    (f : ℕ) (calls : Assoc ℕ) (last : ℕ)
    → length calls < f
    → f ≤ 2 ^ 32
    → (xid : ℕ) × (next_xid f calls last ≡ some xid)
unfolding next_xid
next_xid_total zero calls last h small = absurd (omega arith)
next_xid_total (suc f) calls last h small =
    elim (Option-cases (lookup ((last + 1) % 2 ^ 32) calls)) [
      | inl free ↦ ((last + 1) % 2 ^ 32, ground arith)
      | inr (p, used) ↦
          let xid = (last + 1) % 2 ^ 32 in
          let (x, e) =
            next_xid_total f (delete xid calls) xid
              (omega (arith, length-delete_lt xid calls p used)) (omega arith) in
          (
            x,
            ground (
              arith,
              next_xid-delete f xid 0 xid calls (omega arith) (omega arith) (omega arith),
            ),
          )
    ]
