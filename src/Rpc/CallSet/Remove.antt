-- ===== src/Rpc/CallSet/Remove.antt =====
-- Taking a pending call out of the set: `Delete`, `Cancel` and `CancelAll`.
use goxdr.Prelude.{
  ℕ, [], ◌∷◌, Option, none, some, ◌==◌, if◌then◌else◌, ◌≡◌, ◌≢◌, refl, arith, inl, inr,
  Option-cases, Bool-cases, ==_iff, ◌∙◌, ap, subst, false,
}
use goxdr.Prelude.Assoc.{
  lookup, delete, lookup-delete, delete_without, lookup-Absent, delete-Distinct,
}
use goxdr.Xdr.Fault.{ok}
use goxdr.Rpc.Header.{RpcMsg, success, zero_msg}
use goxdr.Rpc.Status.{is_success}
use goxdr.Rpc.Status.Laws.{set_stat_lem}
use goxdr.Rpc.Call.{CallPool}
use goxdr.Rpc.CallSet.{
  CallSet, recycle_found, delete_call, Event, deref, cancel_stat, fail_call, cancel_found, cancel,
}
use goxdr.Rpc.CallSet.Pointers.{pointers, lookup-Member, lookup_ne, pointers-delete}
use goxdr.Rpc.CallSet.Invariant.{pending, IsValid}

module _ (P : CallPool) where
  -- The set without the call `xid`, whose object `p` is recycled.
  abbrev pub dropped : ℕ → ℕ → CallSet P → CallSet P
  dropped xid p cs = record cs { pool = P.recycle p cs.pool; calls = delete xid cs.calls }

  -- The entry under another XID is still there, and its object is as it was.
  dropped_other :
      (xid p j q : ℕ) (cs : CallSet P)
      → IsValid P cs
      → lookup xid cs.calls ≡ some p
      → lookup j (delete xid cs.calls) ≡ some q
      → (lookup j cs.calls ≡ some q) × (P.load (P.recycle p cs.pool) q ≡ P.load cs.pool q)
  dropped_other xid p j q cs v e old = elim (Bool-cases (xid == j)) [
    | inl hit ↦ absurd (cc (rw (lookup-delete xid j cs.calls, hit) at old))
    | inr miss ↦
        let eq : lookup j cs.calls ≡ some q = rw (lookup-delete xid j cs.calls, miss) at old in
        let ne : xid ≢ j = λ s. cc (miss, (==_iff xid j).1 s) in
        (
          eq,
          P.recycle_keeps cs.pool p q
              (lookup_ne xid j cs.calls p q (P.held_nodup _ _ v.held) ne e eq),
        )
  ]

  pub dropped-IsValid :
      (xid p : ℕ) (cs : CallSet P)
      → IsValid P cs
      → lookup xid cs.calls ≡ some p
      → IsValid P (dropped xid p cs)
  dropped-IsValid xid p cs v e = record {
    distinct = delete-Distinct xid cs.calls v.distinct;
    held =
        rw (pointers-delete xid cs.calls p v.distinct (P.held_nodup _ _ v.held) e)
          (P.recycle_held cs.pool p (pointers cs.calls) v.held (lookup-Member xid cs.calls p e));
    filled =
        λ j q old. let (eq, same) = dropped_other xid p j q cs v e old in rw same (v.filled j q eq);
    word = λ j q old. v.word j q (dropped_other xid p j q cs v e old).0;
  }

  pub pending-dropped :
      (xid p j : ℕ) (cs : CallSet P)
      → IsValid P cs
      → lookup xid cs.calls ≡ some p
      → pending P (dropped xid p cs) j ≡ (if xid == j then none else pending P cs j)
  unfolding pending
  pending-dropped xid p j cs v e = elim (Bool-cases (xid == j)) [
    | inl hit ↦ rw (lookup-delete xid j cs.calls, hit)
    | inr miss ↦
        rw (lookup-delete xid j cs.calls, miss)
          (elim (Option-cases (lookup j cs.calls)) [
            | inl free ↦ rw free
            | inr (q, eq) ↦ rw eq (
                ap some
                  (dropped_other xid p j q cs v e (rw (lookup-delete xid j cs.calls, miss) eq)).1)
          ])
  ]

  pub pending-none :
      (xid : ℕ) (cs : CallSet P) → lookup xid cs.calls ≡ none → pending P cs xid ≡ none
  unfolding pending
  pending-none xid cs e = rw e

  pub pending-some :
      (xid p : ℕ) (cs : CallSet P)
      → lookup xid cs.calls ≡ some p
      → pending P cs xid ≡ some (P.load cs.pool p)
  unfolding pending
  pending-some xid p cs e = rw e

  -- What it is to take the call `xid` out: the invariant is kept, and no other call changes.
  abbrev pub Removes : ℕ → CallSet P → CallSet P → Type 0
  Removes xid cs cs' =
      IsValid P cs' × ((j : ℕ) → pending P cs' j ≡ (if xid == j then none else pending P cs j))

  -- A set without that call stays as it is.
  pub Removes-absent :
      (xid : ℕ) (cs : CallSet P) → IsValid P cs → lookup xid cs.calls ≡ none → Removes xid cs cs
  Removes-absent xid cs v e = (
    v,
    λ j. elim (Bool-cases (xid == j)) [
      | inl hit ↦
          rw hit (subst (λ k. pending P cs k ≡ none) ((==_iff xid j).0 hit) (pending-none xid cs e))
      | inr miss ↦ rw miss
    ],
  )

  -- `Delete` takes the call out, and does nothing where there is none.
  pub delete_call-Removes :
      (xid : ℕ) (cs : CallSet P) → IsValid P cs → Removes xid cs (delete_call P xid cs)
  unfolding delete_call recycle_found
  delete_call-Removes xid cs v = elim (Option-cases (lookup xid cs.calls)) [
    | inl e ↦
        rw (e, delete_without xid cs.calls (lookup-Absent xid cs.calls e))
          (Removes-absent xid cs v e)
    | inr (p, e) ↦ rw e (dropped-IsValid xid p cs v e, λ j. pending-dropped xid p j cs v e)
  ]

  -- One call that fails: its callback gets an accepted reply with its XID and this status.
  pub fail_call_lem :
      (xid stat p : ℕ) (s : P.State) (cb : ℕ)
      → (P.load s p).cb ≡ some cb
      → (m : RpcMsg) × (fail_call P xid stat p s ≡ ok (record { cb = cb; msg = m }, P.recycle p s))
        × (m.xid ≡ xid)
        × (is_success m ≡ ok (stat == success))
  unfolding fail_call deref
  fail_call_lem xid stat p s cb e =
      let (m, set, same, good) = set_stat_lem (zero_msg xid) stat in (m, rw (set, e), same, good)

  cancel_stat_fails : (reason : Option ℕ) → (cancel_stat reason == success) ≡ false
  unfolding cancel_stat
  cancel_stat_fails none = refl
  cancel_stat_fails (some r) = ground arith

  cancel_run :
      (xid p : ℕ) (reason : Option ℕ) (cs : CallSet P) (ev : Event) (s : P.State)
      → lookup xid cs.calls ≡ some p
      → fail_call P xid (cancel_stat reason) p cs.pool ≡ ok (ev, s)
      → cancel P xid reason cs ≡ ok (ev ∷ [], record cs { pool = s; calls = delete xid cs.calls })
  unfolding cancel cancel_found
  cancel_run xid p reason cs ev s e r = rw (e, r)

  -- `Cancel` of a pending call makes its callback once, with a reply of that XID that is no success,
  -- whatever the reason says, and takes the call out.
  pub cancel_pending :
      (xid p : ℕ) (reason : Option ℕ) (cs : CallSet P)
      → IsValid P cs
      → lookup xid cs.calls ≡ some p
      → (ev : Event) × (cs' : CallSet P) × (cancel P xid reason cs ≡ ok (ev ∷ [], cs'))
        × ((P.load cs.pool p).cb ≡ some ev.cb)
        × (ev.msg.xid ≡ xid)
        × (is_success ev.msg ≡ ok false)
        × Removes xid cs cs'
  cancel_pending xid p reason cs v e =
      let (cb, filled) = (v.filled xid p e).1 in
      let stat = cancel_stat reason in
      let (m, r, same, good) = fail_call_lem xid stat p cs.pool cb filled in
      (
        record { cb = cb; msg = m },
        dropped xid p cs,
        cancel_run xid p reason cs _ _ e r,
        filled,
        same,
        good ∙ ap ok (cancel_stat_fails reason),
        (dropped-IsValid xid p cs v e, λ j. pending-dropped xid p j cs v e),
      )

  -- `Cancel` of any other XID makes no callback and changes nothing.
  pub cancel_absent :
      (xid : ℕ) (reason : Option ℕ) (cs : CallSet P)
      → lookup xid cs.calls ≡ none
      → cancel P xid reason cs ≡ ok ([], cs)
  unfolding cancel cancel_found
  cancel_absent xid reason cs e = rw e
