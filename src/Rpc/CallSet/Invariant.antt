-- ===== src/Rpc/CallSet/Invariant.antt =====
-- The invariant of the pending calls: each has an object of its own, which the pool gives to nobody
-- else while the call is pending, and a procedure and a callback in it.
use goxdr.Prelude.{
  ℕ, suc, ◌^◌, ◌<◌, length, Option, none, some, ◌==◌, if◌then◌else◌, Bytes, ◌≡◌, ◌≢◌, refl, sym,
  arith, inl, inr, Option-cases, Bool-cases, ==_iff, ◌∙◌, ap, subst,
}
use mathlib.Core.Option.{some-injective}
use goxdr.Prelude.Assoc.{lookup, insert, lookup-insert, Distinct, insert-Distinct}
use goxdr.Xdr.Heap.{NotIn-Member}
use goxdr.Rpc.Header.{RpcMsg}
use goxdr.Rpc.Call.{XdrProc, PendingCall, CallPool}
use goxdr.Rpc.CallSet.{CallSet, call_header, next_xid, add_call, new_call}
use goxdr.Rpc.CallSet.Xid.{next_xid-fresh, next_xid_total}
use goxdr.Rpc.CallSet.Pointers.{pointers, pointers-insert, lookup-Member}

-- Neither nil.
abbrev pub IsFilled : PendingCall → Type 0
IsFilled pc = ((proc : XdrProc) × (pc.proc ≡ some proc)) × ((cb : ℕ) × (pc.cb ≡ some cb))

module _ (P : CallPool) where
  abbrev pub seen : P.State → Option ℕ → Option PendingCall
  seen s none = none
  seen s (some p) = some (P.load s p)

  -- The map from XIDs to calls that a caller sees.
  unfoldable pub pending : CallSet P → ℕ → Option PendingCall
  pending cs xid = seen cs.pool (lookup xid cs.calls)

  pub record IsValid (cs : CallSet P) : Type 0 where
    pub distinct : Distinct cs.calls
    pub held : P.Held cs.pool (pointers cs.calls)
    pub filled : (xid p : ℕ) → lookup xid cs.calls ≡ some p → IsFilled (P.load cs.pool p)
    pub word : (xid p : ℕ) → lookup xid cs.calls ≡ some p → xid < 2 ^ 32

  -- The record that `NewCall` writes.
  abbrev pub made : Bytes → XdrProc → ℕ → PendingCall
  made server proc cb = record { proc = some proc; cb = some cb; server = server }

  -- A pointer of a pending call is not the one that the pool hands out next.
  not_fresh :
      (cs : CallSet P) (j q : ℕ) → IsValid cs → lookup j cs.calls ≡ some q → (P.get cs.pool).0 ≢ q
  not_fresh cs j q v e =
      let n = P.held_nodup _ _ (P.get_held cs.pool (pointers cs.calls) v.held) in
      NotIn-Member q (P.get cs.pool).0 (pointers cs.calls) n.0 (lookup-Member j cs.calls q e)

  -- What a new call does to the objects: its own is the new one, the others stay.
  load-add_call_self :
      (server : Bytes) (proc : XdrProc) (cb xid : ℕ) (cs : CallSet P)
      → P.load (add_call P server proc cb cs xid).1.pool (P.get cs.pool).0 ≡ made server proc cb
  unfolding add_call
  load-add_call_self server proc cb xid cs = P.load_store_self _ _ _

  load-add_call_ne :
      (server : Bytes) (proc : XdrProc) (cb xid : ℕ) (cs : CallSet P) (q : ℕ)
      → (P.get cs.pool).0 ≢ q
      → P.load (add_call P server proc cb cs xid).1.pool q ≡ P.load cs.pool q
  unfolding add_call
  load-add_call_ne server proc cb xid cs q ne =
      P.load_store_ne _ _ q _ ne ∙ P.get_keeps cs.pool q (λ e. ne (sym e))

  -- A new call appears under its XID, and no other changes.
  pub pending-add_call :
      (server : Bytes) (proc : XdrProc) (cb xid : ℕ) (cs : CallSet P) (j : ℕ)
      → IsValid cs
      → pending (add_call P server proc cb cs xid).1 j
        ≡ (if xid == j then some (made server proc cb) else pending cs j)
  unfolding pending add_call
  pending-add_call server proc cb xid cs j v = elim (Bool-cases (xid == j)) [
    | inl hit ↦
        rw (lookup-insert xid j (P.get cs.pool).0 cs.calls, hit)
          (ap some (load-add_call_self server proc cb xid cs))
    | inr miss ↦
        rw (lookup-insert xid j (P.get cs.pool).0 cs.calls, miss)
          (elim (Option-cases (lookup j cs.calls)) [
            | inl free ↦ rw free
            | inr (q, e) ↦
                rw e (ap some (load-add_call_ne server proc cb xid cs q (not_fresh cs j q v e)))
          ])
  ]

  add_call-IsFilled :
      (server : Bytes) (proc : XdrProc) (cb xid : ℕ) (cs : CallSet P) (j q : ℕ)
      → IsValid cs
      → lookup j (insert xid (P.get cs.pool).0 cs.calls) ≡ some q
      → IsFilled (P.load (add_call P server proc cb cs xid).1.pool q)
  add_call-IsFilled server proc cb xid cs j q v e =
      let fresh = (P.get cs.pool).0 in
      elim (Bool-cases (xid == j)) [
        | inl hit ↦
            subst (λ r. IsFilled (P.load (add_call P server proc cb cs xid).1.pool r))
              (some-injective fresh q (rw (lookup-insert xid j fresh cs.calls, hit) at e))
              (rw (load-add_call_self server proc cb xid cs) ((proc, refl), (cb, refl)))
        | inr miss ↦
            let old : lookup j cs.calls ≡ some q =
              rw (lookup-insert xid j fresh cs.calls, miss) at e in
            rw (load-add_call_ne server proc cb xid cs q (not_fresh cs j q v old))
              (v.filled j q old)
      ]

  pub add_call-IsValid :
      (server : Bytes) (proc : XdrProc) (cb xid : ℕ) (cs : CallSet P)
      → IsValid cs
      → lookup xid cs.calls ≡ none
      → xid < 2 ^ 32
      → IsValid (add_call P server proc cb cs xid).1
  unfolding add_call
  add_call-IsValid server proc cb xid cs v free small = record {
    distinct = insert-Distinct xid (P.get cs.pool).0 cs.calls v.distinct;
    held = P.store_held _ _ _ _ (
        subst (P.Held (P.get cs.pool).1) (sym (pointers-insert xid (P.get cs.pool).0 cs.calls free))
          (P.get_held cs.pool (pointers cs.calls) v.held));
    filled = λ j q e. add_call-IsFilled server proc cb xid cs j q v e;
    word = λ j q e. elim (Bool-cases (xid == j)) [
      | inl hit ↦ omega (arith, (==_iff xid j).0 hit)
      | inr miss ↦ v.word j q (rw (lookup-insert xid j (P.get cs.pool).0 cs.calls, miss) at e)
    ];
  }

  -- The outcome of `NewCall`: the header, the new state, and what they say of the pending calls.
  abbrev pub NewCallDone : Bytes → XdrProc → ℕ → CallSet P → Type 0
  NewCallDone server proc cb cs =
      (m : RpcMsg) × (cs' : CallSet P) × (new_call P server proc cb cs ≡ some (m, cs'))
      × IsValid cs'
      × (pending cs m.xid ≡ none)
      × ((j : ℕ)
          → pending cs' j ≡ (if m.xid == j then some (made server proc cb) else pending cs j))

  new_call_found :
      (server : Bytes) (proc : XdrProc) (cb xid : ℕ) (cs : CallSet P)
      → IsValid cs
      → next_xid (suc (length cs.calls)) cs.calls cs.last_xid ≡ some xid
      → lookup xid cs.calls ≡ none
      → xid < 2 ^ 32
      → NewCallDone server proc cb cs
  unfolding new_call call_header add_call pending
  new_call_found server proc cb xid cs v e free small =
      let r = add_call P server proc cb cs xid in
      (
        r.0,
        r.1,
        rw (e, new_call),
        add_call-IsValid server proc cb xid cs v free small,
        rw free,
        λ j. pending-add_call server proc cb xid cs j v,
      )

  -- While fewer than 2^32 calls are pending, `NewCall` ends. The XID of the header that it returns
  -- was not pending, and exactly that call is added.
  pub new_call_lem :
      (server : Bytes) (proc : XdrProc) (cb : ℕ) (cs : CallSet P)
      → IsValid cs
      → length cs.calls < 2 ^ 32
      → NewCallDone server proc cb cs
  new_call_lem server proc cb cs v few =
      let fuel = suc (length cs.calls) in
      let (xid, e) = next_xid_total fuel cs.calls cs.last_xid (omega arith) few in
      let (free, small) = next_xid-fresh fuel cs.calls cs.last_xid e in
      new_call_found server proc cb xid cs v e free small
