-- ===== src/Rpc/CallSet/CancelAll.antt =====
-- `CancelAll`: every pending call is answered, once.
use goxdr.Prelude.{
  ℕ, List, [], ◌∷◌, none, some, All, ◌≡◌, refl, sym, arith, inl, ==_refl, subst, false,
}
use goxdr.Prelude.Assoc.{Assoc, lookup, Distinct, Absent-lookup}
use goxdr.Xdr.Fault.{ok}
use goxdr.Xdr.Heap.{NotIn, remove_head}
use goxdr.Rpc.Status.{canceled, is_success}
use goxdr.Rpc.Call.{CallPool}
use goxdr.Rpc.CallSet.{CallSet, Event, cancel_calls, cancel_all}
use goxdr.Rpc.CallSet.Pointers.{pointers}
use goxdr.Rpc.CallSet.Invariant.{IsFilled, pending, IsValid}
use goxdr.Rpc.CallSet.Remove.{fail_call_lem}

-- A fact of every entry that can be looked up, as one of the list.
All-of_lookup {κ} :
    (F : ℕ → Type κ) (m : Assoc ℕ)
    → Distinct m
    → ((xid p : ℕ) → lookup xid m ≡ some p → F p)
    → All (λ e. F e.1) m
unfolding lookup
All-of_lookup F [] d h = tt
All-of_lookup F ((xid, p) ∷ m) d h =
    (h xid p (rw ==_refl), All-of_lookup F m d.1 (λ j q e. h j q (later j q e)))
  where
    later : (j q : ℕ) → lookup j m ≡ some q → lookup j ((xid, p) ∷ m) ≡ some q
    later j q e = ground (arith, Absent-lookup xid m d.0)

module _ (P : CallPool) where
  -- The events answer the entries one by one: the callback that the entry's object held gets a
  -- message with its XID that is no success.
  abbrev pub Answers : P.State → Assoc ℕ → List Event → Type 0
  Answers s [] [] = Unit
  Answers s [] (ev ∷ evs) = ⊥
  Answers s ((xid, p) ∷ m) [] = ⊥
  Answers s ((xid, p) ∷ m) (ev ∷ evs) =
      ((P.load s p).cb ≡ some ev.cb)
      × (ev.msg.xid ≡ xid)
      × (is_success ev.msg ≡ ok false)
      × Answers s m evs

  abbrev AllFilled : P.State → Assoc ℕ → Type 0
  AllFilled s = All (λ e. IsFilled (P.load s e.1))

  AllFilled-recycle :
      (s : P.State) (p : ℕ) (m : Assoc ℕ)
      → NotIn p (pointers m)
      → AllFilled s m
      → AllFilled (P.recycle p s) m
  unfolding pointers
  AllFilled-recycle s p [] n h = tt
  AllFilled-recycle s p ((xid, q) ∷ m) n h =
      (rw (P.recycle_keeps s p q (λ e. n.0 (sym e))) h.0, AllFilled-recycle s p m n.1 h.1)

  Answers-recycle :
      (s : P.State) (p : ℕ) (m : Assoc ℕ) (evs : List Event)
      → NotIn p (pointers m)
      → Answers (P.recycle p s) m evs
      → Answers s m evs
  unfolding pointers
  Answers-recycle s p [] [] n h = tt
  Answers-recycle s p [] (ev ∷ evs) n h = absurd h
  Answers-recycle s p ((xid, q) ∷ m) [] n h = absurd h
  Answers-recycle s p ((xid, q) ∷ m) (ev ∷ evs) n h = (
    rw (P.recycle_keeps s p q (λ e. n.0 (sym e))) at h.0,
    h.1,
    h.2,
    Answers-recycle s p m evs n.1 h.3,
  )

  cancel_calls_lem :
      (m : Assoc ℕ) (s : P.State)
      → P.Held s (pointers m)
      → AllFilled s m
      → (evs : List Event) × (s' : P.State) × (cancel_calls P m s ≡ ok (evs, s'))
        × Answers s m evs
        × P.Held s' []
  unfolding cancel_calls pointers
  cancel_calls_lem [] s h f = ([], s, refl, tt, h)
  cancel_calls_lem ((xid, p) ∷ m) s h f =
      let (cb, filled) = f.0.1 in
      let (msg, r, same, bad) = fail_call_lem P xid canceled p s cb filled in
      let n = P.held_nodup _ _ h in
      let held : P.Held (P.recycle p s) (pointers m) =
        subst (P.Held (P.recycle p s)) (remove_head p (pointers m) n.0)
          (P.recycle_held s p (p ∷ pointers m) h (inl refl)) in
      let (evs, s', q, ans, none_held) =
        cancel_calls_lem m (P.recycle p s) held (AllFilled-recycle s p m n.0 f.1) in
      (
        record { cb = cb; msg = msg } ∷ evs,
        s',
        rw (r, q),
        (filled, same, bad, Answers-recycle s p m evs n.0 ans),
        none_held,
      )

  -- `CancelAll` calls the callback of every pending call exactly once, with a reply of its XID that
  -- is no success, and leaves no call pending.
  pub cancel_all_lem :
      (cs : CallSet P)
      → IsValid P cs
      → (evs : List Event) × (cs' : CallSet P) × (cancel_all P cs ≡ ok (evs, cs'))
        × Answers cs.pool cs.calls evs
        × IsValid P cs'
        × ((xid : ℕ) → pending P cs' xid ≡ none)
  unfolding cancel_all pending lookup pointers
  cancel_all_lem cs v =
      let (evs, s, q, ans, none_held) =
        cancel_calls_lem cs.calls cs.pool v.held
          (All-of_lookup (λ p. IsFilled (P.load cs.pool p)) cs.calls v.distinct v.filled) in
      (
        evs,
        record cs { pool = s; calls = [] },
        rw q,
        ans,
        record {
          distinct = tt;
          held = none_held;
          filled = λ xid p e. absurd cc;
          word = λ xid p e. absurd cc;
        },
        λ xid. refl,
      )
