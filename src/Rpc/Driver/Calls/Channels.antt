-- ===== src/Rpc/Driver/Calls/Channels.antt =====
-- A call of SendCall gets at most one message, that of its own XID, and no callback ever waits or
-- panics.
use goxdr.Prelude.{
  ℕ, ◌+◌, ◌≤◌, false, List, [], ◌∷◌, ◌++◌, Option, some, length, ◌==◌, ==_iff, ==_refl, All,
  Bool-cases, inl, inr, ◌≡◌, ◌≢◌, refl, ap, subst, arith,
}
use goxdr.Prelude.Assoc.{Assoc, lookup}
use goxdr.Xdr.Heap.{update}
use goxdr.Rpc.Header.{RpcMsg}
use goxdr.Rpc.Driver.Calls.{
  waiting, deleting, returned, Caller, putting, closing, Callback, Calls, Step, Reach, new_call,
  sent, unsent, answer, nil_answer, interrupt, delete_call, take_call, put, close, start, later,
}
use goxdr.Rpc.Driver.Calls.Shares.{
  pending_of, puts_of, closes_of, pending_of-append, puts_of-append, pending_of-delete, puts_at,
  put_rest, close_rest,
}
use goxdr.Rpc.Driver.Calls.Local.{
  answers, Fine, Fine-answer, Fine-put, Fine-take, Fine-close, Fine-new, Fine-returned, Fine-move,
  Fine-delete, Fine-deleted, put_ready, close_ready,
}

record Inv (s : Calls) : Type 0 where
  each :
      (i : ℕ)
      → Fine (s.callers i) (pending_of i s.pending) (puts_of i s.flight) (closes_of i s.flight)
  no_panic : s.panicked ≡ false

-- To show something of every caller, of one of them and of the others.
split : (i : ℕ) (P : ℕ → Type 0) → P i → ((k : ℕ) → (i == k) ≡ false → P k) → (k : ℕ) → P k
split i P own others k = elim (Bool-cases (i == k)) [
  | inl e ↦ subst P ((==_iff i k).0 e) own
  | inr e ↦ others k e
]

-- A step that changes one caller, and nothing that others see.
one_caller :
    (s : Calls) (i : ℕ) (c : Caller)
    → Inv s
    → Fine c (pending_of i s.pending) (puts_of i s.flight) (closes_of i s.flight)
    → Inv (record s { callers = update s.callers i c })
one_caller s i c v own = record {
  each =
      split i
        (λ k.
          Fine (update s.callers i c k) (pending_of k s.pending) (puts_of k s.flight)
            (closes_of k s.flight))
        (rw (==_refl i) own) (λ k e. rw e (v.each k));
  no_panic = v.no_panic;
}

Step-Inv : {s t : Calls} → Step s t → Inv s → Inv t
unfolding pending_of puts_of closes_of
Step-Inv {s} (new_call i x e free) v = record {
  each =
      split i _ (rw (==_refl i) (Fine-new (s.callers i) _ _ _ x e (v.each i)))
        (λ k h. rw h (v.each k));
  no_panic = v.no_panic;
}
Step-Inv {s} (sent i e) v =
    one_caller s i _ v
      (Fine-move (s.callers i) _ _ _ waiting (ap answers e) refl (λ q n. tt) (v.each i))
Step-Inv {s} (unsent i e) v =
    one_caller s i _ v
      (Fine-move (s.callers i) _ _ _ deleting (ap answers e) refl (λ q n. tt) (v.each i))
Step-Inv {s} (answer i m rest e h) v =
    one_caller s i _ v (Fine-answer (s.callers i) _ _ _ m rest e h (v.each i))
Step-Inv {s} (nil_answer i e h c) v = absurd (ground (arith, (v.each i).once))
Step-Inv {s} (interrupt i e) v =
    one_caller s i _ v
      (Fine-move (s.callers i) _ _ _ deleting (ap answers e) refl (λ q n. tt) (v.each i))
Step-Inv {s} (delete_call i e) v = record {
  each =
      split i _
        (rw
          (
            ==_refl i,
            pending_of-delete i (s.callers i).xid (s.callers i).xid s.pending
                (v.each i).pending_xid,
            ==_refl (s.callers i).xid,
          )
          (Fine-delete (s.callers i) _ _ _ e (v.each i)))
        (λ k h. rw h (
          Fine-deleted (s.callers k) _ _ _ _ (s.callers i).xid
            (pending_of-delete k (s.callers i).xid (s.callers k).xid s.pending
              (v.each k).pending_xid)
            (v.each k)));
  no_panic = v.no_panic;
}
Step-Inv {s} (take_call i m before after e) v = record {
  each =
      split i _
        (rw (==_refl i, pending_of-append i before after)
          (Fine-take (s.callers i) (pending_of i before) (pending_of i after) _ _ m
            (rw (e, pending_of-append i before ((m.xid, i) ∷ after), ==_refl i) at (v.each i))))
        (λ k h.
          rw (h, pending_of-append k before after)
            (rw (e, pending_of-append k before ((m.xid, i) ∷ after), h) at (v.each k)));
  no_panic = v.no_panic;
}
Step-Inv {s} (put i m before after e h) v =
    let old = λ (k : ℕ). rw e at (v.each k) in
    record {
      each =
          split i _
            (rw
              (
                ==_refl i,
                put_rest i i m before after,
                close_rest i i m closing before after,
                ==_refl i,
              )
              (Fine-put (s.callers i) _ (puts_of i before) (puts_of i after) _ m
                (rw (puts_at i m before after, close_rest i i m putting before after) at (old i))))
            (λ k h.
              rw (h, put_rest i k m before after, close_rest i k m closing before after, h)
                (rw (puts_of-append k before, close_rest i k m putting before after, h) at
                  (old k)));
      no_panic =
          rw
            (
              v.no_panic,
              (put_ready (s.callers i) _ (puts_of i before) (puts_of i after) _ m
                  (rw (puts_at i m before after) at (old i))).1,
            )
            refl;
    }
Step-Inv {s} (close i m before after e) v =
    let old = λ (k : ℕ). rw e at (v.each k) in
    record {
      each =
          split i _
            (rw (==_refl i, puts_of-append i before after)
              (Fine-close (s.callers i) _ _ _ (
                rw (put_rest i i m before after, close_rest i i m closing before after, ==_refl i)
                  at (old i))))
            (λ k h.
              rw (h, puts_of-append k before after)
                (rw (put_rest i k m before after, close_rest i k m closing before after, h) at
                  (old k)));
      no_panic =
          rw
            (
              v.no_panic,
              close_ready (s.callers i) _ _ _
                  (rw (close_rest i i m closing before after, ==_refl i) at (old i)),
            )
            refl;
    }

Reach-Inv : {s : Calls} → Reach s → Inv s
unfolding pending_of puts_of closes_of
Reach-Inv start = record {
  each = λ i. record {
    one = omega arith;
    once = omega arith;
    leaves = (refl, omega arith);
    pending_xid = tt;
    put_xid = tt;
    chan_xid = tt;
    answer_xid = tt;
  };
  no_panic = refl;
}
Reach-Inv (later r st) = Step-Inv st (Reach-Inv r)

All-middle : (P : RpcMsg → Type 0) (xs ys : List RpcMsg) (m : RpcMsg) → All P (xs ++ m ∷ ys) → P m
All-middle P [] ys m h = h.0
All-middle P (x ∷ xs) ys m h = All-middle P xs ys m h.1

-- However many goroutines are in SendCall and in callbacks, and in whatever order they step: there
-- has been no send on a closed channel, no second close and no nil reply; a callback that is
-- about to send finds the channel empty, so that it never waits, and sends a message of the XID of its call.
pub callback_ready :
    {s : Calls} (i : ℕ) (m : RpcMsg) (before after : List Callback)
    → Reach s
    → s.flight ≡ before ++ record { caller = i; msg = m; stage = putting } ∷ after
    → (s.panicked ≡ false)
      × ((s.callers i).chan ≡ [])
      × ((s.callers i).closes ≡ 0)
      × (m.xid ≡ (s.callers i).xid)
callback_ready {s} i m before after r e =
    let v = Reach-Inv r in
    let own = rw (e, puts_at i m before after) at (v.each i) in
    let (empty, open_) = put_ready (s.callers i) _ (puts_of i before) (puts_of i after) _ m own in
    (
      v.no_panic,
      empty,
      open_,
      All-middle (λ n. n.xid ≡ (s.callers i).xid) (puts_of i before) (puts_of i after) m
          own.put_xid,
    )

lookup-pending_of : (i x : ℕ) (p : Assoc ℕ) → lookup x p ≡ some i → pending_of i p ≢ []
unfolding lookup pending_of
lookup-pending_of i x [] h = absurd (cc)
lookup-pending_of i x ((y, j) ∷ p) h = ground (arith, lookup-pending_of i x p)

-- A SendCall that has returned has left no pending call behind, with a reply or with an error; a
-- reply is one of the XID of its call, and is the only one that its callback sent.
pub returned_lem :
    {s : Calls} (i : ℕ) (o : Option RpcMsg)
    → Reach s
    → (s.callers i).pc ≡ returned o
    → ((x : ℕ) → lookup x s.pending ≢ some i)
      × All (λ m. m.xid ≡ (s.callers i).xid) (answers (returned o))
      × (length (puts_of i s.flight) + length (s.callers i).chan + length (answers (returned o))
          ≤ 1)
returned_lem {s} i o r e =
    let v = (Reach-Inv r).each i in
    (
      (λ x h. lookup-pending_of i x s.pending h (Fine-returned (s.callers i) _ _ _ o e v)),
      rw e at v.answer_xid,
      omega (arith, v.one, ap (λ w. length (answers w)) e),
    )
