-- ===== src/Rpc/Transport/Failing.antt =====
-- `fail` of rpc/transport.go by any number of goroutines at once: its atomic operations and its
-- plain accesses to `err` and the Conn, one at a time and in any order.
use goxdr.Prelude.{
  ℕ, suc, Option, none, some, ◌==◌, ==_iff, ==_refl, refl, sym, ap, subst, ◌≡◌, ◌≢◌, ◌∙◌, arith,
  inl, inr, Bool-cases,
}
use goxdr.Xdr.Heap.{update}
use goxdr.Rpc.Transport.{Err, Okay, okay, failing, failed}

-- What the goroutines share: the transport's fields, and how often the Conn was closed.
pub record Shared : Type 0 where
  pub state : Okay
  pub err : Option Err
  pub closes : ℕ

-- Where in `fail` a goroutine is.
pub data Pc : Type 0 where
  calling : Err → Pc
  claimed : Err → Pc
  assigned : Pc
  closed : Pc
  done : Pc

-- The lines of `fail`: the compare-and-swap won and lost, the assignment, the close and the store.
pub data Move (m : Shared) : Pc → Shared → Pc → Type 0 where
  win : {e : Err} → m.state ≡ okay → Move m (calling e) (record m { state = failing }) (claimed e)
  lose : {e : Err} → m.state ≢ okay → Move m (calling e) m done
  assign : {e : Err} → Move m (claimed e) (record m { err = some e }) assigned
  close : Move m assigned (record m { closes = suc m.closes }) closed
  publish : Move m closed (record m { state = failed }) done

pub record System : Type 0 where
  pub mem : Shared
  pub pc : ℕ → Pc

pub data Step (s : System) : System → Type 0 where
  step :
      (i : ℕ) {m : Shared} {p : Pc}
      → Move s.mem (s.pc i) m p
      → Step s (record { mem = m; pc = update s.pc i p })

-- A working transport, and goroutine `i` that is to call `fail(errs i)`.
abbrev pub init : (ℕ → Err) → System
init errs = record {
  mem = record { state = okay; err = none; closes = 0 };
  pc = λ i. calling (errs i);
}

pub data Reach (errs : ℕ → Err) : System → Type 0 where
  start : Reach errs (init errs)
  later : {s t : System} → Reach errs s → Step s t → Reach errs t

-- Outside the critical section.
abbrev Idle : Pc → Type 0
Idle (calling e) = Unit
Idle (claimed e) = ⊥
Idle assigned = ⊥
Idle closed = ⊥
Idle done = Unit

-- What the goroutine in the critical section has done so far.
abbrev Owner : Pc → Shared → Type 0
Owner (calling e) m = ⊥
Owner (claimed e) m = (m.err ≡ none) × (m.closes ≡ 0)
Owner assigned m = ((e : Err) × (m.err ≡ some e)) × (m.closes ≡ 0)
Owner closed m = ((e : Err) × (m.err ≡ some e)) × (m.closes ≡ 1)
Owner done m = ⊥

abbrev Inv : Okay → Shared → (ℕ → Pc) → Type 0
Inv okay m pc = (m.err ≡ none) × (m.closes ≡ 0) × ((i : ℕ) → Idle (pc i))
Inv failing m pc = (i : ℕ) × Owner (pc i) m × ((j : ℕ) → j ≢ i → Idle (pc j))
Inv failed m pc = ((e : Err) × (m.err ≡ some e)) × (m.closes ≡ 1) × ((i : ℕ) → Idle (pc i))

update_at : (pc : ℕ → Pc) (i : ℕ) (p : Pc) → update pc i p i ≡ p
update_at pc i p = rw (==_refl i) refl

update-Idle : (pc : ℕ → Pc) (i : ℕ) (p : Pc) (j : ℕ) → Idle p → Idle (pc j) → Idle (update pc i p j)
update-Idle pc i p j h k = elim (Bool-cases (i == j)) [ inl e ↦ rw e h | inr e ↦ rw e k ]

update_away : (pc : ℕ → Pc) (i : ℕ) (p : Pc) (j : ℕ) → j ≢ i → Idle (pc j) → Idle (update pc i p j)
update_away pc i p j ne k = elim (Bool-cases (i == j)) [
  | inl e ↦ absurd (ne (sym ((==_iff _ _).0 e)))
  | inr e ↦ rw e k
]

-- The goroutine that is not idle is the owner.
the_owner : (pc : ℕ → Pc) (i k : ℕ) → ((j : ℕ) → j ≢ k → Idle (pc j)) → (Idle (pc i) → ⊥) → i ≡ k
the_owner pc i k h busy = elim (Bool-cases (i == k)) [
  | inl e ↦ (==_iff _ _).0 e
  | inr e ↦ absurd (busy (h i (ground arith)))
]

Owner-at :
    (pc : ℕ → Pc) (i k : ℕ) (m : Shared) (p : Pc)
    → pc i ≡ p
    → (Idle p → ⊥)
    → Owner (pc k) m
    → ((j : ℕ) → j ≢ k → Idle (pc j))
    → Owner p m × ((j : ℕ) → j ≢ i → Idle (pc j))
Owner-at pc i k m p at busy owner idle =
    let same = the_owner pc i k idle (λ h. busy (subst Idle at h)) in
    (subst (λ c. Owner c m) (ap pc (sym same) ∙ at) owner, λ j ne. idle j (λ e. ne (e ∙ sym same)))

-- A goroutine that is outside, and stays so, leaves the owner where it is.
Owner-stays :
    (pc : ℕ → Pc) (i k : ℕ) (m : Shared) (q : Pc)
    → Idle (pc i)
    → Owner (pc k) m
    → Owner (update pc i q k) m
Owner-stays pc i k m q h owner = elim (Bool-cases (i == k)) [
  | inl e ↦ absurd (not_both (pc k) (subst (λ j. Idle (pc j)) ((==_iff _ _).0 e) h) owner)
  | inr e ↦ rw e owner
]
  where
    not_both : (p : Pc) → Idle p → Owner p m → ⊥
    not_both (calling e) h w = w
    not_both (claimed e) h w = h
    not_both assigned h w = h
    not_both closed h w = h
    not_both done h w = w

Move-Inv :
    (o : Okay) (m : Shared) (pc : ℕ → Pc) (i : ℕ) {m' : Shared} {p q : Pc}
    → m.state ≡ o
    → pc i ≡ p
    → Move m p m' q
    → Inv o m pc
    → Inv m'.state m' (update pc i q)
Move-Inv okay m pc i {q} o at (win w) (err, closes, idle) =
    (i, rw (update_at pc i q) (err, closes), λ j ne. update_away pc i q j ne (idle j))
Move-Inv okay m pc i o at (lose l) inv = absurd (l o)
Move-Inv okay m pc i o at assign (err, closes, idle) = absurd (subst Idle at (idle i))
Move-Inv okay m pc i o at close (err, closes, idle) = absurd (subst Idle at (idle i))
Move-Inv okay m pc i o at publish (err, closes, idle) = absurd (subst Idle at (idle i))
Move-Inv failing m pc i o at (win w) (k, owner, idle) = absurd cc
Move-Inv failing m pc i {q} o at (lose l) (k, owner, idle) =
    subst (λ x. Inv x m (update pc i q)) (sym o)
      (
        k,
        Owner-stays pc i k m q (subst Idle (sym at) tt) owner,
        λ j ne. update-Idle pc i q j tt (idle j ne),
      )
Move-Inv failing m pc i {q} o at (assign {e}) (k, owner, idle) =
    let (own, others) = Owner-at pc i k m (claimed e) at (λ h. h) owner idle in
    subst (λ x. Inv x (record m { err = some e }) (update pc i q)) (sym o)
      (i, rw (update_at pc i q) ((e, refl), own.1), λ j ne. update_away pc i q j ne (others j ne))
Move-Inv failing m pc i {q} o at close (k, owner, idle) =
    let (own, others) = Owner-at pc i k m assigned at (λ h. h) owner idle in
    subst (λ x. Inv x (record m { closes = suc m.closes }) (update pc i q)) (sym o)
      (
        i,
        rw (update_at pc i q) (own.0, ap suc own.1),
        λ j ne. update_away pc i q j ne (others j ne),
      )
Move-Inv failing m pc i {q} o at publish (k, owner, idle) =
    let (own, others) = Owner-at pc i k m closed at (λ h. h) owner idle in
    (own.0, own.1, quiet others)
  where
    quiet : ((j : ℕ) → j ≢ i → Idle (pc j)) → (j : ℕ) → Idle (update pc i done j)
    quiet h j = elim (Bool-cases (i == j)) [ inl e ↦ rw e tt | inr e ↦ rw e (h j (ground arith)) ]
Move-Inv failed m pc i o at (win w) inv = absurd cc
Move-Inv failed m pc i {q} o at (lose l) (err, closes, idle) =
    rw o (err, closes, λ j. update-Idle pc i q j tt (idle j))
Move-Inv failed m pc i o at assign (err, closes, idle) = absurd (subst Idle at (idle i))
Move-Inv failed m pc i o at close (err, closes, idle) = absurd (subst Idle at (idle i))
Move-Inv failed m pc i o at publish (err, closes, idle) = absurd (subst Idle at (idle i))

Reach-Inv : {errs : ℕ → Err} {s : System} → Reach errs s → Inv s.mem.state s.mem s.pc
Reach-Inv start = (refl, refl, λ i. tt)
Reach-Inv (later {s} r (step i mv)) = Move-Inv s.mem.state s.mem s.pc i refl refl mv (Reach-Inv r)

-- Whatever the number of goroutines that call `fail` at once, and in every order of their steps: a
-- transport that is seen as failed (`okay` is 0) has its error, its Conn was closed exactly once,
-- and no goroutine is still about to change either.
pub fail_once :
    {errs : ℕ → Err} {s : System}
    → Reach errs s
    → s.mem.state ≡ failed
    → ((e : Err) × (s.mem.err ≡ some e)) × (s.mem.closes ≡ 1)
fail_once {s} r h = let inv = subst (λ o. Inv o s.mem s.pc) h (Reach-Inv r) in (inv.0, inv.1)

-- And no later step changes the state, the error or the number of closes.
fail_final :
    {errs : ℕ → Err} {s t : System} → Reach errs s → Step s t → s.mem.state ≡ failed → t.mem ≡ s.mem
fail_final {s} r (step i mv) h = kept mv (idle i)
  where
    idle : (j : ℕ) → Idle (s.pc j)
    idle = let inv = subst (λ o. Inv o s.mem s.pc) h (Reach-Inv r) in inv.2

    clash : s.mem.state ≡ okay → ⊥
    clash w = absurd cc

    kept : {p q : Pc} {m : Shared} → Move s.mem p m q → Idle p → m ≡ s.mem
    kept (win w) k = absurd (clash w)
    kept (lose l) k = refl
    kept assign k = absurd k
    kept close k = absurd k
    kept publish k = absurd k
