-- ===== src/Rpc/Driver/Calls/Local.antt =====
-- One caller with its share, and what the steps do to it.
use goxdr.Prelude.{
  ℕ, suc, ◌+◌, length-append, ◌⊎◌, ◌≤◌, List, [], ◌∷◌, ◌++◌, Option, none, some, length,
  if◌then◌else◌, ◌==◌, All, Bool-cases, inl, inr, ◌≡◌, refl, subst, ◌∙◌, arith,
}
use goxdr.Rpc.Header.{RpcMsg}
use goxdr.Rpc.Driver.Calls.{Pc, calling, sending, waiting, deleting, returned, Caller}

abbrev pub answers : Pc → List RpcMsg
answers calling = []
answers sending = []
answers waiting = []
answers deleting = []
answers (returned none) = []
answers (returned (some m)) = m ∷ []

-- What is left of a call behind its return, and before its begin.
abbrev Leaves : Pc → List ℕ → ℕ → Type 0
Leaves calling p n = (p ≡ []) × (n ≡ 0)
Leaves sending p n = Unit
Leaves waiting p n = Unit
Leaves deleting p n = Unit
Leaves (returned o) p n = p ≡ []

-- A caller with its pending XIDs, the messages to be put and the number of closes to come.
pub record Fine (c : Caller) (p : List ℕ) (f : List RpcMsg) (g : ℕ) : Type 0 where
  pub one : length p + (length f + (length c.chan + length (answers c.pc))) ≤ 1
  pub once : g + c.closes ≡ length c.chan + length (answers c.pc)
  pub leaves : Leaves c.pc p (length f + (length c.chan + length (answers c.pc)))
  pub pending_xid : All (λ x. x ≡ c.xid) p
  pub put_xid : All (λ m. m.xid ≡ c.xid) f
  pub chan_xid : All (λ m. m.xid ≡ c.xid) c.chan
  pub answer_xid : All (λ m. m.xid ≡ c.xid) (answers c.pc)

nil_only : (l : List RpcMsg) → length l ≤ 0 → l ≡ []
nil_only [] h = refl
nil_only (x ∷ l) h = absurd (omega arith)

Leaves-take : (w : Pc) (x : ℕ) (n k : ℕ) → Leaves w (x ∷ []) n → Leaves w [] k
Leaves-take calling x n k h = absurd (cc)
Leaves-take sending x n k h = tt
Leaves-take waiting x n k h = tt
Leaves-take deleting x n k h = tt
Leaves-take (returned o) x n k h = refl

Leaves-lose : (w : Pc) (p : List ℕ) (n : ℕ) → Leaves w p n → Leaves w [] n
Leaves-lose calling p n h = (refl, h.1)
Leaves-lose sending p n h = tt
Leaves-lose waiting p n h = tt
Leaves-lose deleting p n h = tt
Leaves-lose (returned o) p n h = refl

-- Local steps: what each step does to the caller that it is about.
pub Fine-answer :
    (c : Caller) (p : List ℕ) (f : List RpcMsg) (g : ℕ) (m : RpcMsg) (rest : List RpcMsg)
    → c.pc ≡ waiting
    → c.chan ≡ m ∷ rest
    → Fine c p f g
    → Fine (record c { pc = returned (some m); chan = rest }) p f g
Fine-answer c [] f g m [] e k v = ground arith
Fine-answer c (x ∷ p) f g m rest e k v = absurd (ground (arith, v.one))
Fine-answer c [] f g m (n ∷ rest) e k v = absurd (ground (arith, v.one))

pub Fine-put :
    (c : Caller) (p : List ℕ) (f h : List RpcMsg) (g : ℕ) (m : RpcMsg)
    → Fine c p (f ++ m ∷ h) g
    → Fine (record c { chan = c.chan ++ m ∷ [] }) p (f ++ h) (suc g)
Fine-put c p [] [] g m v = ground (arith, nil_only c.chan)
Fine-put c p (n ∷ f) h g m v = absurd (ground (arith, v.one, length-append f (m ∷ h)))
Fine-put c p [] (n ∷ h) g m v = absurd (ground (arith, v.one))

pub Fine-take :
    (c : Caller) (p q : List ℕ) (f : List RpcMsg) (g : ℕ) (m : RpcMsg)
    → Fine c (p ++ m.xid ∷ q) f g
    → Fine c (p ++ q) (m ∷ f) g
Fine-take c [] [] f g m v = record {
  one = omega arith;
  once = v.once;
  leaves = Leaves-take c.pc m.xid _ _ v.leaves;
  pending_xid = tt;
  put_xid = (v.pending_xid.0, v.put_xid);
  chan_xid = v.chan_xid;
  answer_xid = v.answer_xid;
}
Fine-take c (n ∷ p) q f g m v = absurd (ground (arith, v.one, length-append p (m.xid ∷ q)))
Fine-take c [] (n ∷ q) f g m v = absurd (ground (arith, v.one))

pub Fine-close :
    (c : Caller) (p : List ℕ) (f : List RpcMsg) (g : ℕ)
    → Fine c p f (suc g)
    → Fine (record c { closes = suc c.closes }) p f g
Fine-close c p f g v = ground arith

pub Fine-new :
    (c : Caller) (p : List ℕ) (f : List RpcMsg) (g x : ℕ)
    → c.pc ≡ calling
    → Fine c p f g
    → Fine (record c { pc = sending; xid = x }) (x ∷ p) f g
Fine-new c [] [] g x k v = ground (arith, nil_only c.chan)
Fine-new c (n ∷ p) f g x k v = absurd (ground (arith, v.leaves))
Fine-new c [] (m ∷ f) g x k v = absurd (ground (arith, v.leaves))

-- The fields of a caller that only its place in SendCall concerns.
pub Fine-move :
    (c : Caller) (p : List ℕ) (f : List RpcMsg) (g : ℕ) (w : Pc)
    → answers c.pc ≡ []
    → answers w ≡ []
    → ((q : List ℕ) (n : ℕ) → Leaves w q n)
    → Fine c p f g
    → Fine (record c { pc = w }) p f g
Fine-move c p f g w e k l v = record {
  one = rw k (omega (arith, v.one));
  once = rw k (subst (λ l. g + c.closes ≡ length c.chan + length l) e v.once);
  leaves = l p _;
  pending_xid = v.pending_xid;
  put_xid = v.put_xid;
  chan_xid = v.chan_xid;
  answer_xid = rw k tt;
}

-- A deleted call is pending no more.
pub Fine-delete :
    (c : Caller) (p : List ℕ) (f : List RpcMsg) (g : ℕ)
    → c.pc ≡ deleting
    → Fine c p f g
    → Fine (record c { pc = returned none }) [] f g
Fine-delete c p f g e v = ground arith

-- A caller whose pending XID is deleted by another.
Fine-lose :
    (c : Caller) (p q : List ℕ) (f : List RpcMsg) (g : ℕ)
    → (q ≡ p) ⊎ (q ≡ [])
    → Fine c p f g
    → Fine c q f g
Fine-lose c p q f g (inl e) v = rw e v
Fine-lose c p q f g (inr e) v = rw e (record {
  one = omega (arith, v.one);
  once = v.once;
  leaves = Leaves-lose c.pc p _ v.leaves;
  pending_xid = tt;
  put_xid = v.put_xid;
  chan_xid = v.chan_xid;
  answer_xid = v.answer_xid;
})

-- An XID that somebody deletes.
pub Fine-deleted :
    (c : Caller) (p q : List ℕ) (f : List RpcMsg) (g x : ℕ)
    → q ≡ (if x == c.xid then [] else p)
    → Fine c p f g
    → Fine c q f g
Fine-deleted c p q f g x e v = elim (Bool-cases (x == c.xid)) [
  | inl h ↦ Fine-lose c p q f g (inr (e ∙ rw h refl)) v
  | inr h ↦ Fine-lose c p q f g (inl (e ∙ rw h refl)) v
]

-- Before the callback of a caller puts or closes, the channel is open, and before it puts, empty.
pub put_ready :
    (c : Caller) (p : List ℕ) (f h : List RpcMsg) (g : ℕ) (m : RpcMsg)
    → Fine c p (f ++ m ∷ h) g
    → (c.chan ≡ []) × (c.closes ≡ 0)
put_ready c p f h g m v = (
  nil_only c.chan (omega (arith, v.one, length-append f (m ∷ h))),
  omega (arith, v.one, v.once, length-append f (m ∷ h)),
)

pub close_ready :
    (c : Caller) (p : List ℕ) (f : List RpcMsg) (g : ℕ) → Fine c p f (suc g) → c.closes ≡ 0
close_ready c p f g v = omega (arith, v.one, v.once)

pub Fine-returned :
    (c : Caller) (p : List ℕ) (f : List RpcMsg) (g : ℕ) (o : Option RpcMsg)
    → c.pc ≡ returned o
    → Fine c p f g
    → p ≡ []
Fine-returned c p f g o e v = ground arith
