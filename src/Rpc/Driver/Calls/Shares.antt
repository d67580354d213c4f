-- ===== src/Rpc/Driver/Calls/Shares.antt =====
-- What of the pending calls and of the running callbacks is a caller's.
use goxdr.Prelude.{
  append_assoc, ℕ, suc, ◌+◌, Bool, true, false, List, [], ◌∷◌, ◌++◌, if◌then◌else◌, ◌==◌, ==_refl,
  All, Bool-cases, inl, inr, ◌≡◌, refl, sym, ap, ◌∙◌, arith,
}
use goxdr.Prelude.Assoc.{Assoc, delete}
use goxdr.Rpc.Header.{RpcMsg}
use goxdr.Rpc.Driver.Calls.{Stage, putting, closing, Callback}

-- The XIDs under which a caller is pending, and its callbacks that are to put and to close.
unfoldable pub pending_of : ℕ → Assoc ℕ → List ℕ
pending_of i [] = []
pending_of i ((x, j) ∷ p) = if j == i then x ∷ pending_of i p else pending_of i p

abbrev pub puts : Stage → Bool → RpcMsg → List RpcMsg
puts putting true m = m ∷ []
puts putting false m = []
puts closing b m = []

abbrev to_close : Stage → Bool → ℕ → ℕ
to_close putting b n = n
to_close closing true n = suc n
to_close closing false n = n

unfoldable pub puts_of : ℕ → List Callback → List RpcMsg
puts_of i [] = []
puts_of i (c ∷ cs) = puts c.stage (c.caller == i) c.msg ++ puts_of i cs

unfoldable pub closes_of : ℕ → List Callback → ℕ
closes_of i [] = 0
closes_of i (c ∷ cs) = to_close c.stage (c.caller == i) (closes_of i cs)

-- What a change of the lists does to the share of a caller.
pub pending_of-append :
    (i : ℕ) (p q : Assoc ℕ) → pending_of i (p ++ q) ≡ pending_of i p ++ pending_of i q
unfolding pending_of
pending_of-append i [] q = refl
pending_of-append i ((x, j) ∷ p) q = ground (arith, pending_of-append i p q)

pub puts_of-append : (i : ℕ) (p q : List Callback) → puts_of i (p ++ q) ≡ puts_of i p ++ puts_of i q
unfolding puts_of
puts_of-append i [] q = refl
puts_of-append i (c ∷ p) q =
    ap (◌++◌ (puts c.stage (c.caller == i) c.msg)) (puts_of-append i p q)
    ∙ sym (append_assoc (puts c.stage (c.caller == i) c.msg) (puts_of i p) (puts_of i q))

to_close-add : (st : Stage) (b : Bool) (m n : ℕ) → to_close st b (m + n) ≡ m + to_close st b n
to_close-add putting b m n = refl
to_close-add closing true m n = omega arith
to_close-add closing false m n = refl

add-to_close : (st : Stage) (b : Bool) (m n : ℕ) → to_close st b (m + n) ≡ to_close st b m + n
add-to_close putting b m n = refl
add-to_close closing true m n = omega arith
add-to_close closing false m n = refl

closes_of-append :
    (i : ℕ) (p q : List Callback) → closes_of i (p ++ q) ≡ closes_of i p + closes_of i q
unfolding closes_of
closes_of-append i [] q = omega arith
closes_of-append i (c ∷ p) q =
    ap (to_close c.stage (c.caller == i)) (closes_of-append i p q)
    ∙ add-to_close c.stage (c.caller == i) (closes_of i p) (closes_of i q)

-- A deletion takes out all XIDs of a caller or none, if they are all the same.
pub pending_of-delete :
    (i x y : ℕ) (p : Assoc ℕ)
    → All (λ z. z ≡ y) (pending_of i p)
    → pending_of i (delete x p) ≡ (if x == y then [] else pending_of i p)
unfolding pending_of delete
pending_of-delete i x y [] h = ground arith
pending_of-delete i x y ((z, j) ∷ p) h = elim (Bool-cases (j == i)) [
  | inl e ↦
      let own : (z ≡ y) × All (λ w. w ≡ y) (pending_of i p) = rw e at h in
      ground (arith, pending_of-delete i x y p own.1, own.0)
  | inr e ↦
      let others : All (λ w. w ≡ y) (pending_of i p) = rw e at h in
      ground (arith, pending_of-delete i x y p others)
]

pub puts_at :
    (i : ℕ) (m : RpcMsg) (before after : List Callback)
    → puts_of i (before ++ record { caller = i; msg = m; stage = putting } ∷ after)
      ≡ puts_of i before ++ m ∷ puts_of i after
unfolding puts_of
puts_at i m before after = puts_of-append i before _ ∙ rw (==_refl i) refl

-- A callback that puts becomes one that closes, and is then gone; for the others nothing changes.
pub put_rest :
    (i k : ℕ) (m : RpcMsg) (before after : List Callback)
    → puts_of k (before ++ record { caller = i; msg = m; stage = closing } ∷ after)
      ≡ puts_of k before ++ puts_of k after
unfolding puts_of
put_rest i k m before after = puts_of-append k before _

pub close_rest :
    (i k : ℕ) (m : RpcMsg) (st : Stage) (before after : List Callback)
    → closes_of k (before ++ record { caller = i; msg = m; stage = st } ∷ after)
      ≡ to_close st (i == k) (closes_of k (before ++ after))
unfolding closes_of
close_rest i k m st before after =
    closes_of-append k before (record { caller = i; msg = m; stage = st } ∷ after)
    ∙ sym (to_close-add st (i == k) (closes_of k before) (closes_of k after))
    ∙ ap (to_close st (i == k)) (sym (closes_of-append k before after))
