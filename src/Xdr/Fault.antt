-- ===== src/Xdr/Fault.antt =====
-- A Go panic as a value. The marshalling code of cmd/goxdr/header.go.in throws `XdrError`, which
-- rpc.safeMarshal turns into an error; any other panic value passes through it.

pub data Fault : Type 0 where
  -- `panic(XdrError(...))`, by `XdrPanic`; the text is not modelled
  xdr_error : Fault
  -- any other panic: a runtime error, or an `error` that is no `XdrError`
  other_panic : Fault

pub data Result {ℓ} (A : Type ℓ) : Type ℓ where
  ok : A → Result A
  throw : Fault → Result A

infixl 5 ◌>>=◌
abbrev pub ◌>>=◌ {ℓ κ} : {A : Type ℓ} {B : Type κ} → Result A → (A → Result B) → Result B
ok a >>= f = f a
throw e >>= f = throw e
