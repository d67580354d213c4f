-- ===== src/Rpc/Message/Laws.antt =====
-- New messages, and the XID of a serialized one.
use goxdr.Prelude.{
  Bool-cases, ◌==◌, ==_iff, inl, inr, ◌⊎◌, ℕ, ◌<◌, ◌^◌, List, [], ◌∷◌, ◌++◌, Bytes, sym, ◌≡◌, ◌≢◌,
  ◌∙◌, arith, ap,
}
use goxdr.Xdr.Codec.{put32, uint32}
use goxdr.Rpc.Message.{Message, empty_message, MessagePool, xid, serialize, new_message}

module _ (P : MessagePool) where
  -- A new message has the peer and nothing else: no byte, latency or report of an earlier use; it is
  -- held by nobody else, and no other message changes.
  pub new_message_lem :
      (peer : Bytes) (s : P.State) (held : List ℕ)
      → P.Held s held
      → (P.load (new_message P peer s).1 (new_message P peer s).0
          ≡ record empty_message { peer = peer })
        × P.Held (new_message P peer s).1 ((new_message P peer s).0 ∷ held)
        × ((q : ℕ)
            → ((new_message P peer s).0 ≡ q) ⊎ (P.load (new_message P peer s).1 q ≡ P.load s q))
  unfolding new_message
  new_message_lem peer s held h = (
    P.load_store_self _ _ _ ∙ ap {A = Message} (λ m. record m { peer = peer }) (P.get_fresh s),
    P.store_held _ _ _ _ (P.get_held s held h),
    λ q. elim (Bool-cases ((P.get s).0 == q)) [
      | inl e ↦ inl ((==_iff _ _).0 e)
      | inr e ↦
          let ne : (P.get s).0 ≢ q = ground arith in
          inr (P.load_store_ne _ _ q _ ne ∙ P.get_keeps s q (λ r. ne (sym r)))
    ],
  )

-- A message into which a header was serialized first has its XID.
xid-serialize :
    (v : ℕ) (rest : Bytes) (t0 t1 : ℕ) (m : Message)
    → v < 2 ^ 32
    → m.buffer ≡ []
    → xid (serialize (put32 v ++ rest) t0 t1 m) ≡ v
unfolding xid serialize put32 uint32
xid-serialize v rest t0 t1 m h e = rw e (ground arith)
