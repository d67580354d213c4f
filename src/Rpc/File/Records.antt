-- ===== src/Rpc/File/Records.antt =====
-- A file of messages is read to its end.
use goxdr.Prelude.{
  ℕ, zero, suc, ◌<◌, true, List, [], ◌∷◌, Option, some, length, All, refl, sym, ap, subst, ◌≡◌,
  arith,
}
use goxdr.Xdr.Fault.{ok}
use goxdr.Rpc.Message.{MessagePool}
use goxdr.Rpc.Transport.{
  StreamTransport, is_okay, Conn, new_stream_transport, total_length, push_chunk,
}
use goxdr.Rpc.File.{RecvMsg, FileRun, recv_rpc_msg, next_round, file_loop, receive_file}
use goxdr.Rpc.File.Rounds.{
  Record, put_file, IsRecord, headers, length-put_file, total-push, recv-record, recv-end,
}

module _ (P : MessagePool) where
  -- The run of a loop that passes these messages on and ends with nil, all objects back in the pool
  abbrev pub Reads : List ℕ → List Record → Option (FileRun P.State) → Type 0
  Reads held rs o =
      (run : FileRun P.State) × (o ≡ some run)
      × (run.passed ≡ headers rs)
      × (run.ending ≡ ok tt)
      × P.Held run.pool held

  next_round-Reads :
      (held : List ℕ) (m : Record) (rs : List Record) (r : RecvMsg P.State)
      (rest : Option (FileRun P.State))
      → r.msg ≡ ok (some m.0)
      → Reads held rs rest
      → Reads held (m ∷ rs) (next_round P r rest r.msg)
  next_round-Reads held m rs r rest e (run, again, passed, ending, h) =
      rw (e, again) (_, refl, ap (◌∷◌ m.0) passed, ending, h)

  file_loop-Reads :
      (rs : List Record) (fuel : ℕ) (clock : ℕ → ℕ) (tx : StreamTransport) (s : P.State)
      (held : List ℕ)
      → length rs < fuel
      → is_okay tx.state ≡ true
      → tx.conn.chunks ≡ push_chunk (put_file rs) []
      → All (IsRecord tx.max_msg_size) rs
      → P.Held s held
      → Reads held rs (file_loop P fuel clock tx s)
  unfolding file_loop
  file_loop-Reads rs zero clock tx s held n o e g h = absurd (omega (arith, n))
  file_loop-Reads [] (suc fuel) clock tx s held n o e g h =
      let (last, back) = recv-end P tx (clock fuel) s held o e h in
      rw last (_, refl, refl, refl, back)
  file_loop-Reads (m ∷ rs) (suc fuel) clock tx s held n o e (gm, g) h =
      let (got, now, back) = recv-record P tx (clock fuel) s held m (put_file rs) o e gm h in
      next_round-Reads held m rs (recv_rpc_msg P tx (clock fuel) s) _ got (
        subst
          (λ t. Reads held rs (file_loop P fuel clock t (recv_rpc_msg P tx (clock fuel) s).pool))
          (sym now) (file_loop-Reads rs fuel clock _ _ held (omega (arith, n)) o refl g back))

  -- ReceiveFile of a file of messages, as Send writes them, passes their headers to `proc`, each once
  -- and in their order, returns nil, and every message object is back in the pool, if no message is
  -- longer than the transport's maximum.
  pub receive_file_lem :
      (clock : ℕ → ℕ) (max : ℕ) (file : Conn) (s : P.State) (held : List ℕ) (rs : List Record)
      → file.chunks ≡ push_chunk (put_file rs) []
      → All (IsRecord max) rs
      → P.Held s held
      → (run : FileRun P.State) × (receive_file P clock max file s ≡ some run)
        × (run.passed ≡ headers rs)
        × (run.ending ≡ ok tt)
        × P.Held run.pool held
  unfolding receive_file
  receive_file_lem clock max file s held rs e g h =
      file_loop-Reads rs _ clock (new_stream_transport file max) s held
        (omega (arith, length-put_file rs, ap total_length e, total-push (put_file rs))) refl e g h
