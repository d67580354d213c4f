-- ===== src/Rpc/Transport/Methods.antt =====
-- `Send`, `Receive` and `fail`: errors, the state and the pool.
use goxdr.Prelude.{
  ℕ, ◌≤◌, true, false, List, [], ◌∷◌, ◌++◌, Option, none, some, Bool-cases, length, Bytes, refl, ap,
  subst, ◌≡◌, ◌∙◌, ◌⊎◌, inl, inr, Bool, take,
}
use goxdr.Xdr.Heap.{Member, remove, remove_head}
use goxdr.Rpc.Message.{
  Message, MessagePool, Reported, report_to, modify, recycle, new_message, cancel_report,
  set_io_latency,
}
use goxdr.Rpc.Message.Laws.{new_message_lem}
use goxdr.Rpc.Transport.{
  Err, okay, failed, is_okay, StreamTransport, Sent, Receipt, wire, push_chunk, Received,
  got_message, got_error, out_of_fuel, receive_chunks, fail, write_to, send, send_error,
  send_written, receive, finish_receive,
}
use goxdr.Rpc.Transport.Marking.{receive_chunks-wire}
use goxdr.Rpc.Transport.Bounds.{Within, receive_chunks-Within}

-- A transport fails once: the first error stays, and the Conn is closed.
pub fail_lem :
    (e e' : Err) (tx : StreamTransport)
    → tx.state ≡ okay
    → (fail e' (fail e tx) ≡ fail e tx)
      × ((fail e tx).state ≡ failed)
      × ((fail e tx).err ≡ some e)
      × ((fail e tx).conn.closed ≡ true)
unfolding fail
fail_lem e e' tx h = rw h (refl, refl, refl, refl)

module _ (P : MessagePool) where
  modify-Held :
      (f : Message → Message) (p : ℕ) (s : P.State) (held : List ℕ)
      → P.Held s held
      → P.Held (modify P f p s) held
  unfolding modify
  modify-Held f p s held h = P.store_held s p _ held h

  -- What `Receive` says of a message it received.
  abbrev pub Got : ℕ → ℕ → List ℕ → Receipt P.State → Type 0
  Got max p held r =
      (r.msg ≡ some p)
      × (r.err ≡ none)
      × (is_okay r.tx.state ≡ true)
      × P.Held r.pool (p ∷ held)
      × (length (P.load r.pool p).buffer ≤ max)

  -- What it says if there is none: the transport has failed with that error.
  abbrev pub Broken : List ℕ → Receipt P.State → Type 0
  Broken held r =
      (r.msg ≡ none)
      × (r.tx.state ≡ failed)
      × P.Held r.pool held
      × ((e : Err) × (r.err ≡ some e) × (r.tx.err ≡ some e))

  finish_receive_lem :
      (tx : StreamTransport) (l p : ℕ) (s : P.State) (held : List ℕ) (r : Received)
      (cs : List Bytes)
      → is_okay tx.state ≡ true
      → P.Held s (p ∷ held)
      → Within tx.max_msg_size r
      → Got tx.max_msg_size p held (finish_receive P tx l p s (r, cs))
        ⊎ Broken held (finish_receive P tx l p s (r, cs))
  unfolding finish_receive modify recycle fail
  finish_receive_lem tx l p s held (got_message buf) cs o h w = inl (
    refl,
    refl,
    o,
    P.store_held _ p _ _ (P.store_held s p _ _ h),
    rw
        (
          P.load_store_self (P.store s p (record (P.load s p) { buffer = buf })) p
              (set_io_latency l (P.load (P.store s p (record (P.load s p) { buffer = buf })) p)),
          P.load_store_self s p (record (P.load s p) { buffer = buf }),
        )
        w,
  )
  finish_receive_lem tx l p s held (got_error e) cs o h w = inr (
    refl,
    rw o refl,
    subst (P.Held _) (remove_head p held (P.held_nodup s _ h).0)
        (P.recycle_held s p _ h (inl refl)),
    (e, refl, rw o refl),
  )
  finish_receive_lem tx l p s held out_of_fuel cs o h w = absurd w

  -- On every stream a working transport's `Receive` ends in one of two ways: with a message that the
  -- caller holds and whose length is within the maximum, while the transport works on; or with an
  -- error, the first, with the transport failed, its Conn closed and the message back in the pool.
  pub receive_lem :
      (tx : StreamTransport) (l : ℕ) (s : P.State) (held : List ℕ)
      → is_okay tx.state ≡ true
      → P.Held s held
      → Got tx.max_msg_size (new_message P tx.peer s).0 held (receive P tx l s)
        ⊎ Broken held (receive P tx l s)
  unfolding receive
  receive_lem tx l s held o h =
      let new = new_message_lem P tx.peer s held h in
      let r = receive_chunks tx.max_msg_size tx.conn.chunks in
      rw o (
        finish_receive_lem tx l _ _ held r.0 r.1 o new.1
          (receive_chunks-Within tx.max_msg_size tx.conn.chunks))

  load-modify :
      (f : Message → Message) (p : ℕ) (s : P.State) → P.load (modify P f p s) p ≡ f (P.load s p)
  unfolding modify
  load-modify f p s = P.load_store_self s p (f (P.load s p))

  -- The report of a message that was sent in the time `l`.
  abbrev pub sent_report : ℕ → Message → List Reported
  unfolding report_to
  sent_report l m = report_to (set_io_latency l (record m { buffer = [] })) m.report

  -- What `Send` ends with, by whether the transport works and what befalls the write.
  abbrev pub Sends :
      (tx : StreamTransport) (works : Bool) (fault : Option (ℕ × Err)) (l : ℕ) (m : Message)
      (r : Sent P.State)
      → Type 0
  Sends tx false fault l m r = (r.tx ≡ tx) × (r.err ≡ tx.err) × (r.reports ≡ [])
  Sends tx true none l m r =
      (r.tx ≡ record tx { conn = record tx.conn { written = tx.conn.written ++ wire m.buffer } })
      × (r.err ≡ none)
      × (r.reports ≡ sent_report l m)
  Sends tx true (some (n, e)) l m r =
      (r.tx.conn.written ≡ tx.conn.written ++ take n (wire m.buffer))
      × (r.tx.conn.closed ≡ true)
      × (r.tx.state ≡ failed)
      × (r.tx.err ≡ some e)
      × (r.err ≡ some e)
      × (r.reports ≡ [])

  send_error-Held :
      (tx : StreamTransport) (e : Option Err) (p : ℕ) (s : P.State) (held : List ℕ)
      → P.Held s held
      → Member p held
      → P.Held (send_error P tx e p s).pool (remove p held) × ((send_error P tx e p s).reports ≡ [])
  unfolding send_error modify recycle report_to
  send_error-Held tx e p s held h m = (
    P.recycle_held _ p held (P.store_held s p _ held h) m,
    ap {A = Message} (λ m. report_to m m.report) (load-modify cancel_report p s),
  )

  send_written-Sends :
      (tx : StreamTransport) (fault : Option (ℕ × Err)) (l p : ℕ) (s : P.State) (held : List ℕ)
      (m : Message)
      → is_okay tx.state ≡ true
      → P.Held s held
      → Member p held
      → P.load s p ≡ record m { buffer = [] }
      → P.Held (send_written P tx fault l p m.buffer s).pool (remove p held)
        × Sends tx true fault l m (send_written P tx fault l p m.buffer s)
  unfolding send_written send_error fail modify recycle report_to write_to
  send_written-Sends tx none l p s held m o h mem e = (
    P.recycle_held _ p held (P.store_held s p _ held h) mem,
    (
      refl,
      refl,
      ap {A = Message} (λ m. report_to m m.report)
          (load-modify (set_io_latency l) p s ∙ ap {A = Message} (set_io_latency l) e),
    ),
  )
  send_written-Sends tx (some (n, err)) l p s held m o h mem e =
      let tx' = write_to (take n (wire m.buffer)) tx in
      let (kept, quiet) = send_error-Held (fail err tx') (some err) p s held h mem in
      (kept, rw o (refl, refl, refl, refl, refl, quiet))

  -- A working transport whose write goes well has written the message as one record behind what it
  -- wrote before, is otherwise as it was, returns no error and reports the message with its time. A
  -- write that fails leaves a prefix of the record, of the bytes that were written, and the
  -- transport failed with that error, which is returned, its Conn closed and nothing reported. A
  -- transport that does not work stays as it is, and its error is returned. In every case the
  -- message goes back to the pool.
  pub send_lem :
      (tx : StreamTransport) (l p : ℕ) (s : P.State) (held : List ℕ)
      → P.Held s held
      → Member p held
      → P.Held (send P tx l p s).pool (remove p held)
        × Sends tx (is_okay tx.state) tx.conn.write_err l (P.load s p) (send P tx l p s)
  unfolding send send_error
  send_lem tx l p s held h m = elim (Bool-cases (is_okay tx.state)) [
    | inr bad ↦ let r = send_error-Held tx tx.err p s held h m in rw bad (r.0, (refl, refl, r.1))
    | inl good ↦ rw good (
        send_written-Sends tx tx.conn.write_err l p _ held (P.load s p) good
          (modify-Held (λ m. record m { buffer = [] }) p s held h) m
          (load-modify (λ m. record m { buffer = [] }) p s))
  ]

  -- A transport on whose stream a sent message has arrived receives a message with the same bytes,
  -- and leaves what follows, if the length is within its maximum.
  pub receive-wire :
      (tx : StreamTransport) (l : ℕ) (s : P.State) (buf rest : Bytes) (cs : List Bytes)
      → is_okay tx.state ≡ true
      → tx.conn.chunks ≡ push_chunk (wire buf ++ rest) cs
      → length buf ≤ tx.max_msg_size
      → (p : ℕ) × ((receive P tx l s).msg ≡ some p)
        × ((P.load (receive P tx l s).pool p).buffer ≡ buf)
        × ((receive P tx l s).tx.conn.chunks ≡ push_chunk rest cs)
  unfolding receive finish_receive
  receive-wire tx l s buf rest cs o e h =
      let arrived =
        ap (receive_chunks tx.max_msg_size) e ∙ receive_chunks-wire tx.max_msg_size buf rest cs h in
      (
        (new_message P tx.peer s).0,
        rw (o, arrived) refl,
        rw (o, arrived)
            (ap {A = Message} (λ m. m.buffer)
              (load-modify (set_io_latency l) _ _
                ∙ ap {A = Message} (set_io_latency l)
                    (load-modify (λ m. record m { buffer = buf }) _ _))),
        rw (o, arrived) refl,
      )
