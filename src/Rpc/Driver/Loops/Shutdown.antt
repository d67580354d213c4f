-- ===== src/Rpc/Driver/Loops/Shutdown.antt =====
-- A driver whose context is done can stop from every state, by what its goroutines do themselves.
use goxdr.Prelude.{ℕ, true, false, List, [], ◌∷◌, ◌⊎◌, inl, inr, ◌≡◌, refl, arith}
use goxdr.Rpc.Driver.Loops.{
  Reader, receiving, offering, quitting, quit, stopped, Sender, selecting, sending, returned,
  Watcher, waiting, closed, gone, Main, idle, looping, leaving, canceling, finished, Loops, Regime,
  Reach, Moves, none, more, receive_fails, abandon, close_in, close_conn, send_fails, stop_sender,
  watch, close_out, leave, close_driver, cancel_all, refuse, own,
}
use goxdr.Rpc.Driver.Loops.Closing.{Reach-Closes, ReaderCloses, WatcherCloses}

-- What the stages of a shutdown leave: first the goroutine of NewDriver has returned, then that
-- of ReceiveChan, then that of SendChan, then doMsgs, and then nobody waits in safeSend.
abbrev Watched : Loops → Type 0
Watched t = (t.done ≡ true) × (t.conn_closed ≡ true) × (t.out_closed ≡ true) × (t.watcher ≡ gone)

abbrev Read : Loops → Type 0
Read t = Watched t × (t.reader ≡ stopped)

abbrev Sent : Loops → Type 0
Sent t = Read t × (t.sender ≡ returned)

abbrev Ended : Loops → Type 0
Ended t = Sent t × ((t.main ≡ idle) ⊎ (t.main ≡ finished))

module _ {g : Regime} where
  append : {s t u : Loops} → Moves g s t → Moves g t u → Moves g s u
  append r none = r
  append r (more q mv) = more (append r q) mv

  pub Moves-Reach : {s t : Loops} → Reach g s → Moves g s t → Reach g t
  Moves-Reach r none = r
  Moves-Reach r (more q mv) = own (Moves-Reach r q) mv

  watched :
      (s : Loops) (w : Watcher)
      → s.watcher ≡ w
      → WatcherCloses w s
      → s.done ≡ true
      → (t : Loops) × Moves g s t × Watched t
  watched s waiting e c d =
      (_, more (more none (watch e d)) (close_out refl), (d, refl, refl, refl))
  watched s closed e c d = (_, more none (close_out e), (d, c.1, refl, refl))
  watched s gone e c d = (s, none, (d, c.1, c.0, e))

  read : (s : Loops) (r : Reader) → s.reader ≡ r → Watched s → (t : Loops) × Moves g s t × Read t
  read s receiving e w = (
    _,
    more (more (more none (receive_fails e w.1)) (close_in refl)) (close_conn refl),
    ((w.0, refl, w.2, w.3), refl),
  )
  read s (offering m) e w = (
    _,
    more (more (more none (abandon m e w.0)) (close_in refl)) (close_conn refl),
    ((w.0, refl, w.2, w.3), refl),
  )
  read s quitting e w =
      (_, more (more none (close_in e)) (close_conn refl), ((w.0, refl, w.2, w.3), refl))
  read s quit e w = (_, more none (close_conn e), ((w.0, refl, w.2, w.3), refl))
  read s stopped e w = (s, none, (w, e))

  send : (s : Loops) (x : Sender) → s.sender ≡ x → Read s → (t : Loops) × Moves g s t × Sent t
  send s selecting e (w, r) = (_, more none (stop_sender e w.2), (((w.0, refl, w.2, w.3), r), refl))
  send s (sending m) e (w, r) = (
    _,
    more (more none (send_fails m e w.1)) (stop_sender refl w.2),
    (((w.0, refl, w.2, w.3), r), refl),
  )
  send s returned e v = (s, none, (v, e))

  end : (s : Loops) (x : Main) → s.main ≡ x → Sent s → (t : Loops) × Moves g s t × Ended t
  end s idle e v = (s, none, (v, inl e))
  end s looping e v = (
    _,
    more (more (more none (leave e v.0.0.0)) (close_driver refl)) (cancel_all refl),
    ((((refl, v.0.0.1, v.0.0.2, v.0.0.3), v.0.1), v.1), inr refl),
  )
  end s leaving e v = (
    _,
    more (more none (close_driver e)) (cancel_all refl),
    ((((refl, v.0.0.1, v.0.0.2, v.0.0.3), v.0.1), v.1), inr refl),
  )
  end s canceling e v = (_, more none (cancel_all e), (v, inr refl))
  end s finished e v = (s, none, (v, inr e))

  release :
      (s : Loops) (l : List ℕ)
      → s.senders ≡ l
      → Ended s
      → (t : Loops) × Moves g s t × Ended t × (t.senders ≡ [])
  release s [] e v = (s, none, v, e)
  release s (m ∷ l) e v =
      let (t, r, w, q) =
        release (record s { senders = l; done = true }) l refl
          ((((refl, v.0.0.0.1, v.0.0.0.2, v.0.0.0.3), v.0.0.1), v.0.1), v.1) in
      (t, append (more none (refuse m [] l e v.0.0.0.0)) r, w, q)

  -- From every state that a driver can reach whose context is done, wherever its goroutines and those
  -- in safeSend are, there are steps of its own, none of the peer or of a handler, to a state in
  -- which ReceiveChan, SendChan and the goroutine of NewDriver have returned, doMsgs has returned
  -- if it ran, nobody waits in safeSend, both channels and the transport are closed, and nothing
  -- was closed twice.
  pub shutdown_possible :
      {s : Loops}
      → Reach g s
      → s.done ≡ true
      → (t : Loops) × Moves g s t
        × (t.reader ≡ stopped)
        × (t.sender ≡ returned)
        × (t.watcher ≡ gone)
        × ((t.main ≡ idle) ⊎ (t.main ≡ finished))
        × (t.senders ≡ [])
        × ((t.in_closed ≡ true) × (t.out_closed ≡ true) × (t.conn_closed ≡ true))
        × (t.panicked ≡ false)
  shutdown_possible {s} r d =
      let (a, ra, wa) = watched s s.watcher refl (Reach-Closes r).by_watcher d in
      let (b, rb, wb) = read a a.reader refl wa in
      let (c, rc, wc) = send b b.sender refl wb in
      let (e, re, we) = end c c.main refl wc in
      let (t, rt, wt, none_left) = release e e.senders refl we in
      let all = append (append (append (append ra rb) rc) re) rt in
      let v = Reach-Closes (Moves-Reach r all) in
      (
        t,
        all,
        wt.0.0.1,
        wt.0.1,
        wt.0.0.0.3,
        wt.1,
        none_left,
        (in_shut t t.reader refl wt.0.0.1 v.by_reader, wt.0.0.0.2, wt.0.0.0.1),
        v.no_panic,
      )
    where
      in_shut :
          (t : Loops) (x : Reader)
          → t.reader ≡ x
          → t.reader ≡ stopped
          → ReaderCloses t.reader t
          → t.in_closed ≡ true
      in_shut t x e h c = ground arith
