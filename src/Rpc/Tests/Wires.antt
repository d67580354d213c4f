-- ===== src/Rpc/Tests/Wires.antt =====
-- Messages and transports on concrete inputs.
use goxdr.Prelude.{
  ℕ, true, false, [], ◌∷◌, ◌++◌, none, some, Bytes, ◌≡◌, ◌⊎◌, refl, arith, inl, List, All,
}
use goxdr.Xdr.Fault.{throw, other_panic}
use goxdr.Xdr.Heap.{update, Heap, remove}
use goxdr.Xdr.Codec.{put32}
use goxdr.Xdr.Arena.{new_arena}
use goxdr.Xdr.Arena.Ownership.{new_arena-Owns}
use goxdr.Rpc.Header.{RpcMsg, call, cbody, zero_call}
use goxdr.Rpc.Header.Wire.{read_msg, put_msg}
use goxdr.Rpc.Header.Wire.RoundTrip.{IsMsg, Carries, read_msg-put_msg}
use goxdr.Rpc.Status.{get_msg}
use goxdr.Rpc.Status.Laws.{get_msg_truncated}
use goxdr.Rpc.Message.{Message, empty_message, reset_message, msg_arena, new_message}
use goxdr.Rpc.Message.Laws.{new_message_lem}
use goxdr.Rpc.Transport.{
  Err, failing, eof, StreamTransport, new_stream_transport, failed, fail, send, receive, segments,
  wire, push_chunk, receive_chunks, got_message,
}
use goxdr.Rpc.Transport.Marking.{marked, joined, Fragment, segments_lem, receive_chunks-marked}
use goxdr.Rpc.Transport.Methods.{fail_lem, Got, Broken, receive_lem, Sends, send_lem, receive-wire}
use goxdr.Rpc.Transport.Failing.{
  System, Reach, init, start, later, step, win, assign, close, publish, claimed, assigned, closed,
  done, fail_once,
}

-- A call with the XID 5 of procedure 2 of version 1 of program 7.
abbrev call_msg : RpcMsg
call_msg = record {
  xid = 5;
  body = record {
    mtype = call;
    u = cbody (record zero_call { rpcvers = 2; prog = 7; vers = 1; proc = 2 });
  };
}

call_msg-IsMsg : IsMsg call_msg
call_msg-IsMsg = (
  omega arith,
  (
    refl,
    record {
      rpcvers = omega arith;
      prog = omega arith;
      vers = omega arith;
      proc = omega arith;
      cred = record { flavor = omega arith; body = omega arith };
      verf = record { flavor = omega arith; body = omega arith };
    },
  ),
)

read_msg-put_msg_example : Carries read_msg (put_msg call_msg) call_msg
read_msg-put_msg_example = read_msg-put_msg call_msg call_msg-IsMsg

get_msg_truncated_example : get_msg (1 ∷ 2 ∷ []) ≡ throw other_panic
get_msg_truncated_example = get_msg_truncated (1 ∷ 2 ∷ []) (omega arith) (omega arith)

abbrev heap : Heap Message
heap = record { cell = λ p. empty_message; next = 8 }

abbrev messages : msg_arena.State
messages = new_arena empty_message reset_message 16 2 heap

messages-Held : msg_arena.Held messages []
messages-Held = new_arena-Owns empty_message reset_message 16 2 heap (omega arith) (omega arith)

-- A stream with a record of two fragments and three bytes in all, and one byte more.
abbrev stream : List Bytes
unfolding put32
stream = (marked (1 ∷ 2 ∷ []) ((3 ∷ []) ∷ []) ++ 4 ∷ []) ∷ []

receive_chunks-marked_example :
    receive_chunks 3 (push_chunk (marked (1 ∷ 2 ∷ []) ((3 ∷ []) ∷ []) ++ 4 ∷ []) [])
    ≡ (got_message (1 ∷ 2 ∷ 3 ∷ []), (4 ∷ []) ∷ [])
receive_chunks-marked_example =
    receive_chunks-marked 3 (1 ∷ 2 ∷ []) ((3 ∷ []) ∷ []) (4 ∷ []) []
      (omega arith, (omega arith, tt)) (omega arith)

segments_example :
    (x : Bytes) × (ys : List Bytes) × (segments 4 (1 ∷ 2 ∷ 3 ∷ []) ≡ marked x ys)
    × (joined x ys ≡ 1 ∷ 2 ∷ 3 ∷ [])
    × All Fragment (x ∷ ys)
segments_example = segments_lem 4 (1 ∷ 2 ∷ 3 ∷ []) (omega arith)

-- A transport on whose stream a message of three bytes has arrived.
abbrev peer : StreamTransport
peer =
    new_stream_transport
      (record {
        chunks = push_chunk (wire (1 ∷ 2 ∷ 3 ∷ []) ++ 4 ∷ []) [];
        closed = false;
        written = [];
        write_err = none;
      })
      100

fail_example :
    (fail eof (fail eof peer) ≡ fail eof peer)
    × ((fail eof peer).state ≡ failed)
    × ((fail eof peer).err ≡ some eof)
    × ((fail eof peer).conn.closed ≡ true)
fail_example = fail_lem eof eof peer refl

receive_example :
    Got msg_arena 100 (new_message msg_arena [] messages).0 [] (receive msg_arena peer 7 messages)
    ⊎ Broken msg_arena [] (receive msg_arena peer 7 messages)
receive_example = receive_lem msg_arena peer 7 messages [] refl messages-Held

receive-wire_example :
    (p : ℕ) × ((receive msg_arena peer 7 messages).msg ≡ some p)
    × ((msg_arena.load (receive msg_arena peer 7 messages).pool p).buffer ≡ 1 ∷ 2 ∷ 3 ∷ [])
    × ((receive msg_arena peer 7 messages).tx.conn.chunks ≡ (4 ∷ []) ∷ [])
receive-wire_example =
    receive-wire msg_arena peer 7 messages (1 ∷ 2 ∷ 3 ∷ []) (4 ∷ []) [] refl refl (omega arith)

-- A message to send.
abbrev outgoing : ℕ × msg_arena.State
outgoing = new_message msg_arena [] messages

outgoing-Held : msg_arena.Held outgoing.1 (outgoing.0 ∷ [])
outgoing-Held = (new_message_lem msg_arena [] messages [] messages-Held).1

-- Its writes fail behind two bytes.
abbrev breaking : StreamTransport
breaking = record peer { conn = record peer.conn { write_err = some (2, eof) } }

send_example :
    msg_arena.Held
      (send msg_arena breaking 7 outgoing.0 outgoing.1).pool
      (remove outgoing.0 (outgoing.0 ∷ []))
    × Sends msg_arena breaking true
        (some (2, eof))
        7
        (msg_arena.load outgoing.1 outgoing.0)
        (send msg_arena breaking 7 outgoing.0 outgoing.1)
send_example =
    send_lem msg_arena breaking 7 outgoing.0 outgoing.1 (outgoing.0 ∷ []) outgoing-Held (inl refl)

-- Goroutine 0 runs through `fail`.
abbrev errs : ℕ → Err
errs i = eof

abbrev won : System
won = record {
  mem = record (init errs).mem { state = failing };
  pc = update (init errs).pc 0 (claimed eof);
}

abbrev stored : System
stored = record { mem = record won.mem { err = some eof }; pc = update won.pc 0 assigned }

abbrev shut : System
shut = record { mem = record stored.mem { closes = 1 }; pc = update stored.pc 0 closed }

abbrev over : System
over = record { mem = record shut.mem { state = failed }; pc = update shut.pc 0 done }

over-Reach : Reach errs over
over-Reach =
    later {s = shut}
      (later {s = stored}
        (later {s = won} (later {s = init errs} start (step 0 (win refl))) (step 0 assign))
        (step 0 close))
      (step 0 publish)

fail_once_example : ((e : Err) × (over.mem.err ≡ some e)) × (over.mem.closes ≡ 1)
fail_once_example = fail_once over-Reach refl
