-- ===== src/Rpc/Tests/Files.antt =====
-- A file of two calls.
use goxdr.Prelude.{none, ℕ, ◌<◌, ◌^◌, false, List, [], ◌∷◌, some, ◌≡◌, refl, arith}
use goxdr.Xdr.Fault.{ok}
use goxdr.Xdr.Heap.{Heap}
use goxdr.Xdr.Arena.{new_arena}
use goxdr.Xdr.Arena.Ownership.{new_arena-Owns}
use goxdr.Xdr.Codec.{put32, put_var_bytes, put_bytes, zerofill}
use goxdr.Rpc.Header.{RpcMsg, call, cbody, zero_call, get_cbody}
use goxdr.Rpc.Header.Wire.{put_msg, put_body, put_msg_arm, put_call, put_auth}
use goxdr.Rpc.Header.Wire.RoundTrip.{IsMsg}
use goxdr.Rpc.Message.{Message, empty_message, reset_message, msg_arena}
use goxdr.Rpc.Transport.{Conn, push_chunk}
use goxdr.Rpc.File.{FileRun, receive_file}
use goxdr.Rpc.File.Rounds.{Record, put_file}
use goxdr.Rpc.File.Records.{receive_file_lem}

-- A call with this XID of procedure 2 of version 1 of program 7
abbrev call_msg : ℕ → RpcMsg
call_msg xid = record {
  xid = xid;
  body = record {
    mtype = call;
    u = cbody (record zero_call { rpcvers = 2; prog = 7; vers = 1; proc = 2 });
  };
}

call_msg-IsMsg : (xid : ℕ) → xid < 2 ^ 32 → IsMsg (call_msg xid)
call_msg-IsMsg xid h = (
  h,
  (
    refl,
    record {
      rpcvers = omega arith;
      prog = omega arith;
      vers = omega arith;
      proc = omega arith;
      cred = record { flavor = omega arith; body = omega arith };
      verf = record { flavor = omega arith; body = omega arith };
    },
  ),
)

abbrev heap : Heap Message
heap = record { cell = λ p. empty_message; next = 8 }

abbrev messages : msg_arena.State
messages = new_arena empty_message reset_message 16 2 heap

messages-Held : msg_arena.Held messages []
messages-Held = new_arena-Owns empty_message reset_message 16 2 heap (omega arith) (omega arith)

-- The second call has four bytes of arguments.
abbrev calls : List Record
calls = (call_msg 5, []) ∷ (call_msg 6, 0 ∷ 0 ∷ 0 ∷ 1 ∷ []) ∷ []

abbrev file : Conn
file = record {
  chunks = push_chunk (put_file calls) [];
  closed = false;
  written = [];
  write_err = none;
}

receive_file_lem_example :
    (run : FileRun msg_arena.State) × (receive_file msg_arena (λ i. 7) 100 file messages ≡ some run)
    × (run.passed ≡ call_msg 5 ∷ call_msg 6 ∷ [])
    × (run.ending ≡ ok tt)
    × msg_arena.Held run.pool []
unfolding put_msg put_body put_msg_arm get_cbody put32 put_call put_auth put_var_bytes put_bytes
    zerofill
receive_file_lem_example =
    receive_file_lem msg_arena (λ i. 7) 100 file messages [] calls refl
      (
        (call_msg-IsMsg 5 (omega arith), omega arith),
        ((call_msg-IsMsg 6 (omega arith), omega arith), tt),
      )
      messages-Held
