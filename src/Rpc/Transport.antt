-- ===== src/Rpc/Transport.antt =====
-- rpc/transport.go: record marking on a stream (RFC 5531, section 11). A `net.Conn` is the chunks
-- that its reads will return, and what was written to it; one `Read` returns at most one chunk,
-- as on a socket, and io.EOF behind the last.
pub mod Marking
pub mod Bounds
pub mod Failing
pub mod Methods
use goxdr.Prelude.{
  ℕ, zero, suc, ◌+◌, ◌-◌, ◌*◌, ◌/◌, ◌%◌, ◌^◌, Bool, true, false, List, [], ◌∷◌, ◌++◌, Option, none,
  some, length, take, drop, ltb, leb, ◌==◌, if◌then◌else◌, Bytes,
}
use goxdr.Xdr.Codec.{put32, uint32}
use goxdr.Rpc.Message.{
  Reported, MessagePool, new_message, modify, recycle, cancel_report, set_io_latency,
}

pub data Err : Type 0 where
  transport_closed : Err
  conn_closed : Err
  eof : Err
  short_read : Err
  too_long : ℕ → ℕ → Err
  other : ℕ → Err

pub record Conn : Type 0 where
  pub chunks : List Bytes
  pub closed : Bool
  pub written : Bytes
  -- if a write fails: how many bytes it wrote before, and the error
  pub write_err : Option (ℕ × Err)

abbrev pub push_chunk : Bytes → List Bytes → List Bytes
push_chunk [] cs = cs
push_chunk (b ∷ bs) cs = (b ∷ bs) ∷ cs

-- What a read returns: the bytes, the error and the chunks left.
pub record Read : Type 0 where
  pub got : Bytes
  pub err : Option Err
  pub left : List Bytes

-- `net.Conn.Read` of a buffer of `n` bytes
unfoldable pub read_chunks : ℕ → List Bytes → Read
read_chunks n [] = record { got = []; err = some eof; left = [] }
read_chunks n (c ∷ cs) = record { got = take n c; err = none; left = push_chunk (drop n c) cs }

-- `io.CopyN` of `n` bytes
unfoldable pub copy_n : ℕ → List Bytes → Read
copy_n n [] = record { got = []; err = if n == 0 then none else some eof; left = [] }
copy_n n (c ∷ cs) =
    let rest = copy_n (n - length c) cs in
    if n == 0
    then record { got = []; err = none; left = c ∷ cs }
    else if leb n (length c)
    then record { got = take n c; err = none; left = push_chunk (drop n c) cs }
    else record rest { got = c ++ rest.got }

-- `okay`: 1, -1 and 0
pub data Okay : Type 0 where
  okay : Okay
  failing : Okay
  failed : Okay

pub record StreamTransport : Type 0 where
  pub max_msg_size : ℕ
  pub conn : Conn
  pub peer : Bytes
  pub state : Okay
  pub err : Option Err

-- `NewStreamTransportWithPool`
abbrev pub new_stream_transport : Conn → ℕ → StreamTransport
new_stream_transport c n = record {
  max_msg_size = n;
  conn = c;
  peer = [];
  state = okay;
  err = none;
}

abbrev pub is_okay : Okay → Bool
is_okay okay = true
is_okay failing = false
is_okay failed = false

-- `fail(err)`, run without interruption
unfoldable pub fail : Err → StreamTransport → StreamTransport
fail e tx =
    if is_okay tx.state
    then record tx { err = some e; conn = record tx.conn { closed = true }; state = failed }
    else tx

-- `Close` and `CloseBecause`
abbrev pub close : StreamTransport → StreamTransport
close tx = fail transport_closed tx

abbrev pub close_because : Err → StreamTransport → StreamTransport
close_because e tx = fail e tx

abbrev pub max_segment : ℕ
max_segment = 2147483647

-- The loop of `Send`: what goes on the stream for a buffer. `0x80000000|uint32(n)` is a sum, as `n`
-- is below 2 ^ 31. The fuel counts the segments.
unfoldable pub segments : ℕ → Bytes → Bytes
segments zero buf = []
segments (suc fuel) buf =
    let n = if ltb max_segment (length buf) then max_segment else length buf in
    let b = if ltb max_segment (length buf) then put32 n else put32 (2 ^ 31 + n) in
    let rest = segments fuel (drop n buf) in
    b ++ take n buf ++ (if length (drop n buf) == 0 then [] else rest)

-- A segment takes at least one byte, or is the last.
abbrev pub wire : Bytes → Bytes
wire buf = segments (suc (length buf)) buf

-- The end of the loop of `Receive`: a message or an error, or the fuel is used up.
pub data Received : Type 0 where
  got_message : Bytes → Received
  got_error : Err → Received
  out_of_fuel : Received

abbrev pub read_error : Option Err → Err
read_error none = short_read
read_error (some e) = e

-- Behind the copy of a fragment: the error, or the rounds that follow if there are `more`.
unfoldable pub join_fragment :
    Bytes → Bool → (Bytes → List Bytes → Received × List Bytes) → Read → Received × List Bytes
join_fragment buf more next r = elim r.err [
  | some e ↦ (got_error e, r.left)
  | none ↦
      let rest = next (buf ++ r.got) r.left in
      if more then rest else (got_message (buf ++ r.got), r.left)
]

-- One round behind the read of the header, which gives the length `n`.
unfoldable pub receive_fragment :
    ℕ
    → Bytes
    → ℕ
    → Bool
    → List Bytes
    → (Bytes → List Bytes → Received × List Bytes)
    → Received × List Bytes
unfolding copy_n join_fragment
receive_fragment max buf n more cs next =
    if ltb max (length buf + n)
    then (got_error (too_long (n + length buf) max), cs)
    else join_fragment buf more next (copy_n n cs)

-- `b[0]&0x80 == 0`
unfoldable pub more_follow : Bytes → Bool
more_follow b = uint32 b / 2 ^ 31 % 2 == 0

-- The loop of `Receive`, with the bytes received so far and the chunks that are still to be read.
unfoldable pub receive_loop : ℕ → ℕ → Bytes → List Bytes → Received × List Bytes
receive_loop max zero buf cs = (out_of_fuel, cs)
receive_loop max (suc fuel) buf cs =
    let r = read_chunks 4 cs in
    let n = uint32 r.got % 2 ^ 31 in
    let rest = receive_fragment max buf n (more_follow r.got) r.left (receive_loop max fuel) in
    if length r.got == 4
    then elim r.err [ none ↦ rest | some e ↦ (got_error e, r.left) ]
    else (got_error (read_error r.err), r.left)

abbrev pub total_length : List Bytes → ℕ
total_length [] = 0
total_length (c ∷ cs) = length c + total_length cs

-- Every round but the last reads the four bytes of a header.
abbrev pub receive_chunks : ℕ → List Bytes → Received × List Bytes
receive_chunks max cs = receive_loop max (suc (total_length cs)) [] cs

-- `iov.WriteTo`, which `m.Next` has moved the whole buffer to
unfoldable pub write_to : Bytes → StreamTransport → StreamTransport
write_to buf tx = record tx { conn = record tx.conn { written = tx.conn.written ++ buf } }

-- What a method returns besides its effects: the reports made and the error.
pub record Sent (S : Type 0) : Type 0 where
  pub tx : StreamTransport
  pub pool : S
  pub reports : List Reported
  pub err : Option Err

pub record Receipt (S : Type 0) : Type 0 where
  pub tx : StreamTransport
  pub pool : S
  pub reports : List Reported
  pub msg : Option ℕ
  pub err : Option Err

module _ (P : MessagePool) where
  -- `Send` of the message `p`, in the time `l`; the deferred `m.Recycle()` ends every branch.
  unfoldable pub send_error : StreamTransport → Option Err → ℕ → P.State → Sent P.State
  unfolding modify recycle
  send_error tx e p s =
      let (reports, s1) = recycle P p (modify P cancel_report p s) in
      record { tx = tx; pool = s1; reports = reports; err = e }

  unfoldable pub send_written :
      StreamTransport → Option (ℕ × Err) → ℕ → ℕ → Bytes → P.State → Sent P.State
  unfolding segments modify recycle fail write_to
  send_written tx none l p buf s =
      let (reports, s1) = recycle P p (modify P (set_io_latency l) p s) in
      record { tx = write_to (wire buf) tx; pool = s1; reports = reports; err = none }
  send_written tx (some (n, e)) l p buf s =
      send_error (fail e (write_to (take n (wire buf)) tx)) (some e) p s

  unfoldable pub send : StreamTransport → ℕ → ℕ → P.State → Sent P.State
  unfolding modify
  send tx l p s =
      if is_okay tx.state
      then send_written tx tx.conn.write_err l p (P.load s p).buffer
          (modify P (λ m. record m { buffer = [] }) p s)
      else send_error tx tx.err p s

  -- `Receive`, behind the loop
  unfoldable pub finish_receive :
      StreamTransport → ℕ → ℕ → P.State → Received × List Bytes → Receipt P.State
  unfolding fail modify recycle
  finish_receive tx l p s (got_message buf, cs) = record {
    tx = record tx { conn = record tx.conn { chunks = cs } };
    pool = modify P (set_io_latency l) p (modify P (λ m. record m { buffer = buf }) p s);
    reports = [];
    msg = some p;
    err = none;
  }
  finish_receive tx l p s (got_error e, cs) =
      let (reports, s1) = recycle P p s in
      record {
        tx = fail e (record tx { conn = record tx.conn { chunks = cs } });
        pool = s1;
        reports = reports;
        msg = none;
        err = some e;
      }
  finish_receive tx l p s (out_of_fuel, cs) = record {
    tx = tx;
    pool = s;
    reports = [];
    msg = none;
    err = none;
  }

  unfoldable pub receive : StreamTransport → ℕ → P.State → Receipt P.State
  unfolding new_message receive_loop
  receive tx l s =
      let (p, s1) = new_message P tx.peer s in
      if is_okay tx.state
      then finish_receive tx l p s1 (receive_chunks tx.max_msg_size tx.conn.chunks)
      else record { tx = tx; pool = s; reports = []; msg = none; err = tx.err }
