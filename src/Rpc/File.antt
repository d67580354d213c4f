-- ===== src/Rpc/File.antt =====
-- rpc/filerpc.go: the messages of a file, which is the Conn of a transport. A clock gives the time
-- that each Receive takes.
pub mod Rounds
pub mod Records
use goxdr.Prelude.{ℕ, zero, suc, List, [], ◌∷◌, ◌++◌, Option, none, some, Bytes}
use goxdr.Xdr.Fault.{Fault, Result, ok, throw}
use goxdr.Rpc.Header.{RpcMsg}
use goxdr.Rpc.Status.{get_msg}
use goxdr.Rpc.Message.{Reported, MessagePool, recycle}
use goxdr.Rpc.Transport.{
  StreamTransport, Conn, Receipt, new_stream_transport, receive, total_length,
}

-- What `recvRpcMsg` returns, besides its effects: a message, none for an error, or a panic.
pub record RecvMsg (S : Type 0) : Type 0 where
  pub tx : StreamTransport
  pub pool : S
  pub reports : List Reported
  pub msg : Result (Option RpcMsg)

-- What `ReceiveFile` did: the messages that it passed to `proc`, the reports, and how it ended.
pub record FileRun (S : Type 0) : Type 0 where
  pub pool : S
  pub passed : List RpcMsg
  pub reports : List Reported
  pub ending : Result {0} Unit

abbrev pub header_of : Result (Option (RpcMsg × Bytes)) → Result (Option RpcMsg)
header_of (ok none) = ok none
header_of (ok (some r)) = ok (some r.0)
header_of (throw e) = throw e

module _ (P : MessagePool) where
  -- The deferred Recycle runs behind GetMsg, also if that panics; what GetMsg leaves of the message's
  -- buffer goes with it.
  unfoldable pub recycled : Receipt P.State → ℕ → RecvMsg P.State
  unfolding recycle
  recycled r p =
      let (reports, s) = recycle P p r.pool in
      record {
        tx = r.tx;
        pool = s;
        reports = r.reports ++ reports;
        msg = header_of (get_msg (P.load r.pool p).buffer);
      }

  -- `recvRpcMsg`
  unfoldable pub recv_rpc_msg : StreamTransport → ℕ → P.State → RecvMsg P.State
  recv_rpc_msg tx l s =
      let r = receive P tx l s in
      elim r.msg [
        | none ↦ record { tx = r.tx; pool = r.pool; reports = r.reports; msg = ok none }
        | some p ↦ recycled r p
      ]

  abbrev pub pass : RpcMsg → List Reported → FileRun P.State → FileRun P.State
  pass m reports run = record run { passed = m ∷ run.passed; reports = reports ++ run.reports }

  abbrev pub stop : Result {0} Unit → RecvMsg P.State → FileRun P.State
  stop e r = record { pool = r.pool; passed = []; reports = r.reports; ending = e }

  -- The loop of `ReceiveFile`; none if the fuel runs out. An error ends it with nil.
  abbrev pub next_round :
      RecvMsg P.State → Option (FileRun P.State) → Result (Option RpcMsg) → Option (FileRun P.State)
  next_round r rest (throw e) = some (stop (throw e) r)
  next_round r rest (ok none) = some (stop (ok tt) r)
  next_round r none (ok (some m)) = none
  next_round r (some run) (ok (some m)) = some (pass m r.reports run)

  unfoldable pub file_loop : ℕ → (ℕ → ℕ) → StreamTransport → P.State → Option (FileRun P.State)
  file_loop zero clock tx s = none
  file_loop (suc fuel) clock tx s =
      let r = recv_rpc_msg tx (clock fuel) s in
      let rest = file_loop fuel clock r.tx r.pool in next_round r rest r.msg

  -- `ReceiveFile`, of an opened file: a message takes at least one byte.
  unfoldable pub receive_file : (ℕ → ℕ) → ℕ → Conn → P.State → Option (FileRun P.State)
  receive_file clock max file s =
      file_loop (suc (total_length file.chunks)) clock (new_stream_transport file max) s
