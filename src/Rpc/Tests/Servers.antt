-- ===== src/Rpc/Tests/Servers.antt =====
-- A server, and decoded messages, on concrete inputs.
use goxdr.Prelude.{true, [], ◌∷◌, none, some, refl, ◌==◌, if◌then◌else◌}
use goxdr.Xdr.Fault.{ok}
use goxdr.Rpc.Header.{RpcMsg, call, cbody, zero_call, arm_call}
use goxdr.Rpc.Call.{XdrProc}
use goxdr.Rpc.Server.{XdrSrv, RpcSrv, get_proc, args_good}
use goxdr.Rpc.Server.Laws.{candidate, Runs, ReadsArgs, get_proc_lem}

abbrev ping : XdrProc
ping = record {
  prog = 7;
  vers = 1;
  proc = 2;
  read_arg = λ s. ok (tt, s);
  read_res = λ s. ok (tt, s);
}

abbrev service : XdrSrv
service = record { prog = 7; vers = 1; get_proc = λ n. if n == 2 then some ping else none }

abbrev call_msg : RpcMsg
call_msg = record {
  xid = 5;
  body = record {
    mtype = call;
    u = cbody (record zero_call { rpcvers = 2; prog = 7; vers = 1; proc = 2 });
  };
}

-- The service alone.
abbrev server : RpcSrv
server = (7, (1, service) ∷ []) ∷ []

reads : ReadsArgs (candidate server (arm_call call_msg.body.u)) none true
unfolding args_good
reads p e = refl

get_proc_example :
    Runs 5 (candidate server (arm_call call_msg.body.u)) (get_proc server call_msg none)
get_proc_example = get_proc_lem server call_msg none true refl reads
