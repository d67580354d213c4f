-- ===== src/Rpc/Tests/Drivers.antt =====
-- A driver on concrete inputs.
use goxdr.Prelude.{true, false, [], ◌∷◌, ◌++◌, some, ◌≡◌, refl, arith}
use goxdr.Prelude.Assoc.{lookup}
use goxdr.Xdr.Fault.{ok}
use goxdr.Rpc.Header.{RpcMsg, zero_call, call, cbody}
use goxdr.Rpc.Header.Wire.RoundTrip.{IsMsg, read_msg-put_msg}
use goxdr.Rpc.Status.{safe_marshal, get_msg}
use goxdr.Rpc.Call.{call_arena}
use goxdr.Rpc.CallSet.{new_call, add_call, next_xid, call_header}
use goxdr.Rpc.CallSet.Remove.{Removes}
use goxdr.Rpc.CallSet.Replies.{Delivered}
use goxdr.Rpc.Driver.{out_ready, Packet, returned, Service, Driver, do_msg}
use goxdr.Rpc.Driver.Laws.{do_msg-reply}
use goxdr.Rpc.Tests.Calls.{
  one_call, one_call-IsValid, place, one_call-place, one_call-load, ping, no_calls,
}
use goxdr.Rpc.Tests.Traces.{reply_msg, reply_msg-IsMsg}

abbrev service : Service
service p = returned []

abbrev client : Driver call_arena
client = record { cs = one_call; srv = []; out = []; canceled = false; events = [] }

-- The reply, from the server that the call went to.
abbrev incoming : Packet
incoming = record { peer = 9 ∷ []; bytes = (read_msg-put_msg reply_msg reply_msg-IsMsg).0 ++ [] }

incoming-get : get_msg incoming.bytes ≡ ok (some (reply_msg, []))
unfolding get_msg safe_marshal
incoming-get = rw ((read_msg-put_msg reply_msg reply_msg-IsMsg).2 []) refl

do_msg-reply_example :
    (msg' : RpcMsg) × (d' : Driver call_arena) × (do_msg call_arena service out_ready incoming
        client
      ≡ ok d')
    × (d'.events ≡ client.events ++ record { cb = 3; msg = msg' } ∷ [])
    × Delivered call_arena reply_msg msg' true
    × Removes call_arena 5 one_call d'.cs
    × (d'.out ≡ [])
do_msg-reply_example =
    do_msg-reply call_arena service out_ready incoming client reply_msg [] place 3 ping
      one_call-IsValid incoming-get refl one_call-place one_call-load

abbrev idle : Driver call_arena
idle = record { cs = no_calls; srv = []; out = []; canceled = false; events = [] }

abbrev header : RpcMsg
header = record {
  xid = 5;
  body = record {
    mtype = call;
    u = cbody (record zero_call { rpcvers = 2; prog = 7; vers = 1; proc = 2 });
  };
}

header-IsMsg : IsMsg header
header-IsMsg = (
  omega arith,
  (
    refl,
    record {
      rpcvers = omega arith;
      prog = omega arith;
      vers = omega arith;
      proc = omega arith;
      cred = record { flavor = omega arith; body = omega arith };
      verf = record { flavor = omega arith; body = omega arith };
    },
  ),
)

idle-new_call : new_call call_arena (9 ∷ []) ping 3 no_calls ≡ some (header, one_call)
unfolding new_call next_xid add_call call_header lookup
idle-new_call = refl
