-- ===== src/Rpc/Tests/Traces.antt =====
-- A reply that accepts a call, on which the other tests rest.
use goxdr.Prelude.{refl, arith}
use goxdr.Rpc.Header.{RpcMsg, reply, rbody, areply, zero_accepted, ReplyArm, msg_accepted, success}
use goxdr.Rpc.Header.Wire.RoundTrip.{IsMsg}

abbrev pub reply_msg : RpcMsg
reply_msg = record {
  xid = 5;
  body = record {
    mtype = reply;
    u = rbody (record {
      stat = msg_accepted;
      u =
          areply
            (record zero_accepted { reply_data = record { stat = success; u = ReplyArm.results } });
    });
  };
}

pub reply_msg-IsMsg : IsMsg reply_msg
reply_msg-IsMsg =
    (omega arith, (refl, (refl, record { flavor = omega arith; body = omega arith }, refl)))
