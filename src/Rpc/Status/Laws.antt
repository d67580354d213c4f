-- ===== src/Rpc/Status/Laws.antt =====
-- Statuses: setting one and testing for success, with no panic on any header.
use goxdr.Prelude.{
  ℕ, ◌<◌, Bool, true, ◌==◌, ◌&&◌, ==_iff, inl, inr, Bool-cases, if◌then◌else◌, length, Bytes, ◌≡◌,
  refl, arith,
}
use goxdr.Xdr.Fault.{ok, throw, other_panic}
use goxdr.Xdr.Codec.{read_into, get32}
use goxdr.Rpc.Header.{
  reply, msg_accepted, success, msg_denied, prog_mismatch, arm_reply, arm_accepted, arm_rejected,
  reply_arm_mismatch, AcceptedReply, ReplyBody, rbody, areply, RpcMsg, get_rbody, get_areply,
  get_rreply, get_reply_mismatch,
}
use goxdr.Rpc.Header.Wire.{read_msg}
use goxdr.Rpc.Status.{
  safe_marshal, set_stat, set_reply_stat, reply_success, is_success, get_msg, ErrorText, not_reply,
  invalid_reply_stat, accepted, mismatch, denied, error_accepted, error_reply, error,
}

-- What `SetStat` makes of the message.
abbrev with_stat : RpcMsg → ℕ → RpcMsg
with_stat m stat = record m {
  body = record {
    mtype = reply;
    u =
        rbody
          (record { stat = msg_accepted; u = areply (accepted_with (arm_reply m.body.u) stat) });
  };
}
  where
    accepted_with : ReplyBody → ℕ → AcceptedReply
    accepted_with r stat = record (arm_accepted r.u) {
      reply_data = record (arm_accepted r.u).reply_data { stat = stat };
    }

-- On every message `SetStat` ends without a panic, keeps the XID, and leaves a message that
-- `IsSuccess` accepts exactly if the status is SUCCESS.
pub set_stat_lem :
    (m : RpcMsg) (stat : ℕ)
    → (m' : RpcMsg) × (set_stat m stat ≡ ok m')
      × (m'.xid ≡ m.xid)
      × (is_success m' ≡ ok (stat == success))
unfolding set_stat is_success reply_success get_rbody get_areply
set_stat_lem m stat = (with_stat m stat, refl, refl, refl)

-- The fields that decide: the discriminants down to the status, over the zero value where `_u`
-- holds another body.
abbrev pub succeeds : RpcMsg → Bool
succeeds m =
    m.body.mtype == reply
    && ((arm_reply m.body.u).stat == msg_accepted
        && (arm_accepted (arm_reply m.body.u).u).reply_data.stat == success)

pub is_success_lem : (m : RpcMsg) → is_success m ≡ ok (succeeds m)
unfolding is_success reply_success get_rbody get_areply
is_success_lem m = ground arith

-- Changing the status of an accepted reply needs no panic, and keeps the XID.
pub set_reply_stat_lem :
    (m : RpcMsg) (stat : ℕ)
    → is_success m ≡ ok true
    → (m' : RpcMsg) × (set_reply_stat m stat ≡ ok m')
      × (m'.xid ≡ m.xid)
      × (is_success m' ≡ ok (stat == success))
unfolding set_reply_stat is_success reply_success get_rbody get_areply
set_reply_stat_lem m stat e = (with_stat m stat, ground arith, refl, refl)

error_accepted_total :
    (r : ReplyBody) → r.stat ≡ msg_accepted → (t : ErrorText) × (error_accepted r ≡ ok t)
unfolding error_accepted get_areply get_reply_mismatch
error_accepted_total r e =
    let d = (arm_accepted r.u).reply_data in
    (
      if d.stat == prog_mismatch then mismatch d.stat (reply_arm_mismatch d.u) else accepted d.stat,
      ground arith,
    )

error_reply_total : (r : ReplyBody) → (t : ErrorText) × (error_reply r ≡ ok t)
unfolding error_reply get_rreply
error_reply_total r = elim (Bool-cases (r.stat == msg_accepted)) [
  | inl e ↦ let (t, p) = error_accepted_total r ((==_iff _ _).0 e) in (t, rw e p)
  | inr e ↦ (
    if r.stat == msg_denied then denied (arm_rejected r.u).stat else invalid_reply_stat,
    rw e (ground arith),
  )
]

-- `Error` gives a text for every message, reply or not, and never panics.
error_total : (m : RpcMsg) → (t : ErrorText) × (error m ≡ ok t)
unfolding error get_rbody
error_total m =
    let (t, p) = error_reply_total (arm_reply m.body.u) in
    (if m.body.mtype == reply then t else not_reply, ground arith)

-- A message that ends inside its first word is not an error but a panic that `safeMarshal` lets
-- through.
pub get_msg_truncated : (s : Bytes) → 0 < length s → length s < 4 → get_msg s ≡ throw other_panic
unfolding get_msg safe_marshal read_msg get32 read_into
get_msg_truncated s lo hi = ground arith
