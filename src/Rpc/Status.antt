-- ===== src/Rpc/Status.antt =====
-- rpc/util.go, lines 12-76 and 268-293: the status of a reply, and panics turned into errors.
pub mod Laws
use goxdr.Prelude.{ℕ, ◌+◌, Bool, true, false, ◌&&◌, Option, none, some, ◌==◌, if◌then◌else◌, Bytes}
use goxdr.Xdr.Fault.{Result, ok, throw, xdr_error, other_panic, ◌>>=◌}
use goxdr.Xdr.Codec.{Reader}
use goxdr.Rpc.Header.{
  reply, msg_accepted, msg_denied, success, prog_mismatch, MsgArm, rbody, ReplyBodyArm, areply,
  ReplyBody, RpcMsg, MismatchInfo, get_rbody, get_areply, get_rreply, get_reply_mismatch,
}
use goxdr.Rpc.Header.Wire.{read_msg}

-- The pseudo states of a call that got no reply.
abbrev pub send_err : ℕ
send_err = 97

abbrev pub canceled : ℕ
canceled = 98

abbrev pub garbage_ret : ℕ
garbage_ret = 99

-- `safeMarshal`: an `XdrError` is an error, `none`; any other panic goes on.
unfoldable pub safe_marshal {ℓ} : {A : Type ℓ} → Result A → Result (Option A)
safe_marshal (ok a) = ok (some a)
safe_marshal (throw xdr_error) = ok none
safe_marshal (throw other_panic) = throw other_panic

-- `SetStat(msg, stat)`
unfoldable pub set_stat : RpcMsg → ℕ → Result RpcMsg
set_stat m stat = do
  let b1 = record m.body { mtype = reply }
  r ← get_rbody b1
  let r1 = record r { stat = msg_accepted }
  a ← get_areply r1
  let a1 = record a { reply_data = record a.reply_data { stat = stat } }
  ok (record m { body = record b1 { u = rbody (record r1 { u = areply a1 }) } })

-- `rmsg.Body.Rbody().Areply().Reply_data.Stat = stat`
unfoldable pub set_reply_stat : RpcMsg → ℕ → Result RpcMsg
set_reply_stat m stat = do
  r ← get_rbody m.body
  a ← get_areply r
  let a1 = record a { reply_data = record a.reply_data { stat = stat } }
  ok (record m { body = record m.body { u = rbody (record r { u = areply a1 }) } })

-- The last two tests of `IsSuccess`.
unfoldable pub reply_success : ReplyBody → Result Bool
reply_success r =
    if r.stat == msg_accepted
    then get_areply r >>= (λ a. ok (a.reply_data.stat == success))
    else ok false

-- `IsSuccess(rmsg)` of a message that is not nil
unfoldable pub is_success : RpcMsg → Result Bool
is_success m = if m.body.mtype == reply then get_rbody m.body >>= reply_success else ok false

-- `GetMsg(in)`: the header and the bytes behind it, or `none` for the error
unfoldable pub get_msg : Bytes → Result (Option (RpcMsg × Bytes))
get_msg s = safe_marshal (read_msg s)

-- What `Error` says. The texts come from the generated tables of comments and names.
pub data ErrorText : Type 0 where
  not_reply invalid_reply_stat : ErrorText
  accepted : ℕ → ErrorText
  mismatch : ℕ → MismatchInfo → ErrorText
  denied : ℕ → ErrorText

unfoldable pub error_accepted : ReplyBody → Result ErrorText
error_accepted r = get_areply r >>= λ a.
    if a.reply_data.stat == prog_mismatch
    then get_reply_mismatch a.reply_data >>= (λ m. ok (mismatch a.reply_data.stat m))
    else ok (accepted a.reply_data.stat)

unfoldable pub error_reply : ReplyBody → Result ErrorText
error_reply r =
    if r.stat == msg_accepted
    then error_accepted r
    else if r.stat == msg_denied
    then get_rreply r >>= (λ j. ok (denied j.stat))
    else ok invalid_reply_stat

-- `Error()`
unfoldable pub error : RpcMsg → Result ErrorText
error m = if m.body.mtype == reply then get_rbody m.body >>= error_reply else ok not_reply
