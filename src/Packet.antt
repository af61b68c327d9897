-- ===== src/Packet.antt =====
-- src/ptp_client/ptp/packet.py: the bodies of Sync, Follow_Up, Delay_Req and Delay_Resp.
use ptp_client.Prelude.{
  ℕ, ◌+◌, ℤ, pos, ltb_ℤ, eq_ℤ, length, if◌then◌else◌, Option, none, some, Result, ok, err,
  value_error, ◌>>=◌,
}
use ptp_client.Wire.{Bytes}
use ptp_client.Timestamp.{PtpTimestamp, unpack10}
use ptp_client.Header.{
  MessageType, sync, delay_req, pdelay_req, pdelay_resp, follow_up, delay_resp,
  pdelay_resp_follow_up, announce, signaling, management, value, PortIdentity, PtpHeader,
  unpack_identity,
}

pub data Body : Type 0 where
  sync_body : PtpTimestamp → Body
  follow_up_body : PtpTimestamp → Body
  delay_req_body : PtpTimestamp → Body
  delay_resp_body : PtpTimestamp → PortIdentity → Body

abbrev pub body_off : ℕ
body_off = 34

unfoldable pub parse_sync_body : Bytes → PtpHeader → Result PtpTimestamp
parse_sync_body bs h =
    if ltb_ℤ (pos (length bs)) h.message_length
    then err value_error
    else if ltb_ℤ h.message_length (pos (body_off + 10))
    then err value_error
    else unpack10 bs body_off

unfoldable pub parse_follow_up_body : Bytes → PtpHeader → Result PtpTimestamp
parse_follow_up_body bs h =
    if ltb_ℤ h.message_length (pos (body_off + 10)) then err value_error else unpack10 bs body_off

unfoldable pub parse_delay_req_body : Bytes → PtpHeader → Result PtpTimestamp
parse_delay_req_body bs h =
    if ltb_ℤ h.message_length (pos (body_off + 10)) then err value_error else unpack10 bs body_off

unfoldable pub parse_delay_resp_body : Bytes → PtpHeader → Result (PtpTimestamp × PortIdentity)
parse_delay_resp_body bs h =
    if ltb_ℤ h.message_length (pos (body_off + 20)) then err value_error else do
      receive_timestamp ← unpack10 bs body_off
      requesting ← unpack_identity bs (body_off + 10)
      ok (receive_timestamp, requesting)

-- MessageType(v), with `none` for the ValueError.
unfoldable pub message_type_of : ℤ → Option MessageType
message_type_of v =
    if eq_ℤ v (pos (value sync))
    then some sync
    else if eq_ℤ v (pos (value delay_req))
    then some delay_req
    else if eq_ℤ v (pos (value pdelay_req))
    then some pdelay_req
    else if eq_ℤ v (pos (value pdelay_resp))
    then some pdelay_resp
    else if eq_ℤ v (pos (value follow_up))
    then some follow_up
    else if eq_ℤ v (pos (value delay_resp))
    then some delay_resp
    else if eq_ℤ v (pos (value pdelay_resp_follow_up))
    then some pdelay_resp_follow_up
    else if eq_ℤ v (pos (value announce))
    then some announce
    else if eq_ℤ v (pos (value signaling))
    then some signaling
    else if eq_ℤ v (pos (value management))
    then some management
    else none

-- The body of one message type; `none` for a type that has no parser here.
unfoldable pub parse_body : MessageType → Bytes → PtpHeader → Result (Option Body)
parse_body sync bs h = do t ← parse_sync_body bs h; ok (some (sync_body t))
parse_body follow_up bs h = do t ← parse_follow_up_body bs h; ok (some (follow_up_body t))
parse_body delay_req bs h = do t ← parse_delay_req_body bs h; ok (some (delay_req_body t))
parse_body delay_resp bs h = do (t, p) ← parse_delay_resp_body bs h; ok (some (delay_resp_body t p))
parse_body _ bs h = ok none

unfoldable pub parse_body_for_message_type : Bytes → PtpHeader → Result (Option Body)
parse_body_for_message_type bs h = elim (message_type_of h.message_type) [
  | none ↦ ok none
  | some mt ↦ parse_body mt bs h
]
