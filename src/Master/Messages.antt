-- ===== src/Master/Messages.antt =====
-- src/ptp_client/ptp/l2master/messages.py: building Announce, Sync, Follow_Up and Delay_Resp, and
-- parsing Announce bodies and Delay_Req, with the lengths and flags of l2master/constants.py.
pub mod Flags
pub mod Ends
pub mod Build
use ptp_client.Prelude.{
  ℕ, ◌+◌, ◌^◌, ◌++◌, [], ◌∷◌, ◌&&◌, ℤ, pos, Bool, true, false, ◌==◌, leb, ltb, leb_ℤ, ltb_ℤ, eq_ℤ,
  length, if◌then◌else◌, mask, with_bit, Result, ok, err, value_error, check, ◌>>=◌, ◌>>◌,
}
use ptp_client.Wire.{Bytes, pack_uint, unpack_uint, slice}
use ptp_client.Timestamp.{PtpTimestamp, pack10, unpack10}
use ptp_client.Header.{
  MessageType, sync, delay_req, follow_up, delay_resp, announce, value, PortIdentity, PtpHeader,
  pack, unpack, pack_identity,
}

abbrev pub header_len : ℕ
header_len = 34

abbrev pub announce_body_len : ℕ
announce_body_len = 30

abbrev pub sync_body_len : ℕ
sync_body_len = 10

abbrev pub follow_up_body_len : ℕ
follow_up_body_len = 10

abbrev pub delay_req_msg_len : ℕ
delay_req_msg_len = header_len + 10

abbrev pub delay_resp_body_len : ℕ
delay_resp_body_len = 20

-- FLAG_TWO_STEP and FLAG_UNICAST of ptp/constants.py are these bits.
abbrev pub two_step_bit : ℕ
two_step_bit = 9

abbrev pub unicast_bit : ℕ
unicast_bit = 10

pub record ClockQuality : Type 0 where
  pub clock_class : ℤ
  pub clock_accuracy : ℤ
  pub offset_scaled_log_variance : ℤ

unfoldable pub clock_quality : ℤ → ℤ → ℤ → Result ClockQuality
clock_quality cc ca v = do
  check (leb_ℤ (pos 0) cc && leb_ℤ cc (pos 255)) value_error
  check (leb_ℤ (pos 0) ca && leb_ℤ ca (pos 255)) value_error
  check (leb_ℤ (pos 0) v && leb_ℤ v (pos 0xffff)) value_error
  ok (record { clock_class = cc; clock_accuracy = ca; offset_scaled_log_variance = v })

unfoldable pub pack_quality : ClockQuality → Result Bytes
pack_quality q = do
  cc ← pack_uint 1 q.clock_class
  ca ← pack_uint 1 q.clock_accuracy
  v ← pack_uint 2 q.offset_scaled_log_variance
  ok (cc ++ (ca ++ v))

unfoldable pub unpack_quality : Bytes → ℕ → Result ClockQuality
unpack_quality bs offset = do
  cc ← unpack_uint 1 bs offset
  ca ← unpack_uint 1 bs (offset + 1)
  v ← unpack_uint 2 bs (offset + 2)
  clock_quality (pos cc) (pos ca) (pos v)

pub record AnnounceBody : Type 0 where
  pub origin_timestamp : PtpTimestamp
  pub current_utc_offset : ℤ
  pub grandmaster_priority1 : ℤ
  pub grandmaster_clock_quality : ClockQuality
  pub grandmaster_priority2 : ℤ
  pub grandmaster_identity : Bytes
  pub steps_removed : ℤ
  pub time_source : ℤ

-- AnnounceBody.__post_init__ on a body with these fields
unfoldable pub announce_body : AnnounceBody → Result AnnounceBody
announce_body b = do
  check (length b.grandmaster_identity == 8) value_error
  check (leb_ℤ (pos 0) b.steps_removed && leb_ℤ b.steps_removed (pos 0xffff)) value_error
  ok b

-- AnnounceBody.pack
unfoldable pub pack_announce : AnnounceBody → Result Bytes
pack_announce b = do
  utc ← pack_uint 2 (pos (mask 16 b.current_utc_offset))
  prio1 ← pack_uint 1 b.grandmaster_priority1
  quality ← pack_quality b.grandmaster_clock_quality
  prio2 ← pack_uint 1 b.grandmaster_priority2
  steps ← pack_uint 2 b.steps_removed
  source ← pack_uint 1 b.time_source
  ok (
      pack10 b.origin_timestamp
      ++ (utc
          ++ (0
              ∷ (prio1 ++ (quality ++ (prio2 ++ (b.grandmaster_identity ++ (steps ++ source))))))))

-- AnnounceBody.unpack; `data[offset + 18]` is in range after the length check
unfoldable pub unpack_announce : Bytes → ℕ → Result AnnounceBody
unpack_announce bs offset = do
  check (leb (offset + announce_body_len) (length bs)) value_error
  ts ← unpack10 bs offset
  utc_offset ← unpack_uint 2 bs (offset + 10)
  prio1 ← unpack_uint 1 bs (offset + 13)
  quality ← unpack_quality bs (offset + 14)
  prio2 ← unpack_uint 1 bs (offset + 18)
  steps ← unpack_uint 2 bs (offset + 27)
  time_source ← unpack_uint 1 bs (offset + 29)
  announce_body (record {
    origin_timestamp = ts;
    current_utc_offset = pos utc_offset;
    grandmaster_priority1 = pos prio1;
    grandmaster_clock_quality = quality;
    grandmaster_priority2 = pos prio2;
    grandmaster_identity = slice bs (offset + 19) 8;
    steps_removed = pos steps;
    time_source = pos time_source;
  })

-- `_header`
unfoldable pub header : MessageType → ℤ → ℤ → PortIdentity → ℤ → ℤ → ℤ → ℤ → ℕ → PtpHeader
header message_type domain_number flags source sequence_id control_field log_message_interval
      transport_specific body_len =
    record {
      message_type = pos (value message_type);
      version_ptp = pos 2;
      message_length = pos (header_len + body_len);
      domain_number = domain_number;
      minor_sdo_id = pos 0;
      flags = pos (mask 16 flags);
      correction_field_ns = pos 0;
      source_identity = source;
      sequence_id = pos (mask 16 sequence_id);
      control_field = control_field;
      log_message_interval = log_message_interval;
      transport_specific = transport_specific;
    }

-- The keyword arguments that all the builders share.
pub record Common : Type 0 where
  pub source : PortIdentity
  pub domain_number : ℤ
  pub sequence_id : ℤ
  pub transport_specific : ℤ
  pub flags : ℤ

unfoldable pub build_announce : Common → AnnounceBody → ℤ → Result Bytes
build_announce c body log_announce_interval = do
  hdr ← pack (
      header announce c.domain_number c.flags c.source c.sequence_id (pos 0x05)
        log_announce_interval c.transport_specific announce_body_len)
  bs ← pack_announce body
  ok (hdr ++ bs)

unfoldable pub build_sync : Common → PtpTimestamp → ℤ → Bool → Result Bytes
build_sync c origin_timestamp log_sync_interval two_step = do
  hdr ← pack (
      header sync c.domain_number (with_bit two_step_bit two_step c.flags) c.source c.sequence_id
        (pos 0x00) log_sync_interval c.transport_specific sync_body_len)
  ok (hdr ++ pack10 origin_timestamp)

unfoldable pub build_follow_up : Common → PtpTimestamp → ℤ → Result Bytes
build_follow_up c precise_origin_timestamp log_sync_interval = do
  hdr ← pack (
      header follow_up c.domain_number (with_bit two_step_bit true c.flags) c.source c.sequence_id
        (pos 0x02) log_sync_interval c.transport_specific follow_up_body_len)
  ok (hdr ++ pack10 precise_origin_timestamp)

unfoldable pub build_delay_resp : Common → PtpTimestamp → PortIdentity → Bool → Result Bytes
build_delay_resp c receive_timestamp requesting unicast = do
  hdr ← pack (
      header delay_resp c.domain_number (with_bit unicast_bit unicast c.flags) c.source
        c.sequence_id (pos 0x03) (pos 0x7f) c.transport_specific delay_resp_body_len)
  port ← pack_identity requesting
  ok (hdr ++ (pack10 receive_timestamp ++ port))

pub record DelayReq : Type 0 where
  pub req_header : PtpHeader
  pub origin_timestamp : PtpTimestamp

unfoldable pub parse_delay_req : Bytes → Result DelayReq
parse_delay_req bs = do
  check (leb header_len (length bs)) value_error
  hdr ← unpack bs 0
  check (eq_ℤ hdr.message_type (pos (value delay_req))) value_error
  check (leb delay_req_msg_len (length bs)) value_error
  origin ← unpack10 bs header_len
  ok (record { req_header = hdr; origin_timestamp = origin })
