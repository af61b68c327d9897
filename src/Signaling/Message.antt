-- ===== src/Signaling/Message.antt =====
-- src/ptp_client/ptp/signaling.py: build_signaling_message. The fields of the specification are the
-- numbers that `int` makes of them, the correction in units of 2 ** -16 ns as `round` gives it, and
-- the clock identities the octets of their hexadecimal digits.
use ptp_client.Prelude.{
  ℕ, ◌+◌, ◌*◌, ◌^◌, ◌++◌, [], ◌∷◌, ltb_ℤ, eq_ℤ, ℤ, pos, negsuc, length, mask, if◌then◌else◌, Result,
  ok, err, value_error, ◌>>=◌,
}
use ptp_client.Wire.{Bytes, pack_uint, pack_int}
use ptp_client.Signaling.{
  wire_message_type_byte, tlv_octets, request_type, grant_type, cancel_type, ack_cancel_type,
}

pub record SignalingSpec : Type 0 where
  pub major_sdo_id : ℤ
  pub message_type : ℤ
  pub minor_version_ptp : ℤ
  pub version_ptp : ℤ
  pub domain_number : ℤ
  pub minor_sdo_id : ℤ
  pub flags : ℤ
  pub correction_raw : ℤ
  pub message_type_specific : ℤ
  pub clock_identity : Bytes
  pub source_port_id : ℤ
  pub sequence_id : ℤ
  pub control_field : ℤ
  pub log_message_interval : ℤ
  pub target_clock_identity : Bytes
  pub target_port_id : ℤ
  pub tlv_type : ℤ
  pub tlv_message_type : ℤ
  pub log_inter_message_period : ℤ
  pub duration_sec : ℤ
  pub tlv_reserved : ℤ
  pub tlv_flags : ℤ

-- max(-128, min(127, z))
unfoldable pub clamp_octet : ℤ → ℤ
clamp_octet z =
    if ltb_ℤ z (negsuc 127) then negsuc 127 else if ltb_ℤ (pos 127) z then pos 127 else z

-- struct.pack("!BbI", mt_wire, log_period, duration)
unfoldable pub spec_period : SignalingSpec → Result Bytes
spec_period s = do
  t ← pack_uint 1 (pos (wire_message_type_byte s.tlv_message_type))
  p ← pack_int 1 (clamp_octet s.log_inter_message_period)
  d ← pack_uint 4 (pos (mask 32 s.duration_sec))
  ok (t ++ (p ++ d))

-- The TLV of a specification.
unfoldable pub spec_tlv : SignalingSpec → Result Bytes
spec_tlv s =
    if eq_ℤ s.tlv_type (pos request_type)
    then (do v ← spec_period s; tlv_octets request_type v)
    else if eq_ℤ s.tlv_type (pos grant_type)
    then (do
      v ← spec_period s
      r ← pack_uint 1 (pos (mask 8 s.tlv_reserved))
      f ← pack_uint 1 (pos (mask 8 s.tlv_flags))
      tlv_octets grant_type (v ++ (r ++ f)))
    else if eq_ℤ s.tlv_type (pos cancel_type)
    then (do
      t ← pack_uint 1 (pos (wire_message_type_byte s.tlv_message_type))
      tlv_octets cancel_type (t ++ (0 ∷ [])))
    else if eq_ℤ s.tlv_type (pos ack_cancel_type)
    then (do
      t ← pack_uint 1 (pos (wire_message_type_byte s.tlv_message_type))
      tlv_octets ack_cancel_type (t ++ (0 ∷ [])))
    else err value_error

-- The header in front of a body of `n` octets.
unfoldable pub spec_header : SignalingSpec → ℕ → Result Bytes
spec_header s n = do
  b0 ← pack_uint 1 (pos (mask 4 s.major_sdo_id * 2 ^ 4 + mask 4 s.message_type))
  b1 ← pack_uint 1 (pos (mask 4 s.minor_version_ptp * 2 ^ 4 + mask 4 s.version_ptp))
  message_length ← pack_uint 2 (pos (34 + n))
  domain ← pack_uint 1 (pos (mask 8 s.domain_number))
  sdo ← pack_uint 1 (pos (mask 4 s.minor_sdo_id))
  fl ← pack_uint 2 (pos (mask 16 s.flags))
  correction ← pack_int 8 s.correction_raw
  specific ← pack_uint 4 (pos (mask 32 s.message_type_specific))
  port ← pack_uint 2 (pos (mask 16 s.source_port_id))
  seq ← pack_uint 2 (pos (mask 16 s.sequence_id))
  control ← pack_uint 1 (pos (mask 8 s.control_field))
  interval ← pack_int 1 (clamp_octet s.log_message_interval)
  ok (
      (b0 ++ (b1 ++ (message_length ++ (domain ++ (sdo ++ (fl ++ (correction ++ specific)))))))
      ++ (s.clock_identity ++ (port ++ (seq ++ (control ++ interval)))))

unfoldable pub build_signaling_message : SignalingSpec → Result Bytes
build_signaling_message s = do
  tlv ← spec_tlv s
  port ← pack_uint 2 (pos (mask 16 s.target_port_id))
  hdr ← spec_header s (length (s.target_clock_identity ++ (port ++ tlv)))
  ok (hdr ++ (s.target_clock_identity ++ (port ++ tlv)))
