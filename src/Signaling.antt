-- ===== src/Signaling.antt =====
-- src/ptp_client/ptp/signaling.py: the TLVs of unicast negotiation and the Signaling message that
-- carries them. A loop over offsets into the payload is a recursion on the octets left from there.
pub mod Tlvs
pub mod Grants
pub mod Message
pub mod Agreement
use ptp_client.Prelude.{
  ℕ, zero, suc, ◌+◌, ◌*◌, ◌/◌, ◌%◌, ◌^◌, ◌++◌, List, [], ◌∷◌, Bool, true, false, ltb, leb, ◌==◌,
  ◌&&◌, eq_ℤ, ℤ, pos, length, take, drop, mask, if◌then◌else◌, Result, ok, err, value_error, check,
  ◌>>=◌, ◌>>◌,
}
use ptp_client.Wire.{Bytes, pack_uint, pack_int, unpack_uint, unpack_int, from_be}
use ptp_client.Header.{PtpHeader, PortIdentity, pack, unpack, pack_identity, value, signaling}

abbrev pub request_type : ℕ
request_type = 4

abbrev pub grant_type : ℕ
grant_type = 5

abbrev pub cancel_type : ℕ
cancel_type = 6

abbrev pub ack_cancel_type : ℕ
ack_cancel_type = 7

-- (int(pt_message_type) & 0x0F) << 4
unfoldable pub wire_message_type_byte : ℤ → ℕ
wire_message_type_byte t = mask 4 t * 2 ^ 4

unfoldable pub ptp_message_type_from_wire : ℕ → ℕ
ptp_message_type_from_wire b = b / 2 ^ 4 % 2 ^ 4

-- struct.pack("!HH", type, length) + value
unfoldable pub tlv_octets : ℕ → Bytes → Result Bytes
tlv_octets type value = do
  t ← pack_uint 2 (pos type)
  l ← pack_uint 2 (pos (length value))
  ok (t ++ (l ++ value))

-- struct.pack("!BbI", ...): the fields that a request and a grant share.
unfoldable pub period_octets : ℤ → ℤ → ℤ → Result Bytes
period_octets message_type log_period duration = do
  t ← pack_uint 1 (pos (wire_message_type_byte message_type))
  p ← pack_int 1 log_period
  d ← pack_uint 4 (pos (mask 32 duration))
  ok (t ++ (p ++ d))

unfoldable pub build_request_unicast_tlv : ℤ → ℤ → ℤ → Result Bytes
build_request_unicast_tlv message_type log_period duration = do
  body ← period_octets message_type log_period duration
  tlv_octets request_type body

unfoldable pub build_grant_unicast_tlv : ℤ → ℤ → ℤ → ℤ → ℤ → Result Bytes
build_grant_unicast_tlv message_type log_period duration reserved flags = do
  body ← period_octets message_type log_period duration
  r ← pack_uint 1 (pos (mask 8 reserved))
  f ← pack_uint 1 (pos (mask 8 flags))
  tlv_octets grant_type (body ++ (r ++ f))

unfoldable pub build_cancel_unicast_tlv : ℤ → Result Bytes
build_cancel_unicast_tlv message_type = do
  t ← pack_uint 1 (pos (wire_message_type_byte message_type))
  tlv_octets cancel_type (t ++ (0 ∷ []))

unfoldable pub build_ack_cancel_unicast_tlv : ℤ → Result Bytes
build_ack_cancel_unicast_tlv message_type = do
  t ← pack_uint 1 (pos (wire_message_type_byte message_type))
  tlv_octets ack_cancel_type (t ++ (0 ∷ []))

-- What iter_tlvs yields; the length field is the length of the value.
pub record Tlv : Type 0 where
  pub type_field : ℕ
  pub value : Bytes

-- iter_tlvs on the octets from `body_start` on, with fuel for the number of TLVs.
unfoldable pub iter_tlvs_from : ℕ → Bytes → List Tlv
iter_tlvs_from (suc fuel) (a ∷ b ∷ c ∷ d ∷ rest) =
    let later = iter_tlvs_from fuel (drop (from_be (c ∷ d ∷ [])) rest) in
    if leb (from_be (c ∷ d ∷ [])) (length rest)
    then record { type_field = from_be (a ∷ b ∷ []); value = take (from_be (c ∷ d ∷ [])) rest }
      ∷ later
    else []
iter_tlvs_from _ _ = []

abbrev pub iter_tlvs : Bytes → ℕ → List Tlv
iter_tlvs payload body_start = iter_tlvs_from (length payload) (drop body_start payload)

pub record ParsedGrant : Type 0 where
  pub pt_message_type : ℕ
  pub log_inter_message_period : ℤ
  pub duration_sec : ℕ
  pub flags : ℕ

unfoldable pub parse_grant_value : Bytes → Result ParsedGrant
parse_grant_value bs = do
  check (leb 8 (length bs)) value_error
  t ← unpack_uint 1 bs 0
  p ← unpack_int 1 bs 1
  d ← unpack_uint 4 bs 2
  f ← unpack_uint 1 bs 7
  ok (record {
    pt_message_type = ptp_message_type_from_wire t;
    log_inter_message_period = p;
    duration_sec = mask 32 (pos d);
    flags = f;
  })

unfoldable pub parse_request_value : Bytes → Result ParsedGrant
parse_request_value bs = do
  check (leb 6 (length bs)) value_error
  t ← unpack_uint 1 bs 0
  p ← unpack_int 1 bs 1
  d ← unpack_uint 4 bs 2
  ok (record {
    pt_message_type = ptp_message_type_from_wire t;
    log_inter_message_period = p;
    duration_sec = mask 32 (pos d);
    flags = 0;
  })

-- `try: parse_grant_value, except ValueError: parse_request_value if it is long enough`, as the
-- octets of a GRANT TLV add to `out`.
unfoldable pub grant_of : Bytes → Result (List ParsedGrant)
grant_of value = elim (parse_grant_value value) [
  | ok g ↦ ok (g ∷ [])
  | err value_error ↦
      if leb 6 (length value) then (do g ← parse_request_value value; ok (g ∷ [])) else ok []
  | err e ↦ err e
]

-- The first loop of extract_grants_from_signaling_udp.
unfoldable pub grants_of : List Tlv → Result (List ParsedGrant)
grants_of [] = ok []
grants_of (tlv ∷ rest) =
    if tlv.type_field == grant_type
    then (do here ← grant_of tlv.value; later ← grants_of rest; ok (here ++ later))
    else grants_of rest

-- The scan for GRANT headers at every offset, from the octets there.
unfoldable pub scan_grants : Bytes → Result (List ParsedGrant)
scan_grants (a ∷ b ∷ c ∷ d ∷ rest) =
    let later = scan_grants (b ∷ c ∷ d ∷ rest) in
    if (from_be (a ∷ b ∷ []) == grant_type) && leb (from_be (c ∷ d ∷ [])) (length rest)
    then (do here ← grant_of (take (from_be (c ∷ d ∷ [])) rest); more ← later; ok (here ++ more))
    else later
scan_grants _ = ok []

-- `return out` if the TLVs gave any, and the scan otherwise.
unfoldable pub or_scan : Bytes → List ParsedGrant → Result (List ParsedGrant)
or_scan suffix [] = scan_grants suffix
or_scan suffix (g ∷ gs) = ok (g ∷ gs)

unfoldable pub extract_grants_from_signaling_udp : Bytes → Result (List ParsedGrant)
extract_grants_from_signaling_udp payload = do
  hdr ← unpack payload 0
  if eq_ℤ hdr.message_type (pos (value signaling))
      then (do out ← grants_of (iter_tlvs payload 44); or_scan (drop 44 payload) out)
      else ok []

-- The arguments of build_signaling_udp_payload.
pub record SignalingArgs : Type 0 where
  pub domain_number : ℤ
  pub source_identity : PortIdentity
  pub target_identity : PortIdentity
  pub sequence_id : ℤ
  pub version_ptp : ℤ
  pub log_message_interval : ℤ
  pub flags : ℤ

-- The header of a Signaling message with a body of `n` octets.
unfoldable pub signaling_header : SignalingArgs → ℕ → PtpHeader
signaling_header a n = record {
  message_type = pos (value signaling);
  version_ptp = a.version_ptp;
  message_length = pos (34 + n);
  domain_number = pos (mask 8 a.domain_number);
  minor_sdo_id = pos 0;
  flags = a.flags;
  correction_field_ns = pos 0;
  source_identity = a.source_identity;
  sequence_id = pos (mask 16 a.sequence_id);
  control_field = pos 0x05;
  log_message_interval = a.log_message_interval;
  transport_specific = pos 0;
}

unfoldable pub build_signaling_udp_payload : SignalingArgs → Bytes → Result Bytes
build_signaling_udp_payload a tlvs = do
  target ← pack_identity a.target_identity
  hdr ← pack (signaling_header a (length (target ++ tlvs)))
  ok (hdr ++ (target ++ tlvs))
