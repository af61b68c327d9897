-- ===== src/Request.antt =====
-- src/ptp_client/ptp/request_builder.py: payloads from specifications. A specification is a record of
-- the keys that the code looks up: `none` is a missing key, numbers are what `int` makes of them, and
-- texts are lists of code points.

pub mod Front
pub mod Reads
pub mod Builds
pub mod Delay
use ptp_client.Prelude.{
  ℕ, ◌+◌, ◌-◌, ◌*◌, ◌++◌, ◌&&◌, ◌||◌, ◌==◌, List, [], ◌∷◌, Bool, leb, ℤ, pos, negsuc, length, mask,
  if◌then◌else◌, bytes_eq, Option, none, some, Result, ok, err, value_error, ◌>>=◌,
}
use ptp_client.Wire.{Bytes}
use ptp_client.Timestamp.{PtpTimestamp, make, pack10, zero}
use ptp_client.Header.{
  MessageType, sync, delay_req, follow_up, delay_resp, value, PortIdentity, port_identity,
  pack_identity, PtpHeader, pack,
}
use ptp_client.Packet.{message_type_of}

-- A str, by its code points.
abbrev pub Text : Type 0
Text = List ℕ

-- str.isspace, of one code point
unfoldable pub is_space : ℕ → Bool
is_space c =
    (leb 9 c && leb c 13)
    || ((leb 28 c && leb c 32)
        || ((c == 133)
            || ((c == 160)
                || ((c == 5760)
                    || ((leb 8192 c && leb c 8202)
                        || ((leb 8232 c && leb c 8233)
                            || ((c == 8239) || ((c == 8287) || (c == 12288)))))))))

unfoldable pub lstrip : Text → Text
lstrip [] = []
lstrip (c ∷ cs) = let rest = lstrip cs in if is_space c then rest else c ∷ cs

unfoldable pub rstrip : Text → Text
rstrip [] = []
rstrip (c ∷ cs) = elim (rstrip cs) [ [] ↦ if is_space c then [] else c ∷ [] | d ∷ ds ↦ c ∷ d ∷ ds ]

-- s.strip().replace(":", "").replace("-", "")
unfoldable pub without_separators : Text → Text
without_separators [] = []
without_separators (c ∷ cs) =
    let rest = without_separators cs in if (c == 58) || (c == 45) then rest else c ∷ rest

-- The value of a character of "0123456789abcdefABCDEF"; ValueError for any other.
unfoldable pub hex_digit : ℕ → Result ℕ
hex_digit c =
    if leb 48 c && leb c 57
    then ok (c - 48)
    else if leb 97 c && leb c 102
    then ok (c - 87)
    else if leb 65 c && leb c 70
    then ok (c - 55)
    else err value_error

-- bytes.fromhex on an even number of digits
unfoldable pub from_hex : Text → Result Bytes
from_hex [] = ok []
from_hex (a ∷ []) = err value_error
from_hex (a ∷ b ∷ cs) = do
  high ← hex_digit a
  low ← hex_digit b
  rest ← from_hex cs
  ok ((high * 16 + low) ∷ rest)

-- _parse_clock_identity
unfoldable pub parse_clock_identity : Text → Result Bytes
parse_clock_identity s =
    let digits = without_separators (rstrip (lstrip s)) in
    if length digits == 16 then from_hex digits else err value_error

-- The value of a clock_identity key.
pub data ClockValue : Type 0 where
  octets : Bytes → ClockValue
  text : Text → ClockValue

-- A specification's keys of a port identity.
pub record IdentitySpec : Type 0 where
  pub clock_identity : Option ClockValue
  pub port_number : Option ℤ

-- int(spec.get(key, default))
abbrev pub get : Option ℤ → ℤ → ℤ
get none default = default
get (some z) default = z

-- "0001020304050607"
abbrev pub default_clock_identity : Text
default_clock_identity =
    48 ∷ 48 ∷ 48 ∷ 49 ∷ 48 ∷ 50 ∷ 48 ∷ 51 ∷ 48 ∷ 52 ∷ 48 ∷ 53 ∷ 48 ∷ 54 ∷ 48 ∷ 55 ∷ []

unfoldable pub clock_octets : Option ClockValue → Result Bytes
clock_octets none = parse_clock_identity default_clock_identity
clock_octets (some (octets bs)) = ok bs
clock_octets (some (text s)) = parse_clock_identity s

-- _port_identity
unfoldable pub spec_identity : IdentitySpec → Result PortIdentity
spec_identity s = do b ← clock_octets s.clock_identity; port_identity b (get s.port_number (pos 1))

-- {seconds, nanoseconds}
pub record TimestampSpec : Type 0 where
  pub seconds : ℤ
  pub nanoseconds : Option ℤ

-- _ts_from_spec, of a key that is missing or an object
unfoldable pub ts_from_spec : Option TimestampSpec → Result PtpTimestamp
ts_from_spec none = zero
ts_from_spec (some t) = make t.seconds (get t.nanoseconds (pos 0))

-- message_type: a name in lower case without spaces around it, or a number.
pub data TypeValue : Type 0 where
  named : Text → TypeValue
  numbered : ℤ → TypeValue

pub record Spec : Type 0 where
  pub message_type : TypeValue
  pub version_ptp : Option ℤ
  pub domain_number : Option ℤ
  pub flags : Option ℤ
  pub correction_field_ns : Option ℤ
  pub transport_specific : Option ℤ
  pub sequence_id : Option ℤ
  pub log_message_interval : Option ℤ
  pub minor_sdo_id : Option ℤ
  pub control_field : Option ℤ
  pub source : Option IdentitySpec
  pub identity : IdentitySpec
  pub origin_timestamp : Option TimestampSpec
  pub precise_origin_timestamp : Option TimestampSpec
  pub receive_timestamp : Option TimestampSpec
  pub requesting_port_identity : Option IdentitySpec

-- "sync", "delay_req", "follow_up", "delay_resp"
abbrev pub sync_name : Text
sync_name = 115 ∷ 121 ∷ 110 ∷ 99 ∷ []

abbrev pub delay_req_name : Text
delay_req_name = 100 ∷ 101 ∷ 108 ∷ 97 ∷ 121 ∷ 95 ∷ 114 ∷ 101 ∷ 113 ∷ []

abbrev pub follow_up_name : Text
follow_up_name = 102 ∷ 111 ∷ 108 ∷ 108 ∷ 111 ∷ 119 ∷ 95 ∷ 117 ∷ 112 ∷ []

abbrev pub delay_resp_name : Text
delay_resp_name = 100 ∷ 101 ∷ 108 ∷ 97 ∷ 121 ∷ 95 ∷ 114 ∷ 101 ∷ 115 ∷ 112 ∷ []

unfoldable pub type_of_spec : TypeValue → Option MessageType
type_of_spec (named s) =
    if bytes_eq s sync_name
    then some sync
    else if bytes_eq s delay_req_name
    then some delay_req
    else if bytes_eq s follow_up_name
    then some follow_up
    else if bytes_eq s delay_resp_name
    then some delay_resp
    else none
type_of_spec (numbered z) = message_type_of z

unfoldable pub control_default : MessageType → ℤ
control_default sync = pos 0
control_default delay_req = pos 1
control_default follow_up = pos 2
control_default delay_resp = pos 3
control_default _ = pos 0

-- The body of each type that is built; ValueError for the others.
unfoldable pub build_body : MessageType → Spec → Result Bytes
build_body sync s = do t ← ts_from_spec s.origin_timestamp; ok (pack10 t)
build_body delay_req s = do t ← ts_from_spec s.origin_timestamp; ok (pack10 t)
build_body follow_up s = do t ← ts_from_spec s.precise_origin_timestamp; ok (pack10 t)
build_body delay_resp s = do
  recv_ts ← ts_from_spec s.receive_timestamp
  elim s.requesting_port_identity [
    | none ↦ err value_error
    | some req ↦ (do
      req_id ← spec_identity req
      packed ← pack_identity req_id
      ok (pack10 recv_ts ++ packed))
  ]
build_body _ s = err value_error

unfoldable pub source_of : Spec → Result PortIdentity
source_of s = elim s.source [ none ↦ spec_identity s.identity | some src ↦ spec_identity src ]

-- The header in front of a body of `n` octets.
unfoldable pub request_header : MessageType → Spec → PortIdentity → ℕ → PtpHeader
request_header mt s source n = record {
  message_type = pos (value mt);
  version_ptp = get s.version_ptp (pos 2);
  message_length = pos (34 + n);
  domain_number = get s.domain_number (pos 0);
  minor_sdo_id = pos (mask 4 (get s.minor_sdo_id (pos 0)));
  flags = pos (mask 16 (get s.flags (pos 0)));
  correction_field_ns = get s.correction_field_ns (pos 0);
  source_identity = source;
  sequence_id = pos (mask 16 (get s.sequence_id (pos 0)));
  control_field = pos (mask 8 (get s.control_field (control_default mt)));
  log_message_interval = get s.log_message_interval (negsuc 126);
  transport_specific = pos (mask 4 (get s.transport_specific (pos 0)));
}

-- build_ptp_udp_payload behind the message type
unfoldable pub build_typed : MessageType → Spec → Result Bytes
build_typed mt s = do
  source ← source_of s
  body ← build_body mt s
  hdr ← pack (request_header mt s source (length body))
  ok (hdr ++ body)

unfoldable pub build_ptp_udp_payload : Spec → Result Bytes
build_ptp_udp_payload s = elim (type_of_spec s.message_type) [
  | none ↦ err value_error
  | some mt ↦ build_typed mt s
]
