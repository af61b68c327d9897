-- ===== src/Header.antt =====
-- src/ptp_client/ptp/header.py: PortIdentity and the 34-octet common header, and the
-- message types of src/ptp_client/ptp/constants.py.
pub mod Bits
pub mod Identity
pub mod Octets
pub mod RoundTrip
pub mod Total
use ptp_client.Prelude.{
  ℕ, suc, ◌+◌, ◌-◌, ◌*◌, ◌/◌, ◌%◌, ◌^◌, ◌++◌, [], ◌∷◌, ◌&&◌, ℤ, pos, negsuc, ◌-ℤ◌, leb, length,
  ◌==◌, if◌then◌else◌, leb_ℤ, ltb_ℤ, mask, Result, ok, err, value_error, check, ◌>>=◌, ◌>>◌,
}
use ptp_client.Wire.{Bytes, be, pack_uint, pack_int, unpack_uint, unpack_int, slice}
use Prim.Native.Nat.{bit_or}

-- `MessageType`, an IntEnum.
pub data MessageType : Type 0 where
  sync delay_req pdelay_req pdelay_resp follow_up delay_resp : MessageType
  pdelay_resp_follow_up announce signaling management : MessageType

-- int(MessageType.X)
abbrev pub value : MessageType → ℕ
value sync = 0x0
value delay_req = 0x1
value pdelay_req = 0x2
value pdelay_resp = 0x3
value follow_up = 0x8
value delay_resp = 0x9
value pdelay_resp_follow_up = 0xa
value announce = 0xb
value signaling = 0xc
value management = 0xd

pub record PortIdentity : Type 0 where
  pub clock_identity : Bytes
  pub port_number : ℤ

-- The constructor call with its `__post_init__`.
unfoldable pub port_identity : Bytes → ℤ → Result PortIdentity
port_identity clock_identity port_number =
    if length clock_identity == 8
    then if leb_ℤ (pos 0) port_number && ltb_ℤ port_number (pos 65536)
      then ok (record { clock_identity = clock_identity; port_number = port_number })
      else err value_error
    else err value_error

-- PortIdentity.pack
unfoldable pub pack_identity : PortIdentity → Result Bytes
pack_identity p = do port ← pack_uint 2 p.port_number; ok (p.clock_identity ++ port)

-- PortIdentity.unpack
unfoldable pub unpack_identity : Bytes → ℕ → Result PortIdentity
unpack_identity bs offset = do
  check (leb (offset + 10) (length bs)) value_error
  port ← unpack_uint 2 bs (offset + 8)
  port_identity (slice bs offset 8) (pos port)

pub record PtpHeader : Type 0 where
  pub message_type : ℤ
  pub version_ptp : ℤ
  pub message_length : ℤ
  pub domain_number : ℤ
  pub minor_sdo_id : ℤ
  pub flags : ℤ
  pub correction_field_ns : ℤ
  pub source_identity : PortIdentity
  pub sequence_id : ℤ
  pub control_field : ℤ
  pub log_message_interval : ℤ
  pub transport_specific : ℤ

-- ((high & 0xF) << 4) | (low & 0xF)
unfoldable pub nibbles : ℤ → ℤ → ℕ
nibbles high low = bit_or (mask 4 high * 2 ^ 4) (mask 4 low)

-- `v if v < 128 else v - 256`
unfoldable pub wrap_octet : ℤ → ℤ
unfolding ◌-ℤ◌
wrap_octet v = if ltb_ℤ v (pos 128) then v else v -ℤ pos 256

-- PTPHeader.pack
unfoldable pub pack : PtpHeader → Result Bytes
pack h = do
  b0 ← pack_uint 1 (pos (nibbles h.transport_specific h.message_type))
  b1 ← pack_uint 1 (pos (nibbles h.minor_sdo_id h.version_ptp))
  message_length ← pack_uint 2 (pos (mask 16 h.message_length))
  domain_number ← pack_uint 1 (pos (mask 8 h.domain_number))
  flags ← pack_uint 2 (pos (mask 16 h.flags))
  correction ← pack_int 8 h.correction_field_ns
  source ← pack_identity h.source_identity
  sequence_id ← pack_uint 2 (pos (mask 16 h.sequence_id))
  control ← pack_int 1 (wrap_octet h.control_field)
  interval ← pack_int 1 (wrap_octet h.log_message_interval)
  ok (
      b0
      ++ (b1
          ++ (message_length
              ++ (domain_number
                  ++ (0
                      ∷ (flags
                          ++ (correction
                              ++ (0
                                  ∷ 0
                                  ∷ 0
                                  ∷ 0
                                  ∷ (source ++ (sequence_id ++ (control ++ interval)))))))))))

-- PTPHeader.unpack
unfoldable pub unpack : Bytes → ℕ → Result PtpHeader
unpack bs offset = do
  check (leb (offset + 34) (length bs)) value_error
  b0 ← unpack_uint 1 bs offset
  b1 ← unpack_uint 1 bs (offset + 1)
  message_length ← unpack_uint 2 bs (offset + 2)
  domain_number ← unpack_uint 1 bs (offset + 4)
  flags ← unpack_uint 2 bs (offset + 6)
  correction_field_ns ← unpack_int 8 bs (offset + 8)
  source_identity ← unpack_identity bs (offset + 20)
  sequence_id ← unpack_uint 2 bs (offset + 30)
  control_field ← unpack_int 1 bs (offset + 32)
  log_message_interval ← unpack_int 1 bs (offset + 33)
  ok (record {
    message_type = pos (b0 % 2 ^ 4);
    version_ptp = pos (b1 % 2 ^ 4);
    message_length = pos message_length;
    domain_number = pos domain_number;
    minor_sdo_id = pos (b1 / 2 ^ 4 % 2 ^ 4);
    flags = pos (mask 16 (pos flags));
    correction_field_ns = correction_field_ns;
    source_identity = source_identity;
    sequence_id = pos (mask 16 (pos sequence_id));
    control_field = pos (mask 8 control_field);
    log_message_interval = log_message_interval;
    transport_specific = pos (b0 / 2 ^ 4 % 2 ^ 4);
  })
