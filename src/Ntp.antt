-- ===== src/Ntp.antt =====
-- src/ptp_client/ntp/packet.py: the NTPv4 packet on the wire. The conversions from and to
-- floating-point seconds are not part of it.
pub mod RoundTrip
use ptp_client.Prelude.{
  ℕ, ◌+◌, ◌*◌, ◌/◌, ◌%◌, ◌^◌, ◌++◌, List, [], ◌∷◌, leb, ◌==◌, ℤ, pos, length, mask, if◌then◌else◌,
  Option, none, some, Result, ok, err, value_error, check, ◌>>=◌, ◌>>◌,
}
use ptp_client.Wire.{Bytes, be, pack_uint, pack_int, unpack_uint, unpack_int, slice}

-- NTPTime
pub record NtpTime : Type 0 where
  pub seconds : ℤ
  pub fraction : ℤ

-- NTPTime.pack
unfoldable pub pack_time : NtpTime → Result Bytes
pack_time t = do s ← pack_uint 4 (pos (mask 32 t.seconds)); f ← pack_uint 4 t.fraction; ok (s ++ f)

-- NTPTime.unpack
unfoldable pub unpack_time : Bytes → ℕ → Result NtpTime
unpack_time bs offset = do
  s ← unpack_uint 4 bs offset
  f ← unpack_uint 4 bs (offset + 4)
  ok (record { seconds = pos s; fraction = pos f })

-- ((li & 0x3) << 6) | ((vn & 0x7) << 3) | (mode & 0x7): the fields are disjoint, so that `|` is `+`.
unfoldable pub pack_li_vn_mode : ℤ → ℤ → ℤ → ℕ
pack_li_vn_mode li vn mode = mask 2 li * 2 ^ 6 + mask 3 vn * 2 ^ 3 + mask 3 mode

unfoldable pub unpack_li_vn_mode : ℕ → ℕ × ℕ × ℕ
unpack_li_vn_mode b = (b / 2 ^ 6 % 2 ^ 2, b / 2 ^ 3 % 2 ^ 3, b % 2 ^ 3)

-- NTPPacket
pub record NtpPacket : Type 0 where
  pub leap_indicator : ℤ
  pub version : ℤ
  pub mode : ℤ
  pub stratum : ℤ
  pub poll : ℤ
  pub precision : ℤ
  pub root_delay : ℤ
  pub root_dispersion : ℤ
  pub reference_id : Bytes
  pub reference_timestamp : NtpTime
  pub origin_timestamp : NtpTime
  pub receive_timestamp : NtpTime
  pub transmit_timestamp : NtpTime

-- NTPPacket.from_bytes
unfoldable pub from_bytes : Bytes → Result NtpPacket
from_bytes bs = do
  check (leb 48 (length bs)) value_error
  first ← unpack_uint 1 bs 0
  stratum ← unpack_uint 1 bs 1
  poll ← unpack_uint 1 bs 2
  precision ← unpack_int 1 bs 3
  root_delay ← unpack_uint 4 bs 4
  root_dispersion ← unpack_uint 4 bs 8
  reference ← unpack_time bs 16
  origin ← unpack_time bs 24
  receive ← unpack_time bs 32
  transmit ← unpack_time bs 40
  ok (record {
    leap_indicator = pos (unpack_li_vn_mode first).0;
    version = pos (unpack_li_vn_mode first).1;
    mode = pos (unpack_li_vn_mode first).2;
    stratum = pos stratum;
    poll = pos poll;
    precision = precision;
    root_delay = pos root_delay;
    root_dispersion = pos root_dispersion;
    reference_id = slice bs 12 4;
    reference_timestamp = reference;
    origin_timestamp = origin;
    receive_timestamp = receive;
    transmit_timestamp = transmit;
  })

-- NTPPacket.pack
unfoldable pub pack_packet : NtpPacket → Result Bytes
pack_packet p = do
  check (length p.reference_id == 4) value_error
  first ← pack_uint 1 (pos (pack_li_vn_mode p.leap_indicator p.version p.mode))
  stratum ← pack_uint 1 (pos (mask 8 p.stratum))
  poll ← pack_uint 1 (pos (mask 8 p.poll))
  precision ← pack_int 1 p.precision
  root_delay ← pack_uint 4 (pos (mask 32 p.root_delay))
  root_dispersion ← pack_uint 4 (pos (mask 32 p.root_dispersion))
  reference ← pack_time p.reference_timestamp
  origin ← pack_time p.origin_timestamp
  receive ← pack_time p.receive_timestamp
  transmit ← pack_time p.transmit_timestamp
  ok (
      (first
        ++ (stratum
            ++ (poll ++ (precision ++ (root_delay ++ (root_dispersion ++ p.reference_id))))))
      ++ (reference ++ (origin ++ (receive ++ transmit))))
