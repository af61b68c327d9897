-- ===== src/Examples/Clients.antt =====
-- The client's buffer and the NTP packet at concrete inputs.
use ptp_client.Prelude.{
  ℕ, ◌^◌, ◌∙◌, ◌≡◌, ap, ◌≤◌, ◌<◌, ◌++◌, ◌+ℤ◌, [], ◌∷◌, List, arith, pos, negsuc, ◌≤ℤ◌, Bool, true,
  false, length, ok, eq_ℤ,
}
use ptp_client.Wire.{Bytes, be, unpack_uint}
use ptp_client.Header.{PtpHeader, unpack}
use ptp_client.Capture.{ip_header, ipv4_checksum, carried, word_sum}
use ptp_client.Capture.Checksum.{ip_header_lem}
use ptp_client.Wire.Laws.{from_be-be, unpack_uint-inside}
use ptp_client.Client.{Datagram, append_bounded, cut, ingest_ptp_datagram}
use ptp_client.Client.Buffer.{IsShort, ingest_lem}
use ptp_client.Ntp.{NtpTime, NtpPacket, pack_packet, from_bytes}
use ptp_client.Ntp.RoundTrip.{IsPacket, from_bytes-pack_packet}
use ptp_client.Examples.Running.{request_frame, request_frame-FrameFits, waiting}

abbrev older : Datagram
older = record { header = waiting.request; payload = 1 ∷ []; wall = 5 }

ingest_lem_example :
    (buffer' : List Datagram) × (accepted : Bool) × (ingest_ptp_datagram 1
        (older ∷ [])
        request_frame.payload
        9
      ≡ ok (buffer', accepted))
    × (length buffer' ≤ 1)
    × (accepted ≡ false → (buffer' ≡ older ∷ []) × IsShort request_frame.payload)
    × (accepted ≡ true
        → (h : PtpHeader) × (34 ≤ length request_frame.payload)
          × (unpack request_frame.payload 0 ≡ ok h)
          × (h.message_length ≤ℤ pos (length request_frame.payload))
          × (buffer'
              ≡ append_bounded 1
                  (older ∷ [])
                  (record { header = h; payload = cut h request_frame.payload; wall = 9 })))
ingest_lem_example =
    ingest_lem 1 (older ∷ []) request_frame.payload 9 (omega arith) (omega arith)
      request_frame-FrameFits.octets

abbrev is_delay_req : Datagram → Bool
is_delay_req d = eq_ℤ d.header.message_type (pos 1)

abbrev instant : NtpTime
instant = record { seconds = pos 3908988800; fraction = pos 2147483648 }

abbrev query : NtpPacket
query = record {
  leap_indicator = pos 3;
  version = pos 4;
  mode = pos 3;
  stratum = pos 2;
  poll = pos 6;
  precision = negsuc 22;
  root_delay = pos 4294967295;
  root_dispersion = pos 1;
  reference_id = 71 ∷ 80 ∷ 83 ∷ 0 ∷ [];
  reference_timestamp = instant;
  origin_timestamp = instant;
  receive_timestamp = record { seconds = pos 0; fraction = pos 0 };
  transmit_timestamp = record { seconds = pos 4294967295; fraction = pos 4294967295 };
}

query-IsPacket : IsPacket query
unfolding ◌+ℤ◌
query-IsPacket = omega arith

from_bytes-pack_packet_example :
    (bs : Bytes) × (pack_packet query ≡ ok bs)
    × (length bs ≡ 48)
    × (from_bytes (bs ++ 7 ∷ []) ≡ ok query)
from_bytes-pack_packet_example = from_bytes-pack_packet query (7 ∷ []) query-IsPacket

-- The octets of an address.
address_read : (n : ℕ) → n < 2 ^ 32 → unpack_uint 4 (be 4 n) 0 ≡ ok n
address_read n small = unpack_uint-inside 4 (be 4 n) 0 (omega arith) ∙ ap ok (from_be-be 4 n small)

ip_header_lem_example :
    (blank : Bytes) × (bs : Bytes) × (ip_header 76 (pos 70000) 0 (be 4 167772161) (be 4 167772162)
      ≡ ok blank)
    × (ip_header 76 (pos 70000) (ipv4_checksum blank) (be 4 167772161) (be 4 167772162) ≡ ok bs)
    × (length bs ≡ 20)
    × (carried (carried (word_sum bs)) ≡ 65535)
ip_header_lem_example =
    ip_header_lem 76 (pos 70000) (be 4 167772161) (be 4 167772162) 167772161 167772162 (omega arith)
      (address_read 167772161 (omega arith)) (address_read 167772162 (omega arith)) (omega arith)
      (omega arith)
