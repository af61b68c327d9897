-- ===== src/Capture.antt =====
-- src/ptp_client/ntp/pcap.py: IPv4 and UDP datagrams with their checksums, for capture files. The
-- octets of an address are what inet_aton of the C library gives for it, an argument here.
pub mod Checksum
use ptp_client.Prelude.{
  ℕ, ◌+◌, ◌-◌, ◌*◌, ◌/◌, ◌%◌, ◌^◌, ◌++◌, List, [], ◌∷◌, ◌==◌, ℤ, pos, length, mask, if◌then◌else◌,
  Result, ok, err, ◌>>=◌,
}
use ptp_client.Wire.{Bytes, pack_uint, unpack_uint, from_be}

-- The sum of the 16-bit words; a last odd octet counts as padded with zero.
unfoldable pub word_sum : Bytes → ℕ
word_sum (a ∷ b ∷ rest) = from_be (a ∷ b ∷ []) + word_sum rest
word_sum (a ∷ []) = from_be (a ∷ 0 ∷ [])
word_sum [] = 0

-- (s & 0xFFFF) + (s >> 16)
unfoldable pub carried : ℕ → ℕ
carried s = s % 2 ^ 16 + s / 2 ^ 16

-- (~s) & 0xFFFF
unfoldable pub complement : ℕ → ℕ
complement s = 65535 - s % 2 ^ 16

-- _ipv4_checksum
unfoldable pub ipv4_checksum : Bytes → ℕ
ipv4_checksum header = complement (carried (carried (word_sum header)))

-- A UDP checksum of zero is sent as all ones.
abbrev pub nonzero : ℕ → ℕ
nonzero checksum = if checksum == 0 then 0xffff else checksum

-- _udp_checksum
unfoldable pub udp_checksum : Bytes → Bytes → Bytes → Result ℕ
udp_checksum src dst segment = do
  protocol ← pack_uint 2 (pos 17)
  size ← pack_uint 2 (pos (length segment))
  ok (
      nonzero (
        complement
          (carried (carried (word_sum (src ++ (dst ++ (protocol ++ (size ++ segment)))))))))

-- The 20 octets of the IP header with a given checksum.
unfoldable pub ip_header : ℕ → ℤ → ℕ → Bytes → Bytes → Result Bytes
ip_header total_len ip_id checksum src dst = do
  saddr ← unpack_uint 4 src 0
  daddr ← unpack_uint 4 dst 0
  size ← pack_uint 2 (pos total_len)
  identification ← pack_uint 2 (pos (mask 16 ip_id))
  sum ← pack_uint 2 (pos checksum)
  source ← pack_uint 4 (pos saddr)
  target ← pack_uint 4 (pos daddr)
  ok (
      (0x45 ∷ 0 ∷ [])
      ++ (size ++ (identification ++ ((0x40 ∷ 0 ∷ 64 ∷ 17 ∷ []) ++ (sum ++ (source ++ target))))))

unfoldable pub udp_header : ℤ → ℤ → ℕ → ℕ → Result Bytes
udp_header src_port dst_port udp_len checksum = do
  source ← pack_uint 2 (pos (mask 16 src_port))
  target ← pack_uint 2 (pos (mask 16 dst_port))
  size ← pack_uint 2 (pos udp_len)
  sum ← pack_uint 2 (pos checksum)
  ok (source ++ (target ++ (size ++ sum)))

unfoldable pub build_ipv4_udp_datagram : Bytes → Bytes → ℤ → ℤ → Bytes → ℤ → Result Bytes
build_ipv4_udp_datagram src dst src_port dst_port payload ip_id = do
  blank ← ip_header (28 + length payload) ip_id 0 src dst
  header ← ip_header (28 + length payload) ip_id (ipv4_checksum blank) src dst
  udp_blank ← udp_header src_port dst_port (8 + length payload) 0
  checksum ← udp_checksum src dst (udp_blank ++ payload)
  udp ← udp_header src_port dst_port (8 + length payload) checksum
  ok (header ++ (udp ++ payload))
