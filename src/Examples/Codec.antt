-- ===== src/Examples/Codec.antt =====
-- The codecs at concrete inputs.
use ptp_client.Wire.Laws.{FitsInt}
use ptp_client.Header.{follow_up}
use ptp_client.Packet.{parse_follow_up_body}
use ptp_client.Master.Messages.{build_follow_up}
use ptp_client.Master.Messages.Build.{build_follow_up_lem}
use ptp_client.Prelude.{
  ◌≡◌, ◌≤◌, ◌<◌, ◌++◌, refl, [], ◌∷◌, arith, true, pos, negsuc, length, ok, err, some, struct_error,
  ◌+ℤ◌, ◌↔◌,
}
use ptp_client.Wire.{Bytes, unpack_uint}
use ptp_client.Timestamp.{PtpTimestamp, IsValid}
use ptp_client.Header.{PtpHeader, PortIdentity, pack, unpack, wrap_octet, sync, delay_resp}
use ptp_client.Header.Identity.{IsIdentity}
use ptp_client.Header.RoundTrip.{IsHeader, unpack-pack}
use ptp_client.Packet.{parse_sync_body, parse_delay_resp_body}
use ptp_client.Master.Messages.{Common, build_sync, build_delay_resp}
use ptp_client.Master.Messages.Build.{Carries, build_sync_lem, build_delay_resp_lem}
use ptp_client.Master.Transport.{
  build_ethernet_frame, parse_ethernet_frame, ethertype_ptp, ethertype_vlan,
}
use ptp_client.Master.Transport.Frames.{received, parse-build, parse_raises}

abbrev port : PortIdentity
port = record { clock_identity = 1 ∷ 2 ∷ 3 ∷ 4 ∷ 5 ∷ 6 ∷ 7 ∷ 8 ∷ []; port_number = pos 1 }

port-IsIdentity : IsIdentity port
port-IsIdentity = omega arith

abbrev stamp : PtpTimestamp
stamp = record { seconds = pos 1700000000; nanoseconds = pos 999999999 }

stamp-IsValid : IsValid stamp
stamp-IsValid = omega arith

abbrev probe : PtpHeader
probe = record {
  message_type = pos 1;
  version_ptp = pos 2;
  message_length = pos 44;
  domain_number = pos 44;
  minor_sdo_id = pos 3;
  flags = pos 0x0400;
  correction_field_ns = negsuc 5;
  source_identity = port;
  sequence_id = pos 65535;
  control_field = pos 200;
  log_message_interval = negsuc 126;
  transport_specific = pos 1;
}

probe-IsHeader : IsHeader probe
unfolding ◌+ℤ◌
probe-IsHeader = omega arith

unpack-pack_example :
    (bs : Bytes) × (pack probe ≡ ok bs) × (length bs ≡ 34) × (unpack (bs ++ 9 ∷ []) 0 ≡ ok probe)
unpack-pack_example = unpack-pack probe (9 ∷ []) probe-IsHeader

abbrev call : Common
call = record {
  source = port;
  domain_number = pos 24;
  sequence_id = pos 65536;
  transport_specific = pos 0;
  flags = pos 0x0208;
}

interval_ok : FitsInt 1 (wrap_octet (negsuc 3))
unfolding wrap_octet ◌+ℤ◌
interval_ok = omega arith

build_sync_lem_example :
    (bs : Bytes) × (h : PtpHeader) × (build_sync call stamp (negsuc 3) true ≡ ok bs)
    × Carries call sync 44 9 true bs h
    × (parse_sync_body bs h ≡ ok stamp)
build_sync_lem_example =
    build_sync_lem call stamp (negsuc 3) true port-IsIdentity interval_ok stamp-IsValid

build_follow_up_lem_example :
    (bs : Bytes) × (h : PtpHeader) × (build_follow_up call stamp (negsuc 3) ≡ ok bs)
    × Carries call follow_up 44 9 true bs h
    × (parse_follow_up_body bs h ≡ ok stamp)
build_follow_up_lem_example =
    build_follow_up_lem call stamp (negsuc 3) port-IsIdentity interval_ok stamp-IsValid

build_delay_resp_lem_example :
    (bs : Bytes) × (h : PtpHeader) × (build_delay_resp call stamp port true ≡ ok bs)
    × Carries call delay_resp 54 10 true bs h
    × (parse_delay_resp_body bs h ≡ ok (stamp, port))
build_delay_resp_lem_example =
    build_delay_resp_lem call stamp port true port-IsIdentity port-IsIdentity stamp-IsValid

abbrev mac : Bytes
mac = 1 ∷ 0x80 ∷ 0xc2 ∷ 0 ∷ 0 ∷ 0xe ∷ []

parse-build_example :
    (bs : Bytes) × (build_ethernet_frame mac mac (1 ∷ 2 ∷ []) ethertype_ptp (some (pos 100)) (pos 6)
      ≡ ok bs)
    × (parse_ethernet_frame bs 5 6 ≡ ok (some (received mac (1 ∷ 2 ∷ []) 5 6)))
parse-build_example =
    parse-build mac mac (1 ∷ 2 ∷ []) (some (pos 100)) (pos 6) 5 6 refl refl (omega arith)

-- A tagged frame that ends behind its tag.
abbrev runt : Bytes
runt = mac ++ mac ++ 0x81 ∷ 0x00 ∷ 0x60 ∷ 0x64 ∷ []

parse_raises_example : (parse_ethernet_frame runt 5 6 ≡ err struct_error) ↔ (
    (struct_error ≡ struct_error)
    × (16 ≤ length runt)
    × (length runt < 18)
    × (unpack_uint 2 runt 12 ≡ ok ethertype_vlan))
parse_raises_example = parse_raises runt 5 6 struct_error
