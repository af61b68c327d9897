-- ===== src/Examples/Sending.antt =====
-- Schedules, the TX loop and Signaling at concrete inputs.
use ptp_client.Prelude.{
  ◌+◌, ◌*◌, ◌<◌, ◌≤◌, ◌≡◌, refl, arith, [], ◌∷◌, List, pos, negsuc, true, false, ok, ltb,
  if◌then◌else◌, ◌+ℤ◌,
}
use ptp_client.Wire.{Bytes}
use ptp_client.Header.{PortIdentity, unpack, wrap_octet}
use ptp_client.Header.Total.{unpack_total, decoded}
use ptp_client.Header.Identity.{IsIdentity}
use ptp_client.Master.Scheduler.{PeriodicScheduler, due, advance}
use ptp_client.Master.Scheduler.Deadlines.{IsAligned, advance-due}
use ptp_client.Master.Node.{active}
use ptp_client.Master.Loop.{TxLoop, Turn, continues, stops, dies, tx_turn}
use ptp_client.Signaling.{
  SignalingArgs, signaling_header, build_grant_unicast_tlv, build_signaling_udp_payload,
  extract_grants_from_signaling_udp, iter_tlvs_from, Tlv,
}
use ptp_client.Signaling.{request_type, grant_type, build_request_unicast_tlv}
use ptp_client.Signaling.Message.{SignalingSpec, spec_tlv}
use ptp_client.Signaling.Agreement.{spec_tlv_lem}
use ptp_client.Signaling.Tlvs.{encode, iter_encode}
use ptp_client.Signaling.Grants.{grant, extract_back}
use ptp_client.Examples.Running.{
  lab_master, t1, precise, slave_port, own_port, request_frame, request_frame-FrameFits,
}
use ptp_client.Master.Transmit.Pair.{undisturbed}

-- Eight Syncs a second, at a deadline on the grid.
abbrev eighth : PeriodicScheduler
eighth = record { interval = 125000000; deadline = 1000000000; skipped = 0 }

advance-due_example :
    let (s', late) = advance eighth 1100000000 in
    IsAligned s'
    × (1100000000 < s'.deadline)
    × (s'.deadline ≤ 1100000000 + eighth.interval)
    × (s'.interval ≡ eighth.interval)
    × (late ≡ ltb (2 * eighth.deadline + eighth.interval) (2 * 1100000000))
    × (s'.skipped ≡ eighth.skipped + (if late then 1 else 0))
unfolding due
advance-due_example = advance-due eighth 1100000000 (omega arith) refl refl

abbrev healthy : TxLoop
healthy = record {
  master = lab_master;
  announce_schedule = eighth;
  sync_schedule = eighth;
  gen = 0;
  backoff = 0;
}

-- A turn whose Announce is due, and is refused by the transport.
abbrev unplugged : Turn
unplugged = record {
  now = 1000000000;
  stamp = t1;
  announce_taken = false;
  pair = undisturbed t1 precise;
  stopped_in_backoff = false;
  after_backoff = 2000000000;
}

abbrev retrying : TxLoop
retrying = elim (tx_turn healthy unplugged) [
  | continues l ↦ l
  | stops l ↦ healthy
  | dies l e ↦ healthy
]

unpack_total_example :
    (p : PortIdentity) × (unpack request_frame.payload 0 ≡ ok (decoded request_frame.payload 0 p))
    × IsIdentity p
unpack_total_example =
    unpack_total request_frame.payload 0 request_frame-FrameFits.octets (omega arith)

abbrev session : SignalingArgs
session = record {
  domain_number = pos 44;
  source_identity = own_port;
  target_identity = slave_port;
  sequence_id = pos 3;
  version_ptp = pos 2;
  log_message_interval = pos 127;
  flags = pos 0x0400;
}

extract_back_example :
    (bs : Bytes) × (payload : Bytes) × (build_grant_unicast_tlv
        (pos 11)
        (negsuc 2)
        (pos 300)
        (pos 0)
        (pos 1)
      ≡ ok bs)
    × (build_signaling_udp_payload session bs ≡ ok payload)
    × (extract_grants_from_signaling_udp payload
        ≡ ok (grant (pos 11) (negsuc 2) (pos 300) (pos 1) ∷ []))
unfolding ◌+ℤ◌ signaling_header wrap_octet
extract_back_example =
    extract_back (pos 11) (negsuc 2) (pos 300) (pos 0) (pos 1) (omega arith) session (omega arith)
      (omega arith)

abbrev two_tlvs : List Tlv
two_tlvs =
    record { type_field = 4; value = 16 ∷ 0 ∷ 0 ∷ 0 ∷ 1 ∷ 44 ∷ [] }
    ∷ record { type_field = 6; value = 0xb0 ∷ 0 ∷ [] }
    ∷ []

iter_encode_example : iter_tlvs_from 60 (encode two_tlvs) ≡ two_tlvs
unfolding encode
iter_encode_example = iter_encode two_tlvs 60 (omega arith) (omega arith)

abbrev asked : SignalingSpec
asked = record {
  major_sdo_id = pos 0;
  message_type = pos 12;
  minor_version_ptp = pos 1;
  version_ptp = pos 2;
  domain_number = pos 44;
  minor_sdo_id = pos 0;
  flags = pos 0x0400;
  correction_raw = pos 0;
  message_type_specific = pos 0;
  clock_identity = own_port.clock_identity;
  source_port_id = pos 1;
  sequence_id = pos 7;
  control_field = pos 5;
  log_message_interval = pos 127;
  target_clock_identity = slave_port.clock_identity;
  target_port_id = pos 65535;
  tlv_type = pos 4;
  tlv_message_type = pos 11;
  log_inter_message_period = negsuc 2;
  duration_sec = pos 300;
  tlv_reserved = pos 0;
  tlv_flags = pos 0;
}

spec_tlv_lem_example :
    (pos 4 ≡ pos request_type
      → spec_tlv asked ≡ build_request_unicast_tlv (pos 11) (negsuc 2) (pos 300))
    × (pos 4 ≡ pos grant_type
        → spec_tlv asked ≡ build_grant_unicast_tlv (pos 11) (negsuc 2) (pos 300) (pos 0) (pos 0))
spec_tlv_lem_example = spec_tlv_lem asked (omega arith) (omega arith)
