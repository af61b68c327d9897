-- ===== src/Examples/Negotiating.antt =====
-- The unicast negotiation at concrete inputs.
use ptp_client.Prelude.{
  ℕ, ◌^◌, ◌<◌, ◌≤◌, ◌*◌, ◌≡◌, refl, ◌++◌, List, [], ◌∷◌, arith, pos, negsuc, Bool, true, false,
  Option, none, some, ok, length, value_error, eq_ℤ,
}
use ptp_client.Wire.{Bytes}
use ptp_client.Header.{PortIdentity, value, signaling}
use ptp_client.Signaling.{ParsedGrant, extract_grants_from_signaling_udp}
use ptp_client.Client.{Datagram}
use ptp_client.Client.World.{World, Tick, Ends, finished, failed, raising, at_tick}
use ptp_client.Negotiation.{
  Contract, Session, NegotiationState, with_client, collect_turns, collect_grants_until,
  expect_grants_ok,
}
use ptp_client.Negotiation.Phases.{announce_type, negotiate, renew_if_due}
use ptp_client.Negotiation.Within.{Bounded}
use ptp_client.Negotiation.Attempts.{expect-collect}
use ptp_client.Negotiation.Announced.{Contracted, negotiate_lem}
use ptp_client.Negotiation.Renewal.{Reported, renew_if_due_lem}
use ptp_client.Negotiation.Measure.{AcrRunConfig, measure_spec, measure_acr}
use ptp_client.Negotiation.Measured.{measure_acr_lem}
use ptp_client.Negotiation.Rounds.{Estimated, Whatever}
use ptp_client.Examples.Unicast.{waiting_world, master, received, listening, at, eight}

abbrev ours : PortIdentity
ours = record { clock_identity = 0 ∷ 1 ∷ 2 ∷ 3 ∷ 4 ∷ 5 ∷ 6 ∷ 7 ∷ []; port_number = pos 1 }

abbrev contract : Contract
contract = record {
  our_identity = ours;
  domain_number = 0;
  announce_log_period = pos 0;
  sync_log_period = negsuc 3;
  duration_sec = 300;
  negotiate_delay_resp = false;
  delay_resp_log_period = pos 0;
  request_timeout = 100;
  first_announce_timeout = 100;
  cancel_ack_timeout = 100;
}

-- A Signaling message with a GRANT of 300 seconds for one message type.
abbrev grant_octets : ℕ → Bytes
grant_octets wire =
    (12 ∷ 2 ∷ 0 ∷ 56 ∷ 0 ∷ 0 ∷ 4 ∷ 0 ∷ [])
    ++ (eight
        ++ ((0 ∷ 0 ∷ 0 ∷ 0 ∷ 0 ∷ 27 ∷ 25 ∷ 255 ∷ 254 ∷ 1 ∷ 2 ∷ 3 ∷ 0 ∷ 1 ∷ 0 ∷ 9 ∷ 5 ∷ 127 ∷ [])
            ++ ((0 ∷ 1 ∷ 2 ∷ 3 ∷ 4 ∷ 5 ∷ 6 ∷ 7 ∷ 0 ∷ 1 ∷ [])
                ++ (0 ∷ 5 ∷ 0 ∷ 8 ∷ wire ∷ 0 ∷ 0 ∷ 0 ∷ 1 ∷ 44 ∷ 0 ∷ 1 ∷ []))))

abbrev grant_datagram : ℕ → Datagram
grant_datagram wire = record {
  header = received 12 56 9 1024;
  payload = grant_octets wire;
  wall = 77;
}

abbrev announce_datagram : Datagram
announce_datagram = record { header = received 11 64 3 0; payload = []; wall = 78 }

abbrev fresh : Session
fresh = record {
  client = listening (grant_datagram 0xb0 ∷ announce_datagram ∷ grant_datagram 0 ∷ []);
  denial_counts = [];
  state = none;
  contract_started_at = 0;
}

negotiate_lem_example :
    Ends (Contracted contract 12 fresh) (Bounded 12 fresh) (negotiate contract fresh)
negotiate_lem_example = negotiate_lem contract fresh

abbrev held : NegotiationState
held = record {
  grandmaster_port_identity = master;
  grants = (11, 300) ∷ (0, 300) ∷ [];
  announce_log_period = pos 0;
  sync_log_period = negsuc 3;
  delay_resp_log_period = none;
}

abbrev running : Session
running = record fresh { state = some held; contract_started_at = 1 }

renew_if_due_lem_example :
    Ends (Reported contract running) (Bounded 6 running) (renew_if_due contract true running)
renew_if_due_lem_example = renew_if_due_lem contract true running

abbrev announce_grant : ParsedGrant
announce_grant = record {
  pt_message_type = 11;
  log_inter_message_period = pos 0;
  duration_sec = 300;
  flags = 1;
}

abbrev collected : Session
collected = record fresh {
  client = record (listening (announce_datagram ∷ grant_datagram 0 ∷ [])) {
    ticks = at 20 ∷ at 30 ∷ at 40 ∷ [];
    monotonic = 10;
    wall = 10;
  };
}

fresh_result :
    collect_grants_until contract (announce_type ∷ []) 50 fresh
    ≡ finished (announce_grant ∷ []) collected
unfolding collect_grants_until collect_turns ptp_client.Negotiation.scan_buffer at_tick
    ptp_client.Client.World.receive eq_ℤ extract_grants_from_signaling_udp ptp_client.Header.unpack
    ptp_client.Wire.unpack_uint ptp_client.Wire.unpack_int ptp_client.Header.unpack_identity
    ptp_client.Header.port_identity ptp_client.Wire.from_be ptp_client.Wire.from_be_acc
    ptp_client.Signaling.grants_of ptp_client.Signaling.iter_tlvs_from ptp_client.Signaling.grant_of
    ptp_client.Signaling.parse_grant_value ptp_client.Signaling.or_scan
    ptp_client.Signaling.ptp_message_type_from_wire ptp_client.Wire.signed ptp_client.Prelude.mask
    ptp_client.Negotiation.grant_for ptp_client.Negotiation.grants_for ptp_client.Negotiation.needs
    ptp_client.Negotiation.record_grants ptp_client.Negotiation.relevant
fresh_result = refl

expect-collect_example :
    expect_grants_ok (announce_grant ∷ []) (announce_type ∷ []) collected ≡ finished tt collected
expect-collect_example =
    expect-collect contract (announce_type ∷ []) 50 fresh collected (announce_grant ∷ [])
      fresh_result

abbrev measuring : AcrRunConfig
measuring = record {
  measure_acr = true;
  delay_spec = record {
    clock_identity_json = none;
    clock_identity = none;
    port_number_json = none;
    port_number = none;
    flags = none;
    correction_field_ns_json = none;
    correction_field_ns = none;
    origin_timestamp_json = none;
    origin_timestamp = none;
  };
  sync_timeout = 100;
  delay_timeout = 100;
  interval = some 5;
  limit = some 25;
}

abbrev measured_session : Session
measured_session = record running { client = waiting_world }

measure_acr_lem_example :
    Ends
      (Estimated (measure_spec contract measuring) measured_session)
      Whatever
      (measure_acr contract measuring measured_session)
measure_acr_lem_example = measure_acr_lem contract measuring measured_session
