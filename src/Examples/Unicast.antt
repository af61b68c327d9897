-- ===== src/Examples/Unicast.antt =====
-- The unicast client at concrete inputs.
use ptp_client.Prelude.{
  ℕ, ◌^◌, ◌≡◌, refl, ◌++◌, List, [], ◌∷◌, arith, pos, negsuc, Bool, true, false, Option, none, some,
  ok, inl, inr, ◌+ℤ◌, length, ◌≤◌,
}
use ptp_client.Wire.{Bytes}
use ptp_client.Header.{PortIdentity, PtpHeader, MessageType, delay_req}
use ptp_client.Timestamp.{PtpTimestamp, pack10}
use ptp_client.Client.{Datagram}
use ptp_client.Client.World.{World, Tick, Ends, finished, pop_matching_general}
use ptp_client.Client.Waits.{Arrives, pop_matching_general_returns}
use ptp_client.Client.Sync.{accept_pair, follow_up_type, wait_sync_sample, SyncSample}
use ptp_client.Client.Sync.Sampled.{Sampled, Quiet}
use ptp_client.Client.Sync.Waited.{wait_sync_sample_lem}
use ptp_client.Client.Exchange.{exchange_delay, DelayExchange, combine}
use ptp_client.Client.Exchange.Answered.{Exchanged, Unanswered, exchange_delay_lem, combine_lem}
use ptp_client.Request.{
  Spec, IdentitySpec, TypeValue, named, delay_req_name, build_ptp_udp_payload, type_of_spec,
  source_of, build_body,
}
use ptp_client.Request.Front.{Carries, IsSendable, spec_body}
use ptp_client.Request.Builds.{build_ptp_udp_payload_lem}
use ptp_client.Request.{octets}
use ptp_client.Request.Delay.{Overrides, build_delay_request_spec, build_delay_request_spec_lem}
use ptp_client.Master.Config.Jsonc.{strip_jsonc_comments}
use ptp_client.Master.Config.Jsonc.Comments.{
  Part, character, string, line_comment, block_comment, one, escape, render, without_comments,
  strip_render,
}
use ptp_client.Packet.{parse_body_for_message_type}

abbrev pub master : PortIdentity
master = record { clock_identity = 0 ∷ 27 ∷ 25 ∷ 255 ∷ 254 ∷ 1 ∷ 2 ∷ 3 ∷ []; port_number = pos 1 }

-- A received header, of this type, length, sequence id and flags.
abbrev pub received : ℕ → ℕ → ℕ → ℕ → PtpHeader
received mt n seq flags = record {
  message_type = pos mt;
  version_ptp = pos 2;
  message_length = pos n;
  domain_number = pos 0;
  minor_sdo_id = pos 0;
  flags = pos flags;
  correction_field_ns = pos 0;
  source_identity = master;
  sequence_id = pos seq;
  control_field = pos 0;
  log_message_interval = pos 0;
  transport_specific = pos 0;
}

abbrev pub eight : Bytes
eight = 0 ∷ 0 ∷ 0 ∷ 0 ∷ 0 ∷ 0 ∷ 0 ∷ 0 ∷ []

abbrev header_zeros : Bytes
header_zeros = eight ++ (eight ++ (eight ++ (eight ++ (0 ∷ 0 ∷ []))))

-- One second and two nanoseconds.
abbrev stamp : Bytes
stamp = 0 ∷ 0 ∷ 0 ∷ 0 ∷ 0 ∷ 1 ∷ 0 ∷ 0 ∷ 0 ∷ 2 ∷ []

abbrev sync_datagram : Datagram
sync_datagram = record {
  header = received 0 44 7 512;
  payload = header_zeros ++ stamp;
  wall = 1000000105;
}

abbrev follow_up_datagram : Datagram
follow_up_datagram = record {
  header = received 8 44 7 512;
  payload = header_zeros ++ stamp;
  wall = 1000000205;
}

abbrev answer_datagram : Datagram
answer_datagram = record {
  header = received 9 54 42 0;
  payload = header_zeros ++ (stamp ++ (0 ∷ 1 ∷ 2 ∷ 3 ∷ 4 ∷ 5 ∷ 6 ∷ 7 ∷ 0 ∷ 1 ∷ []));
  wall = 1000000305;
}

abbrev pub at : ℕ → Tick
at n = record { monotonic = n; wall = n; arrivals = []; stop = false }

abbrev pub listening : List Datagram → World
listening buffer = record {
  started = true;
  domain = 0;
  maxlen = 8;
  seq = 41;
  buffer = buffer;
  sent = [];
  ticks = at 10 ∷ at 20 ∷ at 30 ∷ at 40 ∷ [];
  monotonic = 5;
  wall = 1000000300;
  stop = false;
}

abbrev pub waiting_world : World
waiting_world = listening (sync_datagram ∷ follow_up_datagram ∷ answer_datagram ∷ [])

abbrev wanted : Datagram → Bool
wanted = accept_pair 0 follow_up_type sync_datagram.header

wanted-Arrives : Arrives wanted 100 waiting_world.ticks waiting_world
unfolding ptp_client.Client.World.at_tick ptp_client.Client.World.receive accept_pair
    ptp_client.Prelude.eq_ℤ ptp_client.Prelude.bytes_eq
wanted-Arrives = (omega arith, inl (inr (inl refl)))

pop_matching_general_returns_example :
    (d : Datagram) × (v : World) × (pop_matching_general wanted 100 waiting_world ≡ finished d v)
    × (wanted d ≡ true)
pop_matching_general_returns_example =
    pop_matching_general_returns wanted 100 waiting_world wanted-Arrives

wait_sync_sample_lem_example :
    Ends (Sampled waiting_world) (Quiet waiting_world) (wait_sync_sample 1000 waiting_world)
wait_sync_sample_lem_example = wait_sync_sample_lem 1000 waiting_world

abbrev plain : Spec
plain = record {
  message_type = named delay_req_name;
  version_ptp = none;
  domain_number = none;
  flags = some (pos 0x400);
  correction_field_ns = none;
  transport_specific = none;
  sequence_id = some (pos 65578);
  log_message_interval = none;
  minor_sdo_id = none;
  control_field = none;
  source = none;
  identity = record { clock_identity = none; port_number = none };
  origin_timestamp = some (record { seconds = pos 9; nanoseconds = some (pos 5) });
  precise_origin_timestamp = none;
  receive_timestamp = none;
  requesting_port_identity = none;
}

exchange_delay_lem_example :
    Ends
      (Exchanged plain waiting_world)
      (Unanswered waiting_world)
      (exchange_delay plain 1000 waiting_world)
exchange_delay_lem_example = exchange_delay_lem plain 1000 waiting_world

abbrev our_identity : PortIdentity
our_identity = record { clock_identity = 0 ∷ 1 ∷ 2 ∷ 3 ∷ 4 ∷ 5 ∷ 6 ∷ 7 ∷ []; port_number = pos 1 }

plain_source : source_of plain ≡ ok our_identity
unfolding source_of ptp_client.Request.spec_identity ptp_client.Request.clock_octets
    ptp_client.Request.parse_clock_identity ptp_client.Request.without_separators
    ptp_client.Request.rstrip ptp_client.Request.lstrip ptp_client.Request.is_space
    ptp_client.Request.hex_digit ptp_client.Request.from_hex ptp_client.Header.port_identity
plain_source = refl

abbrev origin : PtpTimestamp
origin = record { seconds = pos 9; nanoseconds = pos 5 }

plain_body : build_body delay_req plain ≡ ok (pack10 origin)
unfolding build_body ptp_client.Request.ts_from_spec ptp_client.Timestamp.make
plain_body = refl

plain_typed : type_of_spec plain.message_type ≡ some delay_req
unfolding type_of_spec ptp_client.Prelude.bytes_eq
plain_typed = refl

plain-IsSendable : IsSendable plain
unfolding ptp_client.Header.wrap_octet ptp_client.Prelude.◌-ℤ◌ ◌+ℤ◌
plain-IsSendable = record { correction_fits = omega arith; interval_fits = omega arith }

build_ptp_udp_payload_lem_example :
    (bs : Bytes) × (h : PtpHeader) × (build_ptp_udp_payload plain ≡ ok bs)
    × Carries delay_req plain our_identity bs h
    × (parse_body_for_message_type bs h ≡ spec_body delay_req plain)
build_ptp_udp_payload_lem_example =
    build_ptp_udp_payload_lem delay_req plain our_identity (pack10 origin) plain_typed plain_source
      plain_body plain-IsSendable

abbrev pub sample : SyncSample
sample = record {
  sync_udp = sync_datagram.payload;
  follow_up_udp = some follow_up_datagram.payload;
  sync_header = sync_datagram.header;
  follow_up_header = some follow_up_datagram.header;
  t1 = 1000;
  t2 = 1150;
  one_step = false;
}

abbrev exchange : DelayExchange
exchange = record {
  delay_req_udp = [];
  delay_resp_udp = answer_datagram.payload;
  request_header = received 1 44 42 0;
  response_header = answer_datagram.header;
  t3 = 2000;
  t4 = 1950;
  wall_recv_resp = 2100;
}

combine_lem_example :
    ((combine sample exchange).offset_twice ≡ pos 100 +ℤ pos 100)
    × ((combine sample exchange).mean_path_delay_twice ≡ pos 50 +ℤ pos 50)
unfolding ◌+ℤ◌
combine_lem_example = combine_lem sample exchange (pos 100) (pos 50) refl refl

-- {"u": "//x" /* , */} with a comment behind it
abbrev commented : List Part
commented =
    character 123
    ∷ string (one 117 ∷ [])
    ∷ character 58
    ∷ string (one 47 ∷ one 47 ∷ escape 34 ∷ [])
    ∷ block_comment (44 ∷ 42 ∷ [])
    ∷ character 125
    ∷ line_comment (32 ∷ 47 ∷ 42 ∷ [])
    ∷ []

strip_render_example : strip_jsonc_comments (render commented) ≡ render (without_comments commented)
strip_render_example = strip_render commented (ground arith)

abbrev no_overrides : Overrides
no_overrides = record {
  clock_identity_json = none;
  clock_identity = none;
  port_number_json = none;
  port_number = none;
  flags = none;
  correction_field_ns_json = none;
  correction_field_ns = none;
  origin_timestamp_json = none;
  origin_timestamp = none;
}

build_delay_request_spec_lem_example :
    source_of (
      build_delay_request_spec no_overrides 44
        (octets master.clock_identity)
        master.port_number
        (pos 0x400))
    ≡ ok master
build_delay_request_spec_lem_example =
    build_delay_request_spec_lem no_overrides 44 master (pos 0x400)
      (record { no_clock_json = refl; no_clock = refl; no_port_json = refl; no_port = refl })
      (record { identity_length = refl; port_fits = omega arith }) (ground arith)
