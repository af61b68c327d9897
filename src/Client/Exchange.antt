-- ===== src/Client/Exchange.antt =====
-- src/ptp_client/ptp/client.py: the Delay_Req exchange, the estimate from it, and start and close.
-- Times are in nanoseconds; the estimate is kept doubled, since the code halves it.

pub mod Answered
pub mod Left
use ptp_client.Prelude.{
  ℕ, ◌+◌, ◌%◌, ◌^◌, ◌&&◌, ◌==◌, ℤ, pos, eq_ℤ, ◌-ℤ◌, ◌+ℤ◌, List, [], ◌∷◌, Bool, true, false, Option,
  none, some, Result, ok, err, bytes_eq, if◌then◌else◌, runtime_error, value_error,
}
use ptp_client.Wire.{Bytes}
use ptp_client.Timestamp.{PtpTimestamp}
use ptp_client.Header.{PtpHeader, PortIdentity, unpack, value, delay_resp}
use ptp_client.Packet.{parse_delay_resp_body}
use ptp_client.Request.{Spec, build_ptp_udp_payload}
use ptp_client.Request.{text, default_clock_identity}
use ptp_client.Request.Delay.{Overrides, or_else, build_delay_request_spec}
use ptp_client.Client.{Datagram}
use ptp_client.Client.World.{
  World, Action, Outcome, failed, finished, ◌>>=◌, ◌>>◌, give, raise, lift, read, change, raising,
  Port, event_port, allocate_sequence_id, send, pop_matching_general,
}
use ptp_client.Client.Sync.{SyncSample, is_of, to_posix, wait_sync_sample}

-- PTPDelayExchangeResult, without the addresses of the sockets.
pub record DelayExchange : Type 0 where
  pub delay_req_udp : Bytes
  pub delay_resp_udp : Bytes
  pub request_header : PtpHeader
  pub response_header : PtpHeader
  pub t3 : ℕ
  pub t4 : ℕ
  pub wall_recv_resp : ℕ

-- accept_delay_resp, on the body.
unfoldable pub answers : PtpHeader → Result (PtpTimestamp × PortIdentity) → Bool
answers request (err e) = false
answers request (ok (receive_timestamp, requesting)) =
    bytes_eq requesting.clock_identity request.source_identity.clock_identity
    && eq_ℤ requesting.port_number request.source_identity.port_number

unfoldable pub accept_delay_resp : ℕ → PtpHeader → Datagram → Bool
accept_delay_resp domain request d =
    is_of domain (pos (value delay_resp)) d
    && (eq_ℤ d.header.sequence_id request.sequence_id
        && answers request (parse_delay_resp_body d.payload d.header))

-- base["sequence_id"] = self._seq
abbrev pub with_sequence_id : Spec → ℕ → Spec
with_sequence_id s seq = record s { sequence_id = some (pos seq) }

-- The specification that exchange_delay builds from overrides of no message type.
unfoldable pub base_spec : Overrides → ℕ → Spec
base_spec o domain =
    build_delay_request_spec o domain (or_else o.clock_identity (text default_clock_identity))
      (or_else o.port_number (pos 1)) (or_else o.flags (pos 0))

-- exchange_delay with its sockets open
unfoldable pub exchange_started : Spec → ℕ → Action World DelayExchange
exchange_started base timeout = do
  seq ← allocate_sequence_id
  payload ← lift (build_ptp_udp_payload (with_sequence_id base seq))
  hdr0 ← lift (unpack payload 0)
  domain ← read (λ s. s.domain)
  t3 ← read (λ s. s.wall)
  sent_at ← read (λ s. s.monotonic)
  send event_port payload
  d ← pop_matching_general (accept_delay_resp domain hdr0) (sent_at + timeout)
  (receive_timestamp, requesting) ← lift (parse_delay_resp_body d.payload d.header)
  give (record {
    delay_req_udp = payload;
    delay_resp_udp = d.payload;
    request_header = hdr0;
    response_header = d.header;
    t3 = t3;
    t4 = to_posix receive_timestamp;
    wall_recv_resp = d.wall;
  })

-- exchange_delay behind the choice of its specification: the caller's, if that says it is a delay_req,
-- or base_spec.
unfoldable pub exchange_delay : Spec → ℕ → Action World DelayExchange
exchange_delay base timeout w = elim w.started [
  | false ↦ failed (raising runtime_error) w
  | true ↦ exchange_started base timeout w
]

-- PTPAcrEstimateResult, with twice the offset and twice the mean path delay.
pub record AcrEstimate : Type 0 where
  pub sync : SyncSample
  pub delay : DelayExchange
  pub offset_twice : ℤ
  pub mean_path_delay_twice : ℤ

-- ((t2 - t1) - (t4 - t3), (t2 - t1) + (t4 - t3))
unfoldable pub combine : SyncSample → DelayExchange → AcrEstimate
combine s d = record {
  sync = s;
  delay = d;
  offset_twice = (pos s.t2 -ℤ pos s.t1) -ℤ (pos d.t4 -ℤ pos d.t3);
  mean_path_delay_twice = (pos s.t2 -ℤ pos s.t1) +ℤ (pos d.t4 -ℤ pos d.t3);
}

unfoldable pub estimate_offset_and_delay : Spec → ℕ → ℕ → Action World AcrEstimate
estimate_offset_and_delay spec sync_timeout delay_timeout = do
  s ← wait_sync_sample sync_timeout
  d ← exchange_delay spec delay_timeout
  give (combine s d)

-- The ports to bind: source_address is absent, or a port on a host.
unfoldable pub check_source_address : Bool → Option ℕ → Result (Unit {0})
check_source_address multicast none = ok tt
check_source_address true (some port) = ok tt
check_source_address false (some port) =
    if (port == 0) then ok tt else if port == 319 then ok tt else err value_error

-- start, with sockets that open.
unfoldable pub start : Bool → Option ℕ → Action World (Unit {0})
start multicast source_port w = elim w.started [
  | true ↦ failed (raising runtime_error) w
  | false ↦
      (do
        lift (check_source_address multicast source_port)
        change (λ s. record s { started = true }))
        w
]

unfoldable pub close : Action World (Unit {0})
close w = finished tt (record w { started = false; buffer = [] })

-- send_event_raw, send_general
unfoldable pub send_started : Port → Bytes → Action World (Unit {0})
send_started port bs w = elim w.started [
  | false ↦ failed (raising runtime_error) w
  | true ↦ send port bs w
]
