-- ===== src/Client/Sync.antt =====
-- src/ptp_client/ptp/client.py: how the client takes a Sync, with its Follow_Up, from the buffer.
-- Times are in nanoseconds. A clock reading that only fixes a deadline is the last tick's.

pub mod Sampled
pub mod Tried
pub mod Waited
use ptp_client.Master.Messages.{two_step_bit}
use ptp_client.Prelude.{
  zero, suc, bit, ◌==◌, runtime_error, ℕ, ◌+◌, ◌*◌, ◌^◌, ◌&&◌, List, [], ◌∷◌, Bool, true, false,
  ltb, leb_ℤ, ltb_ℤ, eq_ℤ, ℤ, pos, pos_part, length, if◌then◌else◌, bytes_eq, Option, none, some,
}
use ptp_client.Wire.{Bytes}
use ptp_client.Timestamp.{PtpTimestamp}
use ptp_client.Header.{PtpHeader, value, sync, follow_up}
use ptp_client.Packet.{parse_sync_body, parse_follow_up_body}
use ptp_client.Client.{Datagram, pop_matching}
use ptp_client.Client.World.{
  raising, at_tick, Tick, timed_out, failed, finished, Action, ◌>>=◌, give, lift, read, World,
  with_buffer, pop_matching_general,
}

-- PTPSyncSampleResult
pub record SyncSample : Type 0 where
  pub sync_udp : Bytes
  pub follow_up_udp : Option Bytes
  pub sync_header : PtpHeader
  pub follow_up_header : Option PtpHeader
  pub t1 : ℕ
  pub t2 : ℕ
  pub one_step : Bool

-- ptp_timestamp_to_posix_seconds, in nanoseconds
unfoldable pub to_posix : PtpTimestamp → ℕ
to_posix t = pos_part t.seconds * 10 ^ 9 + pos_part t.nanoseconds

-- A datagram of this domain and of this message type.
abbrev pub is_of : ℕ → ℤ → Datagram → Bool
is_of domain mt d = eq_ℤ d.header.domain_number (pos domain) && eq_ℤ d.header.message_type mt

abbrev pub sync_type : ℤ
sync_type = pos (value sync)

abbrev pub follow_up_type : ℤ
follow_up_type = pos (value follow_up)

-- accept_sync of _try_sync_sample_follow_up_led and accept_fu of wait_sync_sample: that type, with the
-- sequence id and the clock identity of another header.
unfoldable pub accept_pair : ℕ → ℤ → PtpHeader → Datagram → Bool
accept_pair domain mt h d =
    is_of domain mt d
    && (eq_ℤ d.header.sequence_id h.sequence_id
        && bytes_eq d.header.source_identity.clock_identity h.source_identity.clock_identity)

-- accept_sync of wait_sync_sample
unfoldable pub accept_sync : ℕ → Datagram → Bool
accept_sync domain d =
    is_of domain sync_type d && leb_ℤ d.header.message_length (pos (length d.payload))

-- The Follow_Ups that are deleted behind a pairing: that sequence id, of any clock.
unfoldable pub is_follow_up_of : ℕ → ℤ → Datagram → Bool
is_follow_up_of domain seq d = is_of domain follow_up_type d && eq_ℤ d.header.sequence_id seq

-- _build_two_step_sync_sample
unfoldable pub build_two_step_sync_sample :
    {S : Type 0} → PtpHeader → Bytes → ℕ → PtpHeader → Bytes → Action S SyncSample
build_two_step_sync_sample sh bs wall_sync fh fpl = do
  precise_origin_timestamp ← lift (parse_follow_up_body fpl fh)
  give (record {
    sync_udp = bs;
    follow_up_udp = some fpl;
    sync_header = sh;
    follow_up_header = some fh;
    t1 = to_posix precise_origin_timestamp;
    t2 = wall_sync;
    one_step = false;
  })

-- max(candidates, key=sequence_id): the first of those with the greatest sequence id.
unfoldable pub latest : List Datagram → Option Datagram
latest [] = none
latest (d ∷ ds) = elim (latest ds) [
  | none ↦ some d
  | some x ↦ if ltb_ℤ d.header.sequence_id x.header.sequence_id then some x else some d
]

unfoldable pub candidates : ℕ → List Datagram → List Datagram
candidates domain [] = []
candidates domain (d ∷ ds) =
    let rest = candidates domain ds in if is_of domain follow_up_type d then d ∷ rest else rest

-- The first Follow_Up of a sequence id, taken from the buffer, or the one at hand.
unfoldable pub take_follow_up : Datagram → Action World Datagram
take_follow_up fu w =
    elim (pop_matching (is_follow_up_of w.domain fu.header.sequence_id) w.buffer) [
      | none ↦ finished fu w
      | some (d, rest) ↦ finished d (with_buffer rest w)
    ]

-- replace(fh, message_type=SYNC)
abbrev pub as_sync : PtpHeader → PtpHeader
as_sync h = record h { message_type = sync_type }

-- The sample of a Follow_Up without its Sync.
unfoldable pub degraded_sample : Datagram → Action World SyncSample
degraded_sample fu = do
  precise_origin_timestamp ← lift (parse_follow_up_body fu.payload fu.header)
  give (record {
    sync_udp = fu.payload;
    follow_up_udp = some fu.payload;
    sync_header = as_sync fu.header;
    follow_up_header = some fu.header;
    t1 = to_posix precise_origin_timestamp;
    t2 = fu.wall;
    one_step = false;
  })

-- _try_sync_sample_follow_up_led behind the choice of the Follow_Up; the wait for the Sync ends two
-- seconds after the last reading, or at the deadline.
unfoldable pub pair_with : ℕ → Bool → Datagram → Action World (Option SyncSample)
pair_with deadline allow_degraded fu w =
    elim (pop_matching_general (accept_pair w.domain sync_type fu.header)
      (if ltb deadline (w.monotonic + 2 * 10 ^ 9) then deadline else w.monotonic + 2 * 10 ^ 9) w) [
        | finished s now ↦
            (do
              chosen ← take_follow_up fu
              sample ←
                  build_two_step_sync_sample s.header s.payload s.wall chosen.header chosen.payload
              give (some sample))
              now
        | failed timed_out now ↦ elim allow_degraded [
          | false ↦ finished none now
          | true ↦
              (do chosen ← take_follow_up fu; sample ← degraded_sample chosen; give (some sample))
                now
        ]
        | failed e now ↦ failed e now
      ]

-- _try_sync_sample_follow_up_led
unfoldable pub try_sync_sample_follow_up_led : ℕ → Bool → Action World (Option SyncSample)
try_sync_sample_follow_up_led deadline allow_degraded w =
    elim (latest (candidates w.domain w.buffer)) [
      | none ↦ finished none w
      | some fu ↦ pair_with deadline allow_degraded fu w
    ]

-- flags & FLAG_TWO_STEP
abbrev pub two_step : PtpHeader → Bool
two_step h = bit two_step_bit h.flags == 1

-- wait_sync_sample, once it has a Sync.
unfoldable pub resolve_sync : ℕ → Datagram → Action World SyncSample
resolve_sync deadline d = do
  origin_timestamp ← lift (parse_sync_body d.payload d.header)
  domain ← read (λ w. w.domain)
  if two_step d.header
      then (do
        fu ← pop_matching_general (accept_pair domain follow_up_type d.header) deadline
        build_two_step_sync_sample d.header d.payload d.wall fu.header fu.payload)
      else give (record {
        sync_udp = d.payload;
        follow_up_udp = none;
        sync_header = d.header;
        follow_up_header = none;
        t1 = to_posix origin_timestamp;
        t2 = d.wall;
        one_step = true;
      })

-- What wait_sync_sample does behind its loop.
unfoldable pub last_resort : Action World SyncSample
last_resort w = elim (try_sync_sample_follow_up_led w.monotonic true w) [
  | finished none now ↦ failed timed_out now
  | finished (some sample) now ↦ finished sample now
  | failed e now ↦ failed e now
]

-- The loop of wait_sync_sample, with fuel for its turns, on the ticks to come.
unfoldable pub sync_turns : ℕ → ℕ → List Tick → Action World SyncSample
sync_turns zero deadline ts w = last_resort w
sync_turns (suc fuel) deadline [] w = last_resort w
sync_turns (suc fuel) deadline (t ∷ ts) w =
    let now = at_tick t ts w in
    elim (ltb t.monotonic deadline) [
      | false ↦ last_resort now
      | true ↦ elim (pop_matching_general (accept_sync now.domain) (t.monotonic + 50000000) now) [
        | finished d v ↦ resolve_sync deadline d v
        | failed timed_out v ↦ elim (try_sync_sample_follow_up_led deadline false v) [
          | finished (some sample) later ↦ finished sample later
          | finished none later ↦ sync_turns fuel deadline later.ticks later
          | failed e later ↦ failed e later
        ]
        | failed e v ↦ failed e v
      ]
    ]

-- wait_sync_sample: each turn of the loop takes a tick.
unfoldable pub wait_sync_sample : ℕ → Action World SyncSample
wait_sync_sample timeout w = elim w.started [
  | false ↦ failed (raising runtime_error) w
  | true ↦ sync_turns (length w.ticks) (w.monotonic + timeout) w.ticks w
]
