-- ===== src/Master/Transmit.antt =====
-- src/ptp_client/ptp/l2master/master.py: what the TX loop sends, and its turns. The readings of the
-- clock, whether the transport takes a frame, and whether a stop is requested during a wait are
-- arguments. Back-off times are nanoseconds.
pub mod Pair
use ptp_client.Prelude.{
  ℕ, ◌+◌, ◌*◌, ◌%◌, ◌^◌, ◌&&◌, not, List, [], ◌∷◌, ltb, leb, ltb_ℤ, ◌==◌, ℤ, pos, Bool, true, false,
  if◌then◌else◌, Option, none, some, Result, ok, err, Error, os_error, ◌>>=◌,
}
use ptp_client.Wire.{Bytes}
use ptp_client.Timestamp.{PtpTimestamp}
use ptp_client.Header.{PortIdentity}
use ptp_client.Master.Config.{
  MasterConfig, MessageKey, announce_key, sync_key, followup_key, effective, domain_number,
  transport_specific, as_int,
}
use ptp_client.Master.Messages.{
  Common, ClockQuality, clock_quality, AnnounceBody, announce_body, build_announce, build_sync,
  build_follow_up,
}
use ptp_client.Master.Scheduler.{PeriodicScheduler, periodic_scheduler, second, due, advance}
use ptp_client.Master.Node.{Master, MasterState, active, fault, stopped, source_for, frame_for}

-- A master, and what the call that left it returned or raised.
pub record Outcome : Type 0 where
  pub master : Master
  pub raised : Option Error

-- The arguments that the builders share, for one kind of message from a source.
unfoldable pub common_for : Master → MessageKey → PortIdentity → ℤ → ℤ → Result Common
common_for m key source seq flags = do
  domain ← as_int (effective m.cfg key domain_number)
  transport ← as_int (effective m.cfg key transport_specific)
  ok (record {
    source = source;
    domain_number = domain;
    sequence_id = seq;
    transport_specific = transport;
    flags = flags;
  })

-- The frame of _send_announce from `source` at clock reading `now`.
unfoldable pub announce_frame : Master → PortIdentity → PtpTimestamp → Result Bytes
announce_frame m source now = do
  quality ← clock_quality m.cfg.clock_class m.cfg.clock_accuracy m.cfg.offset_scaled_log_variance
  body ← announce_body (record {
    origin_timestamp = now;
    current_utc_offset = m.cfg.current_utc_offset;
    grandmaster_priority1 = m.cfg.priority1;
    grandmaster_clock_quality = quality;
    grandmaster_priority2 = m.cfg.priority2;
    grandmaster_identity = source.clock_identity;
    steps_removed = pos 0;
    time_source = m.cfg.time_source;
  })
  c ← common_for m announce_key source (pos m.seq_announce) m.cfg.announce_flags
  payload ← build_announce c body m.cfg.log_announce_interval
  frame_for m payload announce_key none

-- self._seq_announce = (seq + 1) & 0xFFFF
abbrev pub next_seq : ℕ → ℕ
next_seq seq = (seq + 1) % 2 ^ 16

-- The part of _send_announce behind the source.
unfoldable pub send_announce_from : Master → PortIdentity → PtpTimestamp → Bool → Outcome
send_announce_from m source now sent =
    let taken = record m { seq_announce = next_seq m.seq_announce } in
    elim (announce_frame m source now) [
      | err e ↦ record { master = taken; raised = some e }
      | ok frame ↦
          if sent
          then record {
            master = record taken {
              stats = record m.stats { announce_sent = m.stats.announce_sent + 1; state = active };
              wire = frame ∷ m.wire;
            };
            raised = none;
          }
          else record { master = taken; raised = some os_error }
    ]

-- _send_announce
unfoldable pub send_announce : Master → PtpTimestamp → Bool → Outcome
send_announce m now sent = elim (source_for m announce_key) [
  | err e ↦ record { master = m; raised = some e }
  | ok source ↦ send_announce_from m source now sent
]

unfoldable pub sync_frame : Master → ℕ → PtpTimestamp → Result Bytes
sync_frame m seq t1 = do
  source ← source_for m sync_key
  c ← common_for m sync_key source (pos seq) m.cfg.sync_flags
  payload ← build_sync c t1 m.cfg.log_sync_interval m.cfg.two_step
  frame_for m payload sync_key none

unfoldable pub follow_up_frame : Master → ℕ → PtpTimestamp → Result Bytes
follow_up_frame m seq precise = do
  source ← source_for m followup_key
  c ← common_for m followup_key source (pos seq) m.cfg.follow_up_flags
  payload ← build_follow_up c precise m.cfg.log_sync_interval
  frame_for m payload followup_key none

-- What the waits and the transport do during one _send_sync_pair.
pub record Environment : Type 0 where
  pub t1 : PtpTimestamp
  pub sync_taken : Bool
  pub precise : PtpTimestamp
  pub stopped_in_gap : Bool
  pub follow_up_taken : Bool

-- The second half, given whether the clock is two-step and whether a stop came in the gap.
unfoldable pub follow_up_part : Bool → Bool → Master → ℕ → Environment → Outcome
follow_up_part false stop m seq env = record { master = m; raised = none }
follow_up_part true true m seq env = record { master = m; raised = none }
follow_up_part true false m seq env = elim (follow_up_frame m seq env.precise) [
  | err e ↦ record { master = m; raised = some e }
  | ok frame ↦
      if env.follow_up_taken
      then record {
        master = record m {
          stats = record m.stats { follow_up_sent = m.stats.follow_up_sent + 1 };
          wire = frame ∷ m.wire;
        };
        raised = none;
      }
      else record { master = m; raised = some os_error }
]

-- The second half, with the sequence number of the Sync.
abbrev pub send_follow_up : Master → ℕ → Environment → Outcome
send_follow_up m seq env =
    follow_up_part m.cfg.two_step (ltb_ℤ (pos 0) m.cfg.follow_up_gap && env.stopped_in_gap) m seq
      env

-- _send_sync_pair
unfoldable pub send_sync_pair : Master → Environment → Outcome
send_sync_pair m env =
    let taken = record m { seq_sync = next_seq m.seq_sync } in
    elim (sync_frame m m.seq_sync env.t1) [
      | err e ↦ record { master = taken; raised = some e }
      | ok frame ↦
          if env.sync_taken
          then send_follow_up
              (record taken {
                stats = record m.stats { sync_sent = m.stats.sync_sent + 1; state = active };
                wire = frame ∷ m.wire;
              })
              m.seq_sync env
          else record { master = taken; raised = some os_error }
    ]
