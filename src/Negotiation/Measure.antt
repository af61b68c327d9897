-- ===== src/Negotiation/Measure.antt =====
-- src/ptp_client/ptp/g82752_unicast.py: measure_acr, and the manager thread that runs it. The end of the
-- ticks counts as a request to stop: an endless measurement is observed up to there. Times are in
-- nanoseconds.
use ptp_client.Prelude.{
  ℕ, zero, suc, ◌+◌, ◌||◌, [], ◌∷◌, Bool, true, false, leb, length, if◌then◌else◌, Option, none,
  some, runtime_error, pos,
}
use ptp_client.Request.{Spec, octets}
use ptp_client.Request.Delay.{Overrides, build_delay_request_spec}
use ptp_client.Client.World.{
  timed_out, raising, failed, finished, Action, ◌>>=◌, ◌>>◌, give, at_tick,
}
use ptp_client.Client.Sync.{SyncSample, wait_sync_sample}
use ptp_client.Client.Exchange.{exchange_delay, AcrEstimate, combine}
use ptp_client.Negotiation.{Contract, Session, with_client, on_client}
use ptp_client.Negotiation.Phases.{renew_if_due, negotiate}

-- G82752AcrRunConfig; `interval` is a positive delay_request_interval_sec, `limit` a positive
-- measure_duration_sec.
pub record AcrRunConfig : Type 0 where
  pub measure_acr : Bool
  pub delay_spec : Overrides
  pub sync_timeout : ℕ
  pub delay_timeout : ℕ
  pub interval : Option ℕ
  pub limit : Option ℕ

-- _stop_manager.is_set(), and the end of what is observed
unfoldable pub stopping : Session → Bool
stopping s = elim s.client.ticks [ [] ↦ true | t ∷ ts ↦ s.client.stop ]

-- A deadline that has come.
unfoldable pub reached : Option ℕ → ℕ → Bool
reached none now = false
reached (some deadline) now = leb deadline now

-- _sleep_until_next_or_deadline, each turn on a tick, with fuel for them
unfoldable pub sleep_turns : ℕ → Contract → ℕ → Option ℕ → Action Session (Unit {0})
sleep_turns zero c next_at deadline s = finished tt s
sleep_turns (suc fuel) c next_at deadline s = elim s.client.ticks [
  | [] ↦ finished tt s
  | t ∷ ts ↦
      elim ((s.client.stop || t.stop)
        || (leb next_at t.monotonic || reached deadline t.monotonic)) [
          | true ↦ finished tt (with_client (at_tick t ts s.client) s)
          | false ↦
              (renew_if_due c false >>= λ renewed. sleep_turns fuel c next_at deadline)
                (with_client (at_tick t ts s.client) s)
        ]
]

unfoldable pub sleep_until_next_or_deadline : Contract → ℕ → Option ℕ → Action Session (Unit {0})
sleep_until_next_or_deadline c next_at deadline s =
    sleep_turns (length s.client.ticks) c next_at deadline s

-- The Sync sample of measure_acr: none if a stop was asked for while it waited.
unfoldable pub measured_sync : Contract → ℕ → Action Session (Option SyncSample)
measured_sync c timeout s = elim (on_client (wait_sync_sample timeout) s) [
  | finished x u ↦ finished (some x) u
  | failed timed_out u ↦ elim u.client.stop [
    | true ↦ finished none u
    | false ↦ elim (renew_if_due c true u) [
      | failed e v ↦ failed e v
      | finished renewed v ↦ elim (on_client (wait_sync_sample timeout) v) [
        | finished x z ↦ finished (some x) z
        | failed timed_out z ↦ elim z.client.stop [
          | true ↦ finished none z
          | false ↦ failed timed_out z
        ]
        | failed e z ↦ failed e z
      ]
    ]
  ]
  | failed e u ↦ failed e u
]

-- What follows the loop.
unfoldable pub measured : Option AcrEstimate → Action Session (Option AcrEstimate)
measured (some x) s = finished (some x) s
measured none s = if stopping s then finished none s else failed (raising runtime_error) s

-- A Delay_Req that was not answered.
unfoldable pub unanswered :
    Contract
    → AcrRunConfig
    → Option ℕ
    → Option AcrEstimate
    → Action Session (Option AcrEstimate)
    → Action Session (Option AcrEstimate)
unanswered c cfg deadline last again s = elim (renew_if_due c true s) [
  | failed e u ↦ failed e u
  | finished renewed u ↦ elim cfg.interval [
    | none ↦ elim (stopping u) [
      | true ↦ measured last u
      | false ↦ elim last [ none ↦ failed timed_out u | some x ↦ measured (some x) u ]
    ]
    | some interval ↦
        (sleep_until_next_or_deadline c (u.client.monotonic + interval) deadline >> again) u
  ]
]

-- A Delay_Req that was answered.
unfoldable pub answered :
    Contract
    → AcrRunConfig
    → Option ℕ
    → AcrEstimate
    → Action Session (Option AcrEstimate)
    → Action Session (Option AcrEstimate)
answered c cfg deadline x again s = elim cfg.interval [
  | none ↦ measured (some x) s
  | some interval ↦ elim (reached deadline (s.client.monotonic + interval)) [
    | true ↦ measured (some x) s
    | false ↦ (sleep_until_next_or_deadline c (s.client.monotonic + interval) deadline >> again) s
  ]
]

-- The loop of measure_acr, with fuel for its rounds: the test for a round behind the first in a
-- measurement without an interval never holds, since that ends with its first round.
unfoldable pub measure_rounds :
    ℕ
    → Contract
    → AcrRunConfig
    → Spec
    → SyncSample
    → Option ℕ
    → Option AcrEstimate
    → Action Session (Option AcrEstimate)
measure_rounds zero c cfg spec sync deadline last s = measured last s
measure_rounds (suc fuel) c cfg spec sync deadline last s =
    elim (stopping s
      || (elim last [ none ↦ false | some x ↦ reached deadline s.client.monotonic ])) [
        | true ↦ measured last s
        | false ↦ elim (renew_if_due c false s) [
          | failed e u ↦ failed e u
          | finished renewed u ↦ elim (on_client (exchange_delay spec cfg.delay_timeout) u) [
            | failed timed_out v ↦
                unanswered c cfg deadline last (measure_rounds fuel c cfg spec sync deadline last) v
            | failed e v ↦ failed e v
            | finished d v ↦
                answered c cfg deadline (combine sync d)
                  (measure_rounds fuel c cfg spec sync deadline (some (combine sync d))) v
          ]
        ]
      ]

-- The end of the measurement.
abbrev pub limit_at : Option ℕ → ℕ → Option ℕ
limit_at none now = none
limit_at (some n) now = some (now + n)

unfoldable pub measure_from :
    Contract → AcrRunConfig → Spec → Option SyncSample → Action Session (Option AcrEstimate)
measure_from c cfg spec none s = finished none s
measure_from c cfg spec (some x) s =
    measure_rounds (length s.client.ticks) c cfg spec x (limit_at cfg.limit s.client.monotonic) none
      s

-- The specification of the Delay_Reqs; FLAG_UNICAST is their default.
unfoldable pub measure_spec : Contract → AcrRunConfig → Spec
measure_spec c cfg =
    build_delay_request_spec cfg.delay_spec c.domain_number (octets c.our_identity.clock_identity)
      c.our_identity.port_number (pos 0x400)

unfoldable pub measure_acr : Contract → AcrRunConfig → Action Session (Option AcrEstimate)
measure_acr c cfg s = elim s.state [
  | none ↦ failed (raising runtime_error) s
  | some st ↦
      (measured_sync c cfg.sync_timeout >>= λ x. measure_from c cfg (measure_spec c cfg) x) s
]

-- _manager_loop: the outcome is kept for wait_acr.
unfoldable pub manager_loop : Contract → AcrRunConfig → Action Session (Option AcrEstimate)
manager_loop c cfg = negotiate c >>= λ st. if cfg.measure_acr then measure_acr c cfg else give none
