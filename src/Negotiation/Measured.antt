-- ===== src/Negotiation/Measured.antt =====
-- src/ptp_client/ptp/g82752_unicast.py: what measure_acr returns.
use ptp_client.Prelude.{ℕ, Bool, true, false, Option, none, some, length, runtime_error}
use ptp_client.Client.World.{
  World, timed_out, denied, negotiation_failed, negotiation_timeout, raising, Outcome, failed,
  finished, Ends, bind-Ends, ◌>>=◌,
}
use ptp_client.Client.Sync.{SyncSample, wait_sync_sample}
use ptp_client.Client.Sync.Sampled.{Sampled, Quiet}
use ptp_client.Client.Sync.Waited.{wait_sync_sample_lem}
use ptp_client.Negotiation.{Contract, Session, with_client, on_client}
use ptp_client.Negotiation.Phases.{renew_if_due}
use ptp_client.Negotiation.Measure.{
  AcrRunConfig, measured_sync, limit_at, measure_from, measure_spec, measure_acr,
}
use ptp_client.Negotiation.Rounds.{HasSample, Estimated, Whatever, Good, rounds_lem}
use ptp_client.Negotiation.Slept.{Continues, renew-Continues}
use ptp_client.Client.Reaches.{Reaches, Reaches-self, Reaches-trans, IsQuiet-Reaches}

-- No sample, or one that the client waited for since `s`.
abbrev Sampling : Session → Option SyncSample → Session → Type 0
Sampling s none u = Unit
Sampling s (some x) u = HasSample s x u

module _ (c : Contract) (s : Session) where
  second_lem :
      (u : Session) (o : Outcome World SyncSample)
      → Reaches s.client u.client
      → Ends (Sampled u.client) (Quiet u.client) o
      → Ends (Sampling s) Whatever (elim (on_client (λ w. o) u) [
        | finished x z ↦ finished (some x) z
        | failed timed_out z ↦ elim z.client.stop [
          | true ↦ finished none z
          | false ↦ failed timed_out z
        ]
        | failed e z ↦ failed e z
      ])
  second_lem u (finished x w) r h = (u.client, w, r, h, Reaches-self w)
  second_lem u (failed timed_out w) r h = stopped w.stop
    where
      stopped :
          (b : Bool)
          → Ends (Sampling s) Whatever (elim b [
            | true ↦ finished none (with_client w u)
            | false ↦ failed timed_out (with_client w u)
          ])
      stopped true = tt
      stopped false = tt
  second_lem u (failed denied w) r h = tt
  second_lem u (failed negotiation_failed w) r h = tt
  second_lem u (failed negotiation_timeout w) r h = tt
  second_lem u (failed (raising e) w) r h = tt

  -- What follows the first wait.
  abbrev waited_for : ℕ → Outcome World SyncSample → Outcome Session (Option SyncSample)
  waited_for timeout o = elim (on_client (λ w. o) s) [
    | finished x u ↦ finished (some x) u
    | failed timed_out u ↦ elim u.client.stop [
      | true ↦ finished none u
      | false ↦ elim (renew_if_due c true u) [
        | failed e v ↦ failed e v
        | finished renewed v ↦ elim (on_client (wait_sync_sample timeout) v) [
          | finished x z ↦ finished (some x) z
          | failed timed_out z ↦ elim z.client.stop [
            | true ↦ finished none z
            | false ↦ failed timed_out z
          ]
          | failed e z ↦ failed e z
        ]
      ]
    ]
    | failed e u ↦ failed e u
  ]

  first_lem :
      (timeout : ℕ) (o : Outcome World SyncSample)
      → Ends (Sampled s.client) (Quiet s.client) o
      → Ends (Sampling s) Whatever (waited_for timeout o)
  first_lem timeout (finished x w) h = (s.client, w, Reaches-self s.client, h, Reaches-self w)
  first_lem timeout (failed timed_out w) h = stopped w.stop
    where
      stopped :
          (b : Bool)
          → Ends (Sampling s) Whatever (elim b [
            | true ↦ finished none (with_client w s)
            | false ↦ elim (renew_if_due c true (with_client w s)) [
              | failed e v ↦ failed e v
              | finished renewed v ↦ elim (on_client (wait_sync_sample timeout) v) [
                | finished x z ↦ finished (some x) z
                | failed timed_out z ↦ elim z.client.stop [
                  | true ↦ finished none z
                  | false ↦ failed timed_out z
                ]
                | failed e z ↦ failed e z
              ]
            ]
          ])
      stopped true = tt
      stopped false =
          let u : Session = with_client w s in
          bind-Ends (Continues u) (Sampling s) (Continues u) Whatever (renew_if_due c true u) _
            (renew-Continues c true u) (λ e t k. tt)
            (λ renewed v k.
              second_lem v (wait_sync_sample timeout v.client)
                (Reaches-trans s.client w v.client (IsQuiet-Reaches s.client w h) k)
                (wait_sync_sample_lem timeout v.client))
  first_lem timeout (failed denied w) h = tt
  first_lem timeout (failed negotiation_failed w) h = tt
  first_lem timeout (failed negotiation_timeout w) h = tt
  first_lem timeout (failed (raising e) w) h = tt

  measured_sync_lem : (timeout : ℕ) → Ends (Sampling s) Whatever (measured_sync c timeout s)
  unfolding measured_sync
  measured_sync_lem timeout =
      first_lem timeout (wait_sync_sample timeout s.client) (wait_sync_sample_lem timeout s.client)

  measured_from_lem :
      (cfg : AcrRunConfig) (o : Option SyncSample) (u : Session)
      → Sampling s o u
      → Good (measure_spec c cfg) s (measure_from c cfg (measure_spec c cfg) o u)
  unfolding measure_from
  measured_from_lem cfg none u h = tt
  measured_from_lem cfg (some x) u h =
      rounds_lem c cfg (measure_spec c cfg) s (length u.client.ticks) x
        (limit_at cfg.limit u.client.monotonic) none u h tt

-- What `measure_acr` returns is no estimate, or one that combines a sample that the client waited for
-- during the call, in the client's domain and of datagrams that it had or that arrived since, with a
-- Delay_Req that it sent behind that and the answer to it.
pub measure_acr_lem :
    (c : Contract) (cfg : AcrRunConfig) (s : Session)
    → Ends (Estimated (measure_spec c cfg) s) Whatever (measure_acr c cfg s)
unfolding measure_acr
measure_acr_lem c cfg s =
    elim s.state
      as (λ o. Ends (Estimated (measure_spec c cfg) s) Whatever (elim o [
        | none ↦ failed (raising runtime_error) s
        | some st ↦
            (measured_sync c cfg.sync_timeout >>= λ x. measure_from c cfg (measure_spec c cfg) x) s
      ])) [
        | none ↦ tt
        | some st ↦
            bind-Ends (Sampling s) (Estimated (measure_spec c cfg) s) Whatever Whatever
              (measured_sync c cfg.sync_timeout s) _ (measured_sync_lem c s cfg.sync_timeout)
              (λ e t k. tt) (λ o u k. measured_from_lem c s cfg o u k)
      ]
