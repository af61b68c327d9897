-- ===== src/Negotiation/Rounds.antt =====
-- src/ptp_client/ptp/g82752_unicast.py: the rounds of measure_acr.
use ptp_client.Prelude.{
  ℕ, zero, suc, ◌+◌, ◌≡◌, refl, Bool, true, false, ◌||◌, if◌then◌else◌, Option, none, some,
  runtime_error,
}
use ptp_client.Request.{Spec}
use ptp_client.Client.World.{
  World, timed_out, denied, negotiation_failed, negotiation_timeout, raising, Outcome, failed,
  finished, Action, Ends, bind-Ends, ◌>>◌,
}
use ptp_client.Client.Sync.{SyncSample}
use ptp_client.Client.Sync.Sampled.{Sampled}
use ptp_client.Client.Exchange.{DelayExchange, exchange_delay, AcrEstimate, combine}
use ptp_client.Client.Reaches.{Reaches, Reaches-self, Reaches-trans}
use ptp_client.Client.Exchange.Left.{Later, exchange_delay-Reaches}
use ptp_client.Negotiation.Slept.{Continues, renew-Continues, sleep-Continues}
use ptp_client.Client.Exchange.Answered.{Exchanged, Unanswered, exchange_delay_lem}
use ptp_client.Negotiation.{Contract, Session, with_client, on_client}
use ptp_client.Negotiation.Phases.{renew_if_due}
use ptp_client.Negotiation.Measure.{
  AcrRunConfig, stopping, reached, sleep_until_next_or_deadline, measured, unanswered, answered,
  measure_rounds,
}

-- A sample that the client waited for in a run from `s` to `u`.
abbrev pub HasSample : Session → SyncSample → Session → Type 0
HasSample s x u =
    (w : World) × (z : World) × Reaches s.client w × Sampled w x z × Reaches z u.client

-- An estimate that combines a sample that the client waited for, in the run from `s` to `u`, with a
-- Delay_Req that it sent behind that, and the answer to it.
pub record IsMeasured (spec : Spec) (s : Session) (x : AcrEstimate) (u : Session) : Type 0 where
  pub waiting : World
  pub waited : World
  pub asking : World
  pub answered : World
  pub before : Reaches s.client waiting
  pub sampled : Sampled waiting x.sync waited
  pub between : Reaches waited asking
  pub exchanged : Exchanged spec asking x.delay answered
  pub behind : Reaches answered u.client
  pub combined : x ≡ combine x.sync x.delay

-- No estimate, or one that was measured.
abbrev pub Estimated : Spec → Session → Option AcrEstimate → Session → Type 0
Estimated spec s none u = Unit
Estimated spec s (some x) u = IsMeasured spec s x u

abbrev pub Whatever : {A : Type 0} → A → Session → Type 0
Whatever a s = Unit {0}

abbrev pub Good : Spec → Session → Outcome Session (Option AcrEstimate) → Type 0
Good spec s o = Ends (Estimated spec s) Whatever o

pub HasSample-later :
    (s : Session) (x : SyncSample) (u v : Session)
    → Reaches u.client v.client
    → HasSample s x u
    → HasSample s x v
HasSample-later s x u v r (w, z, before, sampled, behind) =
    (w, z, before, sampled, Reaches-trans z u.client v.client behind r)

Estimated-later :
    (spec : Spec) (s : Session) (o : Option AcrEstimate) (u v : Session)
    → Reaches u.client v.client
    → Estimated spec s o u
    → Estimated spec s o v
Estimated-later spec s none u v r h = tt
Estimated-later spec s (some x) u v r h = record {
  waiting = h.waiting;
  waited = h.waited;
  asking = h.asking;
  answered = h.answered;
  before = h.before;
  sampled = h.sampled;
  between = h.between;
  exchanged = h.exchanged;
  behind = Reaches-trans h.answered u.client v.client h.behind r;
  combined = h.combined;
}

-- What follows a call that leaves the client in the same run.
pub then-Good :
    {A : Type 0} (spec : Spec) (s u : Session) (o : Outcome Session A)
    (rest : A → Action Session (Option AcrEstimate))
    → Ends (Continues u) (Continues u) o
    → ((a : A) (v : Session) → Reaches u.client v.client → Good spec s (rest a v))
    → Good spec s (elim o [ failed e v ↦ failed e v | finished a v ↦ rest a v ])
then-Good spec s u o rest on h =
    bind-Ends (Continues u) (Estimated spec s) (Continues u) Whatever o rest on (λ e v k. tt)
      (λ a v k. h a v k)

combined_good :
    (spec : Spec) (s u : Session) (x : SyncSample) (d : DelayExchange) (w : World)
    → HasSample s x u
    → Exchanged spec u.client d w
    → IsMeasured spec s (combine x d) (with_client w u)
unfolding combine
combined_good spec s u x d w (waiting, waited, before, sampled, behind) q = record {
  waiting = waiting;
  waited = waited;
  asking = u.client;
  answered = w;
  before = before;
  sampled = sampled;
  between = behind;
  exchanged = q;
  behind = Reaches-self w;
  combined = refl;
}

module _ (c : Contract) (cfg : AcrRunConfig) (spec : Spec) where
  -- What a round does with the outcome of its exchange.
  abbrev pub round :
      SyncSample
      → Option ℕ
      → Option AcrEstimate
      → (Option AcrEstimate → Action Session (Option AcrEstimate))
      → Session
      → Outcome World DelayExchange
      → Outcome Session (Option AcrEstimate)
  round sync deadline last again u o = elim (on_client (λ w. o) u) [
    | failed timed_out v ↦ unanswered c cfg deadline last (again last) v
    | failed e v ↦ failed e v
    | finished d v ↦ answered c cfg deadline (combine sync d) (again (some (combine sync d))) v
  ]

module _ (c : Contract) (cfg : AcrRunConfig) (spec : Spec) (s : Session) where
  measured_lem :
      (last : Option AcrEstimate) (u : Session)
      → Estimated spec s last u
      → Good spec s (measured last u)
  unfolding measured
  measured_lem (some x) u h = h
  measured_lem none u h = ended (stopping u)
    where
      ended :
          (b : Bool) → Good spec s (if b then finished none u else failed (raising runtime_error) u)
      ended true = tt
      ended false = tt

  unanswered_lem :
      (deadline : Option ℕ) (last : Option AcrEstimate)
      (again : Action Session (Option AcrEstimate)) (u : Session)
      → Estimated spec s last u
      → ((v : Session) → Reaches u.client v.client → Good spec s (again v))
      → Good spec s (unanswered c cfg deadline last again u)
  unfolding unanswered
  unanswered_lem deadline last again u h ih =
      then-Good spec s u (renew_if_due c true u) _ (renew-Continues c true u)
        (λ renewed v r. go cfg.interval v r)
    where
      unfinished :
          (b : Bool) (l : Option AcrEstimate) (v : Session)
          → Estimated spec s l v
          → Good spec s (elim b [
            | true ↦ measured l v
            | false ↦ elim l [ none ↦ failed timed_out v | some x ↦ measured (some x) v ]
          ])
      unfinished true l v k = measured_lem l v k
      unfinished false none v k = tt
      unfinished false (some x) v k = measured_lem (some x) v k

      go :
          (o : Option ℕ) (v : Session)
          → Reaches u.client v.client
          → Good spec s (elim o [
            | none ↦ elim (stopping v) [
              | true ↦ measured last v
              | false ↦ elim last [ none ↦ failed timed_out v | some x ↦ measured (some x) v ]
            ]
            | some interval ↦
                (sleep_until_next_or_deadline c (v.client.monotonic + interval) deadline >> again) v
          ])
      go none v r = unfinished (stopping v) last v (Estimated-later spec s last u v r h)
      go (some interval) v r =
          then-Good spec s v
            (sleep_until_next_or_deadline c (v.client.monotonic + interval) deadline v) _
            (sleep-Continues c (v.client.monotonic + interval) deadline v)
            (λ a z k. ih z (Reaches-trans u.client v.client z.client r k))

  answered_lem :
      (deadline : Option ℕ) (x : AcrEstimate) (again : Action Session (Option AcrEstimate))
      (u : Session)
      → IsMeasured spec s x u
      → ((v : Session) → Reaches u.client v.client → Good spec s (again v))
      → Good spec s (answered c cfg deadline x again u)
  unfolding answered
  answered_lem deadline x again u h ih = go cfg.interval
    where
      late :
          (b : Bool) (interval : ℕ)
          → Good spec s (elim b [
            | true ↦ measured (some x) u
            | false ↦
                (sleep_until_next_or_deadline c (u.client.monotonic + interval) deadline >> again) u
          ])
      late true interval = measured_lem (some x) u h
      late false interval =
          then-Good spec s u
            (sleep_until_next_or_deadline c (u.client.monotonic + interval) deadline u) _
            (sleep-Continues c (u.client.monotonic + interval) deadline u) (λ a v k. ih v k)

      go :
          (o : Option ℕ)
          → Good spec s (elim o [
            | none ↦ measured (some x) u
            | some interval ↦ elim (reached deadline (u.client.monotonic + interval)) [
              | true ↦ measured (some x) u
              | false ↦
                  (sleep_until_next_or_deadline c (u.client.monotonic + interval) deadline >> again)
                    u
            ]
          ])
      go none = measured_lem (some x) u h
      go (some interval) = late (reached deadline (u.client.monotonic + interval)) interval

  round_lem :
      (sync : SyncSample) (deadline : Option ℕ) (last : Option AcrEstimate)
      (again : Option AcrEstimate → Action Session (Option AcrEstimate)) (u : Session)
      (o : Outcome World DelayExchange)
      → HasSample s sync u
      → Estimated spec s last u
      → ((l : Option AcrEstimate) (v : Session)
          → HasSample s sync v
          → Estimated spec s l v
          → Good spec s (again l v))
      → Ends (Exchanged spec u.client) (Unanswered u.client) o
      → Ends (Later u.client) (Later u.client) o
      → Good spec s (round c cfg spec sync deadline last again u o)
  round_lem sync deadline last again u (failed timed_out w) x h ih ex on =
      let v : Session = with_client w u in
      unanswered_lem deadline last (again last) v (Estimated-later spec s last u v on h) (λ z r.
        ih last z (HasSample-later s sync u z (Reaches-trans u.client w z.client on r) x)
          (Estimated-later spec s last u z (Reaches-trans u.client w z.client on r) h))
  round_lem sync deadline last again u (failed denied w) x h ih ex on = tt
  round_lem sync deadline last again u (failed negotiation_failed w) x h ih ex on = tt
  round_lem sync deadline last again u (failed negotiation_timeout w) x h ih ex on = tt
  round_lem sync deadline last again u (failed (raising e) w) x h ih ex on = tt
  round_lem sync deadline last again u (finished d w) x h ih ex on =
      let v : Session = with_client w u in
      let good : IsMeasured spec s (combine sync d) v = combined_good spec s u sync d w x ex in
      answered_lem deadline (combine sync d) (again (some (combine sync d))) v good (λ z r.
        ih (some (combine sync d)) z
          (HasSample-later s sync u z (Reaches-trans u.client w z.client on r) x)
          (Estimated-later spec s (some (combine sync d)) v z r good))

  pub rounds_lem :
      (fuel : ℕ) (sync : SyncSample) (deadline : Option ℕ) (last : Option AcrEstimate) (u : Session)
      → HasSample s sync u
      → Estimated spec s last u
      → Good spec s (measure_rounds fuel c cfg spec sync deadline last u)
  unfolding measure_rounds
  rounds_lem zero sync deadline last u x h = measured_lem last u h
  rounds_lem (suc fuel) sync deadline last u x h =
      go (stopping u || (elim last [ none ↦ false | some y ↦ reached deadline u.client.monotonic ]))
        (λ l v y k. rounds_lem fuel sync deadline l v y k)
    where
      go :
          (b : Bool)
          → ((l : Option AcrEstimate) (v : Session)
              → HasSample s sync v
              → Estimated spec s l v
              → Good spec s (measure_rounds fuel c cfg spec sync deadline l v))
          → Good spec s (elim b [
            | true ↦ measured last u
            | false ↦ elim (renew_if_due c false u) [
              | failed e v ↦ failed e v
              | finished renewed v ↦
                  round c cfg spec sync deadline last
                    (λ l. measure_rounds fuel c cfg spec sync deadline l)
                    v
                    (exchange_delay spec cfg.delay_timeout v.client)
            ]
          ])
      go true ih = measured_lem last u h
      go false ih =
          then-Good spec s u (renew_if_due c false u) _ (renew-Continues c false u) (λ renewed v r.
            round_lem sync deadline last (λ l. measure_rounds fuel c cfg spec sync deadline l) v
              (exchange_delay spec cfg.delay_timeout v.client) (HasSample-later s sync u v r x)
              (Estimated-later spec s last u v r h) ih
              (exchange_delay_lem spec cfg.delay_timeout v.client)
              (exchange_delay-Reaches spec cfg.delay_timeout v.client))
