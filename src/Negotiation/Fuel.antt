-- ===== src/Negotiation/Fuel.antt =====
-- src/ptp_client/ptp/g82752_unicast.py: the fuel of the rounds of measure_acr.
use ptp_client.Prelude.{
  ℕ, zero, suc, ◌+◌, ◌≡◌, ◌≤◌, refl, sym, arith, ◌||◌, List, [], ◌∷◌, length, Bool, true, false,
  Option, none, some,
}
use ptp_client.Request.{Spec}
use ptp_client.Client.World.{
  World, Outcome, failed, finished, timed_out, denied, negotiation_failed, negotiation_timeout,
  raising, Action, ◌>>◌, Ends, Tick,
}
use ptp_client.Client.Sync.{SyncSample}
use ptp_client.Client.Exchange.{DelayExchange, exchange_delay, AcrEstimate, combine}
use ptp_client.Client.Exchange.Left.{Left, exchange_delay-Left}
use ptp_client.Negotiation.{Contract, Session, with_client}
use ptp_client.Negotiation.Phases.{renew_if_due}
use ptp_client.Negotiation.Measure.{
  AcrRunConfig, stopping, reached, measured, sleep_until_next_or_deadline, unanswered, answered,
  measure_rounds,
}
use ptp_client.Negotiation.Rounds.{round}
use ptp_client.Negotiation.Slept.{Rested, bind_same, renew_left, sleep_left}

module _ (c : Contract) (cfg : AcrRunConfig) (deadline : Option ℕ) (n : ℕ)
    (f g : Action Session (Option AcrEstimate))
    (same : (v : Session) → length v.client.ticks ≤ n → f v ≡ g v) where
  -- Two ways to go on behind a sleep.
  slept_same :
      (next_at : ℕ) (s : Session)
      → length s.client.ticks ≤ suc n
      → (sleep_until_next_or_deadline c next_at deadline >> f) s
        ≡ (sleep_until_next_or_deadline c next_at deadline >> g) s
  slept_same next_at s le =
      bind_same (Rested n) (Rested n) (sleep_until_next_or_deadline c next_at deadline s) (λ a. f)
        (λ a. g) (sleep_left c next_at deadline n s le) (λ a v h. same v h)

  -- What follows the renewal behind an unanswered Delay_Req.
  abbrev missed :
      Option AcrEstimate
      → Action Session (Option AcrEstimate)
      → Session
      → Option ℕ
      → Outcome Session (Option AcrEstimate)
  missed last again u o = elim o [
    | none ↦ elim (stopping u) [
      | true ↦ measured last u
      | false ↦ elim last [ none ↦ failed timed_out u | some x ↦ measured (some x) u ]
    ]
    | some interval ↦
        (sleep_until_next_or_deadline c (u.client.monotonic + interval) deadline >> again) u
  ]

  missed_same :
      (last : Option AcrEstimate) (u : Session) (o : Option ℕ)
      → length u.client.ticks ≤ suc n
      → missed last f u o ≡ missed last g u o
  missed_same last u none le = refl
  missed_same last u (some interval) le = slept_same (u.client.monotonic + interval) u le

  unanswered_same :
      (last : Option AcrEstimate) (s : Session)
      → length s.client.ticks ≤ suc n
      → unanswered c cfg deadline last f s ≡ unanswered c cfg deadline last g s
  unfolding unanswered
  unanswered_same last s le =
      bind_same (Rested (suc n)) (Rested (suc n)) (renew_if_due c true s)
        (λ renewed u. missed last f u cfg.interval) (λ renewed u. missed last g u cfg.interval)
        (renew_left c (suc n) true s le) (λ renewed u h. missed_same last u cfg.interval h)

  -- What follows an answered Delay_Req.
  abbrev late :
      AcrEstimate
      → Action Session (Option AcrEstimate)
      → Session
      → ℕ
      → Bool
      → Outcome Session (Option AcrEstimate)
  late x again s interval b = elim b [
    | true ↦ measured (some x) s
    | false ↦ (sleep_until_next_or_deadline c (s.client.monotonic + interval) deadline >> again) s
  ]

  late_same :
      (x : AcrEstimate) (s : Session) (interval : ℕ) (b : Bool)
      → length s.client.ticks ≤ suc n
      → late x f s interval b ≡ late x g s interval b
  late_same x s interval true le = refl
  late_same x s interval false le = slept_same (s.client.monotonic + interval) s le

  abbrev hit :
      AcrEstimate
      → Action Session (Option AcrEstimate)
      → Session
      → Option ℕ
      → Outcome Session (Option AcrEstimate)
  hit x again s o = elim o [
    | none ↦ measured (some x) s
    | some interval ↦ late x again s interval (reached deadline (s.client.monotonic + interval))
  ]

  hit_same :
      (x : AcrEstimate) (s : Session) (o : Option ℕ)
      → length s.client.ticks ≤ suc n
      → hit x f s o ≡ hit x g s o
  hit_same x s none le = refl
  hit_same x s (some interval) le =
      late_same x s interval (reached deadline (s.client.monotonic + interval)) le

  answered_same :
      (x : AcrEstimate) (s : Session)
      → length s.client.ticks ≤ suc n
      → answered c cfg deadline x f s ≡ answered c cfg deadline x g s
  unfolding answered
  answered_same x s le = hit_same x s cfg.interval le

module _ (c : Contract) (cfg : AcrRunConfig) (spec : Spec) (sync : SyncSample)
    (deadline : Option ℕ) where
  round_same :
      (n : ℕ) (last : Option AcrEstimate)
      (f g : Option AcrEstimate → Action Session (Option AcrEstimate))
      → ((l : Option AcrEstimate) (v : Session) → length v.client.ticks ≤ n → f l v ≡ g l v)
      → (u : Session) (o : Outcome World DelayExchange) → Ends (Left (suc n)) (Left (suc n)) o
      → round c cfg spec sync deadline last f u o ≡ round c cfg spec sync deadline last g u o
  round_same n last f g same u (failed timed_out w) h =
      unanswered_same c cfg deadline n (f last) (g last) (same last) last (with_client w u) h
  round_same n last f g same u (failed denied w) h = refl
  round_same n last f g same u (failed negotiation_failed w) h = refl
  round_same n last f g same u (failed negotiation_timeout w) h = refl
  round_same n last f g same u (failed (raising e) w) h = refl
  round_same n last f g same u (finished d w) h =
      let x : AcrEstimate = combine sync d in
      answered_same c cfg deadline n (f (some x)) (g (some x)) (same (some x)) x (with_client w u) h

  -- A round, which is the last or not.
  abbrev one_round :
      Option AcrEstimate
      → (Option AcrEstimate → Action Session (Option AcrEstimate))
      → Session
      → Bool
      → Outcome Session (Option AcrEstimate)
  one_round last again s b = elim b [
    | true ↦ measured last s
    | false ↦ elim (renew_if_due c false s) [
      | failed e u ↦ failed e u
      | finished renewed u ↦
          round c cfg spec sync deadline last again u
            (exchange_delay spec cfg.delay_timeout u.client)
    ]
  ]

  one_round_same :
      (n : ℕ) (last : Option AcrEstimate)
      (f g : Option AcrEstimate → Action Session (Option AcrEstimate))
      → ((l : Option AcrEstimate) (v : Session) → length v.client.ticks ≤ n → f l v ≡ g l v)
      → (s : Session) (b : Bool) → length s.client.ticks ≤ suc n
      → one_round last f s b ≡ one_round last g s b
  one_round_same n last f g same s true le = refl
  one_round_same n last f g same s false le =
      bind_same (Rested (suc n)) (Rested (suc n)) (renew_if_due c false s) _ _
        (renew_left c (suc n) false s le)
        (λ renewed u h.
          round_same n last f g same u (exchange_delay spec cfg.delay_timeout u.client)
            (exchange_delay-Left spec cfg.delay_timeout (suc n) u.client h))

  stopping_lem : (s : Session) → length s.client.ticks ≤ 0 → stopping s ≡ true
  unfolding stopping
  stopping_lem s le = no_tick s.client.ticks le
    where
      no_tick :
          (ts : List Tick) → length ts ≤ 0 → (elim ts [ [] ↦ true | t ∷ us ↦ s.client.stop ]) ≡ true
      no_tick [] h = refl
      no_tick (t ∷ us) h = absurd (omega (arith, h))

  rounds_rest :
      (fuel : ℕ) (last : Option AcrEstimate) (s : Session)
      → length s.client.ticks ≤ 0
      → measure_rounds fuel c cfg spec sync deadline last s ≡ measured last s
  unfolding measure_rounds
  rounds_rest zero last s le = refl
  rounds_rest (suc fuel) last s le = rw (measure_rounds, stopping_lem s le) refl

  -- The loop of `measure_acr` does not run out of fuel: any fuel that is not below the number of ticks
  -- to come gives the same result.
  measure_rounds_fuel :
      (n m : ℕ) (last : Option AcrEstimate) (s : Session)
      → length s.client.ticks ≤ n
      → n ≤ m
      → measure_rounds n c cfg spec sync deadline last s
        ≡ measure_rounds m c cfg spec sync deadline last s
  unfolding measure_rounds
  measure_rounds_fuel zero m last s le more = sym (rounds_rest m last s le)
  measure_rounds_fuel (suc n) zero last s le more = absurd (omega (arith, more))
  measure_rounds_fuel (suc n) (suc m) last s le more =
      one_round_same n last (λ l. measure_rounds n c cfg spec sync deadline l)
        (λ l. measure_rounds m c cfg spec sync deadline l)
        (λ l v h. measure_rounds_fuel n m l v h (omega (arith, more))) s
        (stopping s || (elim last [ none ↦ false | some x ↦ reached deadline s.client.monotonic ]))
        le
