-- ===== src/Negotiation/Slept.antt =====
-- src/ptp_client/ptp/g82752_unicast.py: the turns of _sleep_until_next_or_deadline and their fuel.
use ptp_client.Prelude.{
  ℕ, zero, suc, ◌≡◌, ◌≤◌, refl, ◌∙◌, sym, ap, arith, ◌||◌, List, [], ◌∷◌, length, Bool, true, false,
  leb, Option,
}
use ptp_client.Client.World.{
  Outcome, failed, finished, Failure, Action, ◌>>=◌, Ends, bind-Ends, Tick, at_tick,
}
use ptp_client.Client.Quiet.{IsQuiet-tick, tick_rest}
use ptp_client.Client.Reaches.{Reaches, Reaches-self, Reaches-trans, IsQuiet-Reaches}
use ptp_client.Negotiation.{Contract, Session, with_client}
use ptp_client.Negotiation.Phases.{renew_if_due}
use ptp_client.Negotiation.Within.{Bounded}
use ptp_client.Negotiation.Renewal.{Reported, renew_if_due_lem}
use ptp_client.Negotiation.Measure.{reached, sleep_turns, sleep_until_next_or_deadline}

-- A session with at most this many ticks to come.
abbrev pub Rested : {A : Type 0} → ℕ → A → Session → Type 0
Rested n a v = length v.client.ticks ≤ n

-- Two calls that agree behind each end of a first one.
pub bind_same :
    {S A B : Type 0} (P : A → S → Type 0) (F : Failure → S → Type 0) (o : Outcome S A)
    (f g : A → Action S B)
    → Ends P F o
    → ((a : A) (v : S) → P a v → f a v ≡ g a v)
    → (elim o [ failed e t ↦ failed e t | finished a t ↦ f a t ])
      ≡ (elim o [ failed e t ↦ failed e t | finished a t ↦ g a t ])
bind_same P F (failed e t) f g h same = refl
bind_same P F (finished a t) f g h same = same a t h

module _ (c : Contract) where
  Reported-Rested :
      (n : ℕ) (b : Bool) (s v : Session)
      → length s.client.ticks ≤ n
      → Reported c s b v
      → Rested n b v
  Reported-Rested n true s v le h = omega (arith, le, h.0.reaches.ticks_left)
  Reported-Rested n false s v le h = omega (arith, le, h.reaches.ticks_left)

  -- A renewal brings no ticks back, however it ends.
  pub renew_left :
      (n : ℕ) (force : Bool) (s : Session)
      → length s.client.ticks ≤ n
      → Ends (Rested n) (Rested n) (renew_if_due c force s)
  renew_left n force s le = ends (renew_if_due c force s) (renew_if_due_lem c force s)
    where
      ends :
          (o : Outcome Session Bool)
          → Ends (Reported c s) (Bounded 6 s) o
          → Ends (Rested n) (Rested n) o
      ends (failed e v) h = omega (arith, le, h.reaches.ticks_left)
      ends (finished b v) h = Reported-Rested n b s v le h

-- The session later, with its client in the same run.
abbrev pub Continues : {A : Type 0} → Session → A → Session → Type 0
Continues s a v = Reaches s.client v.client

-- A renewal leaves the client in the same run, however it ends.
pub renew-Continues :
    (c : Contract) (force : Bool) (s : Session)
    → Ends (Continues s) (Continues s) (renew_if_due c force s)
renew-Continues c force s = ends (renew_if_due c force s) (renew_if_due_lem c force s)
  where
    ends :
        (o : Outcome Session Bool)
        → Ends (Reported c s) (Bounded 6 s) o
        → Ends (Continues s) (Continues s) o
    ends (failed e v) h = h.reaches
    ends (finished true v) h = h.0.reaches
    ends (finished false v) h = h.reaches

module _ (c : Contract) (next_at : ℕ) (deadline : Option ℕ) where
  -- One turn, with the turns behind it.
  abbrev sleep_turn : Action Session (Unit {0}) → Tick → Session → Bool → Outcome Session (Unit {0})
  sleep_turn next t now b = elim b [
    | true ↦ finished tt now
    | false ↦ (renew_if_due c false >>= λ renewed. next) now
  ]

  -- Whether a turn is the last.
  abbrev awake : Tick → Session → Bool
  awake t s = (s.client.stop || t.stop) || (leb next_at t.monotonic || reached deadline t.monotonic)

  abbrev slept : Action Session (Unit {0}) → Session → List Tick → Outcome Session (Unit {0})
  slept next s ts = elim ts [
    | [] ↦ finished tt s
    | t ∷ ts ↦ sleep_turn next t (with_client (at_tick t ts s.client) s) (awake t s)
  ]

  sleep_rest :
      (fuel : ℕ) (s : Session)
      → s.client.ticks ≡ []
      → sleep_turns fuel c next_at deadline s ≡ finished tt s
  unfolding sleep_turns
  sleep_rest zero s e = refl
  sleep_rest (suc fuel) s e = ap (slept (sleep_turns fuel c next_at deadline) s) e

  sleep_step :
      (fuel : ℕ) (t : Tick) (ts : List Tick) (s : Session)
      → s.client.ticks ≡ t ∷ ts
      → sleep_turns (suc fuel) c next_at deadline s
        ≡ sleep_turn
            (sleep_turns fuel c next_at deadline)
            t
            (with_client (at_tick t ts s.client) s)
            (awake t s)
  unfolding sleep_turns
  sleep_step fuel t ts s e = ap (slept (sleep_turns fuel c next_at deadline) s) e

  turn_same :
      (f g : Action Session (Unit {0})) (t : Tick) (now : Session) (n : ℕ) (b : Bool)
      → length now.client.ticks ≤ n
      → ((v : Session) → length v.client.ticks ≤ n → f v ≡ g v)
      → sleep_turn f t now b ≡ sleep_turn g t now b
  turn_same f g t now n true le same = refl
  turn_same f g t now n false le same =
      bind_same (Rested n) (Rested n) (renew_if_due c false now) (λ renewed. f) (λ renewed. g)
        (renew_left c n false now le) (λ renewed v h. same v h)

  turn_left :
      (f : Action Session (Unit {0})) (t : Tick) (now : Session) (k n : ℕ) (b : Bool)
      → length now.client.ticks ≤ k
      → k ≤ n
      → ((v : Session) → length v.client.ticks ≤ k → Ends (Rested n) (Rested n) (f v))
      → Ends (Rested n) (Rested n) (sleep_turn f t now b)
  turn_left f t now k n true le more ih = omega (arith, le, more)
  turn_left f t now k n false le more ih =
      bind-Ends (Rested k) (Rested n) (Rested k) (Rested n) (renew_if_due c false now)
        (λ renewed. f) (renew_left c k false now le) (λ e v h. omega (arith, h, more))
        (λ renewed v h. ih v h)

  -- The sleep of `measure_acr` does not run out of fuel: any fuel that is not below the number of ticks
  -- to come gives the same result.
  sleep_turns_fuel :
      (n m : ℕ) (ts : List Tick) (s : Session)
      → s.client.ticks ≡ ts
      → length ts ≤ n
      → n ≤ m
      → sleep_turns n c next_at deadline s ≡ sleep_turns m c next_at deadline s
  sleep_turns_fuel n m [] s e le more = sleep_rest n s e ∙ sym (sleep_rest m s e)
  sleep_turns_fuel zero m (t ∷ ts) s e le more = absurd (omega (arith, le))
  sleep_turns_fuel (suc n) zero (t ∷ ts) s e le more = absurd (omega (arith, more))
  sleep_turns_fuel (suc n) (suc m) (t ∷ ts) s e le more =
      let now = with_client (at_tick t ts s.client) s in
      sleep_step n t ts s e
      ∙ turn_same (sleep_turns n c next_at deadline) (sleep_turns m c next_at deadline) t now n
          (awake t s) (omega (arith, le, ap length (tick_rest t ts s.client)))
          (λ v h. sleep_turns_fuel n m v.client.ticks v refl h (omega (arith, more)))
      ∙ sym (sleep_step m t ts s e)

  sleep_turns_left :
      (fuel n : ℕ) (ts : List Tick) (s : Session)
      → s.client.ticks ≡ ts
      → length ts ≤ fuel
      → length ts ≤ suc n
      → Ends (Rested n) (Rested n) (sleep_turns fuel c next_at deadline s)
  sleep_turns_left fuel n [] s e enough le = rw (sleep_rest fuel s e) (omega (arith, ap length e))
  sleep_turns_left zero n (t ∷ ts) s e enough le = absurd (omega (arith, enough))
  sleep_turns_left (suc fuel) n (t ∷ ts) s e enough le =
      let now = with_client (at_tick t ts s.client) s in
      rw (sleep_step fuel t ts s e) (
        turn_left (sleep_turns fuel c next_at deadline) t now (length ts) n (awake t s)
          (omega (arith, ap length (tick_rest t ts s.client))) (omega (arith, le))
          (λ v h.
            sleep_turns_left fuel n v.client.ticks v refl (omega (arith, h, enough))
              (omega (arith, h, le))))

  -- A sleep takes a tick, where there is one.
  pub sleep_left :
      (n : ℕ) (s : Session)
      → length s.client.ticks ≤ suc n
      → Ends (Rested n) (Rested n) (sleep_until_next_or_deadline c next_at deadline s)
  unfolding sleep_until_next_or_deadline
  sleep_left n s le =
      sleep_turns_left (length s.client.ticks) n s.client.ticks s refl (omega arith) le

  turn-Continues :
      (f : Action Session (Unit {0})) (t : Tick) (s now : Session) (b : Bool)
      → Continues s t now
      → ((v : Session) → Ends (Continues v) (Continues v) (f v))
      → Ends (Continues s) (Continues s) (sleep_turn f t now b)
  turn-Continues f t s now true r ih = r
  turn-Continues f t s now false r ih =
      let on = λ (v : Session) (k : Reaches now.client v.client).
        Reaches-trans s.client now.client v.client r k in
      bind-Ends (Continues now) (Continues s) (Continues now) (Continues s)
        (renew_if_due c false now) (λ renewed. f) (renew-Continues c false now) (λ e v h. on v h)
        (λ renewed v h. continued v (f v) (on v h) (ih v))
    where
      continued :
          (v : Session) (o : Outcome Session (Unit {0}))
          → Reaches s.client v.client
          → Ends (Continues v) (Continues v) o
          → Ends (Continues s) (Continues s) o
      continued v (failed e z) k h = Reaches-trans s.client v.client z.client k h
      continued v (finished a z) k h = Reaches-trans s.client v.client z.client k h

  sleep_turns-Continues :
      (fuel : ℕ) (ts : List Tick) (s : Session)
      → s.client.ticks ≡ ts
      → Ends (Continues s) (Continues s) (sleep_turns fuel c next_at deadline s)
  unfolding sleep_turns
  sleep_turns-Continues zero ts s e = Reaches-self s.client
  sleep_turns-Continues (suc fuel) [] s e = rw (sleep_rest (suc fuel) s e) (Reaches-self s.client)
  sleep_turns-Continues (suc fuel) (t ∷ ts) s e = rw (sleep_step fuel t ts s e) (
      turn-Continues (sleep_turns fuel c next_at deadline) t s
        (with_client (at_tick t ts s.client) s) (awake t s)
        (IsQuiet-Reaches s.client _ (IsQuiet-tick t ts s.client e))
        (λ v. sleep_turns-Continues fuel v.client.ticks v refl))

  -- A sleep leaves the client in the same run, however it ends.
  pub sleep-Continues :
      (s : Session)
      → Ends (Continues s) (Continues s) (sleep_until_next_or_deadline c next_at deadline s)
  unfolding sleep_until_next_or_deadline
  sleep-Continues s = sleep_turns-Continues (length s.client.ticks) s.client.ticks s refl
