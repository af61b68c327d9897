-- ===== src/Client/Sync/Waited.antt =====
-- src/ptp_client/ptp/client.py: the ways of wait_sync_sample to a sample, put together.
use ptp_client.Prelude.{
  ℕ, zero, suc, ◌+◌, ◌≡◌, ◌≤◌, arith, refl, ap, List, [], ◌∷◌, length, Bool, true, false, ltb,
  Option, none, some, runtime_error,
}
use ptp_client.Client.{Datagram}
use ptp_client.Client.World.{
  World, Outcome, failed, finished, timed_out, denied, negotiation_failed, negotiation_timeout,
  raising, Ends, Tick, at_tick, pop_matching_general, Action,
}
use ptp_client.Client.Quiet.{IsQuiet, IsQuiet-self, IsQuiet-tick, tick_rest}
use ptp_client.Client.Waits.{Found, TimedOut, pop_matching_general_lem}
use ptp_client.Client.Sync.{
  SyncSample, accept_sync, try_sync_sample_follow_up_led, resolve_sync, last_resort, sync_turns,
  wait_sync_sample,
}
use ptp_client.Client.Sync.Sampled.{Sampled, Quiet, Tried}
use ptp_client.Client.Sync.Tried.{Ends-later, Tried-later, try_lem, resolve_lem, last_resort_lem}

-- One turn of the loop, in time or not, with what the wait for a Sync gave and the turns behind it.
abbrev sync_turn :
    Action World SyncSample → ℕ → World → Bool → Outcome World Datagram → Outcome World SyncSample
sync_turn next deadline u in_time o = elim in_time [
  | false ↦ last_resort u
  | true ↦ elim o [
    | finished d v ↦ resolve_sync deadline d v
    | failed timed_out v ↦ elim (try_sync_sample_follow_up_led deadline false v) [
      | finished (some sample) later ↦ finished sample later
      | finished none later ↦ next later
      | failed e later ↦ failed e later
    ]
    | failed e v ↦ failed e v
  ]
]

-- The end of a turn that found no Sync.
abbrev led_turn :
    Action World SyncSample → Outcome World (Option SyncSample) → Outcome World SyncSample
led_turn next o = elim o [
  | finished (some sample) later ↦ finished sample later
  | finished none later ↦ next later
  | failed e later ↦ failed e later
]

led_lem :
    (next : Action World SyncSample) (u : World) (o : Outcome World (Option SyncSample))
    → ((v : World) → Ends (Sampled v) (Quiet v) (next v))
    → Ends (Tried u) (Quiet u) o
    → Ends (Sampled u) (Quiet u) (led_turn next o)
led_lem next u (finished (some x) later) ih h = h
led_lem next u (finished none later) ih h = Ends-later u later (next later) h (ih later)
led_lem next u (failed e later) ih h = h

turn_lem :
    (next : Action World SyncSample) (deadline : ℕ) (u : World) (in_time : Bool) (until : ℕ)
    (o : Outcome World Datagram)
    → ((v : World) → Ends (Sampled v) (Quiet v) (next v))
    → Ends (Found (accept_sync u.domain) until u) (TimedOut u) o
    → Ends (Sampled u) (Quiet u) (sync_turn next deadline u in_time o)
turn_lem next deadline u false until o ih found = last_resort_lem u
turn_lem next deadline u true until (finished d now) ih found =
    let (before, after, split, left, accepted, others) = found.taken in
    resolve_lem deadline d u now found.quiet found.received accepted
turn_lem next deadline u true until (failed timed_out now) ih late =
    led_lem next u (try_sync_sample_follow_up_led deadline false now) ih
      (Tried-later u now _ late.quiet (try_lem deadline false now))
turn_lem next deadline u true until (failed denied now) ih late = late.quiet
turn_lem next deadline u true until (failed negotiation_failed now) ih late = late.quiet
turn_lem next deadline u true until (failed negotiation_timeout now) ih late = late.quiet
turn_lem next deadline u true until (failed (raising e) now) ih late = late.quiet

sync_turns_lem :
    (fuel deadline : ℕ) (ts : List Tick) (w : World)
    → w.ticks ≡ ts
    → Ends (Sampled w) (Quiet w) (sync_turns fuel deadline ts w)
unfolding sync_turns
sync_turns_lem zero deadline ts w e = last_resort_lem w
sync_turns_lem (suc fuel) deadline [] w e = last_resort_lem w
sync_turns_lem (suc fuel) deadline (t ∷ ts) w e =
    let now = at_tick t ts w in
    let next : Action World SyncSample = λ v. sync_turns fuel deadline v.ticks v in
    Ends-later w now
      (sync_turn next deadline now (ltb t.monotonic deadline)
        (pop_matching_general (accept_sync now.domain) (t.monotonic + 50000000) now))
      (IsQuiet-tick t ts w e)
      (turn_lem next deadline now (ltb t.monotonic deadline) (t.monotonic + 50000000) _
        (λ v. sync_turns_lem fuel deadline v.ticks v refl)
        (pop_matching_general_lem (accept_sync now.domain) (t.monotonic + 50000000) now))

-- `wait_sync_sample` sends nothing and takes no sequence id, however it ends. What it returns is made of
-- datagrams of the client's domain that were in its buffer or arrived while it waited: a Sync without
-- the two-step flag, with the time that it carries; or a Sync and a Follow_Up of one sequence id, with
-- the time of the Follow_Up; or, degraded, a Follow_Up without a Sync, with its time, and its header
-- with the type changed and its arrival in place of the Sync's.
pub wait_sync_sample_lem :
    (timeout : ℕ) (w : World) → Ends (Sampled w) (Quiet w) (wait_sync_sample timeout w)
unfolding wait_sync_sample
wait_sync_sample_lem timeout w =
    elim w.started
      as (λ b. Ends (Sampled w) (Quiet w) (elim b [
        | false ↦ failed (raising runtime_error) w
        | true ↦ sync_turns (length w.ticks) (w.monotonic + timeout) w.ticks w
      ])) [
        | false ↦ IsQuiet-self w
        | true ↦ sync_turns_lem (length w.ticks) (w.monotonic + timeout) w.ticks w refl
      ]

led_same :
    (f g : Action World SyncSample) (u : World) (o : Outcome World (Option SyncSample))
    → ((v : World) → IsQuiet u v → f v ≡ g v)
    → Ends (Tried u) (Quiet u) o
    → led_turn f o ≡ led_turn g o
led_same f g u (finished (some x) later) same h = refl
led_same f g u (finished none later) same h = same later h
led_same f g u (failed e later) same h = refl

turn_same :
    (f g : Action World SyncSample) (deadline : ℕ) (u : World) (in_time : Bool) (until : ℕ)
    (o : Outcome World Datagram)
    → ((v : World) → IsQuiet u v → f v ≡ g v)
    → Ends (Found (accept_sync u.domain) until u) (TimedOut u) o
    → sync_turn f deadline u in_time o ≡ sync_turn g deadline u in_time o
turn_same f g deadline u false until o same found = refl
turn_same f g deadline u true until (finished d now) same found = refl
turn_same f g deadline u true until (failed timed_out now) same late =
    led_same f g u (try_sync_sample_follow_up_led deadline false now) same
      (Tried-later u now _ late.quiet (try_lem deadline false now))
turn_same f g deadline u true until (failed denied now) same late = refl
turn_same f g deadline u true until (failed negotiation_failed now) same late = refl
turn_same f g deadline u true until (failed negotiation_timeout now) same late = refl
turn_same f g deadline u true until (failed (raising e) now) same late = refl

-- The loop of `wait_sync_sample` does not run out of fuel: any fuel that is not below the number of
-- ticks to come gives the same result.
sync_turns_fuel :
    (n m deadline : ℕ) (ts : List Tick) (w : World)
    → w.ticks ≡ ts
    → length ts ≤ n
    → length ts ≤ m
    → sync_turns n deadline ts w ≡ sync_turns m deadline ts w
unfolding sync_turns
sync_turns_fuel zero zero deadline ts w e p q = refl
sync_turns_fuel zero (suc m) deadline [] w e p q = refl
sync_turns_fuel (suc n) zero deadline [] w e p q = refl
sync_turns_fuel zero (suc m) deadline (t ∷ ts) w e p q = absurd (omega arith)
sync_turns_fuel (suc n) zero deadline (t ∷ ts) w e p q = absurd (omega arith)
sync_turns_fuel (suc n) (suc m) deadline [] w e p q = refl
sync_turns_fuel (suc n) (suc m) deadline (t ∷ ts) w e p q =
    let now = at_tick t ts w in
    turn_same (λ v. sync_turns n deadline v.ticks v) (λ v. sync_turns m deadline v.ticks v) deadline
      now (ltb t.monotonic deadline) (t.monotonic + 50000000)
      (pop_matching_general (accept_sync now.domain) (t.monotonic + 50000000) now)
      (λ v quiet.
        sync_turns_fuel n m deadline v.ticks v refl
          (omega (arith, quiet.ticks_left, ap length (tick_rest t ts w)))
          (omega (arith, quiet.ticks_left, ap length (tick_rest t ts w))))
      (pop_matching_general_lem (accept_sync now.domain) (t.monotonic + 50000000) now)
