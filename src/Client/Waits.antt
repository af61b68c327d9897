-- ===== src/Client/Waits.antt =====
-- src/ptp_client/ptp/client.py: what _pop_matching_general waits for, and when it returns.
use ptp_client.Prelude.{
  ℕ, ◌<◌, ◌≡◌, refl, ap, ◌⊎◌, inl, inr, List, [], ◌∷◌, All, Bool, true, false, ltb, lt→ltb, ltb→lt,
  Option, none, some,
}
use mathlib.Core.Path.{subst}
use ptp_client.Client.{Datagram, pop_matching}
use ptp_client.Client.Buffer.{Taken, Scanned, pop_matching_lem}
use ptp_client.Client.Received.{Received, Taken-In, Taken-rest}
use ptp_client.Client.World.{
  Failure, timed_out, Outcome, failed, finished, Ends, Tick, World, at_tick, with_buffer,
  wait_matching, pop_matching_general,
}
use ptp_client.Client.Quiet.{
  IsQuiet, IsQuiet-buffer, IsQuiet-end, IsQuiet-trans, IsQuiet-tick, tick_clock, tick_rest,
}

-- What a wait took, and from which buffer.
pub record Found (accept : Datagram → Bool) (deadline : ℕ) (w : World) (d : Datagram) (v : World)
    : Type 0 where
  pub buffer : List Datagram
  pub taken : Taken accept buffer d v.buffer
  pub in_time : v.monotonic < deadline
  pub quiet : IsQuiet w v
  pub received : Received d w

-- The failure of a wait.
pub record TimedOut (w : World) (e : Failure) (v : World) : Type 0 where
  pub cause : e ≡ timed_out
  pub quiet : IsQuiet w v

Found-later :
    (accept : Datagram → Bool) (deadline : ℕ) (u w : World) (o : Outcome World Datagram)
    → IsQuiet u w
    → Ends (Found accept deadline w) (TimedOut w) o
    → Ends (Found accept deadline u) (TimedOut u) o
Found-later accept deadline u w (failed e v) q h = record {
  cause = h.cause;
  quiet = IsQuiet-trans u w v q h.quiet;
}
Found-later accept deadline u w (finished d v) q h = record {
  buffer = h.buffer;
  taken = h.taken;
  in_time = h.in_time;
  quiet = IsQuiet-trans u w v q h.quiet;
  received = q.received d h.received;
}

-- One turn in front of a wait: in time or not, with what the scan found and what the wait gives.
abbrev turn :
    Bool
    → World
    → Option (Datagram × List Datagram)
    → Outcome World Datagram
    → Outcome World Datagram
turn in_time now scan later = elim in_time [
  | false ↦ failed timed_out now
  | true ↦ elim scan [ some (d, rest) ↦ finished d (with_buffer rest now) | none ↦ later ]
]

turn_lem :
    (accept : Datagram → Bool) (deadline : ℕ) (w now : World) (b : Bool)
    (o : Option (Datagram × List Datagram)) (later : Outcome World Datagram)
    → ltb now.monotonic deadline ≡ b
    → IsQuiet w now
    → Scanned accept now.buffer o
    → Ends (Found accept deadline now) (TimedOut now) later
    → Ends (Found accept deadline w) (TimedOut w) (turn b now o later)
turn_lem accept deadline w now false o later clock q scan ih = record { cause = refl; quiet = q }
turn_lem accept deadline w now true none later clock q scan ih =
    Found-later accept deadline w now later q ih
turn_lem accept deadline w now true (some (d, rest)) later clock q scan ih = record {
  buffer = now.buffer;
  taken = scan;
  in_time = ltb→lt now.monotonic deadline clock;
  quiet =
      IsQuiet-trans w now (with_buffer rest now) q
        (IsQuiet-buffer rest now (Taken-rest accept now.buffer d rest scan));
  received = q.received d (inl (Taken-In accept now.buffer d rest scan));
}

wait_matching_lem :
    (accept : Datagram → Bool) (deadline : ℕ) (ts : List Tick) (w : World)
    → w.ticks ≡ ts
    → Ends (Found accept deadline w) (TimedOut w) (wait_matching accept deadline ts w)
unfolding wait_matching
wait_matching_lem accept deadline [] w e = record { cause = refl; quiet = IsQuiet-end w }
wait_matching_lem accept deadline (t ∷ ts) w e =
    turn_lem accept deadline w (at_tick t ts w) (ltb t.monotonic deadline)
      (pop_matching accept (at_tick t ts w).buffer)
      (wait_matching accept deadline ts (at_tick t ts w))
      (ap (λ n. ltb n deadline) (tick_clock t ts w)) (IsQuiet-tick t ts w e)
      (pop_matching_lem accept (at_tick t ts w).buffer)
      (wait_matching_lem accept deadline ts (at_tick t ts w) (tick_rest t ts w))

-- A wait on the ticks ahead ends as the one on its buffer does: with a datagram that it accepts, which
-- was the first such in the buffer and was taken from there at a turn ahead of the deadline, or with
-- TimeoutError. It sends nothing and takes no sequence id either way.
pub pop_matching_general_lem :
    (accept : Datagram → Bool) (deadline : ℕ) (w : World)
    → Ends (Found accept deadline w) (TimedOut w) (pop_matching_general accept deadline w)
unfolding pop_matching_general
pop_matching_general_lem accept deadline w = wait_matching_lem accept deadline w.ticks w refl

-- The buffer holds an accepted datagram.
abbrev Holds : (Datagram → Bool) → List Datagram → Type 0
Holds accept [] = ⊥
Holds accept (d ∷ ds) = (accept d ≡ true) ⊎ Holds accept ds

-- The clock is ahead of the deadline until a turn at which the buffer holds an accepted datagram.
abbrev pub Arrives : (Datagram → Bool) → ℕ → List Tick → World → Type 0
Arrives accept deadline [] w = ⊥
Arrives accept deadline (t ∷ ts) w =
    (t.monotonic < deadline)
    × (Holds accept (at_tick t ts w).buffer ⊎ Arrives accept deadline ts (at_tick t ts w))

Holds-found :
    (accept : Datagram → Bool) (ds : List Datagram)
    → Holds accept ds
    → All (λ d. accept d ≡ false) ds
    → ⊥
Holds-found accept [] h none_match = absurd h
Holds-found accept (d ∷ ds) (inl h) (no_match, rest) = cc
Holds-found accept (d ∷ ds) (inr h) (no_match, rest) = Holds-found accept ds h rest

-- `wait_matching` ends with a datagram.
abbrev Returns : {A : Type 0} → Outcome World A → Type 0
Returns {A = A} o = (a : A) × (v : World) × (o ≡ finished a v)

turn-Returns :
    (accept : Datagram → Bool) (now : World) (o : Option (Datagram × List Datagram))
    (later : Outcome World Datagram)
    → Scanned accept now.buffer o
    → Holds accept now.buffer ⊎ Returns later
    → Returns (turn true now o later)
turn-Returns accept now (some (d, rest)) later scan h = (d, with_buffer rest now, refl)
turn-Returns accept now none later scan (inl held) =
    absurd (Holds-found accept now.buffer held scan)
turn-Returns accept now none later scan (inr h) = h

Arrives-Returns :
    (accept : Datagram → Bool) (deadline : ℕ) (ts : List Tick) (w : World)
    → Arrives accept deadline ts w
    → Returns (wait_matching accept deadline ts w)
unfolding wait_matching
Arrives-Returns accept deadline [] w h = absurd h
Arrives-Returns accept deadline (t ∷ ts) w (ahead, h) =
    let now = at_tick t ts w in
    let later : Holds accept now.buffer ⊎ Returns (wait_matching accept deadline ts now) = elim h [
      | inl held ↦ inl held
      | inr a ↦ inr (Arrives-Returns accept deadline ts now a)
    ] in
    rw (wait_matching, lt→ltb t.monotonic deadline ahead)
      (turn-Returns accept now (pop_matching accept now.buffer)
        (wait_matching accept deadline ts now) (pop_matching_lem accept now.buffer) later)

-- If an accepted datagram is in the buffer at some turn of the wait, and the clock is ahead of the
-- deadline at each turn up to that one, then the wait returns a datagram, which is an accepted one.
pub pop_matching_general_returns :
    (accept : Datagram → Bool) (deadline : ℕ) (w : World)
    → Arrives accept deadline w.ticks w
    → (d : Datagram) × (v : World) × (pop_matching_general accept deadline w ≡ finished d v)
      × (accept d ≡ true)
unfolding pop_matching_general
pop_matching_general_returns accept deadline w h =
    let (d, v, e) = Arrives-Returns accept deadline w.ticks w h in
    let found : Found accept deadline w d v =
      subst (Ends (Found accept deadline w) (TimedOut w)) e
        (wait_matching_lem accept deadline w.ticks w refl) in
    let (before, after, split, left, accepted, others) = found.taken in (d, v, e, accepted)
