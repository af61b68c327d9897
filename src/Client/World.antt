-- ===== src/Client/World.antt =====
-- src/ptp_client/ptp/client.py: what PTPAcrUnicastClient keeps and sees, and how its calls change it.
-- A call of the client is an action: it maps the state to a value or a failure, and to the next
-- state. The clock and the receiver thread are a list of ticks: each is a turn of a waiting loop, with
-- the datagrams that the receiver took in since the last, what the clocks then read, and whether the
-- manager was asked to stop by then. Behind the last tick every wait has run out.
use ptp_client.Prelude.{
  ℕ, ◌+◌, ◌%◌, ◌^◌, ◌++◌, ◌||◌, List, [], ◌∷◌, Bool, true, false, ltb, none, some, Result, ok, err,
  Error,
}
use ptp_client.Wire.{Bytes}
use ptp_client.Client.{Datagram, ingest_ptp_datagram, pop_matching}

-- TimeoutError, UnicastDeniedError, UnicastNegotiationError, UnicastNegotiationTimeout; the others.
pub data Failure : Type 0 where
  timed_out denied negotiation_failed negotiation_timeout : Failure
  raising : Error → Failure

-- How a call ends, and the state afterwards.
pub data Outcome (S A : Type 0) : Type 0 where
  failed : Failure → S → Outcome S A
  finished : A → S → Outcome S A

abbrev pub Action : Type 0 → Type 0 → Type 0
Action S A = S → Outcome S A

module _ {S A B : Type 0} where
  infixl 5 ◌>>=◌
  abbrev pub ◌>>=◌ : Action S A → (A → Action S B) → Action S B
  (call >>= rest) s = elim (call s) [ failed e t ↦ failed e t | finished a t ↦ rest a t ]

module _ {S B : Type 0} where
  infixl 5 ◌>>◌
  abbrev pub ◌>>◌ : Action S (Unit {0}) → Action S B → Action S B
  call >> rest = call >>= λ x. rest

-- The call ends with a value and a state of which `P` holds, or with a failure and a state of which
-- `F` does.
abbrev pub Ends : {S A : Type 0} → (A → S → Type 0) → (Failure → S → Type 0) → Outcome S A → Type 0
Ends P F (failed e s) = F e s
Ends P F (finished a s) = P a s

pub bind-Ends :
    {S A B : Type 0} (P : A → S → Type 0) (Q : B → S → Type 0) (F G : Failure → S → Type 0)
    (call : Outcome S A) (rest : A → Action S B)
    → Ends P F call
    → ((e : Failure) (s : S) → F e s → G e s)
    → ((a : A) (s : S) → P a s → Ends Q G (rest a s))
    → Ends Q G (elim call [ failed e t ↦ failed e t | finished a t ↦ rest a t ])
bind-Ends P Q F G (failed e s) rest h failing next = failing e s h
bind-Ends P Q F G (finished a s) rest h failing next = next a s h

-- a value, the exception of a function that keeps no state, and a raised failure
abbrev pub give : {S A : Type 0} → A → Action S A
give a s = finished a s

abbrev pub raise : {S A : Type 0} → Failure → Action S A
raise e s = failed e s

abbrev pub lift : {S A : Type 0} → Result A → Action S A
lift (err e) s = failed (raising e) s
lift (ok a) s = finished a s

abbrev pub read : {S A : Type 0} → (S → A) → Action S A
read f s = finished (f s) s

abbrev pub change : {S : Type 0} → (S → S) → Action S (Unit {0})
change f s = finished tt (f s)

pub record Tick : Type 0 where
  pub monotonic : ℕ
  pub wall : ℕ
  pub arrivals : List (Bytes × ℕ)
  pub stop : Bool

pub data Port : Type 0 where
  event_port general_port : Port

-- The client: whether it has its sockets, its domain, the last sequence id, the receive buffer with its bound, what was sent; and the ticks
-- to come, the clocks as last read (in nanoseconds), and whether the manager was asked to stop.
pub record World : Type 0 where
  pub started : Bool
  pub domain : ℕ
  pub maxlen : ℕ
  pub seq : ℕ
  pub buffer : List Datagram
  pub sent : List (Port × Bytes)
  pub ticks : List Tick
  pub monotonic : ℕ
  pub wall : ℕ
  pub stop : Bool

-- _receiver_loop: an exception that _ingest_ptp_datagram does not catch ends the thread.
unfoldable pub receive : ℕ → List Datagram → List (Bytes × ℕ) → List Datagram
receive maxlen buffer [] = buffer
receive maxlen buffer ((bs, wall) ∷ more) = elim (ingest_ptp_datagram maxlen buffer bs wall) [
  | err e ↦ buffer
  | ok (buffer', accepted) ↦ receive maxlen buffer' more
]

-- The world at a tick, with the ticks behind it still to come.
unfoldable pub at_tick : Tick → List Tick → World → World
at_tick t ts w = record w {
  buffer = receive w.maxlen w.buffer t.arrivals;
  ticks = ts;
  monotonic = t.monotonic;
  wall = t.wall;
  stop = w.stop || t.stop;
}

abbrev pub with_buffer : List Datagram → World → World
with_buffer buffer w = record w { buffer = buffer }

abbrev pub with_ticks : List Tick → World → World
with_ticks ts w = record w { ticks = ts }

-- the next sequence id
unfoldable pub allocate_sequence_id : Action World ℕ
allocate_sequence_id w = let seq = (w.seq + 1) % 2 ^ 16 in finished seq (record w { seq = seq })

-- A datagram handed to a socket.
unfoldable pub send : Port → Bytes → Action World (Unit {0})
send port bs w = finished tt (record w { sent = w.sent ++ ((port, bs) ∷ []) })

-- The turns of _pop_matching_general, one for each tick.
unfoldable pub wait_matching : (Datagram → Bool) → ℕ → List Tick → Action World Datagram
wait_matching accept deadline [] w = failed timed_out (with_ticks [] w)
wait_matching accept deadline (t ∷ ts) w =
    let now = at_tick t ts w in
    elim (ltb t.monotonic deadline) [
      | false ↦ failed timed_out now
      | true ↦ elim (pop_matching accept now.buffer) [
        | some (d, rest) ↦ finished d (with_buffer rest now)
        | none ↦ wait_matching accept deadline ts now
      ]
    ]

-- _pop_matching_general
unfoldable pub pop_matching_general : (Datagram → Bool) → ℕ → Action World Datagram
pop_matching_general accept deadline w = wait_matching accept deadline w.ticks w
