-- ===== src/Client/Received.antt =====
-- src/ptp_client/ptp/client.py: where the datagrams of the buffer come from.
use ptp_client.Prelude.{
  ℕ, ◌≡◌, refl, ap, sym, ◌⊎◌, inl, inr, ◌++◌, List, [], ◌∷◌, ltb, ltb_ℤ, pos, ◌≤ℤ◌, length, drop,
  arith, true, false, Bool-cases, Bool, Result, ok, err, value_error, if◌then◌else◌,
}
use mathlib.Core.Path.{subst}
use ptp_client.Wire.{Bytes}
use ptp_client.Header.{PtpHeader, unpack}
use ptp_client.Client.{Datagram, append_bounded, cut, ingest_header, ingest_ptp_datagram}
use ptp_client.Client.Buffer.{Taken}
use ptp_client.Client.World.{Tick, World, receive, at_tick}

-- A datagram is an entry of a buffer.
abbrev pub In : Datagram → List Datagram → Type 0
In d [] = ⊥
In d (x ∷ xs) = (d ≡ x) ⊎ In d xs

-- What `_ingest_ptp_datagram` makes of octets that it takes: their header, and as many of them as that
-- states.
abbrev pub IsIngested : Datagram → Bytes → ℕ → Type 0
IsIngested d bs wall =
    (h : PtpHeader) × (unpack bs 0 ≡ ok h)
    × (h.message_length ≤ℤ pos (length bs))
    × (d ≡ record { header = h; payload = cut h bs; wall = wall })

-- A datagram comes with one of the arrivals, and with one of the ticks.
abbrev pub Brought : Datagram → List (Bytes × ℕ) → Type 0
Brought d [] = ⊥
Brought d ((bs, wall) ∷ more) = IsIngested d bs wall ⊎ Brought d more

abbrev pub Comes : Datagram → List Tick → Type 0
Comes d [] = ⊥
Comes d (t ∷ ts) = Brought d t.arrivals ⊎ Comes d ts

-- A datagram is in the client's buffer, or it comes with a tick.
abbrev pub Received : Datagram → World → Type 0
Received d w = In d w.buffer ⊎ Comes d w.ticks

In-append : (d : Datagram) (xs ys : List Datagram) → In d (xs ++ ys) → In d xs ⊎ In d ys
In-append d [] ys h = inr h
In-append d (x ∷ xs) ys (inl e) = inl (inl e)
In-append d (x ∷ xs) ys (inr h) = elim (In-append d xs ys h) [ inl k ↦ inl (inr k) | inr k ↦ inr k ]

In-left : (d : Datagram) (xs ys : List Datagram) → In d xs → In d (xs ++ ys)
In-left d [] ys h = absurd h
In-left d (x ∷ xs) ys (inl e) = inl e
In-left d (x ∷ xs) ys (inr h) = inr (In-left d xs ys h)

In-right : (d : Datagram) (xs ys : List Datagram) → In d ys → In d (xs ++ ys)
In-right d [] ys h = h
In-right d (x ∷ xs) ys h = inr (In-right d xs ys h)

In-drop : (d : Datagram) (xs : List Datagram) → In d (drop 1 xs) → In d xs
In-drop d [] h = absurd h
In-drop d (x ∷ xs) h = inr h

-- What is taken is an entry, and what is left are entries.
pub Taken-In :
    (accept : Datagram → Bool) (buffer : List Datagram) (d : Datagram) (rest : List Datagram)
    → Taken accept buffer d rest
    → In d buffer
Taken-In accept buffer d rest (before, after, split, left, accepted, others) =
    rw (split) (In-right d before (d ∷ after) (inl refl))

pub Taken-rest :
    (accept : Datagram → Bool) (buffer : List Datagram) (d : Datagram) (rest : List Datagram)
    → Taken accept buffer d rest
    → (x : Datagram) → In x rest
    → In x buffer
Taken-rest accept buffer d rest (before, after, split, left, accepted, others) x h =
    rw (split) (elim (In-append x before after (subst (In x) left h)) [
      | inl k ↦ In-left x before (d ∷ after) k
      | inr k ↦ In-right x before (d ∷ after) (inr k)
    ])

append_bounded-In :
    (d : Datagram) (n : ℕ) (buffer : List Datagram) (x : Datagram)
    → In d (append_bounded n buffer x)
    → In d buffer ⊎ (d ≡ x)
unfolding append_bounded
append_bounded-In d n buffer x = appended (ltb (length buffer) n)
  where
    last : In d buffer ⊎ In d (x ∷ []) → In d buffer ⊎ (d ≡ x)
    last (inl h) = inl h
    last (inr (inl e)) = inr e
    last (inr (inr h)) = absurd h

    appended :
        (b : Bool)
        → In d (if b then buffer ++ (x ∷ []) else drop 1 buffer ++ (x ∷ []))
        → In d buffer ⊎ (d ≡ x)
    appended true h = last (In-append d buffer (x ∷ []) h)
    appended false h = last (elim (In-append d (drop 1 buffer) (x ∷ []) h) [
      | inl k ↦ inl (In-drop d buffer k)
      | inr k ↦ inr k
    ])

ingest_header-In :
    (d : Datagram) (n : ℕ) (buffer : List Datagram) (bs : Bytes) (wall : ℕ) (h : PtpHeader)
    → unpack bs 0 ≡ ok h
    → In d (ingest_header n buffer bs wall h).0
    → In d buffer ⊎ IsIngested d bs wall
unfolding ingest_header
ingest_header-In d n buffer bs wall h read =
    elim (Bool-cases (ltb_ℤ (pos (length bs)) h.message_length)) [
      | inl truncated ↦ rw (truncated) (λ k. inl k)
      | inr whole ↦ rw (whole) (λ k. elim (append_bounded-In d n buffer _ k) [
        | inl j ↦ inl j
        | inr e ↦ inr (h, read, ground arith, e)
      ])
    ]

ingest-In :
    (d : Datagram) (n : ℕ) (buffer : List Datagram) (bs : Bytes) (wall : ℕ)
    (buffer' : List Datagram) (accepted : Bool)
    → ingest_ptp_datagram n buffer bs wall ≡ ok (buffer', accepted)
    → In d buffer'
    → In d buffer ⊎ IsIngested d bs wall
unfolding ingest_ptp_datagram
ingest-In d n buffer bs wall buffer' accepted taken =
    behind (ltb (length bs) 34) (unpack bs 0) refl taken
  where
    got : List Datagram → Result (List Datagram × Bool) → List Datagram
    got l (ok (x, b)) = x
    got l (err e) = l

    put :
        (l : List Datagram) (b : Bool)
        → (In d l → In d buffer ⊎ IsIngested d bs wall)
        → Path (Result (List Datagram × Bool)) (ok (l, b)) (ok (buffer', accepted))
        → In d buffer'
        → In d buffer ⊎ IsIngested d bs wall
    put l b known e h = known (subst (In d) (sym (ap (got l) e)) h)

    ingested : Bool → Result PtpHeader → Result (List Datagram × Bool)
    ingested b r = if b then ok (buffer, false) else elim r [
      | ok h ↦ ok (ingest_header n buffer bs wall h)
      | err value_error ↦ ok (buffer, false)
      | err e ↦ err e
    ]

    behind :
        (b : Bool) (r : Result PtpHeader)
        → unpack bs 0 ≡ r
        → ingested b r ≡ ok (buffer', accepted)
        → In d buffer'
        → In d buffer ⊎ IsIngested d bs wall
    behind true r read e = put buffer false (λ k. inl k) e
    behind false (ok h) read e = put _ _ (ingest_header-In d n buffer bs wall h read) e
    behind false (err value_error) read e = put buffer false (λ k. inl k) e
    behind false (err _) read e = cc

receive-In :
    (d : Datagram) (n : ℕ) (buffer : List Datagram) (arrivals : List (Bytes × ℕ))
    → In d (receive n buffer arrivals)
    → In d buffer ⊎ Brought d arrivals
unfolding receive
receive-In d n buffer [] h = inl h
receive-In d n buffer ((bs, wall) ∷ more) h =
    next (λ l. receive-In d n l more) (ingest_ptp_datagram n buffer bs wall) refl h
  where
    next :
        ((l : List Datagram) → In d (receive n l more) → In d l ⊎ Brought d more)
        → (r : Result (List Datagram × Bool)) → ingest_ptp_datagram n buffer bs wall ≡ r
        → In d (elim r [ err e ↦ buffer | ok (buffer', accepted) ↦ receive n buffer' more ])
        → In d buffer ⊎ Brought d ((bs, wall) ∷ more)
    next ih (err e) raised h = inl h
    next ih (ok (buffer', accepted)) taken h = elim (ih buffer' h) [
      | inr k ↦ inr (inr k)
      | inl k ↦ elim (ingest-In d n buffer bs wall buffer' accepted taken k) [
        | inl j ↦ inl j
        | inr j ↦ inr (inl j)
      ]
    ]

-- What a client has at a tick, it had before.
pub tick-Received :
    (t : Tick) (ts : List Tick) (w : World) (d : Datagram)
    → w.ticks ≡ t ∷ ts
    → Received d (at_tick t ts w)
    → Received d w
unfolding at_tick
tick-Received t ts w d e (inr h) = inr (rw (e) (inr h))
tick-Received t ts w d e (inl h) = elim (receive-In d w.maxlen w.buffer t.arrivals h) [
  | inl k ↦ inl k
  | inr k ↦ inr (rw (e) (inl k))
]
