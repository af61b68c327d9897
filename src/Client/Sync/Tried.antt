-- ===== src/Client/Sync/Tried.antt =====
-- src/ptp_client/ptp/client.py: the attempts of wait_sync_sample that start from a Follow_Up or a Sync.
use ptp_client.Prelude.{
  ℕ, ◌≡◌, refl, sym, ◌∙◌, inl, inr, length, pos, leb_ℤ, Bool, true, false, and_true, Bool-cases,
  Result-cases, Option, none, some,
}
use ptp_client.Packet.{parse_sync_body}
use ptp_client.Client.{Datagram}
use ptp_client.Client.World.{
  World, Outcome, failed, finished, timed_out, denied, negotiation_failed, negotiation_timeout,
  raising, Ends, bind-Ends, pop_matching_general, give, ◌>>=◌, Action,
}
use ptp_client.Client.Quiet.{IsQuiet, IsQuiet-self, IsQuiet-trans}
use ptp_client.Client.Received.{Received}
use ptp_client.Client.Waits.{Found, TimedOut, pop_matching_general_lem}
use ptp_client.Client.Sync.{
  SyncSample, is_of, sync_type, follow_up_type, accept_pair, accept_sync,
  build_two_step_sync_sample, latest, candidates, take_follow_up, degraded_sample, pair_with,
  try_sync_sample_follow_up_led, two_step, resolve_sync, last_resort,
}
use ptp_client.Client.Sync.Sampled.{
  IsOf, Sampled, later-IsOf, Quiet, Tried, OfAll, Chosen, is_of_lem, accept_pair_lem, candidates_of,
  latest_of, take_follow_up_lem, two_step_lem, degraded_lem,
}

-- A later sample of the same client.
Sampled-later : (w u v : World) (x : SyncSample) → IsQuiet w u → Sampled u x v → Sampled w x v
Sampled-later w u v x q (inl one, p) = (
  inl (record {
    sync = one.sync;
    received = q.received one.sync one.received;
    kind = later-IsOf w u _ _ one.sync.header q one.kind;
    flagged = one.flagged;
    origin = one.origin;
    parsed = one.parsed;
    sample = one.sample;
  }),
  IsQuiet-trans w u v q p,
)
Sampled-later w u v x q (inr (inl two), p) = (
  inr (
      inl (record {
        sync = two.sync;
        sync_received = q.received two.sync two.sync_received;
        sync_kind = later-IsOf w u _ _ two.sync.header q two.sync_kind;
        follow_up = two.follow_up;
        follow_up_received = q.received two.follow_up two.follow_up_received;
        paired = later-IsOf w u _ _ two.follow_up.header q two.paired;
        origin = two.origin;
        parsed = two.parsed;
        sample = two.sample;
      })),
  IsQuiet-trans w u v q p,
)
Sampled-later w u v x q (inr (inr one), p) = (
  inr (
      inr (record {
        follow_up = one.follow_up;
        received = q.received one.follow_up one.received;
        kind = later-IsOf w u _ _ one.follow_up.header q one.kind;
        origin = one.origin;
        parsed = one.parsed;
        sample = one.sample;
      })),
  IsQuiet-trans w u v q p,
)

pub Ends-later :
    (w u : World) (o : Outcome World SyncSample)
    → IsQuiet w u
    → Ends (Sampled u) (Quiet u) o
    → Ends (Sampled w) (Quiet w) o
Ends-later w u (failed e v) q h = IsQuiet-trans w u v q h
Ends-later w u (finished x v) q h = Sampled-later w u v x q h

pub Tried-later :
    (w u : World) (o : Outcome World (Option SyncSample))
    → IsQuiet w u
    → Ends (Tried u) (Quiet u) o
    → Ends (Tried w) (Quiet w) o
Tried-later w u (failed e v) q h = IsQuiet-trans w u v q h
Tried-later w u (finished none v) q h = IsQuiet-trans w u v q h
Tried-later w u (finished (some x) v) q h = Sampled-later w u v x q h

-- The sample of a chosen Follow_Up, given back as a result of the attempt.
attempt :
    (w u : World) (fu : Datagram) (rest : Datagram → Action World SyncSample)
    → IsQuiet w u
    → IsOf w.domain follow_up_type fu.header.sequence_id fu.header
    → Received fu w
    → ((d : Datagram) (v : World)
        → Chosen fu.header.sequence_id w d v
        → Ends (Sampled w) (Quiet w) (rest d v))
    → Ends
        (Tried w)
        (Quiet w)
        ((take_follow_up fu >>= λ chosen. rest chosen >>= λ sample. give (some sample)) u)
attempt w u fu rest q kind from next =
    bind-Ends (Chosen fu.header.sequence_id w) (Tried w) (Quiet w) (Quiet w) (take_follow_up fu u) _
      (take_follow_up_lem fu w u q kind from) (λ e v h. h)
      (λ d v c.
        bind-Ends (Sampled w) (Tried w) (Quiet w) (Quiet w) (rest d v) _ (next d v c) (λ e t h. h)
          (λ x t h. h))

pair_with_lem :
    (deadline : ℕ) (degrade : Bool) (fu : Datagram) (w : World)
    → IsOf w.domain follow_up_type fu.header.sequence_id fu.header
    → Received fu w
    → Ends (Tried w) (Quiet w) (pair_with deadline degrade fu w)
unfolding pair_with
pair_with_lem deadline degrade fu w kind from =
    ended _ _ (pop_matching_general_lem (accept_pair w.domain sync_type fu.header) _ w)
  where
    ended :
        (until : ℕ) (o : Outcome World Datagram)
        → Ends (Found (accept_pair w.domain sync_type fu.header) until w) (TimedOut w) o
        → Ends (Tried w) (Quiet w) (elim o [
          | finished s now ↦
              (take_follow_up fu >>= λ chosen.
              build_two_step_sync_sample s.header s.payload s.wall chosen.header chosen.payload
              >>= λ sample. give (some sample))
                now
          | failed timed_out now ↦ elim degrade [
            | false ↦ finished none now
            | true ↦
                (take_follow_up fu >>= λ chosen.
                degraded_sample chosen >>= λ sample. give (some sample))
                  now
          ]
          | failed e now ↦ failed e now
        ])
    ended until (finished s now) found =
        let (before, after, split, left, accepted, others) = found.taken in
        let sync = accept_pair_lem w.domain sync_type fu.header s accepted in
        attempt w now fu
          (λ d. build_two_step_sync_sample s.header s.payload s.wall d.header d.payload) found.quiet
          kind from
          (λ d v c.
            two_step_lem w v s d c.2 found.received
              (record { in_domain = sync.in_domain; typed = sync.typed; numbered = refl }) c.1
              (record {
                in_domain = c.0.in_domain;
                typed = c.0.typed;
                numbered = c.0.numbered ∙ sym sync.numbered;
              }))
    ended until (failed timed_out now) late = degraded degrade
      where
        degraded :
            (b : Bool)
            → Ends (Tried w) (Quiet w) (elim b [
              | false ↦ finished none now
              | true ↦
                  (take_follow_up fu >>= λ chosen.
                  degraded_sample chosen >>= λ sample. give (some sample))
                    now
            ])
        degraded false = late.quiet
        degraded true = attempt w now fu degraded_sample late.quiet kind from (λ d v c.
            degraded_lem w v d c.2 c.1
              (record { in_domain = c.0.in_domain; typed = c.0.typed; numbered = refl }))
    ended until (failed denied now) late = late.quiet
    ended until (failed negotiation_failed now) late = late.quiet
    ended until (failed negotiation_timeout now) late = late.quiet
    ended until (failed (raising e) now) late = late.quiet

pub try_lem :
    (deadline : ℕ) (degrade : Bool) (w : World)
    → Ends (Tried w) (Quiet w) (try_sync_sample_follow_up_led deadline degrade w)
unfolding try_sync_sample_follow_up_led
try_lem deadline degrade w = led (latest (candidates w.domain w.buffer)) (
    latest_of Led (candidates w.domain w.buffer) (
      candidates_of Led w.domain w.buffer
        (λ d k e. (is_of_lem w.domain follow_up_type d e, inl k))))
  where
    Led : Datagram → Type 0
    Led d = IsOf w.domain follow_up_type d.header.sequence_id d.header × Received d w

    led :
        (o : Option Datagram)
        → OfAll Led o
        → Ends
            (Tried w)
            (Quiet w)
            (elim o [ none ↦ finished none w | some fu ↦ pair_with deadline degrade fu w ])
    led none h = IsQuiet-self w
    led (some fu) (kind, from) = pair_with_lem deadline degrade fu w kind from

pub resolve_lem :
    (deadline : ℕ) (d : Datagram) (w u : World)
    → IsQuiet w u
    → Received d w
    → accept_sync w.domain d ≡ true
    → Ends (Sampled w) (Quiet w) (resolve_sync deadline d u)
unfolding resolve_sync accept_sync
resolve_lem deadline d w u q from accepted =
    let (kind, whole) =
      and_true (is_of w.domain sync_type d) (leb_ℤ d.header.message_length (pos (length d.payload)))
        accepted in
    let s = is_of_lem w.domain sync_type d kind in
    let accept = accept_pair u.domain follow_up_type d.header in
    elim (Result-cases (parse_sync_body d.payload d.header)) [
      | inl (e, refused) ↦ rw (resolve_sync, refused) q
      | inr (t, read_t) ↦ elim (Bool-cases (two_step d.header)) [
        | inl two ↦
            rw (resolve_sync, read_t, two)
              (bind-Ends (Found accept deadline u) (Sampled w) (TimedOut u) (Quiet w)
                (pop_matching_general accept deadline u) _
                (pop_matching_general_lem accept deadline u)
                (λ e v late. IsQuiet-trans w u v q late.quiet)
                (λ fu v found.
                  let (before, after, split, left, matched, others) = found.taken in
                  two_step_lem w v d fu (IsQuiet-trans w u v q found.quiet) from s
                    (q.received fu found.received)
                    (later-IsOf w u _ _ fu.header q
                      (accept_pair_lem u.domain follow_up_type d.header fu matched))))
        | inr one ↦
            rw (resolve_sync, read_t, one)
              (
                inl (record {
                  sync = d;
                  received = from;
                  kind = s;
                  flagged = one;
                  origin = t;
                  parsed = read_t;
                  sample = refl;
                }),
                q,
              )
      ]
    ]

pub last_resort_lem : (w : World) → Ends (Sampled w) (Quiet w) (last_resort w)
unfolding last_resort
last_resort_lem w =
    resort (try_sync_sample_follow_up_led w.monotonic true w) (try_lem w.monotonic true w)
  where
    resort :
        (o : Outcome World (Option SyncSample))
        → Ends (Tried w) (Quiet w) o
        → Ends (Sampled w) (Quiet w) (elim o [
          | finished none now ↦ failed timed_out now
          | finished (some sample) now ↦ finished sample now
          | failed e now ↦ failed e now
        ])
    resort (finished none now) h = h
    resort (finished (some x) now) h = h
    resort (failed e now) h = h
