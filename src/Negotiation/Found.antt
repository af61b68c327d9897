-- ===== src/Negotiation/Found.antt =====
-- src/ptp_client/ptp/g82752_unicast.py: the attempts of negotiate and its wait for an Announce.
use ptp_client.Prelude.{ℕ, zero, suc, ◌+◌, ◌≡◌, List, [], ◌∷◌, arith, true, pos, Result, ok, err}
use ptp_client.Wire.{Bytes}
use ptp_client.Header.{PortIdentity}
use ptp_client.Signaling.{ParsedGrant}
use ptp_client.Client.{Datagram}
use ptp_client.Client.World.{
  World, Outcome, failed, finished, timed_out, denied, negotiation_failed, negotiation_timeout,
  raising, Ends, bind-Ends, Action, ◌>>◌, lift, pop_matching_general,
}
use ptp_client.Client.Waits.{Found, TimedOut, pop_matching_general_lem}
use ptp_client.Client.Sync.{is_of}
use ptp_client.Negotiation.{
  Contract, Session, with_client, on_client, grant_for, negotiate_with_retries, wildcard,
}
use ptp_client.Negotiation.Phases.{
  requesting, announce_type, domain_of, first_announce, with_fallback, grant_of_type,
}
use ptp_client.Negotiation.Within.{
  Within, Bounded, Within-self, Within-more, Within-quiet, requesting_lem,
}
use ptp_client.Negotiation.Collect.{Granting, Granted}
use ptp_client.Negotiation.Turns.{Collected, Ends-after}
use ptp_client.Negotiation.Retried.{attempts_lem}

pub retries_lem :
    (c : Contract) (tlvs : Bytes) (target : PortIdentity) (need : List ℕ) (s : Session)
    → Ends
        (Collected need 3 s)
        (Bounded 3 s)
        (negotiate_with_retries c (requesting c tlvs target) need s)
retries_lem c tlvs target need s =
    attempts_lem c need (requesting c tlvs target) (requesting_lem c tlvs target) 3 s

pub with_fallback_lem :
    (c : Contract) (tlvs : Bytes) (target : PortIdentity) (need : List ℕ) (s : Session)
    → Ends (Collected need 6 s) (Bounded 6 s) (with_fallback c tlvs target need s)
unfolding with_fallback
with_fallback_lem c tlvs target need s =
    fall (negotiate_with_retries c (requesting c tlvs target) need s)
      (retries_lem c tlvs target need s)
  where
    fall :
        (o : Outcome Session (List ParsedGrant))
        → Ends (Collected need 3 s) (Bounded 3 s) o
        → Ends (Collected need 6 s) (Bounded 6 s) (elim o [
          | finished grants u ↦ finished grants u
          | failed negotiation_timeout u ↦
              negotiate_with_retries c (requesting c tlvs wildcard) need u
          | failed e u ↦ failed e u
        ])
    fall (finished gs u) (granted, h) = (granted, Within-more 3 6 s u (omega arith) h)
    fall (failed negotiation_timeout u) h =
        Ends-after (Granted need) 3 3 6 s u _ (omega arith) h (retries_lem c tlvs wildcard need u)
    fall (failed timed_out u) h = Within-more 3 6 s u (omega arith) h
    fall (failed denied u) h = Within-more 3 6 s u (omega arith) h
    fall (failed negotiation_failed u) h = Within-more 3 6 s u (omega arith) h
    fall (failed (raising e) u) h = Within-more 3 6 s u (omega arith) h

-- An Announce of the domain.
abbrev pub IsAnnounce : Contract → Datagram → Type 0
IsAnnounce c d = is_of (domain_of c) (pos announce_type) d ≡ true

-- One wait for the first Announce, and what is done where it timed out.
abbrev announced_turn :
    Contract
    → Bytes
    → Action Session Datagram
    → ℕ
    → Session
    → Outcome World Datagram
    → Outcome Session Datagram
announced_turn c tlvs again left s o = elim (on_client (λ w. o) s) [
  | finished d u ↦ finished d u
  | failed timed_out u ↦ elim left [
    | zero ↦ failed negotiation_timeout u
    | suc n ↦ (requesting c tlvs wildcard >> again) u
  ]
  | failed e u ↦ failed e u
]

announced_lem :
    (c : Contract) (tlvs : Bytes) (left deadline : ℕ) (s : Session) (o : Outcome World Datagram)
    → ((u : Session)
        → Ends
            (λ d v. IsAnnounce c d × Within left u v)
            (Bounded left u)
            (first_announce c tlvs left u))
    → Ends (Found (is_of (domain_of c) (pos announce_type)) deadline s.client) (TimedOut s.client) o
    → Ends
        (λ d v. IsAnnounce c d × Within (suc left) s v)
        (Bounded (suc left) s)
        (announced_turn c tlvs (first_announce c tlvs left) left s o)
announced_lem c tlvs left deadline s (finished d w) ih found =
    let (before, after, split, rest, accepted, others) = found.taken in
    (
      accepted,
      Within-more 0 (suc left) s (with_client w s) (omega arith) (Within-quiet s w found.quiet),
    )
announced_lem c tlvs zero deadline s (failed timed_out w) ih late =
    Within-more 0 1 s (with_client w s) (omega arith) (Within-quiet s w late.quiet)
announced_lem c tlvs (suc n) deadline s (failed timed_out w) ih late =
    let u : Session = with_client w s in
    Ends-after (IsAnnounce c) 0 (suc (suc n)) (suc (suc n)) s u _ (omega arith)
      (Within-quiet s w late.quiet)
      (bind-Ends (Bounded 1 u) (λ d v. IsAnnounce c d × Within (suc (suc n)) u v) (Bounded 1 u)
        (Bounded (suc (suc n)) u) (requesting c tlvs wildcard u) _
        (requesting_lem c tlvs wildcard u)
        (λ e v h. Within-more 1 (suc (suc n)) u v (omega arith) h)
        (λ a v h.
          Ends-after (IsAnnounce c) 1 (suc n) (suc (suc n)) u v (first_announce c tlvs (suc n) v)
            (omega arith) h (ih v)))
announced_lem c tlvs left deadline s (failed denied w) ih late =
    Within-more 0 (suc left) s (with_client w s) (omega arith) (Within-quiet s w late.quiet)
announced_lem c tlvs left deadline s (failed negotiation_failed w) ih late =
    Within-more 0 (suc left) s (with_client w s) (omega arith) (Within-quiet s w late.quiet)
announced_lem c tlvs left deadline s (failed negotiation_timeout w) ih late =
    Within-more 0 (suc left) s (with_client w s) (omega arith) (Within-quiet s w late.quiet)
announced_lem c tlvs left deadline s (failed (raising e) w) ih late =
    Within-more 0 (suc left) s (with_client w s) (omega arith) (Within-quiet s w late.quiet)

pub first_announce_lem :
    (c : Contract) (tlvs : Bytes) (n : ℕ) (s : Session)
    → Ends (λ d v. IsAnnounce c d × Within n s v) (Bounded n s) (first_announce c tlvs n s)
unfolding first_announce
first_announce_lem c tlvs zero s = Within-self s
first_announce_lem c tlvs (suc n) s =
    let deadline = s.client.monotonic + c.first_announce_timeout in
    announced_lem c tlvs n deadline s
      (pop_matching_general (is_of (domain_of c) (pos announce_type)) deadline s.client)
      (first_announce_lem c tlvs n)
      (pop_matching_general_lem (is_of (domain_of c) (pos announce_type)) deadline s.client)

pub lift_lem :
    {A : Type 0} (r : Result A) (s : Session) → Ends (λ a v. Within 0 s v) (Bounded 0 s) (lift r s)
lift_lem (err e) s = Within-self s
lift_lem (ok a) s = Within-self s

pub grant_of_type_lem :
    (gs : List ParsedGrant) (s : Session)
    → Granted (announce_type ∷ []) gs
    → Ends (λ g v. Granting g × Within 0 s v) (Bounded 0 s) (grant_of_type announce_type gs s)
unfolding grant_of_type grant_for
grant_of_type_lem [] s h = absurd h
grant_of_type_lem (g ∷ []) s (same, k, h) = rw (grant_of_type, grant_for, same) (k, Within-self s)
grant_of_type_lem (g ∷ x ∷ gs) s (same, k, h) = absurd h
