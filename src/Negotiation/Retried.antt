-- ===== src/Negotiation/Retried.antt =====
-- src/ptp_client/ptp/g82752_unicast.py: what _negotiate_with_retries and the wait for the first
-- Announce return, and after how many messages.
use ptp_client.Prelude.{ℕ, zero, suc, ◌+◌, ◌≡◌, refl, List, arith, Bool, true, false}
use ptp_client.Signaling.{ParsedGrant}
use ptp_client.Client.World.{
  Outcome, failed, finished, timed_out, denied, negotiation_failed, negotiation_timeout, raising,
  Ends, Action,
}
use ptp_client.Negotiation.{Contract, Session, collect_grants_until, expect_grants_ok, attempts}
use ptp_client.Negotiation.Within.{Within, Bounded, Within-self, Within-more}
use ptp_client.Negotiation.Collect.{Granted}
use ptp_client.Negotiation.Turns.{Collected, Ends-after}
use ptp_client.Negotiation.Attempts.{collect_grants_until_lem, expect-collect}

-- What an attempt does with the grants that it collected, and where it tries again.
abbrev judged :
    List ℕ
    → Action Session (List ParsedGrant)
    → ℕ
    → Outcome Session (List ParsedGrant)
    → Outcome Session (List ParsedGrant)
judged need again left o = elim o [
  | failed timed_out v ↦ elim left [ zero ↦ failed negotiation_timeout v | suc n ↦ again v ]
  | failed e v ↦ failed e v
  | finished grants v ↦ elim (expect_grants_ok grants need v) [
    | finished good z ↦ finished grants z
    | failed denied z ↦ elim left [ zero ↦ failed denied z | suc n ↦ again z ]
    | failed negotiation_failed z ↦ elim left [
      | zero ↦ failed negotiation_timeout z
      | suc n ↦ again z
    ]
    | failed e z ↦ failed e z
  ]
]

module _ (c : Contract) (need : List ℕ) where
  again_lem :
      (again : Action Session (List ParsedGrant)) (left : ℕ) (u v : Session)
      → Within 0 u v
      → ((w : Session) → Ends (Collected need left w) (Bounded left w) (again w))
      → Ends
          (Collected need left u)
          (Bounded left u)
          (elim left [ zero ↦ failed negotiation_timeout v | suc n ↦ again v ])
  again_lem again zero u v q ih = q
  again_lem again (suc n) u v q ih =
      Ends-after (Granted need) 0 (suc n) (suc n) u v (again v) (omega arith) q (ih v)

  judged_lem :
      (again : Action Session (List ParsedGrant)) (left : ℕ) (u : Session)
      (o : Outcome Session (List ParsedGrant))
      → ((w : Session) → Ends (Collected need left w) (Bounded left w) (again w))
      → Ends (Collected need 0 u) (Bounded 0 u) o
      → ((gs : List ParsedGrant) (v : Session)
          → o ≡ finished gs v
          → expect_grants_ok gs need v ≡ finished tt v)
      → Ends (Collected need left u) (Bounded left u) (judged need again left o)
  judged_lem again left u (failed timed_out v) ih h good = again_lem again left u v h ih
  judged_lem again left u (failed denied v) ih h good = Within-more 0 left u v (omega arith) h
  judged_lem again left u (failed negotiation_failed v) ih h good =
      Within-more 0 left u v (omega arith) h
  judged_lem again left u (failed negotiation_timeout v) ih h good =
      Within-more 0 left u v (omega arith) h
  judged_lem again left u (failed (raising e) v) ih h good = Within-more 0 left u v (omega arith) h
  judged_lem again left u (finished gs v) ih (granted, h) good =
      rw (Ends, good gs v refl) (granted, Within-more 0 left u v (omega arith) h)

  module _ (send_fn : Action Session (Unit {0}))
      (sends : (s : Session) → Ends (Bounded 1 s) (Bounded 1 s) (send_fn s)) where
    -- One attempt, once its request was or was not sent.
    abbrev sent_turn :
        ℕ → Bool → Session → Outcome Session (Unit {0}) → Outcome Session (List ParsedGrant)
    sent_turn left stop s o = elim stop [
      | true ↦ failed negotiation_failed s
      | false ↦ elim o [
        | failed e u ↦ failed e u
        | finished sent u ↦
            judged need (attempts c send_fn need left) left
              (collect_grants_until c need (u.client.monotonic + c.request_timeout) u)
      ]
    ]

    sent_lem :
        (left : ℕ) (stop : Bool) (s : Session) (o : Outcome Session (Unit {0}))
        → ((w : Session)
            → Ends (Collected need left w) (Bounded left w) (attempts c send_fn need left w))
        → Ends (Bounded 1 s) (Bounded 1 s) o
        → Ends (Collected need (suc left) s) (Bounded (suc left) s) (sent_turn left stop s o)
    sent_lem left true s o ih h = Within-more 0 (suc left) s s (omega arith) (Within-self s)
    sent_lem left false s (failed e u) ih h = Within-more 1 (suc left) s u (omega arith) h
    sent_lem left false s (finished sent u) ih h =
        let deadline = u.client.monotonic + c.request_timeout in
        Ends-after (Granted need) 1 left (suc left) s u _ (omega arith) h (
          judged_lem (attempts c send_fn need left) left u (collect_grants_until c need deadline u)
            ih (collect_grants_until_lem c need deadline u)
            (λ gs v e. expect-collect c need deadline u v gs e))

    -- At most as many requests as there are attempts: they end with a grant of a positive duration for
    -- each message type that is expected, or they raise.
    pub attempts_lem :
        (n : ℕ) (s : Session)
        → Ends (Collected need n s) (Bounded n s) (attempts c send_fn need n s)
    unfolding attempts
    attempts_lem zero s = Within-self s
    attempts_lem (suc n) s = sent_lem n s.client.stop s (send_fn s) (attempts_lem n) (sends s)
