-- ===== src/Negotiation/Renewal.antt =====
-- src/ptp_client/ptp/g82752_unicast.py: what renew_if_due reports.
use ptp_client.Prelude.{
  ◌≡◌, refl, List, arith, Bool, true, false, not, ◌&&◌, Option, none, some, runtime_error,
}
use ptp_client.Header.{PortIdentity}
use ptp_client.Signaling.{ParsedGrant}
use ptp_client.Client.World.{
  Outcome, failed, finished, timed_out, denied, negotiation_failed, negotiation_timeout, raising,
  Ends, give, ◌>>◌,
}
use ptp_client.Negotiation.{Contract, Session}
use ptp_client.Negotiation.Phases.{
  renewal_ahead, renew_state, do_renew_now, renew_due, renew_if_due, mark_contract_started,
}
use ptp_client.Negotiation.Within.{Within, Bounded, Within-self, Within-more}
use ptp_client.Negotiation.Renewed.{Renewed, renew_state_lem}

-- What renew_if_due reports: `true` behind a renewal that starts the contract anew, `false` with the
-- contract as it was.
abbrev pub Reported : Contract → Session → Bool → Session → Type 0
Reported c s true v = Renewed c s v × (v.contract_started_at ≡ v.client.monotonic)
Reported c s false v = Within 6 s v

do_renew_now_lem :
    (c : Contract) (target : Option PortIdentity) (s : Session)
    → Ends (λ l u. Renewed c s u) (Bounded 6 s) (do_renew_now c target s)
unfolding do_renew_now
do_renew_now_lem c target s =
    elim s.state
      as (λ o.
        Ends (λ l u. Renewed c s u) (Bounded 6 s)
          (elim o [
            | none ↦ failed (raising runtime_error) s
            | some st ↦ renew_state c target st s
          ])) [
            | none ↦ Within-more 0 6 s s (omega arith) (Within-self s)
            | some st ↦ renew_state_lem c target st s
          ]

reported_lem :
    (c : Contract) (s : Session) (o : Outcome Session (List ParsedGrant))
    → Ends (λ l u. Renewed c s u) (Bounded 6 s) o
    → Ends (Reported c s) (Bounded 6 s) (elim o [
      | finished grants u ↦ (mark_contract_started >> give true) u
      | failed (raising e) u ↦ failed (raising e) u
      | failed e u ↦ finished false u
    ])
unfolding mark_contract_started
reported_lem c s (finished gs u) h = (
  record {
    held = h.held;
    kept = h.kept;
    granted = h.granted;
    sent_at_most = h.sent_at_most;
    reaches = h.reaches;
  },
  refl,
)
reported_lem c s (failed timed_out u) h = h
reported_lem c s (failed denied u) h = h
reported_lem c s (failed negotiation_failed u) h = h
reported_lem c s (failed negotiation_timeout u) h = h
reported_lem c s (failed (raising e) u) h = h

renew_due_lem : (c : Contract) (s : Session) → Ends (Reported c s) (Bounded 6 s) (renew_due c s)
unfolding renew_due
renew_due_lem c s = reported_lem c s (do_renew_now c none s) (do_renew_now_lem c none s)

-- `_renew_if_due` sends at most 6 messages. It reports `true` behind a renewal: a state is kept with a
-- positive duration for each message type that it asks for, and the contract starts anew. It reports
-- `false` with the state and the start of the contract as they were.
pub renew_if_due_lem :
    (c : Contract) (force : Bool) (s : Session)
    → Ends (Reported c s) (Bounded 6 s) (renew_if_due c force s)
unfolding renew_if_due
renew_if_due_lem c force s =
    elim s.state
      as (λ o. Ends (Reported c s) (Bounded 6 s) (elim o [
        | none ↦ finished false s
        | some st ↦ elim (not force && renewal_ahead c s) [
          | true ↦ finished false s
          | false ↦ renew_due c s
        ]
      ])) [
        | none ↦ Within-more 0 6 s s (omega arith) (Within-self s)
        | some st ↦ due (not force && renewal_ahead c s)
      ]
  where
    due :
        (b : Bool)
        → Ends
            (Reported c s)
            (Bounded 6 s)
            (elim b [ true ↦ finished false s | false ↦ renew_due c s ])
    due true = Within-more 0 6 s s (omega arith) (Within-self s)
    due false = renew_due_lem c s
