-- ===== src/Negotiation/Announced.antt =====
-- src/ptp_client/ptp/g82752_unicast.py: what negotiate leaves, and after how many messages.
use ptp_client.Prelude.{ℕ, ◌+◌, ◌≤◌, ◌≡◌, refl, List, [], ◌∷◌, All, arith, length, some}
use ptp_client.Header.{PortIdentity}
use ptp_client.Signaling.{ParsedGrant}
use ptp_client.Client.World.{Ends, bind-Ends, lift}
use ptp_client.Negotiation.{
  Contract, Session, NegotiationState, lookup, negotiate_with_retries, wildcard,
}
use ptp_client.Negotiation.Phases.{
  requesting, announce_type, sync_type, first_announce, with_fallback, and_delay_resp, negotiated,
  keep_state, grant_of_type, negotiate, request_tlv, with_delay_resp,
}
use ptp_client.Negotiation.Within.{Within, Bounded, Within-trans, Within-more}
use ptp_client.Negotiation.Collect.{Granting, Granted}
use ptp_client.Negotiation.Turns.{Collected, Ends-after}
use ptp_client.Negotiation.Grants.{IsPositive, store_grants_lem, store_grants-IsPositive}
use ptp_client.Negotiation.Found.{
  retries_lem, with_fallback_lem, IsAnnounce, first_announce_lem, lift_lem, grant_of_type_lem,
}

-- What `negotiate` leaves: the state that it returns, with a positive duration for each message type
-- that the contract asks for, and a contract that starts then.
pub record Contracted (c : Contract) (n : ℕ) (s : Session) (st : NegotiationState) (v : Session)
    : Type 0 where
  pub kept : v.state ≡ some st
  pub started : v.contract_started_at ≡ v.client.monotonic
  pub granted :
      All (λ mt. IsPositive mt st.grants) (announce_type ∷ and_delay_resp c (sync_type ∷ []))
  pub sent_at_most : length v.client.sent ≤ length s.client.sent + n

keep_lem :
    (c : Contract) (gm : PortIdentity) (g : ParsedGrant) (gs : List ParsedGrant) (s v : Session)
    → Granting g
    → Granted (and_delay_resp c (sync_type ∷ [])) gs
    → Within 12 s v
    → Ends (Contracted c 12 s) (Bounded 12 s) (keep_state (negotiated c gm g gs) v)
unfolding keep_state negotiated lookup
keep_lem c gm g gs s v k granted h = record {
  kept = refl;
  started = refl;
  granted = (
    store_grants-IsPositive announce_type gs _ (g.duration_sec, refl, k),
    store_grants_lem (and_delay_resp c (sync_type ∷ [])) gs _ granted,
  );
  sent_at_most = h.sent_at_most;
}

-- `negotiate` sends at most 12 messages. It returns a state that it keeps, with a positive duration for
-- Announce, for Sync and, if the contract asks for it, for Delay_Resp, and starts the contract; or it
-- raises, and the state and the start of the contract are as they were.
pub negotiate_lem :
    (c : Contract) (s : Session) → Ends (Contracted c 12 s) (Bounded 12 s) (negotiate c s)
unfolding negotiate
negotiate_lem c s =
    let t1 = request_tlv c announce_type c.announce_log_period in
    let t2 = request_tlv c sync_type c.sync_log_period in
    let need1 = announce_type ∷ [] in
    let need2 = and_delay_resp c (sync_type ∷ []) in
    bind-Ends (λ a v. Within 0 s v) (Contracted c 12 s) (Bounded 0 s) (Bounded 12 s) (lift t1 s) _
      (lift_lem t1 s) (λ e v h. Within-more 0 12 s v (omega arith) h)
      λ tl_ann v0 h0.
        bind-Ends (Collected need1 3 s) (Contracted c 12 s) (Bounded 3 s) (Bounded 12 s)
          (negotiate_with_retries c (requesting c tl_ann wildcard) need1 v0) _
          (Ends-after (Granted need1) 0 3 3 s v0 _ (omega arith) h0
            (retries_lem c tl_ann wildcard need1 v0))
          (λ e v h. Within-more 3 12 s v (omega arith) h)
          λ grants v1 p1.
            bind-Ends (λ g v. Granting g × Within 3 s v) (Contracted c 12 s) (Bounded 3 s)
              (Bounded 12 s) (grant_of_type announce_type grants v1) _
              (Ends-after Granting 3 0 3 s v1 _ (omega arith) p1.1
                (grant_of_type_lem grants v1 p1.0))
              (λ e v h. Within-more 3 12 s v (omega arith) h)
              λ ann_grant v2 p2.
                bind-Ends (λ d v. IsAnnounce c d × Within 6 s v) (Contracted c 12 s) (Bounded 6 s)
                  (Bounded 12 s) (first_announce c tl_ann 3 v2) _
                  (Ends-after (IsAnnounce c) 3 3 6 s v2 _ (omega arith) p2.1
                    (first_announce_lem c tl_ann 3 v2))
                  (λ e v h. Within-more 6 12 s v (omega arith) h)
                  λ d v3 p3.
                    bind-Ends (λ a v. Within 0 v3 v) (Contracted c 12 s) (Bounded 0 v3)
                      (Bounded 12 s) (lift t2 v3) _ (lift_lem t2 v3)
                      (λ e v h. Within-more 6 12 s v (omega arith) (Within-trans 6 0 s v3 v p3.1 h))
                      λ tl_sync v4 h4.
                        bind-Ends (λ a v. Within 0 v4 v) (Contracted c 12 s) (Bounded 0 v4)
                          (Bounded 12 s) (lift (with_delay_resp c tl_sync) v4) _
                          (lift_lem (with_delay_resp c tl_sync) v4)
                          (λ e v h.
                            Within-more 6 12 s v (omega arith)
                              (Within-trans 6 0 s v4 v (Within-trans 6 0 s v3 v4 p3.1 h4) h))
                          λ tlvs v5 h5.
                            bind-Ends (Collected need2 12 s) (Contracted c 12 s) (Bounded 12 s)
                              (Bounded 12 s)
                              (with_fallback c tlvs d.header.source_identity need2 v5) _
                              (Ends-after (Granted need2) 6 6 12 s v5 _ (omega arith)
                                (Within-trans 6 0 s v4 v5 (Within-trans 6 0 s v3 v4 p3.1 h4) h5)
                                (with_fallback_lem c tlvs d.header.source_identity need2 v5))
                              (λ e v h. h)
                              λ gs v6 p6.
                                keep_lem c d.header.source_identity ann_grant gs s v6 p2.0 p6.0 p6.1
