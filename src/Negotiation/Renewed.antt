-- ===== src/Negotiation/Renewed.antt =====
-- src/ptp_client/ptp/g82752_unicast.py: what a renewal leaves.
use ptp_client.Prelude.{
  ℕ, ◌+◌, ◌≤◌, ◌≡◌, refl, List, [], ◌∷◌, All, arith, length, ◌++◌, Option, none, some,
}
use ptp_client.Header.{PortIdentity}
use ptp_client.Signaling.{ParsedGrant}
use ptp_client.Client.World.{Ends, bind-Ends, lift}
use ptp_client.Negotiation.{Contract, Session, NegotiationState}
use ptp_client.Negotiation.Phases.{
  announce_type, sync_type, with_fallback, and_delay_resp, request_tlv, with_delay_resp,
  renewed_state, keep_grants, renew_state,
}
use ptp_client.Client.Reaches.{Reaches}
use ptp_client.Negotiation.Within.{Within, Bounded, Within-trans, Within-more}
use ptp_client.Negotiation.Collect.{Granted}
use ptp_client.Negotiation.Turns.{Collected, Ends-after}
use ptp_client.Negotiation.Grants.{IsPositive, store_grants_lem}
use ptp_client.Negotiation.Found.{with_fallback_lem, lift_lem}

-- The message types that a renewal asks for.
abbrev renewed_types : Contract → List ℕ
renewed_types c = and_delay_resp c (announce_type ∷ sync_type ∷ [])

-- What a renewal leaves, after at most 6 messages.
pub record Renewed (c : Contract) (s v : Session) : Type 0 where
  pub held : NegotiationState
  pub kept : v.state ≡ some held
  pub granted : All (λ mt. IsPositive mt held.grants) (renewed_types c)
  pub sent_at_most : length v.client.sent ≤ length s.client.sent + 6
  pub reaches : Reaches s.client v.client

keep_grants_lem :
    (c : Contract) (st : NegotiationState) (gs : List ParsedGrant) (s v : Session)
    → Granted (renewed_types c) gs
    → Within 6 s v
    → Ends (λ l u. Renewed c s u) (Bounded 6 s) (keep_grants st gs v)
unfolding keep_grants renewed_state
keep_grants_lem c st gs s v granted h = record {
  held = renewed_state gs st;
  kept = refl;
  granted = store_grants_lem (renewed_types c) gs st.grants granted;
  sent_at_most = h.sent_at_most;
  reaches = h.reaches;
}

pub renew_state_lem :
    (c : Contract) (target : Option PortIdentity) (st : NegotiationState) (s : Session)
    → Ends (λ l u. Renewed c s u) (Bounded 6 s) (renew_state c target st s)
unfolding renew_state
renew_state_lem c target st s =
    let t1 = request_tlv c announce_type c.announce_log_period in
    let t2 = request_tlv c sync_type c.sync_log_period in
    let need = renewed_types c in
    let to : PortIdentity = elim target [ none ↦ st.grandmaster_port_identity | some t ↦ t ] in
    bind-Ends (λ a v. Within 0 s v) (λ l u. Renewed c s u) (Bounded 0 s) (Bounded 6 s) (lift t1 s) _
      (lift_lem t1 s) (λ e v h. Within-more 0 6 s v (omega arith) h)
      λ tl_ann v0 h0.
        bind-Ends (λ a v. Within 0 v0 v) (λ l u. Renewed c s u) (Bounded 0 v0) (Bounded 6 s)
          (lift t2 v0) _ (lift_lem t2 v0)
          (λ e v h. Within-more 0 6 s v (omega arith) (Within-trans 0 0 s v0 v h0 h))
          λ tl_sync v1 h1.
            bind-Ends (λ a v. Within 0 v1 v) (λ l u. Renewed c s u) (Bounded 0 v1) (Bounded 6 s)
              (lift (with_delay_resp c (tl_ann ++ tl_sync)) v1) _
              (lift_lem (with_delay_resp c (tl_ann ++ tl_sync)) v1)
              (λ e v h.
                Within-more 0 6 s v (omega arith)
                  (Within-trans 0 0 s v1 v (Within-trans 0 0 s v0 v1 h0 h1) h))
              λ tlvs v2 h2.
                bind-Ends (Collected need 6 s) (λ l u. Renewed c s u) (Bounded 6 s) (Bounded 6 s)
                  (with_fallback c tlvs to need v2) _
                  (Ends-after (Granted need) 0 6 6 s v2 _ (omega arith)
                    (Within-trans 0 0 s v1 v2 (Within-trans 0 0 s v0 v1 h0 h1) h2)
                    (with_fallback_lem c tlvs to need v2))
                  (λ e v h. h) λ gs v3 p3. keep_grants_lem c st gs s v3 p3.0 p3.1
