-- ===== src/Negotiation/Phases.antt =====
-- src/ptp_client/ptp/g82752_unicast.py: negotiate, the renewals, cancel_unicast.
use ptp_client.Prelude.{
  ℕ, zero, suc, ◌+◌, ◌*◌, ◌/◌, ◌^◌, ◌%◌, ◌++◌, ◌&&◌, ◌==◌, List, [], ◌∷◌, Bool, true, false, not,
  ltb, leb, ℤ, pos, eq_ℤ, if◌then◌else◌, Option, none, some, Result, ok, err, runtime_error, ◌-ℤ◌,
  leb_ℤ, ltb_ℤ,
}
use ptp_client.Wire.{Bytes}
use ptp_client.Header.{PortIdentity, value, announce, sync, delay_resp, signaling}
use ptp_client.Signaling.{
  ParsedGrant, Tlv, iter_tlvs, ack_cancel_type, build_request_unicast_tlv, build_cancel_unicast_tlv,
}
use ptp_client.Client.{Datagram}
use ptp_client.Client.World.{
  timed_out, negotiation_failed, negotiation_timeout, raising, failed, finished, Action, ◌>>=◌,
  ◌>>◌, give, lift, read, pop_matching_general,
}
use ptp_client.Client.Sync.{is_of}
use ptp_client.Negotiation.{
  Contract, Session, NegotiationState, on_client, store, wildcard, send_signaling, grant_for,
  negotiate_with_retries,
}

abbrev pub announce_type : ℕ
announce_type = value announce

abbrev pub sync_type : ℕ
sync_type = value sync

abbrev pub delay_resp_type : ℕ
delay_resp_type = value delay_resp

-- send_p1 and its kin
abbrev pub requesting : Contract → Bytes → PortIdentity → Action Session (Unit {0})
requesting c tlvs target = send_signaling c tlvs target >>= λ seq. give tt

abbrev pub domain_of : Contract → ℕ
domain_of c = c.domain_number % 2 ^ 8

-- The wait for the first Announce, its attempts counted down.
unfoldable pub first_announce : Contract → Bytes → ℕ → Action Session Datagram
first_announce c tlvs zero s = failed negotiation_timeout s
first_announce c tlvs (suc left) s =
    elim (on_client
      (pop_matching_general (is_of (domain_of c) (pos announce_type))
        (s.client.monotonic + c.first_announce_timeout))
      s) [
        | finished d u ↦ finished d u
        | failed timed_out u ↦ elim left [
          | zero ↦ failed negotiation_timeout u
          | suc n ↦ (requesting c tlvs wildcard >> first_announce c tlvs left) u
        ]
        | failed e u ↦ failed e u
      ]

-- The TLV of one service.
abbrev pub request_tlv : Contract → ℕ → ℤ → Result Bytes
request_tlv c mt period = build_request_unicast_tlv (pos mt) period (pos c.duration_sec)

-- The TLV of Delay_Resp behind others, if it is negotiated.
unfoldable pub with_delay_resp : Contract → Bytes → Result Bytes
with_delay_resp c tlvs =
    if c.negotiate_delay_resp
    then elim (request_tlv c delay_resp_type c.delay_resp_log_period) [
      | err e ↦ err e
      | ok more ↦ ok (tlvs ++ more)
    ]
    else ok tlvs

abbrev pub and_delay_resp : Contract → List ℕ → List ℕ
and_delay_resp c types = if c.negotiate_delay_resp then types ++ (delay_resp_type ∷ []) else types

-- The attempts with one target, and those with the wildcard after UnicastNegotiationTimeout.
unfoldable pub with_fallback :
    Contract → Bytes → PortIdentity → List ℕ → Action Session (List ParsedGrant)
with_fallback c tlvs target need s =
    elim (negotiate_with_retries c (requesting c tlvs target) need s) [
      | finished grants u ↦ finished grants u
      | failed negotiation_timeout u ↦ negotiate_with_retries c (requesting c tlvs wildcard) need u
      | failed e u ↦ failed e u
    ]

-- grants[...] = duration for each grant of a positive one
unfoldable pub store_grants : List ParsedGrant → List (ℕ × ℕ) → List (ℕ × ℕ)
store_grants [] grants = grants
store_grants (g ∷ gs) grants =
    store_grants gs
      (if ltb 0 g.duration_sec then store g.pt_message_type g.duration_sec grants else grants)

-- _mark_contract_started
unfoldable pub mark_contract_started : Action Session (Unit {0})
mark_contract_started s = finished tt (record s { contract_started_at = s.client.monotonic })

-- The state that negotiate leaves.
unfoldable pub negotiated :
    Contract → PortIdentity → ParsedGrant → List ParsedGrant → NegotiationState
negotiated c gm ann_grant grants_p2 = record {
  grandmaster_port_identity = gm;
  grants = store_grants grants_p2 ((announce_type, ann_grant.duration_sec) ∷ []);
  announce_log_period = c.announce_log_period;
  sync_log_period = c.sync_log_period;
  delay_resp_log_period = if c.negotiate_delay_resp then some c.delay_resp_log_period else none;
}

unfoldable pub keep_state : NegotiationState → Action Session NegotiationState
keep_state st s =
    finished st (record s { state = some st; contract_started_at = s.client.monotonic })

-- next(g for g in grants if ...); StopIteration is not an error of the model, and does not occur.
unfoldable pub grant_of_type : ℕ → List ParsedGrant → Action Session ParsedGrant
grant_of_type mt grants s = elim (grant_for mt grants) [
  | none ↦ failed negotiation_failed s
  | some g ↦ finished g s
]

unfoldable pub negotiate : Contract → Action Session NegotiationState
negotiate c = do
  tl_ann ← lift (request_tlv c announce_type c.announce_log_period)
  grants_p1 ← negotiate_with_retries c (requesting c tl_ann wildcard) (announce_type ∷ [])
  ann_grant ← grant_of_type announce_type grants_p1
  ann ← first_announce c tl_ann 3
  tl_sync ← lift (request_tlv c sync_type c.sync_log_period)
  tlvs ← lift (with_delay_resp c tl_sync)
  grants_p2 ← with_fallback c tlvs ann.header.source_identity (and_delay_resp c (sync_type ∷ []))
  keep_state (negotiated c ann.header.source_identity ann_grant grants_p2)

-- max(10, duration / 4) seconds
unfoldable pub margin : Contract → ℕ
margin c =
    if ltb (10 * 10 ^ 9) (c.duration_sec * 250000000)
    then c.duration_sec * 250000000
    else 10 * 10 ^ 9

-- seconds_until_renewal > 0
unfoldable pub renewal_ahead : Contract → Session → Bool
renewal_ahead c s =
    ltb 0 s.contract_started_at
    && ltb (s.client.monotonic + margin c) (s.contract_started_at + c.duration_sec * 10 ^ 9)

unfoldable pub renewed_state : List ParsedGrant → NegotiationState → NegotiationState
renewed_state grants st = record st { grants = store_grants grants st.grants }

unfoldable pub keep_grants : NegotiationState → List ParsedGrant → Action Session (List ParsedGrant)
keep_grants st grants s = finished grants (record s { state = some (renewed_state grants st) })

-- _do_renew_now, of a session that has a state
unfoldable pub renew_state :
    Contract → Option PortIdentity → NegotiationState → Action Session (List ParsedGrant)
renew_state c target st = do
  tl_ann ← lift (request_tlv c announce_type c.announce_log_period)
  tl_sync ← lift (request_tlv c sync_type c.sync_log_period)
  tlvs ← lift (with_delay_resp c (tl_ann ++ tl_sync))
  grants ←
      with_fallback c tlvs (elim target [ none ↦ st.grandmaster_port_identity | some t ↦ t ])
        (and_delay_resp c (announce_type ∷ sync_type ∷ []))
  keep_grants st grants

unfoldable pub do_renew_now : Contract → Option PortIdentity → Action Session (List ParsedGrant)
do_renew_now c target s = elim s.state [
  | none ↦ failed (raising runtime_error) s
  | some st ↦ renew_state c target st s
]

unfoldable pub renew_now : Contract → Option PortIdentity → Action Session (List ParsedGrant)
renew_now c target = do grants ← do_renew_now c target; mark_contract_started; give grants

-- _renew_if_due behind its tests: the failures of a negotiation and TimeoutError are caught.
unfoldable pub renew_due : Contract → Action Session Bool
renew_due c s = elim (do_renew_now c none s) [
  | finished grants u ↦ (mark_contract_started >> give true) u
  | failed (raising e) u ↦ failed (raising e) u
  | failed e u ↦ finished false u
]

unfoldable pub renew_if_due : Contract → Bool → Action Session Bool
renew_if_due c force s = elim s.state [
  | none ↦ finished false s
  | some st ↦ elim (not force && renewal_ahead c s) [
    | true ↦ finished false s
    | false ↦ renew_due c s
  ]
]

-- accept_ack of cancel_unicast
unfoldable pub has_ack : List Tlv → Bool
has_ack [] = false
has_ack (t ∷ ts) = let rest = has_ack ts in if t.type_field == ack_cancel_type then true else rest

unfoldable pub accept_ack : ℕ → Datagram → Bool
accept_ack domain d = is_of domain (pos (value signaling)) d && has_ack (iter_tlvs d.payload 44)

unfoldable pub wait_ack : Contract → Action Session (Unit {0})
wait_ack c s =
    elim (on_client
      (pop_matching_general (accept_ack (domain_of c)) (s.client.monotonic + c.cancel_ack_timeout))
      s) [
        | finished d u ↦ finished tt u
        | failed timed_out u ↦ finished tt u
        | failed e u ↦ failed e u
      ]

unfoldable pub cancel_target : Option PortIdentity → Option NegotiationState → PortIdentity
cancel_target (some t) st = t
cancel_target none none = wildcard
cancel_target none (some st) = st.grandmaster_port_identity

unfoldable pub cancel_tlvs : Contract → Result Bytes
cancel_tlvs c = ptp_client.Prelude.◌>>=◌ (build_cancel_unicast_tlv (pos announce_type)) λ a.
    ptp_client.Prelude.◌>>=◌ (build_cancel_unicast_tlv (pos sync_type)) λ b.
      if c.negotiate_delay_resp
      then ptp_client.Prelude.◌>>=◌ (build_cancel_unicast_tlv (pos delay_resp_type))
          (λ d. ok (a ++ (b ++ d)))
      else ok (a ++ b)

unfoldable pub cancel_unicast : Contract → Option PortIdentity → Bool → Action Session (Unit {0})
cancel_unicast c target wait = do
  tlvs ← lift (cancel_tlvs c)
  st ← read (λ s. s.state)
  seq ← send_signaling c tlvs (cancel_target target st)
  if wait && ltb 0 c.cancel_ack_timeout then wait_ack c else give tt
