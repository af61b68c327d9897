-- ===== src/Negotiation.antt =====
-- src/ptp_client/ptp/g82752_unicast.py: the state of G82752UnicastSession, and how it collects grants.
-- Times are in nanoseconds. The pause of one second between two attempts has no effect on the state:
-- what arrives during it arrives with the next tick.
pub mod Phases
pub mod Within
pub mod Collect
pub mod Turns
pub mod Attempts
pub mod Retried
pub mod Renewed
pub mod Renewal
pub mod Grants
pub mod Found
pub mod Announced
pub mod Measure
pub mod Rounds
pub mod Measured
pub mod Slept
pub mod Fuel
use ptp_client.Prelude.{
  ℕ, zero, suc, ◌+◌, ◌*◌, ◌^◌, ◌%◌, ◌++◌, ◌&&◌, ◌==◌, List, [], ◌∷◌, Bool, true, false, not, ltb,
  leb, ℤ, pos, eq_ℤ, length, if◌then◌else◌, Option, none, some, Result, ok, err, Error,
  runtime_error,
}
use ptp_client.Wire.{Bytes}
use ptp_client.Header.{
  PortIdentity, PtpHeader, MessageType, value, announce, sync, delay_resp, signaling,
}
use ptp_client.Signaling.{
  ParsedGrant, SignalingArgs, build_request_unicast_tlv, build_cancel_unicast_tlv,
  build_signaling_udp_payload, extract_grants_from_signaling_udp,
}
use ptp_client.Client.{Datagram}
use ptp_client.Client.World.{
  Failure, timed_out, denied, negotiation_failed, negotiation_timeout, raising, Outcome, failed,
  finished, Action, ◌>>=◌, ◌>>◌, give, raise, lift, read, change, Tick, World, at_tick, with_buffer,
  with_ticks, Port, general_port, allocate_sequence_id, pop_matching_general,
}
use ptp_client.Client.Sync.{is_of}
use ptp_client.Client.Exchange.{send_started}

-- G82752NegotiationState; the grants are a dict from message types to seconds.
pub record NegotiationState : Type 0 where
  pub grandmaster_port_identity : PortIdentity
  pub grants : List (ℕ × ℕ)
  pub announce_log_period : ℤ
  pub sync_log_period : ℤ
  pub delay_resp_log_period : Option ℤ

-- The parameters of a session.
pub record Contract : Type 0 where
  pub our_identity : PortIdentity
  pub domain_number : ℕ
  pub announce_log_period : ℤ
  pub sync_log_period : ℤ
  pub duration_sec : ℕ
  pub negotiate_delay_resp : Bool
  pub delay_resp_log_period : ℤ
  pub request_timeout : ℕ
  pub first_announce_timeout : ℕ
  pub cancel_ack_timeout : ℕ

-- What a session changes.
pub record Session : Type 0 where
  pub client : World
  pub denial_counts : List (ℕ × ℕ)
  pub state : Option NegotiationState
  pub contract_started_at : ℕ

abbrev pub with_client : World → Session → Session
with_client w s = record s { client = w }

-- A call of the client.
abbrev pub on_client : {A : Type 0} → Action World A → Action Session A
on_client call s = elim (call s.client) [
  | failed e w ↦ failed e (with_client w s)
  | finished a w ↦ finished a (with_client w s)
]

-- A dict from numbers to numbers: a look-up, and a change.
unfoldable pub lookup : ℕ → List (ℕ × ℕ) → Option ℕ
lookup k [] = none
lookup k ((a, v) ∷ rest) = let later = lookup k rest in if a == k then some v else later

unfoldable pub store : ℕ → ℕ → List (ℕ × ℕ) → List (ℕ × ℕ)
store k v [] = (k, v) ∷ []
store k v ((a, x) ∷ rest) =
    let later = store k v rest in if a == k then (k, v) ∷ rest else (a, x) ∷ later

abbrev pub or_zero : Option ℕ → ℕ
or_zero none = 0
or_zero (some n) = n

-- _bump_denial: the third denial raises of itself.
unfoldable pub bump_denial : ℕ → Action Session (Unit {0})
bump_denial mt s =
    let count = or_zero (lookup mt s.denial_counts) + 1 in
    let bumped : Session = record s { denial_counts = store mt count s.denial_counts } in
    if leb 3 count then failed denied bumped else finished tt bumped

-- TARGET_PORT_IDENTITY_WILDCARD
abbrev pub wildcard : PortIdentity
wildcard = record {
  clock_identity = 255 ∷ 255 ∷ 255 ∷ 255 ∷ 255 ∷ 255 ∷ 255 ∷ 255 ∷ [];
  port_number = pos 65535;
}

-- The arguments of a Signaling message.
unfoldable pub signaling_args : Contract → PortIdentity → ℕ → SignalingArgs
signaling_args c target seq = record {
  domain_number = pos c.domain_number;
  source_identity = c.our_identity;
  target_identity = target;
  sequence_id = pos seq;
  version_ptp = pos 2;
  log_message_interval = pos 0x7f;
  flags = pos 0x400;
}

-- _send_signaling, as the client sees it
unfoldable pub signal : Contract → Bytes → PortIdentity → Action World ℕ
signal c tlvs target = do
  seq ← allocate_sequence_id
  pkt ← lift (build_signaling_udp_payload (signaling_args c target seq) tlvs)
  send_started general_port pkt
  give seq

unfoldable pub send_signaling : Contract → Bytes → PortIdentity → Action Session ℕ
send_signaling c tlvs target = on_client (signal c tlvs target)

-- The grants that a message type in `need` asks for.
unfoldable pub needs : ℕ → List ℕ → Bool
needs mt [] = false
needs mt (x ∷ xs) = let later = needs mt xs in if x == mt then true else later

unfoldable pub relevant : List ℕ → List ParsedGrant → List ParsedGrant
relevant need [] = []
relevant need (g ∷ gs) =
    let rest = relevant need gs in if needs g.pt_message_type need then g ∷ rest else rest

-- by_mt[...] = g for each grant, the newest first; a grant of no duration refuses its type.
pub data Recorded : Type 0 where
  refused : ℕ → Recorded
  recorded : List ParsedGrant → Recorded

unfoldable pub record_grants : List ParsedGrant → List ParsedGrant → Recorded
record_grants by_mt [] = recorded by_mt
record_grants by_mt (g ∷ gs) =
    let later = record_grants (g ∷ by_mt) gs in
    if g.duration_sec == 0 then refused g.pt_message_type else later

-- by_mt.get(mt)
unfoldable pub grant_for : ℕ → List ParsedGrant → Option ParsedGrant
grant_for mt [] = none
grant_for mt (g ∷ gs) =
    let later = grant_for mt gs in if g.pt_message_type == mt then some g else later

-- [by_mt[mt] for mt in expected], once all are there.
unfoldable pub grants_for : List ℕ → List ParsedGrant → Option (List ParsedGrant)
grants_for [] by_mt = some []
grants_for (mt ∷ more) by_mt = elim (grant_for mt by_mt) [
  | none ↦ none
  | some g ↦ elim (grants_for more by_mt) [ none ↦ none | some gs ↦ some (g ∷ gs) ]
]

-- One pass over the buffer: it is refused, raises, or leaves the grants and the buffer without the
-- messages that they came in.
pub data Scan : Type 0 where
  denial : ℕ → Scan
  broken : Error → Scan
  gathered : List ParsedGrant → List Datagram → Scan

abbrev pub keeping : Datagram → Scan → Scan
keeping d (denial mt) = denial mt
keeping d (broken e) = broken e
keeping d (gathered by_mt kept) = gathered by_mt (d ∷ kept)

-- One message with relevant grants or none, and the pass behind it.
abbrev pub scan_one :
    Datagram → List ParsedGrant → List ParsedGrant → (List ParsedGrant → Scan) → Scan
scan_one d by_mt [] later = keeping d (later by_mt)
scan_one d by_mt (g ∷ gs) later = elim (record_grants by_mt (g ∷ gs)) [
  | refused mt ↦ denial mt
  | recorded by_mt' ↦ later by_mt'
]

unfoldable pub scan_buffer : ℕ → List ℕ → List ParsedGrant → List Datagram → Scan
scan_buffer domain need by_mt [] = gathered by_mt []
scan_buffer domain need by_mt (d ∷ ds) = elim (is_of domain (pos (value signaling)) d) [
  | false ↦ keeping d (scan_buffer domain need by_mt ds)
  | true ↦ elim (extract_grants_from_signaling_udp d.payload) [
    | err e ↦ broken e
    | ok grants ↦
        scan_one d by_mt (relevant need grants) (λ by_mt'. scan_buffer domain need by_mt' ds)
  ]
]

-- The turns of _collect_grants_until, one for each tick.
unfoldable pub collect_turns :
    ℕ → List ℕ → ℕ → List ParsedGrant → List Tick → Action Session (List ParsedGrant)
collect_turns domain need deadline by_mt [] s =
    failed timed_out (with_client (with_ticks [] s.client) s)
collect_turns domain need deadline by_mt (t ∷ ts) s =
    let now = with_client (at_tick t ts s.client) s in
    elim (ltb t.monotonic deadline) [
      | false ↦ failed timed_out now
      | true ↦ elim (scan_buffer domain need by_mt now.client.buffer) [
        | denial mt ↦ (bump_denial mt >> raise denied) now
        | broken e ↦ failed (raising e) now
        | gathered by_mt' kept ↦ elim (grants_for need by_mt') [
          | some grants ↦ finished grants (with_client (with_buffer kept now.client) now)
          | none ↦
              collect_turns domain need deadline by_mt' ts
                (with_client (with_buffer kept now.client) now)
        ]
      ]
    ]

unfoldable pub collect_grants_until : Contract → List ℕ → ℕ → Action Session (List ParsedGrant)
collect_grants_until c need deadline s =
    collect_turns (c.domain_number % 2 ^ 8) need deadline [] s.client.ticks s

-- {g.pt_message_type: g for g in grants}.get(mt): the last of them.
unfoldable pub last_grant_for : ℕ → List ParsedGrant → Option ParsedGrant
last_grant_for mt [] = none
last_grant_for mt (g ∷ gs) = elim (last_grant_for mt gs) [
  | some x ↦ some x
  | none ↦ if g.pt_message_type == mt then some g else none
]

-- _expect_grants_ok
unfoldable pub expect_grants_ok : List ParsedGrant → List ℕ → Action Session (Unit {0})
expect_grants_ok grants [] s = finished tt s
expect_grants_ok grants (mt ∷ more) s =
    let later = expect_grants_ok grants more s in
    elim (last_grant_for mt grants) [
      | none ↦ failed negotiation_failed s
      | some g ↦ if g.duration_sec == 0 then (bump_denial mt >> raise denied) s else later
    ]

-- The attempts of _negotiate_with_retries, counted down.
unfoldable pub attempts :
    Contract → Action Session (Unit {0}) → List ℕ → ℕ → Action Session (List ParsedGrant)
attempts c send_fn need zero s = failed negotiation_timeout s
attempts c send_fn need (suc left) s = elim s.client.stop [
  | true ↦ failed negotiation_failed s
  | false ↦ elim (send_fn s) [
    | failed e u ↦ failed e u
    | finished sent u ↦
        elim (collect_grants_until c need (u.client.monotonic + c.request_timeout) u) [
          | failed timed_out v ↦ elim left [
            | zero ↦ failed negotiation_timeout v
            | suc n ↦ attempts c send_fn need left v
          ]
          | failed e v ↦ failed e v
          | finished grants v ↦ elim (expect_grants_ok grants need v) [
            | finished good z ↦ finished grants z
            | failed denied z ↦ elim left [
              | zero ↦ failed denied z
              | suc n ↦ attempts c send_fn need left z
            ]
            | failed negotiation_failed z ↦ elim left [
              | zero ↦ failed negotiation_timeout z
              | suc n ↦ attempts c send_fn need left z
            ]
            | failed e z ↦ failed e z
          ]
        ]
  ]
]

abbrev pub negotiate_with_retries :
    Contract → Action Session (Unit {0}) → List ℕ → Action Session (List ParsedGrant)
negotiate_with_retries c send_fn need = attempts c send_fn need 3
