-- ===== src/Request/Builds.antt =====
-- src/ptp_client/ptp/request_builder.py: a built payload is what its specification says.
use ptp_client.Prelude.{Option-cases, ◌≡◌, inl, inr, refl, ◌++◌, arith, some, ok, returned}
use ptp_client.Wire.{Bytes}
use ptp_client.Timestamp.{PtpTimestamp, pack10, IsValid}
use ptp_client.Timestamp.Laws.{length-pack10}
use ptp_client.Header.{
  MessageType, sync, delay_req, pdelay_req, pdelay_resp, follow_up, delay_resp,
  pdelay_resp_follow_up, announce, signaling, management, PortIdentity, PtpHeader,
}
use ptp_client.Header.Identity.{IsIdentity, identity_octets, pack_identity_ok}
use ptp_client.Header.Octets.{masked}
use ptp_client.Packet.{parse_body_for_message_type}
use ptp_client.Request.{
  Spec, IdentitySpec, spec_identity, ts_from_spec, type_of_spec, build_body, source_of,
  request_header, build_typed, build_ptp_udp_payload,
}
use ptp_client.Request.Front.{
  spec_identity-IsIdentity, source_of-IsIdentity, ts_from_spec-IsValid, IsSendable, spec_body,
  Carries, front, payload, carries, typed_ok,
}
use ptp_client.Request.Reads.{
  length-answer, sync_read, delay_req_read, follow_up_read, delay_resp_read,
}

-- What is built, for a type with its body.
abbrev Built : MessageType → Spec → PortIdentity → Bytes → Type 0
Built mt s source body =
    (bs : Bytes) × (h : PtpHeader) × (build_typed mt s ≡ ok bs)
    × Carries mt s source bs h
    × (parse_body_for_message_type bs h ≡ spec_body mt s)

stamped-Built :
    (mt : MessageType) (s : Spec) (source : PortIdentity) (t : PtpTimestamp)
    → IsIdentity source
    → IsSendable s
    → source_of s ≡ ok source
    → build_body mt s ≡ ok (pack10 t)
    → parse_body_for_message_type
        (payload mt s source (pack10 t))
        (masked (front mt s source (pack10 t)))
      ≡ spec_body mt s
    → Built mt s source (pack10 t)
stamped-Built mt s source t v f from built reads = (
  payload mt s source (pack10 t),
  masked (front mt s source (pack10 t)),
  typed_ok mt s source (pack10 t) v f (omega (arith, length-pack10 t)) from built,
  carries mt s source (pack10 t) v f (omega (arith, length-pack10 t)),
  reads,
)

answered-Built :
    (s : Spec) (source : PortIdentity) (t : PtpTimestamp) (req : IdentitySpec) (p : PortIdentity)
    (body : Bytes)
    → IsIdentity source
    → IsSendable s
    → IsValid t
    → IsIdentity p
    → source_of s ≡ ok source
    → ts_from_spec s.receive_timestamp ≡ ok t
    → s.requesting_port_identity ≡ some req
    → spec_identity req ≡ ok p
    → Built delay_resp s source body
unfolding build_body request_header
answered-Built s source t req p body v f valid r from stamp given made =
    let whole = pack10 t ++ identity_octets p in
    let small = length-answer s source t p v f valid r in
    (
      payload delay_resp s source whole,
      masked (front delay_resp s source whole),
      typed_ok delay_resp s source whole v f (omega arith) from
          (rw (stamp, given, made, pack_identity_ok p r) refl),
      carries delay_resp s source whole v f (omega arith),
      rw (stamp, given, made) (delay_resp_read s source t p v f valid r),
    )

Built-of :
    (mt : MessageType) (s : Spec) (source : PortIdentity) (body : Bytes)
    → IsIdentity source
    → IsSendable s
    → source_of s ≡ ok source
    → build_body mt s ≡ ok body
    → Built mt s source body
unfolding build_body
Built-of sync s source body v f from built =
    let (t, stamp, e) = returned (ts_from_spec s.origin_timestamp) _ built in
    stamped-Built sync s source t v f from (rw stamp refl)
      (rw stamp (sync_read s source t v f (ts_from_spec-IsValid _ t stamp)))
Built-of delay_req s source body v f from built =
    let (t, stamp, e) = returned (ts_from_spec s.origin_timestamp) _ built in
    stamped-Built delay_req s source t v f from (rw stamp refl)
      (rw stamp (delay_req_read s source t v f (ts_from_spec-IsValid _ t stamp)))
Built-of follow_up s source body v f from built =
    let (t, stamp, e) = returned (ts_from_spec s.precise_origin_timestamp) _ built in
    stamped-Built follow_up s source t v f from (rw stamp refl)
      (rw stamp (follow_up_read s source t v f (ts_from_spec-IsValid _ t stamp)))
Built-of delay_resp s source body v f from built =
    let (t, stamp, e) = returned (ts_from_spec s.receive_timestamp) _ built in
    elim (Option-cases s.requesting_port_identity) [
      | inl missing ↦ cc
      | inr (req, given) ↦
          let (p, made, e') = returned (spec_identity req) _ (rw given at e) in
          answered-Built s source t req p body v f (ts_from_spec-IsValid _ t stamp)
            (spec_identity-IsIdentity req p made) from stamp given made
    ]
Built-of pdelay_req s source body v f from built = cc
Built-of pdelay_resp s source body v f from built = cc
Built-of pdelay_resp_follow_up s source body v f from built = cc
Built-of announce s source body v f from built = cc
Built-of signaling s source body v f from built = cc
Built-of management s source body v f from built = cc

-- For a message type that can be built, from a source and a body that the specification yields, with
-- a correction and an interval in range: `build_ptp_udp_payload` returns; the payload decodes to a
-- header with the specification's type, source, sequence id, flags and domain, and with the payload's
-- length; and the receiver's parser reads the body that was specified.
pub build_ptp_udp_payload_lem :
    (mt : MessageType) (s : Spec) (source : PortIdentity) (body : Bytes)
    → type_of_spec s.message_type ≡ some mt
    → source_of s ≡ ok source
    → build_body mt s ≡ ok body
    → IsSendable s
    → (bs : Bytes) × (h : PtpHeader) × (build_ptp_udp_payload s ≡ ok bs)
      × Carries mt s source bs h
      × (parse_body_for_message_type bs h ≡ spec_body mt s)
unfolding build_ptp_udp_payload
build_ptp_udp_payload_lem mt s source body typed from built f =
    let (bs, h, done, carried, reads) =
      Built-of mt s source body (source_of-IsIdentity s source from) f from built in
    (bs, h, rw (build_ptp_udp_payload, typed) done, carried, reads)
