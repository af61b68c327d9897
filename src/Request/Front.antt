-- ===== src/Request/Front.antt =====
-- src/ptp_client/ptp/request_builder.py: the header in front of a built body.
use ptp_client.Prelude.{
  ℕ, ◌+◌, ◌≤◌, ◌≡◌, refl, ap, sym, ◌∙◌, ◌++◌, arith, pos, negsuc, length, mask, mask-lt, mask_uint,
  Option, none, some, Result, ok, err, value_error, returned, ◌>>=◌, length-append,
}
use ptp_client.Wire.{Bytes}
use ptp_client.Wire.Laws.{FitsInt}
use ptp_client.Timestamp.{PtpTimestamp, zero, IsValid}
use ptp_client.Timestamp.Laws.{make-IsValid}
use ptp_client.Header.{
  MessageType, sync, delay_req, follow_up, delay_resp, value, PortIdentity, PtpHeader, wrap_octet,
  unpack,
}
use ptp_client.Header.Bits.{control_back}
use ptp_client.Header.Identity.{IsIdentity, port_identity-IsIdentity}
use ptp_client.Header.Octets.{IsPackable, header_octets, masked, pack_ok, length-header_octets}
use ptp_client.Header.RoundTrip.{unpack-header_octets}
use ptp_client.Packet.{Body, sync_body, follow_up_body, delay_req_body, delay_resp_body}
use ptp_client.Master.Messages.Build.{type_masked, twice_masked}
use ptp_client.Request.{
  Spec, IdentitySpec, TimestampSpec, get, clock_octets, spec_identity, ts_from_spec,
  control_default, build_body, source_of, request_header, build_typed,
}

pub spec_identity-IsIdentity :
    (s : IdentitySpec) (p : PortIdentity) → spec_identity s ≡ ok p → IsIdentity p
unfolding spec_identity
spec_identity-IsIdentity s p h =
    let (b, _, made) = returned (clock_octets s.clock_identity) _ h in
    port_identity-IsIdentity b (get s.port_number (pos 1)) p made

pub source_of-IsIdentity : (s : Spec) (p : PortIdentity) → source_of s ≡ ok p → IsIdentity p
unfolding source_of
source_of-IsIdentity s p h =
    elim s.source
        as (λ o.
          elim o [ none ↦ spec_identity s.identity | some src ↦ spec_identity src ] ≡ ok p
          → IsIdentity p) [
            | none ↦ spec_identity-IsIdentity s.identity p
            | some src ↦ spec_identity-IsIdentity src p
          ]
      h

pub ts_from_spec-IsValid :
    (o : Option TimestampSpec) (t : PtpTimestamp) → ts_from_spec o ≡ ok t → IsValid t
unfolding ts_from_spec zero
ts_from_spec-IsValid none t h = make-IsValid (pos 0) (pos 0) t h
ts_from_spec-IsValid (some x) t h = make-IsValid x.seconds (get x.nanoseconds (pos 0)) t h

-- The fields of a specification that `pack` may refuse.
pub record IsSendable (s : Spec) : Type 0 where
  pub correction_fits : FitsInt 8 (get s.correction_field_ns (pos 0))
  pub interval_fits : FitsInt 1 (wrap_octet (get s.log_message_interval (negsuc 126)))

pub request_header-IsPackable :
    (mt : MessageType) (s : Spec) (source : PortIdentity) (n : ℕ)
    → IsIdentity source
    → IsSendable s
    → IsPackable (request_header mt s source n)
unfolding request_header
request_header-IsPackable mt s source n v f = record {
  correction_fits = f.correction_fits;
  source_valid = v;
  control_fits =
      (control_back (pos (mask 8 (get s.control_field (control_default mt)))) (omega arith)
        (omega (arith, mask-lt 8 (get s.control_field (control_default mt))))).0;
  interval_fits = f.interval_fits;
}

-- The body that a receiver is to read.
abbrev pub spec_body : MessageType → Spec → Result (Option Body)
spec_body sync s = do t ← ts_from_spec s.origin_timestamp; ok (some (sync_body t))
spec_body delay_req s = do t ← ts_from_spec s.origin_timestamp; ok (some (delay_req_body t))
spec_body follow_up s = do t ← ts_from_spec s.precise_origin_timestamp; ok (some (follow_up_body t))
spec_body delay_resp s = do
  t ← ts_from_spec s.receive_timestamp
  elim s.requesting_port_identity [
    | none ↦ err value_error
    | some req ↦ (do p ← spec_identity req; ok (some (delay_resp_body t p)))
  ]
spec_body _ s = err value_error

-- `h` carries the fields of the specification, and the length of `bs`.
pub record Carries (mt : MessageType) (s : Spec) (source : PortIdentity) (bs : Bytes)
    (h : PtpHeader) : Type 0 where
  pub decoded : unpack bs 0 ≡ ok h
  pub typed : h.message_type ≡ pos (value mt)
  pub sourced : h.source_identity ≡ source
  pub numbered : h.sequence_id ≡ pos (mask 16 (get s.sequence_id (pos 0)))
  pub flagged : h.flags ≡ pos (mask 16 (get s.flags (pos 0)))
  pub in_domain : h.domain_number ≡ pos (mask 8 (get s.domain_number (pos 0)))
  pub lengthed : h.message_length ≡ pos (length bs)

abbrev pub front : MessageType → Spec → PortIdentity → Bytes → PtpHeader
front mt s source body = request_header mt s source (length body)

abbrev pub payload : MessageType → Spec → PortIdentity → Bytes → Bytes
payload mt s source body = header_octets (front mt s source body) ++ body

-- A body of at most 20 octets behind its header.
module _ (mt : MessageType) (s : Spec) (source : PortIdentity) (body : Bytes)
    (v : IsIdentity source) (f : IsSendable s) (small : length body ≤ 20) where
  pub front-IsPackable : IsPackable (front mt s source body)
  front-IsPackable = request_header-IsPackable mt s source (length body) v f

  pub length-payload : length (payload mt s source body) ≡ 34 + length body
  length-payload = omega (
    arith,
    length-append (header_octets (front mt s source body)) body,
    length-header_octets (front mt s source body) front-IsPackable,
  )

  pub lengthed : (masked (front mt s source body)).message_length ≡ pos (34 + length body)
  unfolding request_header
  lengthed = ap pos (mask_uint 16 (34 + length body) (omega arith))

  pub carries : Carries mt s source (payload mt s source body) (masked (front mt s source body))
  unfolding request_header
  carries = record {
    decoded = unpack-header_octets (front mt s source body) body front-IsPackable;
    typed = type_masked mt;
    sourced = refl;
    numbered = twice_masked (get s.sequence_id (pos 0));
    flagged = twice_masked (get s.flags (pos 0));
    in_domain = refl;
    lengthed = ap pos (mask_uint 16 (34 + length body) (omega arith) ∙ sym length-payload);
  }

  pub typed_ok :
      source_of s ≡ ok source
      → build_body mt s ≡ ok body
      → build_typed mt s ≡ ok (payload mt s source body)
  unfolding build_typed
  typed_ok from built = rw (from, built, pack_ok (front mt s source body) front-IsPackable)
