-- ===== src/Request/Reads.antt =====
-- src/ptp_client/ptp/request_builder.py: each built body, as the parsers read it.
use ptp_client.Prelude.{
  ℕ, ◌+◌, ◌^◌, ◌<◌, ◌≤◌, ◌≤ℤ◌, ge→ltb, neg_part, Option-cases, ◌≡◌, ◌⊎◌, inl, inr, refl, ap, sym,
  ◌∙◌, ◌++◌, [], arith, ℤ, pos, negsuc, length, mask, mask-lt, mask_uint, Option, none, some,
  Result, ok, err, value_error, returned, ◌>>=◌, length-append, append_assoc, pos_part,
}
use ptp_client.Wire.{Bytes, be}
use ptp_client.Timestamp.{PtpTimestamp, pack10, unpack10, IsValid}
use ptp_client.Timestamp.Laws.{unpack10-pack10, length-pack10}
use ptp_client.Header.{
  MessageType, sync, delay_req, follow_up, delay_resp, value, PortIdentity, PtpHeader,
  unpack_identity,
}
use ptp_client.Header.Identity.{IsIdentity, identity_octets}
use ptp_client.Header.Octets.{IsPackable, header_octets, masked, length-header_octets}
use ptp_client.Packet.{
  sync_body, follow_up_body, delay_req_body, delay_resp_body, parse_body, parse_sync_body,
  parse_follow_up_body, parse_delay_req_body, parse_delay_resp_body, message_type_of,
  parse_body_for_message_type,
}
use ptp_client.Master.Messages.Ends.{timestamp_at_end, identity_at_end}
use ptp_client.Master.Messages.Build.{type_masked}
use ptp_client.Request.{Spec, request_header}
use ptp_client.Request.Front.{
  IsSendable, front, payload, front-IsPackable, length-payload, lengthed,
}

-- The timestamp of a message that ends with it, and of one that goes on with an identity.
module _ (mt : MessageType) (s : Spec) (source : PortIdentity) (t : PtpTimestamp)
    (v : IsIdentity source) (f : IsSendable s) (valid : IsValid t) where
  pub stamp_read : unpack10 (payload mt s source (pack10 t)) 34 ≡ ok t
  stamp_read =
      timestamp_at_end (header_octets (front mt s source (pack10 t))) t 34
        (length-header_octets _
          (front-IsPackable mt s source (pack10 t) v f (omega (arith, length-pack10 t))))
        valid

module _ (s : Spec) (source : PortIdentity) (t : PtpTimestamp) (p : PortIdentity)
    (v : IsIdentity source) (f : IsSendable s) (valid : IsValid t) (r : IsIdentity p) where
  abbrev pub answer : Bytes
  answer = pack10 t ++ identity_octets p

  pub length-answer : length answer ≡ 20
  length-answer = omega (
    arith,
    length-append (pack10 t) (identity_octets p),
    length-append p.clock_identity (be 2 (pos_part p.port_number)),
    length-pack10 t,
    r.identity_length,
  )

  pub answer-IsPackable : IsPackable (front delay_resp s source answer)
  answer-IsPackable = front-IsPackable delay_resp s source answer v f (omega (arith, length-answer))

  pub answer_stamp : unpack10 (payload delay_resp s source answer) 34 ≡ ok t
  answer_stamp =
      unpack10-pack10 (header_octets (front delay_resp s source answer)) t (identity_octets p) 34
        (length-header_octets _ answer-IsPackable) valid

  pub answer_identity : unpack_identity (payload delay_resp s source answer) 44 ≡ ok p
  answer_identity =
      rw
        (sym (
          append_assoc (header_octets (front delay_resp s source answer)) (pack10 t)
            (identity_octets p)))
        (identity_at_end (header_octets (front delay_resp s source answer) ++ pack10 t) p 44
          (omega (
            arith,
            length-append (header_octets (front delay_resp s source answer)) (pack10 t),
            length-header_octets _ answer-IsPackable,
            length-pack10 t,
          ))
          r)

-- Each body, as the parsers read it.
module _ (s : Spec) (source : PortIdentity) (t : PtpTimestamp) (v : IsIdentity source)
    (f : IsSendable s) (valid : IsValid t) where
  pub sync_read :
      parse_body_for_message_type
        (payload sync s source (pack10 t))
        (masked (front sync s source (pack10 t)))
      ≡ ok (some (sync_body t))
  unfolding parse_body_for_message_type parse_body parse_sync_body message_type_of mask
      request_header ptp_client.Prelude.eq_ℤ pack10
  sync_read = rw (
    length-payload sync s source (pack10 t) v f (omega arith),
    stamp_read sync s source t v f valid,
  )

  pub delay_req_read :
      parse_body_for_message_type
        (payload delay_req s source (pack10 t))
        (masked (front delay_req s source (pack10 t)))
      ≡ ok (some (delay_req_body t))
  unfolding parse_body_for_message_type parse_body parse_delay_req_body message_type_of mask
      request_header ptp_client.Prelude.eq_ℤ pack10
  delay_req_read = rw (stamp_read delay_req s source t v f valid)

  pub follow_up_read :
      parse_body_for_message_type
        (payload follow_up s source (pack10 t))
        (masked (front follow_up s source (pack10 t)))
      ≡ ok (some (follow_up_body t))
  unfolding parse_body_for_message_type parse_body parse_follow_up_body message_type_of mask
      request_header ptp_client.Prelude.eq_ℤ pack10
  follow_up_read = rw (stamp_read follow_up s source t v f valid)

-- A Delay_Resp whose length is stated as at least 54.
pub delay_resp_parsed :
    (bs : Bytes) (h : PtpHeader) (t : PtpTimestamp) (p : PortIdentity)
    → h.message_type ≡ pos (value delay_resp)
    → pos 54 ≤ℤ h.message_length
    → unpack10 bs 34 ≡ ok t
    → unpack_identity bs 44 ≡ ok p
    → parse_body_for_message_type bs h ≡ ok (some (delay_resp_body t p))
unfolding parse_body_for_message_type parse_body parse_delay_resp_body message_type_of
    ptp_client.Prelude.eq_ℤ
delay_resp_parsed bs h t p typed long stamp identity =
    rw
      (
        typed,
        ge→ltb (pos_part h.message_length + 0) (54 + neg_part h.message_length) (omega arith),
        stamp,
        identity,
      )
      refl

pub at_least : (z : ℤ) (n : ℕ) → z ≡ pos n → 54 ≤ n → pos 54 ≤ℤ z
at_least z n e h = rw e (omega arith)

pub delay_resp_read :
    (s : Spec) (source : PortIdentity) (t : PtpTimestamp) (p : PortIdentity) (v : IsIdentity source)
    (f : IsSendable s) (valid : IsValid t) (r : IsIdentity p)
    → parse_body_for_message_type
        (payload delay_resp s source (pack10 t ++ identity_octets p))
        (masked (front delay_resp s source (pack10 t ++ identity_octets p)))
      ≡ ok (some (delay_resp_body t p))
unfolding request_header
delay_resp_read s source t p v f valid r =
    let body = pack10 t ++ identity_octets p in
    let small = length-answer s source t p v f valid r in
    delay_resp_parsed (payload delay_resp s source body) (masked (front delay_resp s source body)) t
      p (type_masked delay_resp)
      (at_least (masked (front delay_resp s source body)).message_length (34 + length body)
        (lengthed delay_resp s source body v f (omega arith)) (omega arith))
      (answer_stamp s source t p v f valid r) (answer_identity s source t p v f valid r)
