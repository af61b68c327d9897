-- ===== src/Signaling/Grants.antt =====
-- Requests and grants: what is built is what is parsed.
use ptp_client.Prelude.{
  sym, eq_ℤ_refl, append_assoc, length-append, drop-append, pos_part, ◌<◌, ◌≡◌, refl, ap, ◌∙◌, ◌++◌,
  [], ◌∷◌, arith, length, mask, mask-lt, mask_uint, ℤ, pos, ok,
}
use ptp_client.Wire.{Bytes, be, unpack_uint, unpack_int}
use ptp_client.Wire.Laws.{
  from_be-be, FitsInt, twos, pack_uint_pos, pack_int_ok, signed-twos, unpack_uint-inside,
  unpack_int-inside,
}
use ptp_client.Signaling.{
  ParsedGrant, wire_message_type_byte, ptp_message_type_from_wire, period_octets, tlv_octets,
  build_grant_unicast_tlv, parse_grant_value, grant_type, Tlv, iter_tlvs, SignalingArgs,
  signaling_header, build_signaling_udp_payload, extract_grants_from_signaling_udp, grants_of,
  grant_of, or_scan,
}
use ptp_client.Header.{PtpHeader, unpack, value, signaling}
use ptp_client.Header.Identity.{IsIdentity, identity_octets, pack_identity_ok}
use ptp_client.Header.Octets.{IsPackable, header_octets, pack_ok, length-header_octets, masked}
use ptp_client.Header.RoundTrip.{unpack-header_octets}
use ptp_client.Signaling.Tlvs.{encode, iter_encode}

wire_lt : (t : ℤ) → wire_message_type_byte t < 256
unfolding wire_message_type_byte
wire_lt t = omega (arith, mask-lt 4 t)

wire_back : (t : ℤ) → ptp_message_type_from_wire (wire_message_type_byte t) ≡ mask 4 t
unfolding wire_message_type_byte ptp_message_type_from_wire
wire_back t = omega (arith, mask-lt 4 t)

signaling_typed :
    (a : SignalingArgs) → (masked (signaling_header a 22)).message_type ≡ pos (value signaling)
unfolding signaling_header mask
signaling_typed a = refl

-- The fields of a grant, as far as they fit on the wire.
abbrev pub grant : ℤ → ℤ → ℤ → ℤ → ParsedGrant
grant t p d f = record {
  pt_message_type = mask 4 t;
  log_inter_message_period = p;
  duration_sec = mask 32 d;
  flags = mask 8 f;
}

module _ (t p d r f : ℤ) (fits : FitsInt 1 p) where
  abbrev grant_value : Bytes
  grant_value =
      (be 1 (wire_message_type_byte t) ++ (be 1 (twos 1 p) ++ be 4 (mask 32 d)))
      ++ (be 1 (mask 8 r) ++ be 1 (mask 8 f))

  built : build_grant_unicast_tlv t p d r f ≡ ok (be 2 grant_type ++ (be 2 8 ++ grant_value))
  unfolding build_grant_unicast_tlv period_octets tlv_octets
  built =
      rw
        (
          pack_uint_pos 1 (wire_message_type_byte t) (wire_lt t),
          pack_int_ok 1 p fits,
          pack_uint_pos 4 (mask 32 d) (mask-lt 32 d),
          pack_uint_pos 1 (mask 8 r) (mask-lt 8 r),
          pack_uint_pos 1 (mask 8 f) (mask-lt 8 f),
        )
        refl

  type_read : unpack_uint 1 grant_value 0 ≡ ok (wire_message_type_byte t)
  type_read =
      unpack_uint-inside 1 grant_value 0 (omega arith)
      ∙ ap ok (from_be-be 1 (wire_message_type_byte t) (wire_lt t))

  period_read : unpack_int 1 grant_value 1 ≡ ok p
  period_read = unpack_int-inside 1 grant_value 1 (omega arith) ∙ ap ok (signed-twos 1 p fits)

  duration_read : unpack_uint 4 grant_value 2 ≡ ok (mask 32 d)
  duration_read =
      unpack_uint-inside 4 grant_value 2 (omega arith)
      ∙ ap ok (from_be-be 4 (mask 32 d) (mask-lt 32 d))

  flags_read : unpack_uint 1 grant_value 7 ≡ ok (mask 8 f)
  flags_read =
      unpack_uint-inside 1 grant_value 7 (omega arith)
      ∙ ap ok (from_be-be 1 (mask 8 f) (mask-lt 8 f))

  parsed : parse_grant_value grant_value ≡ ok (grant t p d f)
  unfolding parse_grant_value
  parsed =
      rw (type_read, period_read, duration_read, flags_read)
        (rw (wire_back t, mask_uint 32 (mask 32 d) (mask-lt 32 d)) refl)

  -- The octets of a GRANT TLV that is built hold that one TLV, and its value parses to the low 4 bits of the message type, to the
  -- period, and to the duration and flags modulo their widths.
  pub grant_back :
      (bs : Bytes) × (v : Bytes) × (build_grant_unicast_tlv t p d r f ≡ ok bs)
      × (iter_tlvs bs 0 ≡ record { type_field = grant_type; value = v } ∷ [])
      × (parse_grant_value v ≡ ok (grant t p d f))
  unfolding encode
  grant_back =
      let tlv : Tlv = record { type_field = grant_type; value = grant_value } in
      (
        be 2 grant_type ++ (be 2 8 ++ grant_value),
        grant_value,
        built,
        iter_encode (tlv ∷ []) 12 ((omega arith, omega arith), tt) (omega arith),
        parsed,
      )

  abbrev grant_tlv : Bytes
  grant_tlv = be 2 grant_type ++ (be 2 8 ++ grant_value)

  value_granted : grant_of grant_value ≡ ok (grant t p d f ∷ [])
  unfolding grant_of
  value_granted = rw (grant_of, parsed) refl

  granted :
      grants_of (record { type_field = grant_type; value = grant_value } ∷ [])
      ≡ ok (grant t p d f ∷ [])
  unfolding grants_of
  granted = rw (value_granted) refl

  -- In a payload, behind 44 octets that decode to a Signaling header.
  found :
      (pre : Bytes) (h : PtpHeader)
      → length pre ≡ 44
      → unpack (pre ++ grant_tlv) 0 ≡ ok h
      → h.message_type ≡ pos (value signaling)
      → extract_grants_from_signaling_udp (pre ++ grant_tlv) ≡ ok (grant t p d f ∷ [])
  unfolding extract_grants_from_signaling_udp or_scan encode
  found pre h long read typed =
      let tlv : Tlv = record { type_field = grant_type; value = grant_value } in
      let walk =
        iter_encode (tlv ∷ []) (length (pre ++ grant_tlv)) ((omega arith, omega arith), tt)
          (omega (arith, length-append pre grant_tlv)) in
      rw (read, typed, drop-append pre grant_tlv 44 long)
        (rw (walk, eq_ℤ_refl (pos (value signaling)), granted) refl)

  -- A Signaling message that is built around one built GRANT TLV is read back as that grant, for
  -- valid source and target identities.
  pub extract_back :
      (a : SignalingArgs)
      → IsPackable (signaling_header a 22)
      → IsIdentity a.target_identity
      → (bs : Bytes) × (payload : Bytes) × (build_grant_unicast_tlv t p d r f ≡ ok bs)
        × (build_signaling_udp_payload a bs ≡ ok payload)
        × (extract_grants_from_signaling_udp payload ≡ ok (grant t p d f ∷ []))
  unfolding build_signaling_udp_payload
  extract_back a v w =
      let h = signaling_header a 22 in
      let target = identity_octets a.target_identity in
      let size : length (target ++ grant_tlv) ≡ 22 = omega (
        arith,
        length-append target grant_tlv,
        length-append a.target_identity.clock_identity
            (be 2 (pos_part a.target_identity.port_number)),
        w.identity_length,
      ) in
      (
        grant_tlv,
        header_octets h ++ (target ++ grant_tlv),
        built,
        rw (pack_identity_ok a.target_identity w, size, pack_ok h v) refl,
        rw (sym (append_assoc (header_octets h) target grant_tlv)) (
            found (header_octets h ++ target) (masked h)
              (omega (
                arith,
                length-append (header_octets h) target,
                length-header_octets h v,
                length-append a.target_identity.clock_identity
                    (be 2 (pos_part a.target_identity.port_number)),
                w.identity_length,
              ))
              (rw (append_assoc (header_octets h) target grant_tlv)
                (unpack-header_octets h (target ++ grant_tlv) v))
              (signaling_typed a)),
      )
