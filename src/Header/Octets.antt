-- ===== src/Header/Octets.antt =====
-- The octets of a packed header, field by field.
use ptp_client.Prelude.{
  ◌≡◌, true, refl, ap, ◌∙◌, ◌++◌, [], ◌∷◌, arith, pos, pos_part, leb, length, mask, mask-lt,
  mask_uint, ok, length-append, append_assoc, le→leb,
}
use ptp_client.Wire.{Bytes, be, unpack_uint, unpack_int}
use ptp_client.Wire.Laws.{
  from_be-be, FitsInt, twos, pack_uint_pos, pack_int_ok, signed-twos, unpack_uint-past,
  unpack_int-past,
}
use ptp_client.Header.{PtpHeader, nibbles, wrap_octet, pack, unpack, unpack_identity}
use ptp_client.Header.Bits.{nibbles-lt, high_nibble, low_nibble}
use ptp_client.Header.Identity.{
  IsIdentity, identity_octets, pack_identity_ok, unpack_identity_octets,
}

-- What `pack` needs in order not to raise.
pub record IsPackable (h : PtpHeader) : Type 0 where
  pub correction_fits : FitsInt 8 h.correction_field_ns
  pub source_valid : IsIdentity h.source_identity
  pub control_fits : FitsInt 1 (wrap_octet h.control_field)
  pub interval_fits : FitsInt 1 (wrap_octet h.log_message_interval)

abbrev front : PtpHeader → Bytes
front h =
    be 1 (nibbles h.transport_specific h.message_type)
    ++ (be 1 (nibbles h.minor_sdo_id h.version_ptp)
        ++ (be 2 (mask 16 h.message_length)
            ++ (be 1 (mask 8 h.domain_number)
                ++ (0
                    ∷ (be 2 (mask 16 h.flags)
                        ++ (be 8 (twos 8 h.correction_field_ns) ++ (0 ∷ 0 ∷ 0 ∷ 0 ∷ [])))))))

abbrev back : PtpHeader → Bytes
back h =
    be 2 (mask 16 h.sequence_id)
    ++ (be 1 (twos 1 (wrap_octet h.control_field))
        ++ be 1 (twos 1 (wrap_octet h.log_message_interval)))

-- The wire image of a header.
pub header_octets : PtpHeader → Bytes
header_octets h = front h ++ (identity_octets h.source_identity ++ back h)

pub pack_ok : (h : PtpHeader) → IsPackable h → pack h ≡ ok (header_octets h)
unfolding pack header_octets
pack_ok h v =
    rw
      (
        pack_uint_pos 1 (nibbles h.transport_specific h.message_type) (nibbles-lt _ _),
        pack_uint_pos 1 (nibbles h.minor_sdo_id h.version_ptp) (nibbles-lt _ _),
        pack_uint_pos 2 (mask 16 h.message_length) (mask-lt 16 h.message_length),
        pack_uint_pos 1 (mask 8 h.domain_number) (mask-lt 8 h.domain_number),
        pack_uint_pos 2 (mask 16 h.flags) (mask-lt 16 h.flags),
        pack_int_ok 8 h.correction_field_ns v.correction_fits,
        pack_identity_ok h.source_identity v.source_valid,
        pack_uint_pos 2 (mask 16 h.sequence_id) (mask-lt 16 h.sequence_id),
        pack_int_ok 1 (wrap_octet h.control_field) v.control_fits,
        pack_int_ok 1 (wrap_octet h.log_message_interval) v.interval_fits,
      )
      refl

pub length-header_octets : (h : PtpHeader) → IsPackable h → length (header_octets h) ≡ 34
unfolding header_octets
length-header_octets h v = omega (
  arith,
  length-append h.source_identity.clock_identity (be 2 (pos_part h.source_identity.port_number)),
  length-append (identity_octets h.source_identity) (back h),
  v.source_valid.identity_length,
)

-- The header that a reader sees: every field cut to the width that it has on the wire.
abbrev pub masked : PtpHeader → PtpHeader
masked h = record {
  message_type = pos (mask 4 h.message_type);
  version_ptp = pos (mask 4 h.version_ptp);
  message_length = pos (mask 16 h.message_length);
  domain_number = pos (mask 8 h.domain_number);
  minor_sdo_id = pos (mask 4 h.minor_sdo_id);
  flags = pos (mask 16 h.flags);
  correction_field_ns = h.correction_field_ns;
  source_identity = h.source_identity;
  sequence_id = pos (mask 16 h.sequence_id);
  control_field = pos (mask 8 (wrap_octet h.control_field));
  log_message_interval = wrap_octet h.log_message_interval;
  transport_specific = pos (mask 4 h.transport_specific);
}

-- Where each field is read, in front of anything.
module _ (h : PtpHeader) (rest : Bytes) where
  abbrev after : Bytes
  after = identity_octets h.source_identity ++ (back h ++ rest)

  abbrev whole : Bytes
  whole = front h ++ after

  pub octets-append : header_octets h ++ rest ≡ whole
  unfolding header_octets
  octets-append =
      ap (◌++◌ (front h)) (append_assoc (identity_octets h.source_identity) (back h) rest)

  read-nibbles :
      (unpack_uint 1 whole 0 ≡ ok (nibbles h.transport_specific h.message_type))
      × (unpack_uint 1 whole 1 ≡ ok (nibbles h.minor_sdo_id h.version_ptp))
  unfolding unpack_uint
  read-nibbles = (
    ap ok (from_be-be 1 (nibbles h.transport_specific h.message_type) (nibbles-lt _ _)),
    ap ok (from_be-be 1 (nibbles h.minor_sdo_id h.version_ptp) (nibbles-lt _ _)),
  )

  read-front :
      (unpack_uint 2 whole 2 ≡ ok (mask 16 h.message_length))
      × (unpack_uint 1 whole 4 ≡ ok (mask 8 h.domain_number))
      × (unpack_uint 2 whole 6 ≡ ok (mask 16 h.flags))
  unfolding unpack_uint
  read-front = (
    ap ok (from_be-be 2 (mask 16 h.message_length) (mask-lt 16 h.message_length)),
    ap ok (from_be-be 1 (mask 8 h.domain_number) (mask-lt 8 h.domain_number)),
    ap ok (from_be-be 2 (mask 16 h.flags) (mask-lt 16 h.flags)),
  )

  read-correction : IsPackable h → unpack_int 8 whole 8 ≡ ok h.correction_field_ns
  unfolding unpack_int
  read-correction v = ap ok (signed-twos 8 h.correction_field_ns v.correction_fits)

  read-source : IsPackable h → unpack_identity whole 20 ≡ ok h.source_identity
  read-source v =
      unpack_identity_octets (front h) h.source_identity (back h ++ rest) 20 refl v.source_valid

  length-identity : IsPackable h → length (identity_octets h.source_identity) ≡ 10
  length-identity v = omega (
    arith,
    length-append h.source_identity.clock_identity (be 2 (pos_part h.source_identity.port_number)),
    v.source_valid.identity_length,
  )

  read-sequence : IsPackable h → unpack_uint 2 whole 30 ≡ ok (mask 16 h.sequence_id)
  unfolding unpack_uint
  read-sequence v =
      unpack_uint-past 2 (front h) after 20 10 refl
      ∙ unpack_uint-past 2 (identity_octets h.source_identity) (back h ++ rest) 10 0
          (length-identity v)
      ∙ ap ok (from_be-be 2 (mask 16 h.sequence_id) (mask-lt 16 h.sequence_id))

  read-control : IsPackable h → unpack_int 1 whole 32 ≡ ok (wrap_octet h.control_field)
  unfolding unpack_int
  read-control v =
      unpack_int-past 1 (front h) after 20 12 refl
      ∙ unpack_int-past 1 (identity_octets h.source_identity) (back h ++ rest) 10 2
          (length-identity v)
      ∙ ap ok (signed-twos 1 (wrap_octet h.control_field) v.control_fits)

  read-interval : IsPackable h → unpack_int 1 whole 33 ≡ ok (wrap_octet h.log_message_interval)
  unfolding unpack_int
  read-interval v =
      unpack_int-past 1 (front h) after 20 13 refl
      ∙ unpack_int-past 1 (identity_octets h.source_identity) (back h ++ rest) 10 3
          (length-identity v)
      ∙ ap ok (signed-twos 1 (wrap_octet h.log_message_interval) v.interval_fits)

  long_enough : IsPackable h → leb 34 (length whole) ≡ true
  long_enough v = le→leb 34 _ (
      omega (
        arith,
        length-append (identity_octets h.source_identity) (back h ++ rest),
        length-identity v,
      ))

  pub unpack-whole : IsPackable h → unpack whole 0 ≡ ok (masked h)
  unfolding unpack
  unpack-whole v =
      rw
        (
          long_enough v,
          read-nibbles.0,
          read-nibbles.1,
          read-front.0,
          read-front.1,
          read-front.2,
          read-correction v,
          read-source v,
          read-sequence v,
          read-control v,
          read-interval v,
          high_nibble h.transport_specific h.message_type,
          low_nibble h.transport_specific h.message_type,
          high_nibble h.minor_sdo_id h.version_ptp,
          low_nibble h.minor_sdo_id h.version_ptp,
          mask_uint 16 (mask 16 h.flags) (mask-lt 16 h.flags),
          mask_uint 16 (mask 16 h.sequence_id) (mask-lt 16 h.sequence_id),
        )
        refl
