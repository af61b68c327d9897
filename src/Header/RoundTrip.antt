-- ===== src/Header/RoundTrip.antt =====
-- The common header: its 34 octets, and reading them back.
use ptp_client.Prelude.{◌^◌, ◌≡◌, refl, ap, ◌∙◌, ◌++◌, pos, ◌≤ℤ◌, ◌<ℤ◌, length, ok}
use ptp_client.Wire.{Bytes}
use ptp_client.Wire.Laws.{FitsInt}
use ptp_client.Header.{PtpHeader, pack, unpack}
use ptp_client.Header.Bits.{mask_fits, control_back, interval_back}
use ptp_client.Header.Identity.{IsIdentity}
use ptp_client.Header.Octets.{
  IsPackable, header_octets, pack_ok, length-header_octets, masked, octets-append, unpack-whole,
}

-- A header that packs is read back with each field cut to its width, whatever follows it.
pub unpack-header_octets :
    (h : PtpHeader) (rest : Bytes)
    → IsPackable h
    → unpack (header_octets h ++ rest) 0 ≡ ok (masked h)
unpack-header_octets h rest v = rw (octets-append h rest) (unpack-whole h rest v)

-- The ranges of the header fields on the wire.
pub record IsHeader (h : PtpHeader) : Type 0 where
  pub message_type_fits : (pos 0 ≤ℤ h.message_type) × (h.message_type <ℤ pos (2 ^ 4))
  pub version_fits : (pos 0 ≤ℤ h.version_ptp) × (h.version_ptp <ℤ pos (2 ^ 4))
  pub length_fits : (pos 0 ≤ℤ h.message_length) × (h.message_length <ℤ pos (2 ^ 16))
  pub domain_fits : (pos 0 ≤ℤ h.domain_number) × (h.domain_number <ℤ pos (2 ^ 8))
  pub sdo_fits : (pos 0 ≤ℤ h.minor_sdo_id) × (h.minor_sdo_id <ℤ pos (2 ^ 4))
  pub flags_fit : (pos 0 ≤ℤ h.flags) × (h.flags <ℤ pos (2 ^ 16))
  pub correction_fits : FitsInt 8 h.correction_field_ns
  pub source_valid : IsIdentity h.source_identity
  pub sequence_fits : (pos 0 ≤ℤ h.sequence_id) × (h.sequence_id <ℤ pos (2 ^ 16))
  pub control_fits : (pos 0 ≤ℤ h.control_field) × (h.control_field <ℤ pos 256)
  pub interval_fits : FitsInt 1 h.log_message_interval
  pub transport_fits : (pos 0 ≤ℤ h.transport_specific) × (h.transport_specific <ℤ pos (2 ^ 4))

IsHeader-IsPackable : (h : PtpHeader) → IsHeader h → IsPackable h
IsHeader-IsPackable h v = record {
  correction_fits = v.correction_fits;
  source_valid = v.source_valid;
  control_fits = (control_back h.control_field v.control_fits.0 v.control_fits.1).0;
  interval_fits = rw (interval_back h.log_message_interval v.interval_fits) v.interval_fits;
}

masked_self : (h : PtpHeader) → IsHeader h → masked h ≡ h
masked_self h v =
    rw
      (
        mask_fits 4 h.message_type v.message_type_fits.0 v.message_type_fits.1,
        mask_fits 4 h.version_ptp v.version_fits.0 v.version_fits.1,
        mask_fits 16 h.message_length v.length_fits.0 v.length_fits.1,
        mask_fits 8 h.domain_number v.domain_fits.0 v.domain_fits.1,
        mask_fits 4 h.minor_sdo_id v.sdo_fits.0 v.sdo_fits.1,
        mask_fits 16 h.flags v.flags_fit.0 v.flags_fit.1,
        mask_fits 16 h.sequence_id v.sequence_fits.0 v.sequence_fits.1,
        (control_back h.control_field v.control_fits.0 v.control_fits.1).1,
        interval_back h.log_message_interval v.interval_fits,
        mask_fits 4 h.transport_specific v.transport_fits.0 v.transport_fits.1,
      )
      refl

-- A header whose fields are in range packs into 34 octets, and `unpack` reads the same header
-- back from them, whatever octets follow.
pub unpack-pack :
    (h : PtpHeader) (rest : Bytes)
    → IsHeader h
    → (bs : Bytes) × (pack h ≡ ok bs) × (length bs ≡ 34) × (unpack (bs ++ rest) 0 ≡ ok h)
unpack-pack h rest v =
    let p = IsHeader-IsPackable h v in
    (
      header_octets h,
      pack_ok h p,
      length-header_octets h p,
      unpack-header_octets h rest p ∙ ap ok (masked_self h v),
    )
