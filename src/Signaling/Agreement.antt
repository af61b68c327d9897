-- ===== src/Signaling/Agreement.antt =====
-- The two ways to build a TLV agree.
use ptp_client.Prelude.{
  ◌≡◌, ◌∙◌, ap, refl, arith, true, false, eq_ℤ, eq_ℤ_refl, ℤ, pos, negsuc, ◌≤ℤ◌,
}
use ptp_client.Signaling.{
  period_octets, request_type, grant_type, build_request_unicast_tlv, build_grant_unicast_tlv,
}
use ptp_client.Signaling.Message.{SignalingSpec, clamp_octet, spec_period, spec_tlv}

clamp_inside : (z : ℤ) → negsuc 127 ≤ℤ z → z ≤ℤ pos 127 → clamp_octet z ≡ z
unfolding clamp_octet
clamp_inside z low high = ground arith

types_differ : eq_ℤ (pos grant_type) (pos request_type) ≡ false
unfolding eq_ℤ
types_differ = refl

module _ (s : SignalingSpec) (low : negsuc 127 ≤ℤ s.log_inter_message_period)
    (high : s.log_inter_message_period ≤ℤ pos 127) where
  period_same :
      spec_period s ≡ period_octets s.tlv_message_type s.log_inter_message_period s.duration_sec
  unfolding spec_period period_octets
  period_same = rw (clamp_inside s.log_inter_message_period low high) refl

  -- For a period that fits its octet, the TLV of a specification of a request or of a grant is the
  -- one that the negotiation builds from the same fields.
  pub spec_tlv_lem :
      (s.tlv_type ≡ pos request_type
        → spec_tlv s
          ≡ build_request_unicast_tlv s.tlv_message_type s.log_inter_message_period s.duration_sec)
      × (s.tlv_type ≡ pos grant_type
          → spec_tlv s
            ≡ build_grant_unicast_tlv s.tlv_message_type s.log_inter_message_period s.duration_sec
                s.tlv_reserved s.tlv_flags)
  unfolding spec_tlv build_request_unicast_tlv build_grant_unicast_tlv
  spec_tlv_lem = (
    λ kind.
        let is : eq_ℤ s.tlv_type (pos request_type) ≡ true =
          ap (λ z. eq_ℤ z (pos request_type)) kind ∙ eq_ℤ_refl (pos request_type) in
        rw (is, period_same) refl,
    λ kind.
        let is_not : eq_ℤ s.tlv_type (pos request_type) ≡ false =
          ap (λ z. eq_ℤ z (pos request_type)) kind ∙ types_differ in
        let is : eq_ℤ s.tlv_type (pos grant_type) ≡ true =
          ap (λ z. eq_ℤ z (pos grant_type)) kind ∙ eq_ℤ_refl (pos grant_type) in
        rw (is_not, is, period_same) refl,
  )
