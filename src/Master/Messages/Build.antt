-- ===== src/Master/Messages/Build.antt =====
-- What the builders put on the wire, read by the parsers of the receiving side.
use ptp_client.Prelude.{
  ℕ, ◌+◌, ◌^◌, ◌<◌, ◌≡◌, refl, ap, sym, ◌∙◌, ◌++◌, arith, Bool, true, false, ℤ, pos, length, mask,
  mask-lt, mask_uint, bit, with_bit, ok, length-append, append_assoc, pos_part,
}
use ptp_client.Wire.{Bytes, be}
use ptp_client.Wire.Laws.{FitsInt}
use ptp_client.Timestamp.{PtpTimestamp, pack10, IsValid}
use ptp_client.Timestamp.Laws.{unpack10-pack10, length-pack10}
use ptp_client.Header.{
  MessageType, sync, follow_up, delay_resp, value, PortIdentity, PtpHeader, wrap_octet, unpack,
  unpack_identity,
}
use ptp_client.Header.Identity.{IsIdentity, identity_octets, pack_identity_ok}
use ptp_client.Header.Octets.{IsPackable, header_octets, masked, pack_ok, length-header_octets}
use ptp_client.Header.RoundTrip.{unpack-header_octets}
use ptp_client.Packet.{parse_sync_body, parse_follow_up_body, parse_delay_resp_body}
use ptp_client.Master.Messages.{Common, header, build_sync, build_follow_up, build_delay_resp}
use ptp_client.Master.Messages.Flags.{
  number, two_step_set, two_step_keeps, unicast_set, unicast_keeps,
}
use ptp_client.Master.Messages.Ends.{
  header-IsPackable, identity_at_end, packable, stamped_length, stamped_sync, stamped_follow_up,
  zero_control, two_control, three_control, na_interval,
}

-- `bs` has `n` octets and decodes to the header `h`, which carries the arguments `c` under type
-- `mt`; the flag bit `k` is `b`, and the other flag bits are the caller's.
pub record Carries (c : Common) (mt : MessageType) (n k : ℕ) (b : Bool) (bs : Bytes) (h : PtpHeader)
    : Type 0 where
  pub octets : length bs ≡ n
  pub decoded : unpack bs 0 ≡ ok h
  pub typed : h.message_type ≡ pos (value mt)
  pub sourced : h.source_identity ≡ c.source
  pub numbered : h.sequence_id ≡ pos (mask 16 c.sequence_id)
  pub in_domain : h.domain_number ≡ pos (mask 8 c.domain_number)
  pub lengthed : h.message_length ≡ pos n
  pub flagged : bit k h.flags ≡ number b
  pub other_flags : with_bit k false h.flags ≡ with_bit k false (pos (mask 16 c.flags))

abbrev outgoing : Common → MessageType → ℕ → Bool → ℤ → ℤ → ℕ → PtpHeader
outgoing c mt k b control interval len =
    header mt c.domain_number (with_bit k b c.flags) c.source c.sequence_id control interval
      c.transport_specific len

pub twice_masked : (z : ℤ) → pos (mask 16 (pos (mask 16 z))) ≡ pos (mask 16 z)
twice_masked z = ap pos (mask_uint 16 (mask 16 z) (mask-lt 16 z))

pub type_masked : (mt : MessageType) → pos (mask 4 (pos (value mt))) ≡ pos (value mt)
unfolding mask
type_masked sync = refl
type_masked _ = refl

carries :
    (c : Common) (mt : MessageType) (k : ℕ) (b : Bool) (control interval : ℤ) (len : ℕ) (bs : Bytes)
    → length bs ≡ 34 + len
    → 34 + len < 2 ^ 16
    → unpack bs 0 ≡ ok (masked (outgoing c mt k b control interval len))
    → bit k (pos (mask 16 (with_bit k b c.flags))) ≡ number b
    → with_bit k false (pos (mask 16 (with_bit k b c.flags)))
      ≡ with_bit k false (pos (mask 16 c.flags))
    → Carries c mt (34 + len) k b bs (masked (outgoing c mt k b control interval len))
unfolding header
carries c mt k b control interval len bs l small u f o = record {
  octets = l;
  decoded = u;
  typed = type_masked mt;
  sourced = refl;
  numbered = twice_masked c.sequence_id;
  in_domain = refl;
  lengthed = ap pos (mask_uint 16 (34 + len) small);
  flagged = ap (bit k) (twice_masked (with_bit k b c.flags)) ∙ f;
  other_flags = ap (with_bit k false) (twice_masked (with_bit k b c.flags)) ∙ o;
}

-- A Sync decodes to its header, with bit 9 of the flags saying `two_step`, and to the origin
-- timestamp that it was built with, for a valid source, interval and timestamp.
pub build_sync_lem :
    (c : Common) (t : PtpTimestamp) (log_sync_interval : ℤ) (two_step : Bool)
    → IsIdentity c.source
    → FitsInt 1 (wrap_octet log_sync_interval)
    → IsValid t
    → (bs : Bytes) × (h : PtpHeader) × (build_sync c t log_sync_interval two_step ≡ ok bs)
      × Carries c sync 44 9 two_step bs h
      × (parse_sync_body bs h ≡ ok t)
unfolding build_sync
build_sync_lem c t log two_step v i valid =
    let fl = with_bit 9 two_step c.flags in
    let h = outgoing c sync 9 two_step (pos 0) log 10 in
    let p =
      packable sync c.domain_number fl c.source c.sequence_id (pos 0) log c.transport_specific t v
        zero_control i valid in
    (
      header_octets h ++ pack10 t,
      masked h,
      rw (pack_ok h p),
      carries c sync 9 two_step (pos 0) log 10 (header_octets h ++ pack10 t)
          (stamped_length sync c.domain_number fl c.source c.sequence_id (pos 0) log
            c.transport_specific t v zero_control i valid)
          (omega arith) (unpack-header_octets h (pack10 t) p) (two_step_set two_step c.flags)
          (two_step_keeps two_step c.flags),
      stamped_sync sync c.domain_number fl c.source c.sequence_id (pos 0) log c.transport_specific t
          v zero_control i valid,
    )

-- A Follow_Up decodes to its header, with the two-step bit always set, and to the precise origin
-- timestamp that it was built with, for a valid source, interval and timestamp.
pub build_follow_up_lem :
    (c : Common) (t : PtpTimestamp) (log_sync_interval : ℤ)
    → IsIdentity c.source
    → FitsInt 1 (wrap_octet log_sync_interval)
    → IsValid t
    → (bs : Bytes) × (h : PtpHeader) × (build_follow_up c t log_sync_interval ≡ ok bs)
      × Carries c follow_up 44 9 true bs h
      × (parse_follow_up_body bs h ≡ ok t)
unfolding build_follow_up
build_follow_up_lem c t log v i valid =
    let fl = with_bit 9 true c.flags in
    let h = outgoing c follow_up 9 true (pos 2) log 10 in
    let p =
      packable follow_up c.domain_number fl c.source c.sequence_id (pos 2) log c.transport_specific
        t v two_control i valid in
    (
      header_octets h ++ pack10 t,
      masked h,
      rw (pack_ok h p),
      carries c follow_up 9 true (pos 2) log 10 (header_octets h ++ pack10 t)
          (stamped_length follow_up c.domain_number fl c.source c.sequence_id (pos 2) log
            c.transport_specific t v two_control i valid)
          (omega arith) (unpack-header_octets h (pack10 t) p) (two_step_set true c.flags)
          (two_step_keeps true c.flags),
      stamped_follow_up follow_up c.domain_number fl c.source c.sequence_id (pos 2) log
          c.transport_specific t v two_control i valid,
    )

module _ (c : Common) (t : PtpTimestamp) (requesting : PortIdentity) (unicast : Bool)
    (v : IsIdentity c.source) (r : IsIdentity requesting) (valid : IsValid t) where
  abbrev reply : PtpHeader
  reply = outgoing c delay_resp 10 unicast (pos 3) (pos 127) 20

  reply-IsPackable : IsPackable reply
  reply-IsPackable =
      header-IsPackable delay_resp c.domain_number (with_bit 10 unicast c.flags) c.source
        c.sequence_id (pos 3) (pos 127) c.transport_specific 20 v three_control na_interval

  abbrev reply_octets : Bytes
  reply_octets = header_octets reply ++ (pack10 t ++ identity_octets requesting)

  length-reply : length reply_octets ≡ 54
  length-reply = omega (
    arith,
    length-append (header_octets reply) (pack10 t ++ identity_octets requesting),
    length-append (pack10 t) (identity_octets requesting),
    length-append requesting.clock_identity (be 2 (pos_part requesting.port_number)),
    length-header_octets reply reply-IsPackable,
    length-pack10 t,
    r.identity_length,
  )

  front_length : length (header_octets reply ++ pack10 t) ≡ 44
  front_length = omega (
    arith,
    length-append (header_octets reply) (pack10 t),
    length-header_octets reply reply-IsPackable,
    length-pack10 t,
  )

  reply_identity : unpack_identity reply_octets 44 ≡ ok requesting
  reply_identity =
      ap (λ x. unpack_identity x 44)
        (sym (append_assoc (header_octets reply) (pack10 t) (identity_octets requesting)))
      ∙ identity_at_end (header_octets reply ++ pack10 t) requesting 44 front_length r

  reply_body : parse_delay_resp_body reply_octets (masked reply) ≡ ok (t, requesting)
  unfolding parse_delay_resp_body mask header
  reply_body =
      rw
        (
          unpack10-pack10 (header_octets reply) t (identity_octets requesting) 34
              (length-header_octets reply reply-IsPackable) valid,
          reply_identity,
        )
        refl

  -- A Delay_Resp decodes to its header, with bit 10 of the flags saying `unicast`, and to the
  -- receive timestamp and the requesting identity, for valid identities and timestamp.
  pub build_delay_resp_lem :
      (bs : Bytes) × (h : PtpHeader) × (build_delay_resp c t requesting unicast ≡ ok bs)
      × Carries c delay_resp 54 10 unicast bs h
      × (parse_delay_resp_body bs h ≡ ok (t, requesting))
  unfolding build_delay_resp
  build_delay_resp_lem = (
    reply_octets,
    masked reply,
    rw (pack_ok reply reply-IsPackable, pack_identity_ok requesting r),
    carries c delay_resp 10 unicast (pos 3) (pos 127) 20 reply_octets length-reply (omega arith)
        (unpack-header_octets reply (pack10 t ++ identity_octets requesting) reply-IsPackable)
        (unicast_set unicast c.flags) (unicast_keeps unicast c.flags),
    reply_body,
  )
