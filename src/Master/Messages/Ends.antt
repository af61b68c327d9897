-- ===== src/Master/Messages/Ends.antt =====
-- The ends of a built message: its header, and the fields behind it.
use ptp_client.Prelude.{
  ℕ, ◌≡◌, ap, sym, ◌∙◌, ◌++◌, [], arith, ℤ, pos, ◌+ℤ◌, length, mask, ok, append-nil, length-append,
}
use ptp_client.Wire.{Bytes}
use ptp_client.Wire.Laws.{FitsInt}
use ptp_client.Timestamp.{PtpTimestamp, pack10, unpack10, IsValid}
use ptp_client.Timestamp.Laws.{unpack10-pack10, length-pack10}
use ptp_client.Header.{MessageType, PortIdentity, PtpHeader, wrap_octet, unpack_identity}
use ptp_client.Header.Identity.{IsIdentity, identity_octets, unpack_identity_octets}
use ptp_client.Header.Octets.{IsPackable, header_octets, masked, length-header_octets}
use ptp_client.Packet.{parse_sync_body, parse_follow_up_body}
use ptp_client.Master.Messages.{header}

-- A header of `_header` packs if its source is valid and its signed octets fit.
pub header-IsPackable :
    (mt : MessageType) (domain flags : ℤ) (source : PortIdentity) (seq control interval ts : ℤ)
    (len : ℕ)
    → IsIdentity source
    → FitsInt 1 (wrap_octet control)
    → FitsInt 1 (wrap_octet interval)
    → IsPackable (header mt domain flags source seq control interval ts len)
unfolding header ◌+ℤ◌
header-IsPackable mt domain flags source seq control interval ts len v c i = record {
  correction_fits = omega arith;
  source_valid = v;
  control_fits = c;
  interval_fits = i;
}

pub timestamp_at_end :
    (pre : Bytes) (t : PtpTimestamp) (offset : ℕ)
    → length pre ≡ offset
    → IsValid t
    → unpack10 (pre ++ pack10 t) offset ≡ ok t
timestamp_at_end pre t offset e v =
    ap (λ x. unpack10 (pre ++ x) offset) (sym (append-nil (pack10 t)))
    ∙ unpack10-pack10 pre t [] offset e v

pub identity_at_end :
    (pre : Bytes) (p : PortIdentity) (offset : ℕ)
    → length pre ≡ offset
    → IsIdentity p
    → unpack_identity (pre ++ identity_octets p) offset ≡ ok p
identity_at_end pre p offset e v =
    ap (λ x. unpack_identity (pre ++ x) offset) (sym (append-nil (identity_octets p)))
    ∙ unpack_identity_octets pre p [] offset e v

-- What a receiver knows of a message of this header and one timestamp.
module _ (mt : MessageType) (domain flags : ℤ) (source : PortIdentity) (seq control interval ts : ℤ)
    (t : PtpTimestamp) (v : IsIdentity source) (c : FitsInt 1 (wrap_octet control))
    (i : FitsInt 1 (wrap_octet interval)) (valid : IsValid t) where
  abbrev sent : PtpHeader
  sent = header mt domain flags source seq control interval ts 10

  pub packable : IsPackable sent
  packable = header-IsPackable mt domain flags source seq control interval ts 10 v c i

  pub stamped_length : length (header_octets sent ++ pack10 t) ≡ 44
  stamped_length = omega (
    arith,
    length-append (header_octets sent) (pack10 t),
    length-header_octets sent packable,
    length-pack10 t,
  )

  pub stamped_sync : parse_sync_body (header_octets sent ++ pack10 t) (masked sent) ≡ ok t
  unfolding parse_sync_body mask header
  stamped_sync =
      rw stamped_length
        (timestamp_at_end (header_octets sent) t 34 (length-header_octets sent packable) valid)

  pub stamped_follow_up : parse_follow_up_body (header_octets sent ++ pack10 t) (masked sent) ≡ ok t
  unfolding parse_follow_up_body mask header
  stamped_follow_up =
      timestamp_at_end (header_octets sent) t 34 (length-header_octets sent packable) valid

pub zero_control : FitsInt 1 (wrap_octet (pos 0))
unfolding wrap_octet ◌+ℤ◌
zero_control = omega arith

pub two_control : FitsInt 1 (wrap_octet (pos 2))
unfolding wrap_octet ◌+ℤ◌
two_control = omega arith

pub three_control : FitsInt 1 (wrap_octet (pos 3))
unfolding wrap_octet ◌+ℤ◌
three_control = omega arith

pub na_interval : FitsInt 1 (wrap_octet (pos 127))
unfolding wrap_octet ◌+ℤ◌
na_interval = omega arith
