-- ===== src/Header/Total.antt =====
-- Which buffers the header decoder accepts.
use ptp_client.Prelude.{
  ℕ, ◌+◌, ◌/◌, ◌%◌, ◌^◌, mask, ◌≤◌, ◌<◌, ◌≡◌, refl, arith, pos, length, drop, take, length-drop,
  length-take, ok, err, value_error, le→leb,
}
use ptp_client.Wire.{Bytes, IsBytes, slice, from_be, signed}
use ptp_client.Wire.Laws.{unpack_uint-inside, unpack_int-inside, All-drop, two_octets}
use ptp_client.Header.{PtpHeader, PortIdentity, unpack, unpack_identity}
use ptp_client.Header.Identity.{IsIdentity, port_identity_ok}

pub unpack_identity_total :
    (bs : Bytes) (offset : ℕ)
    → IsBytes bs
    → offset + 10 ≤ length bs
    → (p : PortIdentity) × (unpack_identity bs offset ≡ ok p) × IsIdentity p
unfolding unpack_identity
unpack_identity_total bs offset v room =
    let n = from_be (take 2 (drop (offset + 8) bs)) in
    let p : PortIdentity = record { clock_identity = slice bs offset 8; port_number = pos n } in
    let w : IsIdentity p = record {
      identity_length = omega (arith, length-take 8 (drop offset bs), length-drop offset bs);
      port_fits = omega (arith, two_octets (drop (offset + 8) bs) (All-drop (offset + 8) bs v));
    } in
    (
      p,
      rw (le→leb _ _ room, unpack_uint-inside 2 bs (offset + 8) (omega arith))
          (port_identity_ok p w),
      w,
    )

abbrev field : ℕ → Bytes → ℕ → ℕ
field w bs off = from_be (take w (drop off bs))

-- What the offsets of the header hold.
abbrev pub decoded : Bytes → ℕ → PortIdentity → PtpHeader
decoded bs offset source = record {
  message_type = pos (field 1 bs offset % 2 ^ 4);
  version_ptp = pos (field 1 bs (offset + 1) % 2 ^ 4);
  message_length = pos (field 2 bs (offset + 2));
  domain_number = pos (field 1 bs (offset + 4));
  minor_sdo_id = pos (field 1 bs (offset + 1) / 2 ^ 4 % 2 ^ 4);
  flags = pos (mask 16 (pos (field 2 bs (offset + 6))));
  correction_field_ns = signed 8 (field 8 bs (offset + 8));
  source_identity = source;
  sequence_id = pos (mask 16 (pos (field 2 bs (offset + 30))));
  control_field = pos (mask 8 (signed 1 (field 1 bs (offset + 32))));
  log_message_interval = signed 1 (field 1 bs (offset + 33));
  transport_specific = pos (field 1 bs offset / 2 ^ 4 % 2 ^ 4);
}

-- `unpack` decodes every buffer of octets that has 34 of them from the offset on: each field to
-- what its octets say, and the source to a valid identity.
pub unpack_total :
    (bs : Bytes) (offset : ℕ)
    → IsBytes bs
    → offset + 34 ≤ length bs
    → (p : PortIdentity) × (unpack bs offset ≡ ok (decoded bs offset p)) × IsIdentity p
unfolding unpack
unpack_total bs offset v room =
    let (p, read, w) = unpack_identity_total bs (offset + 20) v (omega arith) in
    (
      p,
      rw
          (
            le→leb _ _ room,
            unpack_uint-inside 1 bs offset (omega arith),
            unpack_uint-inside 1 bs (offset + 1) (omega arith),
            unpack_uint-inside 2 bs (offset + 2) (omega arith),
            unpack_uint-inside 1 bs (offset + 4) (omega arith),
            unpack_uint-inside 2 bs (offset + 6) (omega arith),
            unpack_int-inside 8 bs (offset + 8) (omega arith),
            read,
            unpack_uint-inside 2 bs (offset + 30) (omega arith),
            unpack_int-inside 1 bs (offset + 32) (omega arith),
            unpack_int-inside 1 bs (offset + 33) (omega arith),
          )
          refl,
      w,
    )

-- Below 34 octets from the offset on, `unpack` raises ValueError.
pub unpack_short :
    (bs : Bytes) (offset : ℕ) → length bs < offset + 34 → unpack bs offset ≡ err value_error
unfolding unpack
unpack_short bs offset h = ground arith
