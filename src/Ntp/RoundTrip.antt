-- ===== src/Ntp/RoundTrip.antt =====
-- An NTP packet that is packed is read back.
use ptp_client.Prelude.{
  ℕ, sym, ◌+◌, ◌^◌, ◌≤◌, ◌<◌, ◌≡◌, refl, ap, ◌∙◌, ◌++◌, [], ◌∷◌, arith, le→leb, ℤ, pos, negsuc,
  ◌≤ℤ◌, ◌<ℤ◌, length, take, drop, mask, mask-lt, mask_uint, ok, ◌>>=◌,
}
use ptp_client.Wire.{Bytes, be, from_be, pack_uint, unpack_uint, unpack_int}
use ptp_client.Wire.Laws.{
  from_be-be, FitsUint, FitsInt, twos, pack_uint_pos, pack_int_ok, signed-twos, unpack_uint-inside,
  unpack_int-inside,
}
use ptp_client.Ntp.{
  NtpTime, NtpPacket, pack_time, unpack_time, pack_li_vn_mode, unpack_li_vn_mode, from_bytes,
  pack_packet,
}

first_lt : (l v m : ℤ) → pack_li_vn_mode l v m < 256
unfolding pack_li_vn_mode
first_lt l v m = omega (arith, mask-lt 2 l, mask-lt 3 v, mask-lt 3 m)

first_back :
    (l v m : ℤ) → unpack_li_vn_mode (pack_li_vn_mode l v m) ≡ (mask 2 l, mask 3 v, mask 3 m)
unfolding pack_li_vn_mode unpack_li_vn_mode
first_back l v m = let a = mask-lt 2 l in let b = mask-lt 3 v in let c = mask-lt 3 m in ground arith

-- A time whose parts fit 32 bits, which is what the wire carries.
abbrev pub TimeFits : NtpTime → Type 0
TimeFits t = FitsUint 4 t.seconds × FitsUint 4 t.fraction

-- A packet whose fields fit the wire.
pub record IsPacket (p : NtpPacket) : Type 0 where
  pub leap_fits : (pos 0 ≤ℤ p.leap_indicator) × (p.leap_indicator <ℤ pos 4)
  pub version_fits : (pos 0 ≤ℤ p.version) × (p.version <ℤ pos 8)
  pub mode_fits : (pos 0 ≤ℤ p.mode) × (p.mode <ℤ pos 8)
  pub stratum_fits : FitsUint 1 p.stratum
  pub poll_fits : FitsUint 1 p.poll
  pub precision_fits : FitsInt 1 p.precision
  pub delay_fits : FitsUint 4 p.root_delay
  pub dispersion_fits : FitsUint 4 p.root_dispersion
  pub reference_sized : length p.reference_id ≡ 4
  pub reference_fits : TimeFits p.reference_timestamp
  pub origin_fits : TimeFits p.origin_timestamp
  pub receive_fits : TimeFits p.receive_timestamp
  pub transmit_fits : TimeFits p.transmit_timestamp

mask_fits : (k : ℕ) (z : ℤ) → pos 0 ≤ℤ z → z <ℤ pos (2 ^ k) → pos (mask k z) ≡ z
mask_fits k (pos n) low high = ap pos (mask_uint k n (omega arith))
mask_fits k (negsuc n) low high = absurd (omega arith)

abbrev time_octets : NtpTime → Bytes
time_octets t = be 4 (mask 32 t.seconds) ++ be 4 (mask 32 t.fraction)

pack_time_ok : (t : NtpTime) → TimeFits t → pack_time t ≡ ok (time_octets t)
unfolding pack_time
pack_time_ok t fits =
    let f : pos (mask 32 t.fraction) ≡ t.fraction =
      mask_fits 32 t.fraction (omega arith) (omega arith) in
    rw (pack_uint_pos 4 (mask 32 t.seconds) (mask-lt 32 t.seconds)) (
      ap (λ z. pack_uint 4 z >>= λ f. ok (be 4 (mask 32 t.seconds) ++ f)) (sym f)
      ∙ rw (pack_uint_pos 4 (mask 32 t.fraction) (mask-lt 32 t.fraction)) refl)

-- A field that stands at an offset is read there.
read_uint :
    (w off n : ℕ) (bs : Bytes)
    → n < 256 ^ w
    → off + w ≤ length bs
    → take w (drop off bs) ≡ be w n
    → unpack_uint w bs off ≡ ok n
read_uint w off n bs small room there =
    unpack_uint-inside w bs off room ∙ ap (λ x. ok (from_be x)) there ∙ ap ok (from_be-be w n small)

module _ (p : NtpPacket) (a b c d : ℕ) (rest : Bytes) (v : IsPacket p) where
  abbrev octets : Bytes
  octets =
      (be 1 (pack_li_vn_mode p.leap_indicator p.version p.mode)
        ++ (be 1 (mask 8 p.stratum)
            ++ (be 1 (mask 8 p.poll)
                ++ (be 1 (twos 1 p.precision)
                    ++ (be 4 (mask 32 p.root_delay)
                        ++ (be 4 (mask 32 p.root_dispersion) ++ (a ∷ b ∷ c ∷ d ∷ [])))))))
      ++ (time_octets p.reference_timestamp
          ++ (time_octets p.origin_timestamp
              ++ (time_octets p.receive_timestamp ++ time_octets p.transmit_timestamp)))

  room : 48 ≤ length (octets ++ rest)
  room = omega arith

  read_time :
      (t : NtpTime) (off : ℕ)
      → TimeFits t
      → off + 8 ≤ length (octets ++ rest)
      → take 4 (drop off (octets ++ rest)) ≡ be 4 (mask 32 t.seconds)
      → take 4 (drop (off + 4) (octets ++ rest)) ≡ be 4 (mask 32 t.fraction)
      → unpack_time (octets ++ rest) off ≡ ok t
  unfolding unpack_time
  read_time t off fits inside s f =
      rw
        (
          read_uint 4 off (mask 32 t.seconds) (octets ++ rest) (mask-lt 32 t.seconds) (omega arith)
              s,
          read_uint 4 (off + 4) (mask 32 t.fraction) (octets ++ rest) (mask-lt 32 t.fraction)
              (omega arith) f,
          mask_fits 32 t.seconds (omega arith) (omega arith),
          mask_fits 32 t.fraction (omega arith) (omega arith),
        )
        refl

  precision_read : unpack_int 1 (octets ++ rest) 3 ≡ ok p.precision
  precision_read =
      unpack_int-inside 1 (octets ++ rest) 3 (omega (arith, room))
      ∙ ap ok (signed-twos 1 p.precision v.precision_fits)

  unpacked : from_bytes (octets ++ rest) ≡ ok (record p { reference_id = a ∷ b ∷ c ∷ d ∷ [] })
  unfolding from_bytes
  unpacked =
      rw
        (
          read_uint 1 0 (pack_li_vn_mode p.leap_indicator p.version p.mode) (octets ++ rest)
              (first_lt p.leap_indicator p.version p.mode) (omega (arith, room)) refl,
          read_uint 1 1 (mask 8 p.stratum) (octets ++ rest) (mask-lt 8 p.stratum)
              (omega (arith, room)) refl,
          read_uint 1 2 (mask 8 p.poll) (octets ++ rest) (mask-lt 8 p.poll) (omega (arith, room))
              refl,
          precision_read,
          read_uint 4 4 (mask 32 p.root_delay) (octets ++ rest) (mask-lt 32 p.root_delay)
              (omega (arith, room)) refl,
          read_uint 4 8 (mask 32 p.root_dispersion) (octets ++ rest) (mask-lt 32 p.root_dispersion)
              (omega (arith, room)) refl,
          read_time p.reference_timestamp 16 v.reference_fits (omega (arith, room)) refl refl,
          read_time p.origin_timestamp 24 v.origin_fits (omega (arith, room)) refl refl,
          read_time p.receive_timestamp 32 v.receive_fits (omega (arith, room)) refl refl,
          read_time p.transmit_timestamp 40 v.transmit_fits (omega (arith, room)) refl refl,
        )
        (rw
          (
            le→leb 48 (length (octets ++ rest)) room,
            first_back p.leap_indicator p.version p.mode,
            mask_fits 2 p.leap_indicator v.leap_fits.0 v.leap_fits.1,
            mask_fits 3 p.version v.version_fits.0 v.version_fits.1,
            mask_fits 3 p.mode v.mode_fits.0 v.mode_fits.1,
            mask_fits 8 p.stratum (omega arith) (omega arith),
            mask_fits 8 p.poll (omega arith) (omega arith),
            mask_fits 32 p.root_delay (omega arith) (omega arith),
            mask_fits 32 p.root_dispersion (omega arith) (omega arith),
          )
          refl)

  packed : p.reference_id ≡ a ∷ b ∷ c ∷ d ∷ [] → pack_packet p ≡ ok octets
  unfolding pack_packet
  packed spelt =
      rw
        (
          spelt,
          pack_uint_pos 1 (pack_li_vn_mode p.leap_indicator p.version p.mode)
              (first_lt p.leap_indicator p.version p.mode),
          pack_uint_pos 1 (mask 8 p.stratum) (mask-lt 8 p.stratum),
          pack_uint_pos 1 (mask 8 p.poll) (mask-lt 8 p.poll),
          pack_int_ok 1 p.precision v.precision_fits,
          pack_uint_pos 4 (mask 32 p.root_delay) (mask-lt 32 p.root_delay),
          pack_uint_pos 4 (mask 32 p.root_dispersion) (mask-lt 32 p.root_dispersion),
          pack_time_ok p.reference_timestamp v.reference_fits,
          pack_time_ok p.origin_timestamp v.origin_fits,
          pack_time_ok p.receive_timestamp v.receive_fits,
          pack_time_ok p.transmit_timestamp v.transmit_fits,
        )
        refl

spine4 :
    (bs : Bytes) → length bs ≡ 4 → (a : ℕ) × (b : ℕ) × (c : ℕ) × (d : ℕ) × (bs ≡ a ∷ b ∷ c ∷ d ∷ [])
spine4 (a ∷ b ∷ c ∷ d ∷ []) four = (a, b, c, d, refl)
spine4 [] four = absurd (omega arith)
spine4 (a ∷ []) four = absurd (omega arith)
spine4 (a ∷ b ∷ []) four = absurd (omega arith)
spine4 (a ∷ b ∷ c ∷ []) four = absurd (omega arith)
spine4 (a ∷ b ∷ c ∷ d ∷ e ∷ bs) four = absurd (omega arith)

-- An NTP packet whose fields fit the wire is packed into 48 octets, and those, with anything behind
-- them, are read back as the same packet.
pub from_bytes-pack_packet :
    (p : NtpPacket) (rest : Bytes)
    → IsPacket p
    → (bs : Bytes) × (pack_packet p ≡ ok bs) × (length bs ≡ 48) × (from_bytes (bs ++ rest) ≡ ok p)
from_bytes-pack_packet p rest v =
    let (a, b, c, d, spelt) = spine4 p.reference_id v.reference_sized in
    (
      octets p a b c d rest v,
      packed p a b c d rest v spelt,
      refl,
      unpacked p a b c d rest v ∙ ap (λ r. ok (record p { reference_id = r })) (sym spelt),
    )
