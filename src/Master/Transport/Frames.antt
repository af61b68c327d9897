-- ===== src/Master/Transport/Frames.antt =====
-- Frames that are built are parsed, and the frames on which the parser raises.
use ptp_client.Prelude.{
  ℕ, ◌+◌, ◌*◌, ◌^◌, ◌≤◌, ◌<◌, ◌≡◌, ◌↔◌, refl, ◌∙◌, ◌++◌, arith, true, ℤ, pos, ◌≤ℤ◌, leb_ℤ, ◌&&◌,
  ge→ltb, length, length-append, take-append, drop-append, drop-past, drop, mask, mask-lt, Option,
  none, some, ok, err, Error, struct_error,
}
use ptp_client.Wire.{Bytes, be, unpack_uint, slice}
use ptp_client.Wire.Laws.{
  pack_uint_pos, unpack_uint-past, unpack_uint-first, from_be-be, unpack_uint-inside,
  unpack_uint-outside,
}
use ptp_client.Master.Transport.{
  ReceivedFrame, vlan_tag, build_ethernet_frame, parse_ethernet_frame, ptp_frame, ethertype_ptp,
  ethertype_vlan, typed_frame,
}

-- What a receiver makes of a PTP payload from `src`.
abbrev pub received : Bytes → Bytes → ℕ → ℕ → ReceivedFrame
received src payload realtime monotonic = record {
  src_mac = src;
  ethertype = ethertype_ptp;
  payload = payload;
  rx_realtime_ns = realtime;
  rx_monotonic_ns = monotonic;
}

-- The VLAN ids that `vlan_tag` accepts.
abbrev pub VlanFits : Option ℤ → Type 0
VlanFits none = Unit {0}
VlanFits (some v) = (pos 0 ≤ℤ v) × (v ≤ℤ pos 0xfff)

vlan_ok : (v : ℤ) → VlanFits (some v) → (leb_ℤ (pos 0) v && leb_ℤ v (pos 0xfff)) ≡ true
vlan_ok v h = ground arith

module _ (dst src payload : Bytes) (d : length dst ≡ 6) (s : length src ≡ 6)
    (realtime monotonic : ℕ) where
  -- The frame behind its two addresses.
  abbrev framed : Bytes → Bytes
  framed body = dst ++ (src ++ body)

  read_type : (body : Bytes) → unpack_uint 2 (framed body) 12 ≡ unpack_uint 2 body 0
  read_type body = unpack_uint-past 2 dst (src ++ body) 6 6 d ∙ unpack_uint-past 2 src body 6 0 s

  read_inner_type : (body : Bytes) → unpack_uint 2 (framed body) 16 ≡ unpack_uint 2 body 4
  read_inner_type body =
      unpack_uint-past 2 dst (src ++ body) 6 10 d ∙ unpack_uint-past 2 src body 6 4 s

  behind : (body : Bytes) (n : ℕ) → drop (6 + (6 + n)) (framed body) ≡ drop n body
  behind body n = drop-past dst (src ++ body) 6 (6 + n) d ∙ drop-past src body 6 n s

  source_at : (body : Bytes) → slice (framed body) 6 6 ≡ src
  source_at body = rw (drop-append dst (src ++ body) 6 d) (take-append src body 6 s)

  length-framed : (body : Bytes) → length (framed body) ≡ 12 + length body
  length-framed body = omega (arith, length-append dst (src ++ body), length-append src body)

  untagged :
      parse_ethernet_frame (framed (be 2 ethertype_ptp ++ payload)) realtime monotonic
      ≡ ok (some (received src payload realtime monotonic))
  unfolding parse_ethernet_frame typed_frame ptp_frame
  untagged =
      let body = be 2 ethertype_ptp ++ payload in
      rw
        (
          ge→ltb (length (framed body)) 14 (omega (arith, length-framed body)),
          read_type body,
          unpack_uint-first 2 (be 2 ethertype_ptp) payload refl,
          from_be-be 2 ethertype_ptp (omega arith),
          source_at body,
          behind body 2,
        )
        refl

  tagged :
      (tci : ℕ)
      → parse_ethernet_frame
          (framed ((be 2 ethertype_vlan ++ be 2 tci) ++ (be 2 ethertype_ptp ++ payload)))
          realtime
          monotonic
        ≡ ok (some (received src payload realtime monotonic))
  unfolding parse_ethernet_frame typed_frame ptp_frame
  tagged tci =
      let body = (be 2 ethertype_vlan ++ be 2 tci) ++ (be 2 ethertype_ptp ++ payload) in
      rw
        (
          ge→ltb (length (framed body)) 14 (omega (arith, length-framed body)),
          read_type body,
          unpack_uint-first 2 (be 2 ethertype_vlan) (be 2 tci ++ (be 2 ethertype_ptp ++ payload))
              refl,
          from_be-be 2 ethertype_vlan (omega arith),
          ge→ltb (length (framed body)) 16 (omega (arith, length-framed body)),
          read_inner_type body,
          unpack_uint-past 2 (be 2 ethertype_vlan ++ be 2 tci) (be 2 ethertype_ptp ++ payload) 4 0
              refl,
          unpack_uint-first 2 (be 2 ethertype_ptp) payload refl,
          from_be-be 2 ethertype_ptp (omega arith),
          source_at body,
          behind body 6,
        )
        refl

-- Every PTP frame that the master builds between two 6-octet addresses, without a tag or with a
-- VLAN id up to 4095 and any priority, is parsed into its source address and its payload.
pub parse-build :
    (dst src payload : Bytes) (vlan_id : Option ℤ) (vlan_pcp : ℤ) (realtime monotonic : ℕ)
    → length dst ≡ 6
    → length src ≡ 6
    → VlanFits vlan_id
    → (bs : Bytes) × (build_ethernet_frame dst src payload ethertype_ptp vlan_id vlan_pcp ≡ ok bs)
      × (parse_ethernet_frame bs realtime monotonic
          ≡ ok (some (received src payload realtime monotonic)))
unfolding build_ethernet_frame vlan_tag
parse-build dst src payload none pcp realtime monotonic d s v = (
  dst ++ (src ++ (be 2 ethertype_ptp ++ payload)),
  rw (d, s),
  untagged dst src payload d s realtime monotonic,
)
parse-build dst src payload (some vlan) pcp realtime monotonic d s v =
    let tci = mask 3 pcp * 2 ^ 13 + mask 12 vlan in
    (
      dst ++ (src ++ ((be 2 ethertype_vlan ++ be 2 tci) ++ (be 2 ethertype_ptp ++ payload))),
      rw (d, s, vlan_ok vlan v)
          (rw (pack_uint_pos 2 tci (omega (arith, mask-lt 3 pcp, mask-lt 12 vlan))) refl),
      tagged dst src payload d s realtime monotonic tci,
    )

-- Which frames make the parser raise `struct.error`: those of 16 or 17 octets whose type field
-- says VLAN. On every other input it returns.
pub parse_raises :
    (bs : Bytes) (realtime monotonic : ℕ) (e : Error)
    → (parse_ethernet_frame bs realtime monotonic ≡ err e) ↔ (
        (e ≡ struct_error)
        × (16 ≤ length bs)
        × (length bs < 18)
        × (unpack_uint 2 bs 12 ≡ ok ethertype_vlan))
unfolding parse_ethernet_frame typed_frame
parse_raises bs realtime monotonic e = (
  λ h.
      ground (
        arith,
        unpack_uint-inside 2 bs 12,
        unpack_uint-inside 2 bs 16,
        unpack_uint-outside 2 bs 16,
      ),
  λ h. ground (arith, unpack_uint-outside 2 bs 16),
)
