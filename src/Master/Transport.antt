-- ===== src/Master/Transport.antt =====
-- src/ptp_client/ptp/l2master/transport.py: Ethernet framing, with and without an 802.1Q tag.
-- The clock readings of `_parse_ethernet_frame` are its arguments here.
pub mod Frames
use ptp_client.Prelude.{
  ℕ, ◌+◌, ◌*◌, ◌^◌, ◌++◌, ◌&&◌, ℤ, pos, leb, ltb, leb_ℤ, ◌==◌, length, drop, if◌then◌else◌, mask,
  Option, none, some, Result, ok, err, value_error, ◌>>=◌,
}
use ptp_client.Wire.{Bytes, pack_uint, unpack_uint, slice}

abbrev pub ethertype_ptp : ℕ
ethertype_ptp = 0x88f7

abbrev pub ethertype_vlan : ℕ
ethertype_vlan = 0x8100

abbrev pub eth_addr_len : ℕ
eth_addr_len = 6

-- The 802.1Q tag; the two fields of the TCI are disjoint, so that `|` is `+`.
unfoldable pub vlan_tag : Option ℤ → ℤ → Result Bytes
vlan_tag none vlan_pcp = ok ptp_client.Prelude.[]
vlan_tag (some vlan_id) vlan_pcp =
    if leb_ℤ (pos 0) vlan_id && leb_ℤ vlan_id (pos 0xfff)
    then (do
      tpid ← pack_uint 2 (pos ethertype_vlan)
      tci ← pack_uint 2 (pos (mask 3 vlan_pcp * 2 ^ 13 + mask 12 vlan_id))
      ok (tpid ++ tci))
    else err value_error

unfoldable pub build_ethernet_frame : Bytes → Bytes → Bytes → ℕ → Option ℤ → ℤ → Result Bytes
build_ethernet_frame dst_mac src_mac payload ethertype vlan_id vlan_pcp =
    if length dst_mac == eth_addr_len && length src_mac == eth_addr_len
    then (do
      tag ← vlan_tag vlan_id vlan_pcp
      kind ← pack_uint 2 (pos ethertype)
      ok (dst_mac ++ (src_mac ++ (tag ++ (kind ++ payload)))))
    else err value_error

pub record ReceivedFrame : Type 0 where
  pub src_mac : Bytes
  pub ethertype : ℕ
  pub payload : Bytes
  pub rx_realtime_ns : ℕ
  pub rx_monotonic_ns : ℕ

-- The frame behind the type field at `off`, if that field says PTP.
unfoldable pub ptp_frame : Bytes → ℕ → ℕ → ℕ → ℕ → Option ReceivedFrame
ptp_frame bs ethertype off realtime monotonic =
    if ethertype == ethertype_ptp
    then some (record {
      src_mac = slice bs 6 6;
      ethertype = ethertype;
      payload = drop off bs;
      rx_realtime_ns = realtime;
      rx_monotonic_ns = monotonic;
    })
    else none

-- What follows the first type field: a tag to skip, or the payload.
unfoldable pub typed_frame : Bytes → ℕ → ℕ → ℕ → Result (Option ReceivedFrame)
typed_frame bs ethertype realtime monotonic =
    if ethertype == ethertype_vlan
    then if ltb (length bs) (14 + 2)
      then ok none
      else (do inner ← unpack_uint 2 bs 16; ok (ptp_frame bs inner 18 realtime monotonic))
    else ok (ptp_frame bs ethertype 14 realtime monotonic)

-- _parse_ethernet_frame
unfoldable pub parse_ethernet_frame : Bytes → ℕ → ℕ → Result (Option ReceivedFrame)
parse_ethernet_frame bs realtime monotonic =
    if ltb (length bs) 14
    then ok none
    else (do ethertype ← unpack_uint 2 bs 12; typed_frame bs ethertype realtime monotonic)
