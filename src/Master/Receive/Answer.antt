-- ===== src/Master/Receive/Answer.antt =====
-- The answer to a queued Delay_Req, as a slave decodes it.
use ptp_client.Prelude.{
  ℕ, ◌/◌, ◌%◌, ◌<◌, ◌≡◌, arith, length, pos, ℤ, mask, Bool, true, false, if◌then◌else◌, Option,
  none, some, Result, ok,
}
use ptp_client.Wire.{Bytes}
use ptp_client.Timestamp.{PtpTimestamp, IsValid}
use ptp_client.Timestamp.Laws.{make_ok}
use ptp_client.Header.{PtpHeader, PortIdentity, port_identity, unpack, value, delay_resp}
use ptp_client.Header.Identity.{IsIdentity}
use ptp_client.Packet.{parse_delay_resp_body}
use ptp_client.Master.Messages.{Common}
use ptp_client.Master.Messages.Build.{build_delay_resp_lem}
use ptp_client.Master.Transport.{parse_ethernet_frame}
use ptp_client.Master.Transport.Frames.{received, parse-build}
use ptp_client.Master.Config.{MessageKey, delayresp_key, effective_clock_identity}
use ptp_client.Master.Config.Valid.{Between}
use ptp_client.Master.Config.Values.{
  Sized, effective_port, effective_domain, effective_transport, effective_priority, effective_mac,
  effective_vlan, effective_identity,
}
use ptp_client.Master.Node.{Master, RespItem, source_for, frame_for}
use ptp_client.Master.Receive.{delay_resp_frame}
use ptp_client.Master.Node.Invariant.{IsMaster, ItemFits, clock_bound, valid_port}

-- The source of every kind of message of a well-formed master is a valid identity.
pub source_for_lem :
    (m : Master) (k : MessageKey)
    → IsMaster m
    → (p : PortIdentity) × (source_for m k ≡ ok p) × IsIdentity p
unfolding source_for
source_for_lem m k w =
    let (z, number, range) = effective_port m.cfg w.config k in
    rw (number)
      (go z range (effective_clock_identity m.cfg k) (effective_identity m.cfg w.config k))
  where
    go :
        (z : ℤ)
        → Between (pos 0) (pos 0xffff) z
        → (o : Option Bytes) → Sized o
        → (p : PortIdentity) × (elim o [
          | none ↦ port_identity m.source_port.clock_identity z
          | some identity ↦ port_identity identity z
        ]
            ≡ ok p)
          × IsIdentity p
    go z range none sized = valid_port m.source_port.clock_identity z w.source.identity_length range
    go z range (some i) sized = valid_port i z sized range

abbrev pub AddressFits : Option Bytes → Type 0
AddressFits none = Unit {0}
AddressFits (some mac) = length mac ≡ 6

-- The frame that carries a payload, as a receiver parses it.
module _ (m : Master) (payload : Bytes) (k : MessageKey) (w : IsMaster m)
    (realtime monotonic : ℕ) where
  abbrev pub Framed : Result Bytes → Type 0
  Framed r =
      (frame : Bytes) × (r ≡ ok frame)
      × (parse_ethernet_frame frame realtime monotonic
          ≡ ok (some (received m.src_mac payload realtime monotonic)))

  pub frame_for_lem : (dst : Option Bytes) → AddressFits dst → Framed (frame_for m payload k dst)
  unfolding frame_for
  frame_for_lem none fits =
      let (mac, target, six) = effective_mac m.cfg w.config k in
      let (vlan, tag, range) = effective_vlan m.cfg w.config k in
      let (pcp, priority) = effective_priority m.cfg w.config k vlan in
      rw (target, tag, priority)
        (parse-build mac m.src_mac payload vlan pcp realtime monotonic six w.mac range)
  frame_for_lem (some mac) six =
      let (vlan, tag, range) = effective_vlan m.cfg w.config k in
      let (pcp, priority) = effective_priority m.cfg w.config k vlan in
      rw (tag, priority)
        (parse-build mac m.src_mac payload vlan pcp realtime monotonic six w.mac range)

-- A count of nanoseconds as a timestamp.
abbrev pub stamp : ℕ → PtpTimestamp
stamp ns = record { seconds = pos (ns / 1000000000); nanoseconds = pos (ns % 1000000000) }

stamp-IsValid : (ns : ℕ) → ns < clock_bound → IsValid (stamp ns)
stamp-IsValid ns h = record { seconds_fit = omega arith; nanoseconds_fit = omega arith }

-- The frame is sent by this master, its payload is a Delay_Resp with the sequence number of the
-- request, and it carries the time at which the request came in and the identity it came from.
abbrev pub Answers : Master → RespItem → ℕ → ℕ → Bytes → Type 0
Answers m item realtime monotonic frame =
    (payload : Bytes) × (h : PtpHeader) × (parse_ethernet_frame frame realtime monotonic
      ≡ ok (some (received m.src_mac payload realtime monotonic)))
    × (unpack payload 0 ≡ ok h)
    × (h.message_type ≡ pos (value delay_resp))
    × (h.sequence_id ≡ pos (mask 16 item.request.sequence_id))
    × (parse_delay_resp_body payload h ≡ ok (stamp item.received_ns, item.request.source_identity))

module _ (m : Master) (item : RespItem) (w : IsMaster m) (fits : ItemFits item)
    (realtime monotonic : ℕ) where
  destination : (u : Bool) → AddressFits (if u then some item.sender else none)
  destination true = fits.address
  destination false = tt

  -- A well-formed master has an answer to every well-formed request in its queue, and a slave that
  -- receives the frame decodes from it what it asked for.
  pub delay_resp_frame_lem :
      (frame : Bytes) × (delay_resp_frame m item ≡ ok frame)
      × Answers m item realtime monotonic frame
  unfolding delay_resp_frame
  delay_resp_frame_lem =
      let (source, from_here, source_valid) = source_for_lem m delayresp_key w in
      let (domain, in_domain, _) = effective_domain m.cfg w.config delayresp_key in
      let (transport, on_transport, _) = effective_transport m.cfg w.config delayresp_key in
      let c : Common = record {
        source = source;
        domain_number = domain;
        sequence_id = item.request.sequence_id;
        transport_specific = transport;
        flags = m.cfg.delay_resp_flags;
      } in
      let t2_valid = stamp-IsValid item.received_ns fits.clock in
      let (payload, h, built, carries, body) =
        build_delay_resp_lem c (stamp item.received_ns) item.request.source_identity
          m.cfg.delay_resp_unicast source_valid fits.requester t2_valid in
      let (frame, framed, parsed) =
        frame_for_lem m payload delayresp_key w realtime monotonic _
          (destination m.cfg.delay_resp_unicast) in
      (
        frame,
        rw (make_ok (stamp item.received_ns) t2_valid, from_here, in_domain, on_transport, built)
            framed,
        (payload, h, parsed, carries.decoded, carries.typed, carries.numbered, body),
      )
