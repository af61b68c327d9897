-- ===== src/Master/Transmit/Pair.antt =====
-- A Sync and its Follow_Up on the wire.
use ptp_client.Prelude.{
  ℕ, ◌+◌, ◌%◌, ◌^◌, ◌≡◌, ◌<◌, ◌&&◌, refl, arith, ◌∷◌, ltb_ℤ, ℤ, pos, negsuc, ◌≤ℤ◌, ◌+ℤ◌, +ℤ_parts,
  mask_uint, ap, ◌∙◌, Bool, true, false, none, some, Result, ok,
}
use ptp_client.Wire.{Bytes}
use ptp_client.Wire.Laws.{FitsInt}
use ptp_client.Timestamp.{PtpTimestamp, IsValid}
use ptp_client.Header.{
  PtpHeader, PortIdentity, MessageType, sync, follow_up, value, unpack, wrap_octet,
}
use ptp_client.Header.Identity.{IsIdentity}
use ptp_client.Packet.{parse_sync_body, parse_follow_up_body}
use ptp_client.Master.Config.{
  MasterConfig, Profile, g82751, ieee1588v2, unknown_profile, MessageKey, sync_key, followup_key,
}
use ptp_client.Master.Config.Valid.{InRanges}
use ptp_client.Master.Config.Values.{effective_domain, effective_transport}
use ptp_client.Master.Messages.{Common}
use ptp_client.Master.Messages.Build.{build_sync_lem, build_follow_up_lem}
use ptp_client.Master.Transport.{parse_ethernet_frame}
use ptp_client.Master.Transport.Frames.{received}
use ptp_client.Master.Node.{Master, active}
use ptp_client.Master.Node.Invariant.{IsMaster}
use ptp_client.Master.Receive.Answer.{source_for_lem, frame_for_lem}
use ptp_client.Master.Transmit.{
  Environment, common_for, sync_frame, follow_up_frame, send_follow_up, follow_up_part,
  send_sync_pair, next_seq,
}

-- Intervals of both profiles fit the octet of the header.
octet_fits : (z : ℤ) → negsuc 6 ≤ℤ z → z ≤ℤ pos 1 → FitsInt 1 (wrap_octet z)
unfolding wrap_octet ◌+ℤ◌
octet_fits z low high =
    let small : ltb_ℤ z (pos 128) ≡ true = ground arith in rw (small) (fits z low high)
  where
    fits : (z : ℤ) → negsuc 6 ≤ℤ z → z ≤ℤ pos 1 → FitsInt 1 z
    fits z low high = let parts = +ℤ_parts z (pos 128) in ground arith

interval_octet :
    (p : Profile) (c : MasterConfig) → InRanges p c → FitsInt 1 (wrap_octet c.log_sync_interval)
interval_octet g82751 c (_, _, range) = octet_fits c.log_sync_interval (ground arith) (ground arith)
interval_octet ieee1588v2 c (_, _, range) = octet_fits c.log_sync_interval range.0 range.1
interval_octet unknown_profile c r = absurd r

-- A slave that gets the frame from `m` decodes a message of type `mt` from it, with sequence number
-- `seq` and a body that `parse` reads as `t`.
abbrev pub Delivers :
    Master
    → MessageType
    → ℕ
    → (Bytes → PtpHeader → Result PtpTimestamp)
    → PtpTimestamp
    → Bytes
    → Type 0
Delivers m mt seq parse t frame =
    (payload : Bytes) × (h : PtpHeader) × (parse_ethernet_frame frame 0 0
      ≡ ok (some (received m.src_mac payload 0 0)))
    × (unpack payload 0 ≡ ok h)
    × (h.message_type ≡ pos (value mt))
    × (h.sequence_id ≡ pos seq)
    × (parse payload h ≡ ok t)

common_for_lem :
    (m : Master) (key : MessageKey) (source : PortIdentity) (seq flags : ℤ)
    → IsMaster m
    → (c : Common) × (common_for m key source seq flags ≡ ok c)
      × (c.source ≡ source)
      × (c.sequence_id ≡ seq)
unfolding common_for
common_for_lem m key source seq flags w =
    let (domain, in_domain, _) = effective_domain m.cfg w.config key in
    let (transport, on_transport, _) = effective_transport m.cfg w.config key in
    let c : Common = record {
      source = source;
      domain_number = domain;
      sequence_id = seq;
      transport_specific = transport;
      flags = flags;
    } in
    (c, rw (in_domain, on_transport) refl, refl, refl)

module _ (m : Master) (seq : ℕ) (t : PtpTimestamp) (w : IsMaster m) (fits : seq < 2 ^ 16)
    (valid : IsValid t) where
  sync_frame_lem :
      (frame : Bytes) × (sync_frame m seq t ≡ ok frame)
      × Delivers m sync seq parse_sync_body t frame
  unfolding sync_frame
  sync_frame_lem =
      let (source, from_here, source_valid) = source_for_lem m sync_key w in
      let (c, common, sourced, numbered) =
        common_for_lem m sync_key source (pos seq) m.cfg.sync_flags w in
      let c_valid : IsIdentity c.source = rw (sourced) source_valid in
      let (payload, h, built, carries, body) =
        build_sync_lem c t m.cfg.log_sync_interval m.cfg.two_step c_valid
          (interval_octet m.cfg.profile m.cfg w.config.ranges) valid in
      let (frame, framed, parsed) = frame_for_lem m payload sync_key w 0 0 none tt in
      (
        frame,
        rw (from_here, common, built) framed,
        (
          payload,
          h,
          parsed,
          carries.decoded,
          carries.typed,
          carries.numbered ∙ rw (numbered) (ap pos (mask_uint 16 seq fits)),
          body,
        ),
      )

  follow_up_frame_lem :
      (frame : Bytes) × (follow_up_frame m seq t ≡ ok frame)
      × Delivers m follow_up seq parse_follow_up_body t frame
  unfolding follow_up_frame
  follow_up_frame_lem =
      let (source, from_here, source_valid) = source_for_lem m followup_key w in
      let (c, common, sourced, numbered) =
        common_for_lem m followup_key source (pos seq) m.cfg.follow_up_flags w in
      let c_valid : IsIdentity c.source = rw (sourced) source_valid in
      let (payload, h, built, carries, body) =
        build_follow_up_lem c t m.cfg.log_sync_interval c_valid
          (interval_octet m.cfg.profile m.cfg w.config.ranges) valid in
      let (frame, framed, parsed) = frame_for_lem m payload followup_key w 0 0 none tt in
      (
        frame,
        rw (from_here, common, built) framed,
        (
          payload,
          h,
          parsed,
          carries.decoded,
          carries.typed,
          carries.numbered ∙ rw (numbered) (ap pos (mask_uint 16 seq fits)),
          body,
        ),
      )

no_stop : (b : Bool) → (b && false) ≡ false
no_stop true = refl
no_stop false = refl

-- The transport takes both frames, and no stop is requested in the gap.
abbrev pub undisturbed : PtpTimestamp → PtpTimestamp → Environment
undisturbed t1 precise = record {
  t1 = t1;
  sync_taken = true;
  precise = precise;
  stopped_in_gap = false;
  follow_up_taken = true;
}

-- The follow-up half, with the transport taking its frame and no stop in the gap.
follow_up_lem :
    (m : Master) (seq : ℕ) (t1 precise : PtpTimestamp)
    → IsMaster m
    → seq < 2 ^ 16
    → IsValid precise
    → m.cfg.two_step ≡ true
    → let o = send_follow_up m seq (undisturbed t1 precise) in
      (frame : Bytes) × (o ≡ record {
        master = record m {
          stats = record m.stats { follow_up_sent = m.stats.follow_up_sent + 1 };
          wire = frame ∷ m.wire;
        };
        raised = none;
      })
      × Delivers m follow_up seq parse_follow_up_body precise frame
unfolding follow_up_part
follow_up_lem m seq t1 precise w fits valid two =
    let env = undisturbed t1 precise in
    let (frame, framed, parsed) = follow_up_frame_lem m seq precise w fits valid in
    (
      frame,
      ap (λ b. follow_up_part b (ltb_ℤ (pos 0) m.cfg.follow_up_gap && false) m seq env) two
          ∙ (ap (λ b. follow_up_part true b m seq env) (no_stop (ltb_ℤ (pos 0) m.cfg.follow_up_gap))
              ∙ rw (follow_up_part, framed) refl),
      parsed,
    )

-- One _send_sync_pair of a well-formed two-step master whose transport takes both frames, with no
-- stop in the gap: it returns, puts exactly a Sync and then a Follow_Up on the wire, which a slave
-- decodes to the same sequence number and to the two clock readings, takes the next number modulo
-- 2 ** 16, counts both, becomes ACTIVE, and changes nothing else.
pub send_sync_pair_lem :
    (m : Master) (t1 precise : PtpTimestamp)
    → IsMaster m
    → m.seq_sync < 2 ^ 16
    → IsValid t1
    → IsValid precise
    → m.cfg.two_step ≡ true
    → let o = send_sync_pair m (undisturbed t1 precise) in
      (first : Bytes) × (second : Bytes) × (o ≡ record {
        master = record m {
          seq_sync = (m.seq_sync + 1) % 2 ^ 16;
          stats = record m.stats {
            sync_sent = m.stats.sync_sent + 1;
            follow_up_sent = m.stats.follow_up_sent + 1;
            state = active;
          };
          wire = second ∷ first ∷ m.wire;
        };
        raised = none;
      })
      × Delivers m sync m.seq_sync parse_sync_body t1 first
      × Delivers m follow_up m.seq_sync parse_follow_up_body precise second
unfolding send_sync_pair
send_sync_pair_lem m t1 precise w fits valid valid' two =
    let (first, sync_framed, sync_parsed) = sync_frame_lem m m.seq_sync t1 w fits valid in
    let after : Master = record m {
      seq_sync = next_seq m.seq_sync;
      stats = record m.stats { sync_sent = m.stats.sync_sent + 1; state = active };
      wire = first ∷ m.wire;
    } in
    let after-IsMaster : IsMaster after = record {
      config = w.config;
      table = w.table;
      source = w.source;
      mac = w.mac;
      queue_bounded = w.queue_bounded;
      queue_fits = w.queue_fits;
    } in
    let (second, follow_up_sent, follow_up_parsed) =
      follow_up_lem after m.seq_sync t1 precise after-IsMaster fits valid' two in
    (first, second, rw (send_sync_pair, sync_framed) follow_up_sent, sync_parsed, follow_up_parsed)
