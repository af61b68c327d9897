-- ===== src/Master/Receive.antt =====
-- src/ptp_client/ptp/l2master/master.py: the RX handler and the RESP loop's step.
pub mod Accounting
pub mod Answer
pub mod Turn
use ptp_client.Prelude.{
  ℕ, ◌+◌, ◌*◌, ◌/◌, ◌%◌, ◌^◌, ◌&&◌, List, [], ◌∷◌, ◌++◌, length, ltb, leb, not, ◌==◌, ℤ, pos, eq_ℤ,
  bytes_eq, Bool, true, false, if◌then◌else◌, Option, none, some, Result, ok, err, Error,
  value_error, os_error, ◌>>=◌,
}
use ptp_client.Wire.{Bytes}
use ptp_client.Timestamp.{make}
use ptp_client.Header.{PtpHeader, PortIdentity, unpack, value, announce, delay_req}
use ptp_client.Master.Config.{
  MasterConfig, MessageKey, announce_key, sync_key, followup_key, delayresp_key, Value, int,
  effective, effective_clock_identity, domain_number, transport_specific, as_int,
}
use ptp_client.Master.Messages.{header_len, parse_delay_req, DelayReq, Common, build_delay_resp}
use ptp_client.Master.Transport.{ReceivedFrame}
use ptp_client.Master.Session.{SessionTable, SlaveSession, register_or_touch, mark_resp_sent}
use ptp_client.Master.Node.{Master, RespItem, resp_queue_size, source_for, frame_for}

-- MESSAGE_KEYS
abbrev pub message_keys : List MessageKey
message_keys = announce_key ∷ sync_key ∷ followup_key ∷ delayresp_key ∷ []

-- hdr.domain_number in {cfg.effective(k, "domain_number") for k in ...}; every value is hashable
-- in a configuration that `validate` has accepted.
unfoldable pub in_domain : MasterConfig → List MessageKey → ℤ → Bool
in_domain c [] d = false
in_domain c (k ∷ ks) d =
    let rest = in_domain c ks d in
    elim (effective c k domain_number) [ int z ↦ if eq_ℤ z d then true else rest | _ ↦ rest ]

-- identity in {cfg.effective_clock_identity(k) for k in ...} - {None}
unfoldable pub is_own_override : MasterConfig → List MessageKey → Bytes → Bool
is_own_override c [] identity = false
is_own_override c (k ∷ ks) identity =
    let rest = is_own_override c ks identity in
    elim (effective_clock_identity c k) [
      | some own ↦ if bytes_eq own identity then true else rest
      | none ↦ rest
    ]

abbrev pub is_own : Master → Bytes → Bool
is_own m identity =
    if bytes_eq m.source_port.clock_identity identity
    then true
    else is_own_override m.cfg message_keys identity

abbrev pub bump_parse : Master → Master
bump_parse m = record m { stats = record m.stats { rx_parse_errors = m.stats.rx_parse_errors + 1 } }

-- What is done with a registered request: overflow, rate limit, queue.
unfoldable pub enqueue :
    Master → DelayReq → ReceivedFrame → SessionTable → Option SlaveSession → Bool → Master
enqueue m req f table none allowed = record m {
  sessions = table;
  stats = record m.stats {
    delay_req_recv = m.stats.delay_req_recv + 1;
    session_overflow = m.stats.session_overflow + 1;
  };
}
enqueue m req f table (some s) false = record m {
  sessions = table;
  stats = record m.stats {
    delay_req_recv = m.stats.delay_req_recv + 1;
    delay_resp_dropped = m.stats.delay_resp_dropped + 1;
  };
}
enqueue m req f table (some s) true =
    if ltb (length m.resp_queue) resp_queue_size
    then record m {
      sessions = table;
      stats = record m.stats { delay_req_recv = m.stats.delay_req_recv + 1 };
      resp_queue =
          m.resp_queue
          ++ (record {
            request = req.req_header;
            received_ns = f.rx_realtime_ns;
            sender = f.src_mac;
          }
              ∷ []);
    }
    else record m {
      sessions = table;
      stats = record m.stats {
        delay_req_recv = m.stats.delay_req_recv + 1;
        resp_queue_full = m.stats.resp_queue_full + 1;
        delay_resp_dropped = m.stats.delay_resp_dropped + 1;
      };
    }

-- The part of _handle_frame behind the type test.
unfoldable pub handle_delay_req : Master → ReceivedFrame → Result Master
handle_delay_req m f = elim (parse_delay_req f.payload) [
  | err value_error ↦ ok (bump_parse m)
  | err e ↦ err e
  | ok req ↦
      let r =
        register_or_touch m.sessions req.req_header.source_identity f.src_mac f.rx_monotonic_ns in
      ok (enqueue m req f r.table r.session r.allowed)
]

-- What _handle_frame makes of a header, in the order of its tests.
pub data Verdict : Type 0 where
  bad_version other_domain own foreign_announce other_type accepted : Verdict

unfoldable pub verdict : Master → PtpHeader → Verdict
verdict m hdr =
    if not (eq_ℤ hdr.version_ptp (pos 2))
    then bad_version
    else if not (in_domain m.cfg message_keys hdr.domain_number)
    then other_domain
    else if is_own m hdr.source_identity.clock_identity
    then own
    else if eq_ℤ hdr.message_type (pos (value announce))
    then foreign_announce
    else if not (eq_ℤ hdr.message_type (pos (value delay_req)))
    then other_type
    else accepted

unfoldable pub dispatch : Master → ReceivedFrame → Verdict → Result Master
dispatch m f bad_version =
    ok (record m { stats = record m.stats { rx_bad_version = m.stats.rx_bad_version + 1 } })
dispatch m f other_domain =
    ok (record m { stats = record m.stats { rx_other_domain = m.stats.rx_other_domain + 1 } })
dispatch m f own = ok m
dispatch m f foreign_announce = ok m
dispatch m f other_type =
    ok (record m { stats = record m.stats { rx_other_type = m.stats.rx_other_type + 1 } })
dispatch m f accepted = handle_delay_req m f

-- _handle_frame
unfoldable pub handle_frame : Master → ReceivedFrame → Result Master
handle_frame m f =
    if ltb (length f.payload) header_len then ok (bump_parse m) else elim (unpack f.payload 0) [
      | err value_error ↦ ok (bump_parse m)
      | err e ↦ err e
      | ok hdr ↦ dispatch m f (verdict m hdr)
    ]

-- The payload and the frame of the answer to a queued request.
unfoldable pub delay_resp_frame : Master → RespItem → Result Bytes
delay_resp_frame m item = do
  t2 ← make (pos (item.received_ns / 1000000000)) (pos (item.received_ns % 1000000000))
  source ← source_for m delayresp_key
  domain ← as_int (effective m.cfg delayresp_key domain_number)
  transport ← as_int (effective m.cfg delayresp_key transport_specific)
  payload ←
      build_delay_resp
        (record {
          source = source;
          domain_number = domain;
          sequence_id = item.request.sequence_id;
          transport_specific = transport;
          flags = m.cfg.delay_resp_flags;
        })
        t2 item.request.source_identity m.cfg.delay_resp_unicast
  frame_for m payload delayresp_key (if m.cfg.delay_resp_unicast then some item.sender else none)

-- _send_delay_resp, where `sent` says whether the transport takes the frame.
unfoldable pub send_delay_resp : Master → RespItem → Bool → Result Master
send_delay_resp m item sent = elim (delay_resp_frame m item) [
  | err e ↦ err e
  | ok frame ↦
      if sent
      then ok (record m {
        stats = record m.stats { delay_resp_sent = m.stats.delay_resp_sent + 1 };
        sessions = mark_resp_sent m.sessions item.request.source_identity;
        wire = frame ∷ m.wire;
      })
      else ok (record m {
        stats = record m.stats {
          tx_errors = m.stats.tx_errors + 1;
          delay_resp_dropped = m.stats.delay_resp_dropped + 1;
        };
      })
]

-- One turn of _resp_loop with what `get` finds; the wait for an item that is not there changes
-- nothing.
unfoldable pub resp_turn : Master → List RespItem → Bool → Result Master
resp_turn m [] sent = ok m
resp_turn m (item ∷ rest) sent = send_delay_resp (record m { resp_queue = rest }) item sent

abbrev pub resp_step : Master → Bool → Result Master
resp_step m sent = resp_turn m m.resp_queue sent
