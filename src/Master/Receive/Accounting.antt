-- ===== src/Master/Receive/Accounting.antt =====
-- Every frame that a well-formed master receives leaves it well-formed, with its Delay_Reqs accounted
-- for.
use ptp_client.Prelude.{
  ◌>>=◌, ◌>>◌, ℕ, ◌+◌, ◌^◌, ◌≤◌, ◌≡◌, refl, inl, inr, arith, List, [], ◌∷◌, ◌++◌, All, length,
  length-append, ltb, leb, ◌||◌, pos, eq_ℤ, leb_ℤ, ltb_ℤ, Bool, true, false, none, some, ok,
  value_error, check, le→leb, Bool-cases, Option, ReturnsOr, check-ReturnsOr, bind-ReturnsOr,
}
use ptp_client.Wire.{Bytes}
use ptp_client.Wire.Laws.{unpack_uint-inside}
use ptp_client.Timestamp.{make, unpack10}
use ptp_client.Header.{PtpHeader, unpack, value, delay_req}
use ptp_client.Header.Identity.{IsIdentity}
use ptp_client.Header.Total.{decoded, unpack_total}
use ptp_client.Master.Messages.{DelayReq, parse_delay_req, header_len, delay_req_msg_len}
use ptp_client.Master.Transport.{ReceivedFrame}
use ptp_client.Master.Session.{SessionTable, SlaveSession, register_or_touch}
use ptp_client.Master.Session.Table.{IsTable}
use ptp_client.Master.Session.Register.{register_or_touch_lem}
use ptp_client.Master.Node.{Master, RespItem, resp_queue_size}
use ptp_client.Master.Node.Invariant.{IsMaster, FrameFits, ItemFits, Accounted, Keeps, same-Keeps}
use ptp_client.Master.Receive.{
  handle_frame, dispatch, Verdict, bad_version, other_domain, own, foreign_announce, other_type,
  accepted, handle_delay_req, enqueue, bump_parse,
}

make_cases : (s n : ℕ) → ReturnsOr value_error (λ t. Unit {0}) (make (pos s) (pos n))
unfolding make
make_cases s n = elim (Bool-cases (ltb_ℤ (pos s) (pos 0) || leb_ℤ (pos (2 ^ 48)) (pos s))) [
  | inl late ↦ inl (rw (late) refl)
  | inr early ↦ elim (Bool-cases (leb_ℤ (pos (10 ^ 9)) (pos n) || ltb_ℤ (pos n) (pos 0))) [
    | inl large ↦ inl (rw (early, large) refl)
    | inr small ↦ inr (record { seconds = pos s; nanoseconds = pos n }, rw (early, small) refl, tt)
  ]
]

unpack10_cases :
    (bs : Bytes) (off : ℕ)
    → off + 10 ≤ length bs
    → ReturnsOr value_error (λ t. Unit {0}) (unpack10 bs off)
unfolding unpack10
unpack10_cases bs off room =
    rw (le→leb _ _ room, unpack_uint-inside 4 bs (off + 6) (omega arith)) (make_cases _ _)

abbrev Parsed : PtpHeader → DelayReq → Type 0
Parsed h req = req.req_header ≡ h

-- The end of parse_delay_req.
body_cases :
    (bs : Bytes) (h : PtpHeader)
    → ReturnsOr value_error (Parsed h) (
        check (leb delay_req_msg_len (length bs)) value_error >> (do
          origin ← unpack10 bs header_len
          ok (record { req_header = h; origin_timestamp = origin })))
body_cases bs h =
    check-ReturnsOr value_error (Parsed h) (leb delay_req_msg_len (length bs)) _ (λ long.
      bind-ReturnsOr value_error (Parsed h) (λ t. Unit {0}) (unpack10 bs header_len)
        (λ t. ok (record { req_header = h; origin_timestamp = t }))
        (unpack10_cases bs 34 (ground arith))
        (λ t done. inr (record { req_header = h; origin_timestamp = t }, refl, refl)))

parse_delay_req_cases :
    (bs : Bytes) (h : PtpHeader)
    → header_len ≤ length bs
    → unpack bs 0 ≡ ok h
    → ReturnsOr value_error (Parsed h) (parse_delay_req bs)
unfolding parse_delay_req
parse_delay_req_cases bs h room read =
    rw (le→leb _ _ room, read)
      (check-ReturnsOr value_error (Parsed h) (eq_ℤ h.message_type (pos (value delay_req))) _
        (λ typed. body_cases bs h))

queued_ok :
    (m : Master) (item : RespItem)
    → All ItemFits m.resp_queue
    → ItemFits item
    → All ItemFits (m.resp_queue ++ (item ∷ []))
queued_ok m item all fits = go m.resp_queue all
  where
    go : (q : List RespItem) → All ItemFits q → All ItemFits (q ++ (item ∷ []))
    go [] all = (fits, tt)
    go (x ∷ q) (here, there) = (here, go q there)

abbrev queued_item : DelayReq → ReceivedFrame → RespItem
queued_item req f = record {
  request = req.req_header;
  received_ns = f.rx_realtime_ns;
  sender = f.src_mac;
}

-- Registered requests are queued, dropped or refused, and counted as what happened to them.
module _ (m : Master) (req : DelayReq) (f : ReceivedFrame) (t : SessionTable) (w : IsMaster m)
    (fits : FrameFits f) (source : IsIdentity req.req_header.source_identity)
    (table : IsTable t) where
  enqueue_keeps :
      (session : Option SlaveSession) (allowed : Bool)
      → let m' = enqueue m req f t session allowed in IsMaster m' × (Accounted m → Accounted m')
  unfolding enqueue
  enqueue_keeps none allowed = (
    record {
      config = w.config;
      table = table;
      source = w.source;
      mac = w.mac;
      queue_bounded = w.queue_bounded;
      queue_fits = w.queue_fits;
    },
    λ a. omega arith,
  )
  enqueue_keeps (some s) false = (
    record {
      config = w.config;
      table = table;
      source = w.source;
      mac = w.mac;
      queue_bounded = w.queue_bounded;
      queue_fits = w.queue_fits;
    },
    λ a. omega arith,
  )
  enqueue_keeps (some s) true = elim (Bool-cases (ltb (length m.resp_queue) resp_queue_size)) [
    | inl room ↦ rw (room) (
      record {
        config = w.config;
        table = table;
        source = w.source;
        mac = w.mac;
        queue_bounded =
            let longer = length-append m.resp_queue (queued_item req f ∷ []) in ground arith;
        queue_fits =
            queued_ok m _ w.queue_fits
              (record { requester = source; clock = fits.clock; address = fits.address });
      },
      λ a. omega (arith, length-append m.resp_queue (_ ∷ [])),
    )
    | inr full ↦ rw (full) (
      record {
        config = w.config;
        table = table;
        source = w.source;
        mac = w.mac;
        queue_bounded = w.queue_bounded;
        queue_fits = w.queue_fits;
      },
      λ a. omega arith,
    )
  ]

module _ (m : Master) (f : ReceivedFrame) (w : IsMaster m) (fits : FrameFits f)
    (room : header_len ≤ length f.payload) (h : PtpHeader) (read : unpack f.payload 0 ≡ ok h)
    (source : IsIdentity h.source_identity) where
  handle_delay_req-Keeps : Keeps m (handle_delay_req m f)
  unfolding handle_delay_req
  handle_delay_req-Keeps = elim (parse_delay_req_cases f.payload h room read) [
    | inl raised ↦
        rw (handle_delay_req, raised)
          (same-Keeps m (bump_parse m) w refl refl refl refl refl (λ a. a))
    | inr (req, parsed, same) ↦
        let source' : IsIdentity req.req_header.source_identity = rw (same) source in
        let r =
          register_or_touch m.sessions req.req_header.source_identity f.src_mac f.rx_monotonic_ns in
        let table =
          (register_or_touch_lem m.sessions req.req_header.source_identity f.src_mac
            f.rx_monotonic_ns w.table).0 in
        let (kept, account) =
          enqueue_keeps m req f r.table w fits source' table r.session r.allowed in
        rw (handle_delay_req, parsed) (_, refl, kept, account)
  ]

  dispatch-Keeps : (v : Verdict) → Keeps m (dispatch m f v)
  unfolding dispatch
  dispatch-Keeps bad_version = same-Keeps m _ w refl refl refl refl refl (λ a. a)
  dispatch-Keeps other_domain = same-Keeps m _ w refl refl refl refl refl (λ a. a)
  dispatch-Keeps own = same-Keeps m m w refl refl refl refl refl (λ a. a)
  dispatch-Keeps foreign_announce = same-Keeps m m w refl refl refl refl refl (λ a. a)
  dispatch-Keeps other_type = same-Keeps m _ w refl refl refl refl refl (λ a. a)
  dispatch-Keeps accepted = handle_delay_req-Keeps

-- `_handle_frame` raises on no frame of octets, whatever they are, received from a 6-octet address
-- while the clock fits a timestamp: a well-formed master stays well-formed, its queue within 1024,
-- and each Delay_Req that it counts is counted as refused or dropped, or is put in the queue.
pub handle_frame-Keeps :
    (m : Master) (f : ReceivedFrame) → IsMaster m → FrameFits f → Keeps m (handle_frame m f)
unfolding handle_frame
handle_frame-Keeps m f w fits = elim (Bool-cases (ltb (length f.payload) header_len)) [
  | inl short ↦ rw (short) (same-Keeps m (bump_parse m) w refl refl refl refl refl (λ a. a))
  | inr long ↦
      let room : header_len ≤ length f.payload = ground arith in
      let (p, read, source) = unpack_total f.payload 0 fits.octets room in
      rw (long, read) (dispatch-Keeps m f w fits room (decoded f.payload 0 p) read source _)
]
