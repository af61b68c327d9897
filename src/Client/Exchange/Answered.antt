-- ===== src/Client/Exchange/Answered.antt =====
-- src/ptp_client/ptp/client.py: an exchange returns the answer to its own request, and the estimate.
use ptp_client.Prelude.{
  ℕ, ◌+◌, ◌%◌, ◌^◌, ◌≡◌, refl, ap, ◌∙◌, ◌⊎◌, inl, inr, ◌++◌, [], ◌∷◌, arith, ℤ, pos, eq_ℤ, eq_ℤ→eq,
  ◌-ℤ◌, ◌+ℤ◌, +ℤ_parts, -ℤ_parts, pos_part, neg_part, eq_of_parts, true, false, bytes_eq,
  bytes_eq→eq, and_true, Result-cases, Result, ok, err, runtime_error,
}
use ptp_client.Wire.{Bytes}
use ptp_client.Timestamp.{PtpTimestamp}
use ptp_client.Header.{PtpHeader, PortIdentity, unpack, value, delay_resp}
use ptp_client.Packet.{parse_delay_resp_body}
use ptp_client.Request.{Spec, build_ptp_udp_payload}
use ptp_client.Client.{Datagram}
use ptp_client.Client.World.{
  World, failed, Failure, timed_out, raising, event_port, Ends, bind-Ends, allocate_sequence_id,
  send, pop_matching_general, lift, give, ◌>>=◌,
}
use ptp_client.Client.Waits.{Found, TimedOut, pop_matching_general_lem}
use ptp_client.Client.Sync.{SyncSample, is_of, to_posix}
use ptp_client.Client.Exchange.{
  DelayExchange, answers, accept_delay_resp, with_sequence_id, exchange_started, exchange_delay,
  combine,
}

-- A datagram that answers the Delay_Req with this header.
pub record Answers (domain : ℕ) (request h : PtpHeader) (bs : Bytes) (t : PtpTimestamp)
    : Type 0 where
  pub in_domain : h.domain_number ≡ pos domain
  pub typed : h.message_type ≡ pos (value delay_resp)
  pub numbered : h.sequence_id ≡ request.sequence_id
  pub requesting : PortIdentity
  pub parsed : parse_delay_resp_body bs h ≡ ok (t, requesting)
  pub same_clock : requesting.clock_identity ≡ request.source_identity.clock_identity
  pub same_port : requesting.port_number ≡ request.source_identity.port_number

answers_lem :
    (request : PtpHeader) (r : Result (PtpTimestamp × PortIdentity))
    → answers request r ≡ true
    → (t : PtpTimestamp) × (p : PortIdentity) × (r ≡ ok (t, p))
      × (p.clock_identity ≡ request.source_identity.clock_identity)
      × (p.port_number ≡ request.source_identity.port_number)
unfolding answers
answers_lem request (err e) h = cc
answers_lem request (ok (t, p)) h =
    let (clock, port) =
      and_true (bytes_eq p.clock_identity request.source_identity.clock_identity)
        (eq_ℤ p.port_number request.source_identity.port_number) h in
    (t, p, refl, bytes_eq→eq _ _ clock, eq_ℤ→eq _ _ port)

accepted_lem :
    (domain : ℕ) (request : PtpHeader) (d : Datagram)
    → accept_delay_resp domain request d ≡ true
    → (t : PtpTimestamp) × Answers domain request d.header d.payload t
unfolding accept_delay_resp
accepted_lem domain request d h =
    let (kind, more) = and_true (is_of domain (pos (value delay_resp)) d) _ h in
    let (numbered, answering) = and_true (eq_ℤ d.header.sequence_id request.sequence_id) _ more in
    let (in_domain, typed) = and_true (eq_ℤ d.header.domain_number (pos domain)) _ kind in
    let (t, p, parsed, clock, port) =
      answers_lem request (parse_delay_resp_body d.payload d.header) answering in
    (
      t,
      record {
        in_domain = eq_ℤ→eq _ _ in_domain;
        typed = eq_ℤ→eq _ _ typed;
        numbered = eq_ℤ→eq _ _ numbered;
        requesting = p;
        parsed = parsed;
        same_clock = clock;
        same_port = port;
      },
    )

-- What a returned exchange is.
pub record Exchanged (base : Spec) (w : World) (x : DelayExchange) (v : World) : Type 0 where
  pub next_seq : v.seq ≡ (w.seq + 1) % 2 ^ 16
  pub sent_one : v.sent ≡ w.sent ++ ((event_port, x.delay_req_udp) ∷ [])
  pub built : build_ptp_udp_payload (with_sequence_id base v.seq) ≡ ok x.delay_req_udp
  pub request : unpack x.delay_req_udp 0 ≡ ok x.request_header
  pub stamp : PtpTimestamp
  pub answer : Answers w.domain x.request_header x.response_header x.delay_resp_udp stamp
  pub received_at : x.t4 ≡ to_posix stamp
  pub sent_at : x.t3 ≡ w.wall

-- Nothing was sent, or the request was and no answer came in time.
abbrev pub Unanswered : World → Failure → World → Type 0
Unanswered w e v =
    (v.sent ≡ w.sent)
    ⊎ ((e ≡ timed_out) × (bs : Bytes) × (v.sent ≡ w.sent ++ ((event_port, bs) ∷ [])))

-- The wait for the answer, once the request is sent.
awaited :
    (base : Spec) (w v : World) (payload : Bytes) (hdr0 : PtpHeader) (deadline : ℕ)
    → v.seq ≡ (w.seq + 1) % 2 ^ 16
    → v.sent ≡ w.sent ++ ((event_port, payload) ∷ [])
    → build_ptp_udp_payload (with_sequence_id base v.seq) ≡ ok payload
    → unpack payload 0 ≡ ok hdr0
    → Ends (Exchanged base w) (Unanswered w) (
        (pop_matching_general (accept_delay_resp w.domain hdr0) deadline >>= λ d.
        lift (parse_delay_resp_body d.payload d.header) >>= λ x. give (record {
          delay_req_udp = payload;
          delay_resp_udp = d.payload;
          request_header = hdr0;
          response_header = d.header;
          t3 = w.wall;
          t4 = to_posix x.0;
          wall_recv_resp = d.wall;
        }))
          v)
awaited base w v payload hdr0 deadline next sent built decoded =
    bind-Ends (Found (accept_delay_resp w.domain hdr0) deadline v) (Exchanged base w) (TimedOut v)
      (Unanswered w) (pop_matching_general (accept_delay_resp w.domain hdr0) deadline v) _
      (pop_matching_general_lem (accept_delay_resp w.domain hdr0) deadline v)
      (λ e u late. inr (late.cause, payload, late.quiet.same_sent ∙ sent))
      (λ d u found.
        let (before, after, split, left, accepted, others) = found.taken in
        let (t, answer) = accepted_lem w.domain hdr0 d accepted in
        rw (answer.parsed) (record {
          next_seq = found.quiet.same_seq ∙ next;
          sent_one = found.quiet.same_sent ∙ sent;
          built = rw (found.quiet.same_seq) built;
          request = decoded;
          stamp = t;
          answer = answer;
          received_at = refl;
          sent_at = refl;
        }))

started_lem :
    (base : Spec) (timeout : ℕ) (w : World)
    → Ends (Exchanged base w) (Unanswered w) (exchange_started base timeout w)
unfolding exchange_started allocate_sequence_id send
started_lem base timeout w =
    elim (Result-cases (build_ptp_udp_payload (with_sequence_id base ((w.seq + 1) % 2 ^ 16)))) [
      | inl (e, refused) ↦ rw (refused) (inl refl)
      | inr (payload, built) ↦ elim (Result-cases (unpack payload 0)) [
        | inl (e, refused) ↦ rw (built, refused) (inl refl)
        | inr (hdr0, decoded) ↦
            rw (built, decoded)
              (awaited base w
                (record w {
                  seq = (w.seq + 1) % 2 ^ 16;
                  sent = w.sent ++ ((event_port, payload) ∷ []);
                })
                payload hdr0 (w.monotonic + timeout) refl refl built decoded)
      ]
    ]

-- An exchange returns the answer to the request that it sent, or it raises before it sends anything,
-- or it sends its request and raises TimeoutError: the sequence id is the next one modulo 2 ** 16, the
-- request is built with it, and the answer is a Delay_Resp of the client's domain, with the request's
-- sequence id, that names the request's clock and port; t4 is the time that it carries.
pub exchange_delay_lem :
    (base : Spec) (timeout : ℕ) (w : World)
    → Ends (Exchanged base w) (Unanswered w) (exchange_delay base timeout w)
unfolding exchange_delay
exchange_delay_lem base timeout w =
    elim w.started
      as (λ b. Ends (Exchanged base w) (Unanswered w) (elim b [
        | false ↦ failed (raising runtime_error) w
        | true ↦ exchange_started base timeout w
      ])) [ false ↦ inl refl | true ↦ started_lem base timeout w ]

-- The two equations of a symmetric path, solved for the offset and for the delay.
module _ (t1 t2 t3 t4 offset path : ℤ) (there : t2 ≡ t1 +ℤ (offset +ℤ path))
    (back : t4 +ℤ offset ≡ t3 +ℤ path) where
  solved_offset : (t2 -ℤ t1) -ℤ (t4 -ℤ t3) ≡ offset +ℤ offset
  solved_offset = eq_of_parts _ _ (
      omega (
        arith,
        ap pos_part there,
        ap neg_part there,
        ap pos_part back,
        ap neg_part back,
        +ℤ_parts t1 (offset +ℤ path),
        +ℤ_parts offset path,
        +ℤ_parts t4 offset,
        +ℤ_parts t3 path,
        +ℤ_parts offset offset,
        -ℤ_parts t2 t1,
        -ℤ_parts t4 t3,
        -ℤ_parts (t2 -ℤ t1) (t4 -ℤ t3),
      ))

  solved_path : (t2 -ℤ t1) +ℤ (t4 -ℤ t3) ≡ path +ℤ path
  solved_path = eq_of_parts _ _ (
      omega (
        arith,
        ap pos_part there,
        ap neg_part there,
        ap pos_part back,
        ap neg_part back,
        +ℤ_parts t1 (offset +ℤ path),
        +ℤ_parts offset path,
        +ℤ_parts t4 offset,
        +ℤ_parts t3 path,
        +ℤ_parts path path,
        -ℤ_parts t2 t1,
        -ℤ_parts t4 t3,
        +ℤ_parts (t2 -ℤ t1) (t4 -ℤ t3),
      ))

-- On a path with the same delay both ways, the estimate is the offset of the client's clock and the
-- delay of the path, each doubled: the Sync, sent at t1, arrives at t1 + offset + delay by the
-- client's clock, and the Delay_Req, sent at t3, at t3 - offset + delay by the master's.
pub combine_lem :
    (s : SyncSample) (d : DelayExchange) (offset path : ℤ)
    → pos s.t2 ≡ pos s.t1 +ℤ (offset +ℤ path)
    → pos d.t4 +ℤ offset ≡ pos d.t3 +ℤ path
    → ((combine s d).offset_twice ≡ offset +ℤ offset)
      × ((combine s d).mean_path_delay_twice ≡ path +ℤ path)
unfolding combine
combine_lem s d offset path there back = (
  solved_offset (pos s.t1) (pos s.t2) (pos d.t3) (pos d.t4) offset path there back,
  solved_path (pos s.t1) (pos s.t2) (pos d.t3) (pos d.t4) offset path there back,
)
