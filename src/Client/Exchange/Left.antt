-- ===== src/Client/Exchange/Left.antt =====
-- src/ptp_client/ptp/client.py: what exchange_delay leaves.
use ptp_client.Prelude.{
  ℕ, ◌+◌, ◌%◌, ◌^◌, ◌++◌, ◌≤◌, arith, [], ◌∷◌, length, false, true, inl, inr, runtime_error,
  Result-cases,
}
use ptp_client.Wire.{Bytes}
use ptp_client.Header.{PtpHeader, unpack}
use ptp_client.Request.{Spec, build_ptp_udp_payload}
use ptp_client.Client.World.{
  World, event_port, Ends, bind-Ends, lift, give, ◌>>=◌, Outcome, finished, failed, raising, send,
  allocate_sequence_id, pop_matching_general,
}
use ptp_client.Client.Reaches.{
  Reaches, Reaches-self, Reaches-trans, Reaches-next, Reaches-sent, IsQuiet-Reaches,
}
use ptp_client.Client.Waits.{Found, TimedOut, pop_matching_general_lem}
use ptp_client.Packet.{parse_delay_resp_body}
use ptp_client.Client.Sync.{to_posix}
use ptp_client.Client.Exchange.{
  accept_delay_resp, DelayExchange, with_sequence_id, exchange_started, exchange_delay,
}

-- The client later in the same run.
abbrev pub Later : {A : Type 0} → World → A → World → Type 0
Later w a v = Reaches w v

awaited-Reaches :
    (domain deadline : ℕ) (w v : World) (payload : Bytes) (hdr0 : PtpHeader)
    → Reaches w v
    → Ends {A = DelayExchange} (Later w) (Later w) (
        (pop_matching_general (accept_delay_resp domain hdr0) deadline >>= λ d.
        lift (parse_delay_resp_body d.payload d.header) >>= λ x. give (record {
          delay_req_udp = payload;
          delay_resp_udp = d.payload;
          request_header = hdr0;
          response_header = d.header;
          t3 = w.wall;
          t4 = to_posix x.0;
          wall_recv_resp = d.wall;
        }))
          v)
awaited-Reaches domain deadline w v payload hdr0 le =
    bind-Ends (Found (accept_delay_resp domain hdr0) deadline v) (Later w) (TimedOut v) (Later w)
      (pop_matching_general (accept_delay_resp domain hdr0) deadline v) _
      (pop_matching_general_lem (accept_delay_resp domain hdr0) deadline v)
      (λ e u late. Reaches-trans w v u le (IsQuiet-Reaches v u late.quiet))
      (λ d u found. elim (Result-cases (parse_delay_resp_body d.payload d.header)) [
        | inl (e, refused) ↦ rw (refused) (Reaches-trans w v u le (IsQuiet-Reaches v u found.quiet))
        | inr (x, parsed) ↦ rw (parsed) (Reaches-trans w v u le (IsQuiet-Reaches v u found.quiet))
      ])

started-Reaches :
    (base : Spec) (timeout : ℕ) (w : World)
    → Ends (Later w) (Later w) (exchange_started base timeout w)
unfolding exchange_started allocate_sequence_id send
started-Reaches base timeout w =
    let next : World = record w { seq = (w.seq + 1) % 2 ^ 16 } in
    elim (Result-cases (build_ptp_udp_payload (with_sequence_id base ((w.seq + 1) % 2 ^ 16)))) [
      | inl (e, refused) ↦ rw (refused) (Reaches-next w ((w.seq + 1) % 2 ^ 16))
      | inr (payload, built) ↦ elim (Result-cases (unpack payload 0)) [
        | inl (e, refused) ↦ rw (built, refused) (Reaches-next w ((w.seq + 1) % 2 ^ 16))
        | inr (hdr0, decoded) ↦
            rw (built, decoded)
              (awaited-Reaches w.domain (w.monotonic + timeout) w
                (record w {
                  seq = (w.seq + 1) % 2 ^ 16;
                  sent = w.sent ++ ((event_port, payload) ∷ []);
                })
                payload hdr0
                (Reaches-trans w next _ (Reaches-next w next.seq)
                  (Reaches-sent next ((event_port, payload) ∷ []))))
      ]
    ]

-- However an exchange ends, it leaves the client in the same run.
pub exchange_delay-Reaches :
    (base : Spec) (timeout : ℕ) (w : World)
    → Ends (Later w) (Later w) (exchange_delay base timeout w)
unfolding exchange_delay
exchange_delay-Reaches base timeout w =
    elim w.started
      as (λ b. Ends (Later w) (Later w) (elim b [
        | false ↦ failed (raising runtime_error) w
        | true ↦ exchange_started base timeout w
      ])) [ false ↦ Reaches-self w | true ↦ started-Reaches base timeout w ]

-- A world with at most this many ticks to come.
abbrev pub Left : {A : Type 0} → ℕ → A → World → Type 0
Left n a w = length w.ticks ≤ n

-- An exchange brings no ticks back, however it ends.
pub exchange_delay-Left :
    (base : Spec) (timeout n : ℕ) (w : World)
    → length w.ticks ≤ n
    → Ends (Left n) (Left n) (exchange_delay base timeout w)
exchange_delay-Left base timeout n w le =
    counted (exchange_delay base timeout w) (exchange_delay-Reaches base timeout w)
  where
    counted :
        (o : Outcome World DelayExchange) → Ends (Later w) (Later w) o → Ends (Left n) (Left n) o
    counted (failed e v) h = omega (arith, le, h.ticks_left)
    counted (finished x v) h = omega (arith, le, h.ticks_left)
