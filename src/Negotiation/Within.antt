-- ===== src/Negotiation/Within.antt =====
-- src/ptp_client/ptp/g82752_unicast.py: what the calls of a session leave alone, and how many messages
-- they send.
use ptp_client.Prelude.{
  ℕ, ◌+◌, ◌%◌, ◌^◌, inl, inr, ◌≤◌, ◌≡◌, refl, ◌∙◌, ap, [], ◌∷◌, arith, true, false, length,
  length-append, Result-cases, runtime_error,
}
use ptp_client.Wire.{Bytes}
use ptp_client.Header.{PortIdentity}
use ptp_client.Signaling.{build_signaling_udp_payload}
use ptp_client.Client.World.{
  World, Outcome, failed, finished, Ends, bind-Ends, give, ◌>>=◌, allocate_sequence_id, send, Port,
  general_port, raising,
}
use ptp_client.Client.Quiet.{IsQuiet}
use ptp_client.Client.Reaches.{
  Reaches, Reaches-self, Reaches-trans, Reaches-sent, Reaches-next, IsQuiet-Reaches,
}
use ptp_client.Client.Exchange.{send_started}
use ptp_client.Negotiation.{
  Contract, Session, with_client, on_client, send_signaling, signal, signaling_args,
}
use ptp_client.Negotiation.Phases.{requesting}

-- At most `k` messages were sent, and the contract is as it was.
pub record Within (k : ℕ) (s v : Session) : Type 0 where
  pub sent_at_most : length v.client.sent ≤ length s.client.sent + k
  pub reaches : Reaches s.client v.client
  pub same_state : v.state ≡ s.state
  pub same_start : v.contract_started_at ≡ s.contract_started_at

pub Within-self : (s : Session) → Within 0 s s
Within-self s = record {
  sent_at_most = omega arith;
  reaches = Reaches-self s.client;
  same_state = refl;
  same_start = refl;
}

pub Within-trans : (j k : ℕ) (s u v : Session) → Within j s u → Within k u v → Within (j + k) s v
Within-trans j k s u v p q = record {
  sent_at_most = omega (arith, p.sent_at_most, q.sent_at_most);
  reaches = Reaches-trans s.client u.client v.client p.reaches q.reaches;
  same_state = q.same_state ∙ p.same_state;
  same_start = q.same_start ∙ p.same_start;
}

pub Within-more : (j k : ℕ) (s v : Session) → j ≤ k → Within j s v → Within k s v
Within-more j k s v le p = record {
  sent_at_most = omega (arith, p.sent_at_most);
  reaches = p.reaches;
  same_state = p.same_state;
  same_start = p.same_start;
}

pub Within-quiet : (s : Session) (w : World) → IsQuiet s.client w → Within 0 s (with_client w s)
Within-quiet s w q = record {
  sent_at_most = omega (arith, ap length q.same_sent);
  reaches = IsQuiet-Reaches s.client w q;
  same_state = refl;
  same_start = refl;
}

abbrev pub Bounded : {A : Type 0} → ℕ → Session → A → Session → Type 0
Bounded k s a v = Within k s v

abbrev Sends : {A : Type 0} → ℕ → World → A → World → Type 0
Sends k w a v = (length v.sent ≤ length w.sent + k) × Reaches w v

send_started_lem :
    (port : Port) (bs : Bytes) (w : World) → Ends (Sends 1 w) (Sends 1 w) (send_started port bs w)
unfolding send_started send
send_started_lem port bs w =
    elim w.started
      as (λ b.
        Ends (Sends 1 w) (Sends 1 w)
          (elim b [ false ↦ failed (raising runtime_error) w | true ↦ send port bs w ])) [
            | false ↦ (omega arith, Reaches-self w)
            | true ↦ (
              omega (arith, length-append w.sent ((port, bs) ∷ [])),
              Reaches-sent w ((port, bs) ∷ []),
            )
          ]

signal_lem :
    (c : Contract) (tlvs : Bytes) (target : PortIdentity) (w : World)
    → Ends (Sends 1 w) (Sends 1 w) (signal c tlvs target w)
unfolding signal allocate_sequence_id
signal_lem c tlvs target w =
    let seq = (w.seq + 1) % 2 ^ 16 in
    elim (Result-cases (build_signaling_udp_payload (signaling_args c target seq) tlvs)) [
      | inl (e, refused) ↦ rw (refused) (omega arith, Reaches-next w seq)
      | inr (pkt, built) ↦ rw (built) (
          bind-Ends (Sends 1 (record w { seq = seq })) (Sends 1 w)
            (Sends 1 (record w { seq = seq })) (Sends 1 w)
            (send_started general_port pkt (record w { seq = seq })) _
            (send_started_lem general_port pkt (record w { seq = seq }))
            (λ e v h. (h.0, Reaches-trans w (record w { seq = seq }) v (Reaches-next w seq) h.1))
            (λ a v h. (h.0, Reaches-trans w (record w { seq = seq }) v (Reaches-next w seq) h.1)))
    ]

-- A request sends at most one message, however it ends.
pub requesting_lem :
    (c : Contract) (tlvs : Bytes) (target : PortIdentity) (s : Session)
    → Ends (Bounded 1 s) (Bounded 1 s) (requesting c tlvs target s)
unfolding send_signaling
requesting_lem c tlvs target s =
    done_with (signal c tlvs target s.client) (signal_lem c tlvs target s.client)
  where
    done_with :
        (o : Outcome World ℕ)
        → Ends (Sends 1 s.client) (Sends 1 s.client) o
        → Ends (Bounded 1 s) (Bounded 1 s) ((on_client (λ w. o) >>= λ seq. give tt) s)
    done_with (failed e w) h = record {
      sent_at_most = h.0;
      reaches = h.1;
      same_state = refl;
      same_start = refl;
    }
    done_with (finished a w) h = record {
      sent_at_most = h.0;
      reaches = h.1;
      same_state = refl;
      same_start = refl;
    }
