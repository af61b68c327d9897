-- ===== src/Master/Receive/Turn.antt =====
-- One turn of the RESP loop.
use ptp_client.Prelude.{
  suc, ◌+◌, ◌≡◌, refl, inl, inr, arith, List, [], ◌∷◌, All, length, Bool, true, false, none, some,
  Option-cases,
}
use ptp_client.Header.{PortIdentity}
use ptp_client.Master.Session.{SessionTable, SlaveSession, get, mark_resp_sent}
use ptp_client.Master.Session.Table.{
  IsTable, get-key, get-update, update-Distinct, length-update, key_eq_refl,
}
use ptp_client.Master.Node.{Master, RespItem}
use ptp_client.Master.Node.Invariant.{IsMaster, ItemFits, Keeps}
use ptp_client.Master.Receive.{send_delay_resp, resp_step, resp_turn}
use ptp_client.Master.Receive.Answer.{delay_resp_frame_lem}

-- `mark_resp_sent` counts the response at the slave it went to, and nowhere if the slave's session
-- has been removed; either way the table stays well-formed.
pub mark_resp_sent_lem :
    (t : SessionTable) (p : PortIdentity)
    → IsTable t
    → IsTable (mark_resp_sent t p)
      × (get p (mark_resp_sent t p).sessions ≡ elim (get p t.sessions) [
        | none ↦ none
        | some s ↦ some (record s { delay_resp_sent = s.delay_resp_sent + 1 })
      ])
unfolding mark_resp_sent
mark_resp_sent_lem t p w = elim (Option-cases (get p t.sessions)) [
  | inl missing ↦ rw (mark_resp_sent, missing) (w, missing)
  | inr (s, found) ↦
      let s' : SlaveSession = record s { delay_resp_sent = s.delay_resp_sent + 1 } in
      let named = get-key p t.sessions s found in
      rw (mark_resp_sent, found)
        (
          record {
            positive = w.positive;
            bounded = omega (arith, length-update p s' t.sessions, w.bounded);
            distinct = update-Distinct s' p t.sessions named w.distinct;
          },
          rw (get-update s' p p t.sessions named, found, key_eq_refl p) refl,
        )
]

-- What is left when an item is taken from the queue.
module _ (m : Master) (item : RespItem) (rest : List RespItem) (w : IsMaster m)
    (full : m.resp_queue ≡ item ∷ rest) where
  abbrev taken : Master
  taken = record m { resp_queue = rest }

  queue_fits : All ItemFits (item ∷ rest)
  queue_fits = rw (full) at w.queue_fits

  shorter : length m.resp_queue ≡ suc (length rest)
  shorter = rw (full) refl

  taken-IsMaster : IsMaster taken
  taken-IsMaster = record {
    config = w.config;
    table = w.table;
    source = w.source;
    mac = w.mac;
    queue_bounded = omega (arith, shorter, w.queue_bounded);
    queue_fits = queue_fits.1;
  }

  answered : (sent : Bool) → Keeps m (send_delay_resp taken item sent)
  unfolding send_delay_resp
  answered true =
      let (frame, framed, _) = delay_resp_frame_lem taken item taken-IsMaster queue_fits.0 0 0 in
      let marked = mark_resp_sent_lem m.sessions item.request.source_identity w.table in
      rw (send_delay_resp, framed)
        (
          _,
          refl,
          record {
            config = w.config;
            table = marked.0;
            source = w.source;
            mac = w.mac;
            queue_bounded = taken-IsMaster.queue_bounded;
            queue_fits = queue_fits.1;
          },
          λ a. omega (arith, shorter, a),
        )
  answered false =
      let (frame, framed, _) = delay_resp_frame_lem taken item taken-IsMaster queue_fits.0 0 0 in
      rw (send_delay_resp, framed)
        (
          _,
          refl,
          record {
            config = w.config;
            table = w.table;
            source = w.source;
            mac = w.mac;
            queue_bounded = taken-IsMaster.queue_bounded;
            queue_fits = queue_fits.1;
          },
          λ a. omega (arith, shorter, a),
        )

-- One turn of the RESP loop returns, whether the transport takes the frame or raises OSError: the
-- master stays well-formed, and a request that it takes from the queue is counted as answered or as
-- dropped.
pub resp_step-Keeps : (m : Master) (sent : Bool) → IsMaster m → Keeps m (resp_step m sent)
unfolding resp_turn
resp_step-Keeps m sent w = go m.resp_queue refl
  where
    go : (q : List RespItem) → m.resp_queue ≡ q → Keeps m (resp_turn m q sent)
    go [] empty = (m, refl, w, λ a. a)
    go (item ∷ rest) full = answered m item rest w full sent
