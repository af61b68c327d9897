-- ===== src/Client/Reaches.antt =====
-- src/ptp_client/ptp/client.py: what any run of the client's calls does to it.
use ptp_client.Prelude.{
  ℕ, ◌≡◌, refl, ap, sym, ◌∙◌, ◌≤◌, List, [], ◌++◌, arith, length, append_assoc, append-nil,
}
use ptp_client.Wire.{Bytes}
use ptp_client.Client.{Datagram}
use ptp_client.Client.Received.{Received}
use ptp_client.Client.World.{World, Port}
use ptp_client.Client.Quiet.{IsQuiet}

-- The client later in the same run: of the same domain, with more messages sent behind those that were
-- sent, and with no datagrams but those of its buffer and of the ticks to come.
pub record Reaches (w v : World) : Type 0 where
  pub same_domain : v.domain ≡ w.domain
  pub sent_more : (more : List (Port × Bytes)) × (v.sent ≡ w.sent ++ more)
  pub ticks_left : length v.ticks ≤ length w.ticks
  pub received : (d : Datagram) → Received d v → Received d w

pub Reaches-self : (w : World) → Reaches w w
Reaches-self w = record {
  same_domain = refl;
  sent_more = ([], sym (append-nil w.sent));
  ticks_left = omega arith;
  received = λ d h. h;
}

pub Reaches-trans : (u v w : World) → Reaches u v → Reaches v w → Reaches u w
Reaches-trans u v w p q = record {
  same_domain = q.same_domain ∙ p.same_domain;
  sent_more = (
    p.sent_more.0 ++ q.sent_more.0,
    q.sent_more.1
        ∙ (ap (λ l. l ++ q.sent_more.0) p.sent_more.1
            ∙ append_assoc u.sent p.sent_more.0 q.sent_more.0),
  );
  ticks_left = omega (arith, p.ticks_left, q.ticks_left);
  received = λ d h. p.received d (q.received d h);
}

pub IsQuiet-Reaches : (w v : World) → IsQuiet w v → Reaches w v
IsQuiet-Reaches w v q = record {
  same_domain = q.same_domain;
  sent_more = ([], q.same_sent ∙ sym (append-nil w.sent));
  ticks_left = q.ticks_left;
  received = q.received;
}

-- Behind the next sequence id, and behind more messages.
pub Reaches-next : (w : World) (seq : ℕ) → Reaches w (record w { seq = seq })
Reaches-next w seq = record {
  same_domain = refl;
  sent_more = ([], sym (append-nil w.sent));
  ticks_left = omega arith;
  received = λ d h. h;
}

pub Reaches-sent :
    (w : World) (more : List (Port × Bytes)) → Reaches w (record w { sent = w.sent ++ more })
Reaches-sent w more = record {
  same_domain = refl;
  sent_more = (more, refl);
  ticks_left = omega arith;
  received = λ d h. h;
}
