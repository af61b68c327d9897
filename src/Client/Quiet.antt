-- ===== src/Client/Quiet.antt =====
-- src/ptp_client/ptp/client.py: what waiting leaves as it is.
use ptp_client.Prelude.{inl, inr, [], ◌≡◌, refl, ◌∙◌, ap, List, ◌∷◌, length, ◌≤◌, arith}
use ptp_client.Client.{Datagram}
use ptp_client.Client.Received.{In, Received, tick-Received}
use ptp_client.Client.World.{with_buffer, with_ticks, Tick, World, at_tick}

-- Waiting sends nothing, takes no sequence id, and brings no ticks back.
pub record IsQuiet (w v : World) : Type 0 where
  pub same_started : v.started ≡ w.started
  pub same_domain : v.domain ≡ w.domain
  pub same_maxlen : v.maxlen ≡ w.maxlen
  pub same_seq : v.seq ≡ w.seq
  pub same_sent : v.sent ≡ w.sent
  pub ticks_left : length v.ticks ≤ length w.ticks
  pub received : (d : Datagram) → Received d v → Received d w

pub IsQuiet-self : (w : World) → IsQuiet w w
IsQuiet-self w = record {
  same_started = refl;
  same_domain = refl;
  same_maxlen = refl;
  same_seq = refl;
  same_sent = refl;
  ticks_left = omega arith;
  received = λ d h. h;
}

pub IsQuiet-trans : (u v w : World) → IsQuiet u v → IsQuiet v w → IsQuiet u w
IsQuiet-trans u v w p q = record {
  same_started = q.same_started ∙ p.same_started;
  same_domain = q.same_domain ∙ p.same_domain;
  same_maxlen = q.same_maxlen ∙ p.same_maxlen;
  same_seq = q.same_seq ∙ p.same_seq;
  same_sent = q.same_sent ∙ p.same_sent;
  ticks_left = omega (arith, p.ticks_left, q.ticks_left);
  received = λ d h. p.received d (q.received d h);
}

-- A buffer with some of its entries left, and the end of the ticks.
pub IsQuiet-buffer :
    (ds : List Datagram) (w : World)
    → ((d : Datagram) → In d ds → In d w.buffer)
    → IsQuiet w (with_buffer ds w)
IsQuiet-buffer ds w entries = record {
  same_started = refl;
  same_domain = refl;
  same_maxlen = refl;
  same_seq = refl;
  same_sent = refl;
  ticks_left = omega arith;
  received = λ d h. elim h [ inl k ↦ inl (entries d k) | inr k ↦ inr k ];
}

pub IsQuiet-end : (w : World) → IsQuiet w (with_ticks [] w)
IsQuiet-end w = record {
  same_started = refl;
  same_domain = refl;
  same_maxlen = refl;
  same_seq = refl;
  same_sent = refl;
  ticks_left = omega arith;
  received = λ d h. elim h [ inl k ↦ inl k | inr k ↦ absurd k ];
}

pub IsQuiet-tick :
    (t : Tick) (ts : List Tick) (w : World) → w.ticks ≡ t ∷ ts → IsQuiet w (at_tick t ts w)
unfolding at_tick
IsQuiet-tick t ts w e = record {
  same_started = refl;
  same_domain = refl;
  same_maxlen = refl;
  same_seq = refl;
  same_sent = refl;
  ticks_left = omega (arith, ap length e);
  received = λ d h. tick-Received t ts w d e h;
}

pub tick_clock : (t : Tick) (ts : List Tick) (w : World) → (at_tick t ts w).monotonic ≡ t.monotonic
unfolding at_tick
tick_clock t ts w = refl

pub tick_rest : (t : Tick) (ts : List Tick) (w : World) → (at_tick t ts w).ticks ≡ ts
unfolding at_tick
tick_rest t ts w = refl
