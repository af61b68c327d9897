-- ===== src/Master/Node/Invariant.antt =====
-- What a started master keeps true: its parts are well-formed, and every Delay_Req that it has
-- counted is answered, counted as dropped or refused, or waiting in the queue.
use ptp_client.Prelude.{
  ℤ, ℕ, ◌+◌, ◌*◌, ◌^◌, ◌≤◌, ◌<◌, ◌≡◌, refl, arith, All, length, pos, Result, ok,
}
use ptp_client.Wire.{Bytes, IsBytes}
use ptp_client.Header.{PortIdentity}
use ptp_client.Header.Identity.{IsIdentity}
use ptp_client.Master.Transport.{ReceivedFrame}
use ptp_client.Master.Config.Valid.{IsConfig, Between}
use ptp_client.Header.Identity.{port_identity_ok}
use ptp_client.Header.{port_identity}
use ptp_client.Master.Session.Table.{IsTable}
use ptp_client.Master.Node.{Master, RespItem, resp_queue_size}

-- The real-time clock below the 2 ** 48 seconds of a timestamp.
abbrev pub clock_bound : ℕ
clock_bound = 2 ^ 48 * 1000000000

pub record FrameFits (f : ReceivedFrame) : Type 0 where
  pub octets : IsBytes f.payload
  pub clock : f.rx_realtime_ns < clock_bound
  pub address : length f.src_mac ≡ 6

pub record ItemFits (item : RespItem) : Type 0 where
  pub requester : IsIdentity item.request.source_identity
  pub clock : item.received_ns < clock_bound
  pub address : length item.sender ≡ 6

pub record IsMaster (m : Master) : Type 0 where
  pub config : IsConfig m.cfg
  pub table : IsTable m.sessions
  pub source : IsIdentity m.source_port
  pub mac : length m.src_mac ≡ 6
  pub queue_bounded : length m.resp_queue ≤ resp_queue_size
  pub queue_fits : All ItemFits m.resp_queue

abbrev pub Accounted : Master → Type 0
Accounted m =
    m.stats.delay_req_recv
    ≡ m.stats.delay_resp_sent
      + m.stats.delay_resp_dropped
      + m.stats.session_overflow
      + length m.resp_queue

-- The call returns a master that is well-formed, and accounted for if it was before.
abbrev pub Keeps : Master → Result Master → Type 0
Keeps m r = (m' : Master) × (r ≡ ok m') × IsMaster m' × (Accounted m → Accounted m')

-- What only changes the counters that the account does not read.
pub same-Keeps :
    (m m' : Master)
    → IsMaster m
    → m'.cfg ≡ m.cfg
    → m'.sessions ≡ m.sessions
    → m'.source_port ≡ m.source_port
    → m'.src_mac ≡ m.src_mac
    → m'.resp_queue ≡ m.resp_queue
    → (Accounted m → Accounted m')
    → Keeps m (ok m')
same-Keeps m m' w c t p a q account = (
  m',
  refl,
  record {
    config = rw (c) w.config;
    table = rw (t) w.table;
    source = rw (p) w.source;
    mac = rw (a) w.mac;
    queue_bounded = rw (q) w.queue_bounded;
    queue_fits = rw (q) w.queue_fits;
  },
  account,
)

pub valid_port :
    (i : Bytes) (z : ℤ)
    → length i ≡ 8
    → Between (pos 0) (pos 0xffff) z
    → (p : PortIdentity) × (port_identity i z ≡ ok p) × IsIdentity p
valid_port i z eight range =
    let p : PortIdentity = record { clock_identity = i; port_number = z } in
    let v : IsIdentity p = record { identity_length = eight; port_fits = ground arith } in
    (p, port_identity_ok p v, v)
