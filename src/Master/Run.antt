-- ===== src/Master/Run.antt =====
-- src/ptp_client/ptp/l2master/master.py: the interleavings of the RX, RESP and TX loops and of
-- runtime updates. Each step is one call that returned, since the calls share state only through
-- the locked table, the locked statistics, the queue, and fields that one loop alone changes.
use mathlib.Core.Path.{subst}
use ptp_client.Prelude.{
  ◌++◌, take, drop, length-append, length-take, length-drop, ◌≡◌, refl, sym, arith, List, [], ◌∷◌,
  length, Bool, Option, none, some, Result, ok,
}
use ptp_client.Timestamp.{PtpTimestamp}
use ptp_client.Wire.{Bytes}
use ptp_client.Master.Config.{MasterConfig}
use ptp_client.Master.Config.Valid.{IsConfig, IdentityFits, validate_iff}
use ptp_client.Master.Session.{session_table}
use ptp_client.Master.Transport.{ReceivedFrame}
use ptp_client.Master.Node.{
  Master, Change, started, launched, own_identity, clock_identity_from_mac, fresh_stats,
  apply_runtime_update,
}
use ptp_client.Master.Node.Invariant.{IsMaster, FrameFits, Accounted, Keeps, valid_port}
use ptp_client.Master.Node.Update.{Updated, apply_runtime_update_lem}
use ptp_client.Master.Receive.{handle_frame, resp_step}
use ptp_client.Master.Receive.Accounting.{handle_frame-Keeps}
use ptp_client.Master.Receive.Turn.{resp_step-Keeps}
use ptp_client.Master.Transmit.{
  Environment, send_announce, send_announce_from, send_sync_pair, follow_up_part,
}

-- One call of one of the loops, or of a controller.
pub data Step : Master → Master → Type 0 where
  receives :
      {m m' : Master} (f : ReceivedFrame) → FrameFits f → handle_frame m f ≡ ok m' → Step m m'
  answers : {m m' : Master} (sent : Bool) → resp_step m sent ≡ ok m' → Step m m'
  announces :
      {m : Master} (now : PtpTimestamp) (sent : Bool) → Step m (send_announce m now sent).master
  syncs : {m : Master} (env : Environment) → Step m (send_sync_pair m env).master
  updates :
      {m m' : Master} (changes : List Change) → apply_runtime_update m changes ≡ ok m' → Step m m'

pub data Steps : Master → Master → Type 0 where
  done : {m : Master} → Steps m m
  after : {m m' m'' : Master} → Steps m m' → Step m' m'' → Steps m m''

-- Well-formed, with every Delay_Req accounted for.
abbrev pub Sound : Master → Type 0
Sound m = IsMaster m × Accounted m

returned-Sound : (m m' : Master) (r : Result Master) → Keeps m r → r ≡ ok m' → Sound m → Sound m'
returned-Sound m m' r (m'', is, wf, account) returned (w, a) =
    let same : m'' ≡ m' = cc in rw (sym same) (wf, account a)

-- The fields that the RX and RESP loops and the account read.
abbrev Untouched : Master → Master → Type 0
Untouched m m' =
    (m'.cfg ≡ m.cfg)
    × (m'.sessions ≡ m.sessions)
    × (m'.source_port ≡ m.source_port)
    × (m'.src_mac ≡ m.src_mac)
    × (m'.resp_queue ≡ m.resp_queue)
    × (m'.stats.delay_req_recv ≡ m.stats.delay_req_recv)
    × (m'.stats.delay_resp_sent ≡ m.stats.delay_resp_sent)
    × (m'.stats.delay_resp_dropped ≡ m.stats.delay_resp_dropped)
    × (m'.stats.session_overflow ≡ m.stats.session_overflow)

Untouched-Sound : (m m' : Master) → Untouched m m' → Sound m → Sound m'
Untouched-Sound m m' (c, t, p, a, q, r, s, d, o) (w, account) = (
  record {
    config = rw (c) w.config;
    table = rw (t) w.table;
    source = rw (p) w.source;
    mac = rw (a) w.mac;
    queue_bounded = rw (q) w.queue_bounded;
    queue_fits = rw (q) w.queue_fits;
  },
  rw (q, r, s, d, o) account,
)

announce-Untouched :
    (m : Master) (now : PtpTimestamp) (sent : Bool) → Untouched m (send_announce m now sent).master
unfolding send_announce send_announce_from
announce-Untouched m now sent = ground arith

sync-Untouched : (m : Master) (env : Environment) → Untouched m (send_sync_pair m env).master
unfolding send_sync_pair follow_up_part
sync-Untouched m env = ground arith

update-Sound :
    (m m' : Master) (changes : List Change)
    → apply_runtime_update m changes ≡ ok m'
    → Sound m
    → Sound m'
unfolding apply_runtime_update
update-Sound m m' [] returned sound = let same : m ≡ m' = cc in rw (sym same) sound
update-Sound m m' (change ∷ rest) returned (w, account) =
    let (_, _, _, _, (_, queue, stats, _, _, _, _), wf) =
      subst (Updated m (change ∷ rest)) returned (apply_runtime_update_lem m change rest w) in
    (wf, rw (queue, stats) account)

Step-Sound : {m m' : Master} → Step m m' → Sound m → Sound m'
Step-Sound {m = m} {m' = m'} (receives f fits returned) sound =
    returned-Sound m m' _ (handle_frame-Keeps m f sound.0 fits) returned sound
Step-Sound {m = m} {m' = m'} (answers sent returned) sound =
    returned-Sound m m' _ (resp_step-Keeps m sent sound.0) returned sound
Step-Sound {m = m} (announces now sent) sound =
    Untouched-Sound m _ (announce-Untouched m now sent) sound
Step-Sound {m = m} (syncs env) sound = Untouched-Sound m _ (sync-Untouched m env) sound
Step-Sound {m = m} {m' = m'} (updates changes returned) sound =
    update-Sound m m' changes returned sound

steps-Sound : {m m' : Master} → Steps m m' → Sound m → Sound m'
steps-Sound done sound = sound
steps-Sound (after before step) sound = Step-Sound step (steps-Sound before sound)

-- Every configuration that `validate` accepts starts, on a 6-octet address, as a sound master.
started-Sound :
    (c : MasterConfig) (mac : Bytes)
    → IsConfig c
    → length mac ≡ 6
    → (m : Master) × (started c mac ≡ ok m) × (m.cfg ≡ c) × Sound m
unfolding started launched own_identity clock_identity_from_mac fresh_stats session_table
started-Sound c mac v six =
    let (i, own, eight) = identity c.identity v.identity in
    let (p, made, w) = valid_port i c.port eight v.port in
    (
      launched c mac p,
      rw ((validate_iff c).1 v, own, made) refl,
      refl,
      (
        record {
          config = v;
          table = record { positive = ground arith; bounded = ground arith; distinct = tt };
          source = w;
          mac = six;
          queue_bounded = omega arith;
          queue_fits = tt;
        },
        refl,
      ),
    )
  where
    identity :
        (o : Option Bytes)
        → IdentityFits o
        → (i : Bytes) × (own_identity o mac ≡ ok i) × (length i ≡ 8)
    identity none fits = (
      take 3 mac ++ (0xff ∷ 0xfe ∷ drop 3 mac),
      ground arith,
      omega (
        arith,
        length-append (take 3 mac) (0xff ∷ 0xfe ∷ drop 3 mac),
        length-take 3 mac,
        length-drop 3 mac,
      ),
    )
    identity (some i) fits = (i, refl, fits.0)

-- Whatever frames come in, whatever the transport does and however the loops and runtime updates
-- interleave, a master started from a valid configuration stays well-formed, and the Delay_Reqs it
-- has counted are those answered, dropped or refused, and those waiting in a queue of at most 1024.
pub run_sound :
    (c : MasterConfig) (mac : Bytes)
    → IsConfig c
    → length mac ≡ 6
    → (m : Master) × (started c mac ≡ ok m)
      × ((m' : Master) → Steps m m' → IsMaster m' × Accounted m')
run_sound c mac v six =
    let (m, from, _, sound) = started-Sound c mac v six in
    (m, from, λ m' steps. steps-Sound steps sound)
