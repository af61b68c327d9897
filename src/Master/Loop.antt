-- ===== src/Master/Loop.antt =====
-- src/ptp_client/ptp/l2master/master.py: one turn of _tx_loop behind its wait. Times and back-offs
-- are nanoseconds; what the transport and the waits do is an argument.
pub mod Backoff
use ptp_client.Prelude.{
  ℕ, ◌+◌, ◌*◌, ltb, leb, ◌==◌, not, Bool, true, false, if◌then◌else◌, Option, none, some, Error,
  os_error, value_error,
}
use ptp_client.Timestamp.{PtpTimestamp}
use ptp_client.Master.Scheduler.{PeriodicScheduler, periodic_scheduler, second, due, advance}
use ptp_client.Master.Node.{Master, MasterState, active, fault, stopped}
use ptp_client.Master.Transmit.{Outcome, Environment, send_announce, send_sync_pair}

-- The local variables of _tx_loop.
pub record TxLoop : Type 0 where
  pub master : Master
  pub announce_schedule : PeriodicScheduler
  pub sync_schedule : PeriodicScheduler
  pub gen : ℕ
  pub backoff : ℕ

-- A runtime update rebuilds both schedulers.
unfoldable pub rebuild : TxLoop → ℕ → TxLoop
rebuild l now = if l.gen == l.master.interval_gen then l else record l {
  gen = l.master.interval_gen;
  announce_schedule = periodic_scheduler l.master.cfg.log_announce_interval now;
  sync_schedule = periodic_scheduler l.master.cfg.log_sync_interval now;
}

-- What one turn meets.
pub record Turn : Type 0 where
  pub now : ℕ
  pub stamp : PtpTimestamp
  pub announce_taken : Bool
  pub pair : Environment
  pub stopped_in_backoff : Bool
  pub after_backoff : ℕ

-- How a turn ends: the loop goes on, is told to stop, or its thread dies of an exception.
pub data TurnEnd : Type 0 where
  continues stops : TxLoop → TurnEnd
  dies : TxLoop → Error → TurnEnd

-- The loop after a part of the `try` block, and what it raised.
pub record Attempt : Type 0 where
  pub loop : TxLoop
  pub raised : Option Error

unfoldable pub try_announce : TxLoop → Turn → Attempt
try_announce l t =
    let o = send_announce l.master t.stamp t.announce_taken in
    if due l.announce_schedule t.now
    then elim o.raised [
      | none ↦ record {
        loop = record l {
          master = o.master;
          announce_schedule = (advance l.announce_schedule t.now).0;
        };
        raised = none;
      }
      | some e ↦ record { loop = record l { master = o.master }; raised = some e }
    ]
    else record { loop = l; raised = none }

unfoldable pub try_sync : TxLoop → Turn → Attempt
try_sync l t =
    let o = send_sync_pair l.master t.pair in
    if due l.sync_schedule t.now
    then elim o.raised [
      | none ↦ record {
        loop = record l { master = o.master; sync_schedule = (advance l.sync_schedule t.now).0 };
        raised = none;
      }
      | some e ↦ record { loop = record l { master = o.master }; raised = some e }
    ]
    else record { loop = l; raised = none }

abbrev pub with_state : MasterState → Master → Master
with_state s m = record m { stats = record m.stats { state = s } }

-- `if backoff > 0`: recovered.
unfoldable pub recover : TxLoop → TxLoop
recover l =
    if l.backoff == 0 then l else record l { backoff = 0; master = with_state active l.master }

-- min(max(backoff * 2, MIN), MAX) if backoff else MIN
unfoldable pub next_backoff : ℕ → ℕ
next_backoff b =
    if b == 0
    then second
    else (let doubled = if ltb (b * 2) second then second else b * 2 in
        if ltb (30 * second) doubled then 30 * second else doubled)

-- The handler of OSError.
unfoldable pub on_os_error : TxLoop → Turn → TurnEnd
on_os_error l t =
    let m = l.master in
    let faulty = record l {
      backoff = next_backoff l.backoff;
      master = record m {
        stats = record m.stats { tx_errors = m.stats.tx_errors + 1; state = fault };
      };
    } in
    if t.stopped_in_backoff
    then stops (record faulty { master = with_state stopped faulty.master })
    else continues (record faulty {
      announce_schedule = (advance l.announce_schedule t.after_backoff).0;
      sync_schedule = (advance l.sync_schedule t.after_backoff).0;
    })

-- An exception of the `try` block: only OSError is handled.
unfoldable pub handle : TxLoop → Turn → Error → TurnEnd
handle l t os_error = on_os_error l t
handle l t e = dies l e

-- The rest of the `try` block behind the Announce.
unfoldable pub after_announce : Attempt → Turn → TurnEnd
after_announce a t = elim a.raised [
  | some e ↦ handle a.loop t e
  | none ↦
      let b = try_sync a.loop t in
      elim b.raised [ some e ↦ handle b.loop t e | none ↦ continues (recover b.loop) ]
]

unfoldable pub tx_turn : TxLoop → Turn → TurnEnd
tx_turn l t = after_announce (try_announce l t) t
