-- ===== src/Master/Loop/Backoff.antt =====
-- The back-off after send failures.
use ptp_client.Prelude.{
  ℕ, zero, suc, ◌≢◌, ap, ◌∙◌, Error, os_error, ◌≡◌, refl, true, none, some, ◌⊎◌, Option,
}
use ptp_client.Master.Scheduler.{due}
use ptp_client.Master.Node.{Master}
use ptp_client.Master.Transmit.{send_announce}
use ptp_client.Master.Loop.{
  TxLoop, Turn, TurnEnd, continues, stops, dies, next_backoff, rebuild, tx_turn, try_announce,
  after_announce, try_sync, recover, handle,
}

-- The back-off after `n` failures in a row.
abbrev backoff_after : ℕ → ℕ
backoff_after zero = 0
backoff_after (suc n) = next_backoff (backoff_after n)

-- A turn in which the transport refuses a message with OSError.
abbrev pub Fails : TxLoop → Turn → Type 0
Fails l t =
    ((try_announce l t).raised ≡ some os_error)
    ⊎ (((try_announce l t).raised ≡ none)
        × ((try_sync (try_announce l t).loop t).raised ≡ some os_error))

-- The loop after failures in a row. What other threads do to the master and the rebuilding of the
-- schedulers may come between.
pub data Failures : ℕ → TxLoop → Type 0 where
  none_yet : (l : TxLoop) → l.backoff ≡ 0 → Failures zero l
  meanwhile :
      (n : ℕ) (l : TxLoop) (m : Master) → Failures n l → Failures n (record l { master = m })
  rebuilt : (n : ℕ) (l : TxLoop) (now : ℕ) → Failures n l → Failures n (rebuild l now)
  one_more :
      (n : ℕ) (l l' : TxLoop) (t : Turn)
      → Failures n l
      → Fails l t
      → tx_turn l t ≡ continues l'
      → Failures (suc n) l'

-- The back-off with which a turn ends, if the loop goes on.
abbrev end_backoff : ℕ → TurnEnd → ℕ
end_backoff n (continues l) = l.backoff
end_backoff n (stops l) = n
end_backoff n (dies l e) = n

-- What follows a part of the turn, given what that raised.
abbrev synced : Turn → TxLoop → Option Error → TurnEnd
synced t l o = elim o [ some e ↦ handle l t e | none ↦ continues (recover l) ]

abbrev announced : Turn → TxLoop → Option Error → TurnEnd
announced t l o = elim o [
  | some e ↦ handle l t e
  | none ↦ synced t (try_sync l t).loop (try_sync l t).raised
]

announce_raises :
    (l : TxLoop) (t : Turn) (e : Error)
    → due l.announce_schedule t.now ≡ true
    → (send_announce l.master t.stamp t.announce_taken).raised ≡ some e
    → try_announce l t ≡ record {
      loop = record l { master = (send_announce l.master t.stamp t.announce_taken).master };
      raised = some e;
    }
unfolding try_announce
announce_raises l t e ready raises = rw (try_announce, ready, raises) refl

unhandled : (l : TxLoop) (t : Turn) (e : Error) → e ≢ os_error → handle l t e ≡ dies l e
unfolding handle
unhandled l t os_error other = absurd (other refl)
unhandled l t _ other = refl

-- Of the exceptions of a turn only OSError is handled: an Announce that is due and that raises
-- anything else ends the thread, with the master as the call left it.
announce_dies :
    (l : TxLoop) (t : Turn) (e : Error)
    → due l.announce_schedule t.now ≡ true
    → (send_announce l.master t.stamp t.announce_taken).raised ≡ some e
    → e ≢ os_error
    → tx_turn l t
      ≡ dies (record l { master = (send_announce l.master t.stamp t.announce_taken).master }) e
unfolding tx_turn after_announce
announce_dies l t e ready raises other =
    ap (λ a. after_announce a t) (announce_raises l t e ready raises) ∙ unhandled _ t e other
