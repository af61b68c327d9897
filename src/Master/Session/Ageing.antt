-- ===== src/Master/Session/Ageing.antt =====
-- What ageing removes from the table, and whom eviction chooses.
use ptp_client.Prelude.{
  ℕ, ◌+◌, ◌≤◌, ◌≡◌, refl, List, [], ◌∷◌, arith, Bool, true, false, ltb, All, length, if◌then◌else◌,
  none, some, ltb→lt,
}
use ptp_client.Master.Session.{
  SlaveSession, Key, SessionTable, get, delete, aged_count, without_aged, oldest, evict_oldest,
  age_out, is_aged,
}
use ptp_client.Master.Session.Table.{
  Distinct, IsTable, key_eq_iff, length-without_aged, without_aged-Distinct, get-without_aged,
}

get-without_aged_iff :
    (timeout now : ℕ) (k : Key) (ss : List SlaveSession)
    → Distinct ss
    → get k (without_aged timeout now ss)
      ≡ elim (get k ss) [ none ↦ none | some s ↦ if is_aged timeout now s then none else some s ]
unfolding without_aged get
get-without_aged_iff timeout now k [] d = refl
get-without_aged_iff timeout now k (s ∷ ss) d = ground (
  arith,
  get-without_aged_iff timeout now k ss d.1,
  get-without_aged timeout now s.port_identity ss d.0,
  key_eq_iff s.port_identity k,
)

-- Ageing out removes exactly the sessions that have timed out, and returns their number.
pub age_out_lem :
    (t : SessionTable) (now : ℕ) (k : Key)
    → IsTable t
    → let (t', n) = age_out t now in
      IsTable t'
      × (length t'.sessions + n ≡ length t.sessions)
      × (get k t'.sessions ≡ elim (get k t.sessions) [
        | none ↦ none
        | some s ↦ if is_aged t.session_timeout now s then none else some s
      ])
unfolding age_out
age_out_lem t now k v = (
  record {
    positive = v.positive;
    bounded = omega (arith, length-without_aged t.session_timeout now t.sessions, v.bounded);
    distinct = without_aged-Distinct t.session_timeout now t.sessions v.distinct;
  },
  length-without_aged t.session_timeout now t.sessions,
  get-without_aged_iff t.session_timeout now k t.sessions v.distinct,
)

oldest_least :
    (best : SlaveSession) (ss : List SlaveSession)
    → ((oldest best ss).last_seen ≤ best.last_seen)
      × All (λ s. (oldest best ss).last_seen ≤ s.last_seen) ss
unfolding oldest
oldest_least best [] = (omega arith, tt)
oldest_least best (s ∷ ss) =
    choice (ltb s.last_seen best.last_seen) refl (oldest_least s ss) (oldest_least best ss)
  where
    choice :
        (b : Bool)
        → ltb s.last_seen best.last_seen ≡ b
        → ((oldest s ss).last_seen ≤ s.last_seen)
          × All (λ x. (oldest s ss).last_seen ≤ x.last_seen) ss
        → ((oldest best ss).last_seen ≤ best.last_seen)
          × All (λ x. (oldest best ss).last_seen ≤ x.last_seen) ss
        → ((oldest (if b then s else best) ss).last_seen ≤ best.last_seen)
          × All (λ x. (oldest (if b then s else best) ss).last_seen ≤ x.last_seen) (s ∷ ss)
    choice true e first second =
        (omega (arith, first.0, ltb→lt s.last_seen best.last_seen e), first)
    choice false e first second = (second.0, (ground arith, second.1))

-- With no session aged out, eviction deletes one session, and no other session of the table was
-- seen before it.
pub evict_oldest_lem :
    (timeout now : ℕ) (s : SlaveSession) (ss : List SlaveSession)
    → aged_count timeout now (s ∷ ss) ≡ 0
    → (evict_oldest timeout now (s ∷ ss) ≡ delete (oldest s ss).port_identity (s ∷ ss))
      × All (λ x. (oldest s ss).last_seen ≤ x.last_seen) (s ∷ ss)
unfolding evict_oldest
evict_oldest_lem timeout now s ss h = (rw h, oldest_least s ss)
