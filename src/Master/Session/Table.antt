-- ===== src/Master/Session/Table.antt =====
-- The table as a dictionary: its bound, its keys, and what a call leaves in it.
use ptp_client.Prelude.{
  ℕ, suc, ◌+◌, ◌≤◌, ◌<◌, ◌≡◌, ◌≢◌, refl, ap, List, [], ◌∷◌, arith, true, eq_ℤ→eq, eq_ℤ_refl,
  bytes_eq→eq, bytes_eq_refl, length, if◌then◌else◌, none, some, ◌↔◌,
}
use ptp_client.Master.Session.{
  SlaveSession, Key, key_eq, SessionTable, TokenBucket, get, delete, update, insert, aged_count,
  without_aged, oldest, evict_oldest, admit, allow,
}

pub key_eq_iff : (a b : Key) → (key_eq a b ≡ true) ↔ (a ≡ b)
unfolding key_eq
key_eq_iff a b = (
  λ h.
      ground
        (arith, bytes_eq→eq a.clock_identity b.clock_identity, eq_ℤ→eq a.port_number b.port_number),
  λ e. rw e (ground (arith, bytes_eq_refl b.clock_identity, eq_ℤ_refl b.port_number)),
)

pub key_eq_refl : (a : Key) → key_eq a a ≡ true
key_eq_refl a = (key_eq_iff a a).1 refl

-- No two entries have the same key.
abbrev pub Distinct : List SlaveSession → Type 0
Distinct [] = Unit {0}
Distinct (s ∷ ss) = (get s.port_identity ss ≡ none) × Distinct ss

pub record IsTable (t : SessionTable) : Type 0 where
  pub positive : 1 ≤ t.max_slaves
  pub bounded : length t.sessions ≤ t.max_slaves
  pub distinct : Distinct t.sessions

pub length-update :
    (k : Key) (s : SlaveSession) (ss : List SlaveSession) → length (update k s ss) ≡ length ss
unfolding update
length-update k s [] = refl
length-update k s (x ∷ ss) = ground (arith, length-update k s ss)

pub length-insert :
    (s : SlaveSession) (ss : List SlaveSession) → length (insert s ss) ≡ suc (length ss)
unfolding insert
length-insert s [] = refl
length-insert s (x ∷ ss) = ap suc (length-insert s ss)

pub length-without_aged :
    (timeout now : ℕ) (ss : List SlaveSession)
    → length (without_aged timeout now ss) + aged_count timeout now ss ≡ length ss
unfolding without_aged aged_count
length-without_aged timeout now [] = omega arith
length-without_aged timeout now (s ∷ ss) = ground (arith, length-without_aged timeout now ss)

pub get-without_aged :
    (timeout now : ℕ) (k : Key) (ss : List SlaveSession)
    → get k ss ≡ none
    → get k (without_aged timeout now ss) ≡ none
unfolding without_aged get
get-without_aged timeout now k [] h = refl
get-without_aged timeout now k (s ∷ ss) h = ground (arith, get-without_aged timeout now k ss)

pub without_aged-Distinct :
    (timeout now : ℕ) (ss : List SlaveSession)
    → Distinct ss
    → Distinct (without_aged timeout now ss)
unfolding without_aged
without_aged-Distinct timeout now [] d = tt
without_aged-Distinct timeout now (s ∷ ss) d = ground (
  arith,
  without_aged-Distinct timeout now ss d.1,
  get-without_aged timeout now s.port_identity ss,
)

pub get-delete_missing :
    (k j : Key) (ss : List SlaveSession) → get j ss ≡ none → get j (delete k ss) ≡ none
unfolding delete get
get-delete_missing k j [] h = refl
get-delete_missing k j (s ∷ ss) h = ground (arith, get-delete_missing k j ss)

pub delete-Distinct : (k : Key) (ss : List SlaveSession) → Distinct ss → Distinct (delete k ss)
unfolding delete
delete-Distinct k [] d = tt
delete-Distinct k (s ∷ ss) d =
    ground (arith, delete-Distinct k ss d.1, get-delete_missing k s.port_identity ss)

pub length-delete :
    (k : Key) (ss : List SlaveSession) → get k ss ≢ none → suc (length (delete k ss)) ≡ length ss
unfolding delete get
length-delete k [] h = absurd (h refl)
length-delete k (s ∷ ss) h = ground (arith, length-delete k ss)

-- The oldest session is one of the table's.
pub get-oldest :
    (best : SlaveSession) (ss : List SlaveSession)
    → get (oldest best ss).port_identity (best ∷ ss) ≢ none
unfolding oldest get
get-oldest best [] = ground (arith, key_eq_refl best.port_identity)
get-oldest best (s ∷ ss) = ground (arith, get-oldest best ss, get-oldest s ss)

pub length-evict_oldest :
    (timeout now : ℕ) (ss : List SlaveSession)
    → 0 < length ss
    → length (evict_oldest timeout now ss) < length ss
unfolding evict_oldest
length-evict_oldest timeout now [] h = absurd (omega arith)
length-evict_oldest timeout now (s ∷ ss) h = ground (
  arith,
  length-without_aged timeout now (s ∷ ss),
  length-delete (oldest s ss).port_identity (s ∷ ss) (get-oldest s ss),
)

pub evict_oldest-Distinct :
    (timeout now : ℕ) (ss : List SlaveSession)
    → Distinct ss
    → Distinct (evict_oldest timeout now ss)
unfolding evict_oldest
evict_oldest-Distinct timeout now [] d = tt
evict_oldest-Distinct timeout now (s ∷ ss) d = ground (
  arith,
  without_aged-Distinct timeout now (s ∷ ss) d,
  delete-Distinct (oldest s ss).port_identity (s ∷ ss) d,
)

port-allow :
    (b : TokenBucket) (s : SlaveSession) (now : ℕ)
    → ((allow b s now).0.port_identity ≡ s.port_identity)
      × ((allow b s now).0.last_seen ≡ s.last_seen)
      × ((allow b s now).0.src_mac ≡ s.src_mac)
      × ((allow b s now).0.delay_req_count ≡ s.delay_req_count)
      × ((allow b s now).0.delay_resp_dropped ≡ s.delay_resp_dropped)
unfolding allow
port-allow b s now = ground arith

-- What admission leaves of a session.
pub admit_lem :
    (b : TokenBucket) (s : SlaveSession) (now : ℕ)
    → let (s', allowed) = admit b s now in
      (s'.port_identity ≡ s.port_identity)
      × (s'.last_seen ≡ s.last_seen)
      × (s'.src_mac ≡ s.src_mac)
      × (s'.delay_req_count ≡ s.delay_req_count + 1)
      × (s'.delay_resp_dropped ≡ s.delay_resp_dropped + (if allowed then 0 else 1))
unfolding admit
admit_lem b s now =
    ground (arith, port-allow b (record s { delay_req_count = s.delay_req_count + 1 }) now)

pub get-insert :
    (s : SlaveSession) (k : Key) (ss : List SlaveSession)
    → get k (insert s ss) ≡ elim (get k ss) [
      | some x ↦ some x
      | none ↦ if key_eq s.port_identity k then some s else none
    ]
unfolding get insert
get-insert s k [] = refl
get-insert s k (x ∷ ss) = ground (arith, get-insert s k ss)

pub insert-Distinct :
    (s : SlaveSession) (ss : List SlaveSession)
    → get s.port_identity ss ≡ none
    → Distinct ss
    → Distinct (insert s ss)
unfolding insert get
insert-Distinct s [] h d = ground arith
insert-Distinct s (x ∷ ss) h d = ground (
  arith,
  insert-Distinct s ss,
  get-insert s x.port_identity ss,
  key_eq_iff x.port_identity s.port_identity,
  key_eq_iff s.port_identity x.port_identity,
)

-- A changed session keeps its key, and the other entries are the same.
pub get-update :
    (s : SlaveSession) (k j : Key) (ss : List SlaveSession)
    → s.port_identity ≡ k
    → get j (update k s ss)
      ≡ elim (get j ss) [ none ↦ none | some x ↦ if key_eq k j then some s else some x ]
unfolding get update
get-update s k j [] e = refl
get-update s k j (x ∷ ss) e = ground (
  arith,
  get-update s k j ss,
  key_eq_iff x.port_identity k,
  key_eq_iff x.port_identity j,
  key_eq_iff k j,
)

pub update-Distinct :
    (s : SlaveSession) (k : Key) (ss : List SlaveSession)
    → s.port_identity ≡ k
    → Distinct ss
    → Distinct (update k s ss)
unfolding update
update-Distinct s k [] e d = tt
update-Distinct s k (x ∷ ss) e d = ground (
  arith,
  update-Distinct s k ss e d.1,
  get-update s k x.port_identity ss e,
  key_eq_iff x.port_identity k,
)

-- The key of the session that is found.
pub get-key :
    (k : Key) (ss : List SlaveSession) (s : SlaveSession) → get k ss ≡ some s → s.port_identity ≡ k
unfolding get
get-key k [] s h = cc
get-key k (x ∷ ss) s h = ground (arith, get-key k ss s, key_eq_iff x.port_identity k)
