-- ===== src/Master/Session/Register.antt =====
-- The calls of the table: registering or touching a slave, ageing out, and eviction.
use ptp_client.Prelude.{
  ℕ, ◌≤◌, ◌<◌, ◌≡◌, ◌≢◌, refl, ◌∙◌, ◌⊎◌, inl, inr, List, [], ◌∷◌, arith, false, leb, length, none,
  some, Option-cases, Bool-cases,
}
use ptp_client.Wire.{Bytes}
use ptp_client.Header.{PortIdentity}
use ptp_client.Master.Session.{
  SlaveSession, Key, SessionTable, get, oldest, evict_oldest, fresh_session, admit, Registered,
  register_new, touch, register_or_touch,
}
use ptp_client.Master.Session.Table.{
  Distinct, IsTable, key_eq_iff, key_eq_refl, length-update, length-insert, get-without_aged,
  length-evict_oldest, evict_oldest-Distinct, admit_lem, get-insert, insert-Distinct, get-update,
  update-Distinct, get-key, get-delete_missing,
}

-- The call leaves a well-formed table, counts no overflow, and returns the entry of `p`, seen now
-- from `mac`.
abbrev pub Admits : SessionTable → PortIdentity → Bytes → ℕ → Registered → Type 0
Admits t p mac now r =
    IsTable r.table
    × (r.table.overflow_count ≡ t.overflow_count)
    × ((s : SlaveSession) × (r.session ≡ some s)
        × (get p r.table.sessions ≡ some s)
        × (s.port_identity ≡ p)
        × (s.last_seen ≡ now)
        × (s.src_mac ≡ mac))

-- A new slave among `ss`, the sessions left by eviction.
module _ (t : SessionTable) (ss : List SlaveSession) (p : PortIdentity) (mac : Bytes)
    (now : ℕ) where
  pub register_new_lem :
      1 ≤ t.max_slaves
      → length ss < t.max_slaves
      → Distinct ss
      → get p ss ≡ none
      → Admits t p mac now (register_new t ss p mac now)
  unfolding register_new
  register_new_lem pos_max room d fresh =
      let s = (admit t.bucket (fresh_session p mac now) now).0 in
      let keep = admit_lem t.bucket (fresh_session p mac now) now in
      rw (small) (
        record {
          positive = pos_max;
          bounded = omega (arith, length-insert s ss);
          distinct = insert-Distinct s ss (rw (keep.0) fresh) d;
        },
        refl,
        (
          s,
          refl,
          get-insert s p ss ∙ rw (fresh) (rw (keep.0, key_eq_refl p)),
          keep.0,
          keep.1,
          keep.2,
        ),
      )
    where
      small : leb t.max_slaves (length ss) ≡ false
      small = ground arith

  pub touch_lem :
      (known : SlaveSession)
      → IsTable t
      → get p t.sessions ≡ some known
      → Admits t p mac now (touch t known p mac now)
  unfolding touch
  touch_lem known v found =
      let s = (admit t.bucket (record known { last_seen = now; src_mac = mac }) now).0 in
      let keep = admit_lem t.bucket (record known { last_seen = now; src_mac = mac }) now in
      let key : s.port_identity ≡ p = keep.0 ∙ get-key p t.sessions known found in
      (
        record {
          positive = v.positive;
          bounded = omega (arith, length-update p s t.sessions, v.bounded);
          distinct = update-Distinct s p t.sessions key v.distinct;
        },
        refl,
        (
          s,
          refl,
          get-update s p p t.sessions key ∙ rw found (rw (key_eq_refl p)),
          key,
          keep.1,
          keep.2,
        ),
      )

get-evict_oldest :
    (timeout now : ℕ) (k : Key) (ss : List SlaveSession)
    → get k ss ≡ none
    → get k (evict_oldest timeout now ss) ≡ none
unfolding evict_oldest
get-evict_oldest timeout now k [] h = h
get-evict_oldest timeout now k (s ∷ ss) h = ground (
  arith,
  get-without_aged timeout now k (s ∷ ss) h,
  get-delete_missing (oldest s ss).port_identity k (s ∷ ss) h,
)

-- On a well-formed table a Delay_Req never overflows it: the sender always has an entry
-- afterwards, with its last time and address, within the bound and with distinct keys.
pub register_or_touch_lem :
    (t : SessionTable) (p : PortIdentity) (mac : Bytes) (now : ℕ)
    → IsTable t
    → Admits t p mac now (register_or_touch t p mac now)
unfolding register_or_touch
register_or_touch_lem t p mac now v = elim (Option-cases (get p t.sessions)) [
  | inr (known, found) ↦ rw (found, register_or_touch) (touch_lem t [] p mac now known v found)
  | inl missing ↦ elim (Bool-cases (leb t.max_slaves (length t.sessions))) [
    | inl full ↦
        rw (missing, register_or_touch)
          (rw full (
            register_new_lem t (evict_oldest t.session_timeout now t.sessions) p mac now v.positive
              (ground (
                arith,
                length-evict_oldest t.session_timeout now t.sessions,
                v.positive,
                v.bounded,
              ))
              (evict_oldest-Distinct t.session_timeout now t.sessions v.distinct)
              (get-evict_oldest t.session_timeout now p t.sessions missing)))
    | inr space ↦
        rw (missing, register_or_touch)
          (rw space
            (register_new_lem t t.sessions p mac now v.positive (ground arith) v.distinct missing))
  ]
]

-- While there is room, or for a slave that is known, the entries of all other slaves stay.
pub register_others :
    (t : SessionTable) (p j : PortIdentity) (mac : Bytes) (now : ℕ)
    → (length t.sessions < t.max_slaves) ⊎ (get p t.sessions ≢ none)
    → p ≢ j
    → get j (register_or_touch t p mac now).table.sessions ≡ get j t.sessions
unfolding register_or_touch touch register_new
register_others t p j mac now h ne = elim (Option-cases (get p t.sessions)) [
  | inr (known, found) ↦
      let b = record known { last_seen = now; src_mac = mac } in
      rw (found, register_or_touch)
        (ground (
          arith,
          get-update (admit t.bucket b now).0 p j t.sessions
              ((admit_lem t.bucket b now).0 ∙ get-key p t.sessions known found),
          key_eq_iff p j,
        ))
  | inl missing ↦
      let b = fresh_session p mac now in
      rw (missing, register_or_touch)
        (ground (
          arith,
          get-insert (admit t.bucket b now).0 j t.sessions,
          (admit_lem t.bucket b now).0,
          key_eq_iff p j,
        ))
]
