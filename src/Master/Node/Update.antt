-- ===== src/Master/Node/Update.antt =====
-- Runtime reconfiguration.
use ptp_client.Prelude.{
  ◌+◌, ◌≡◌, refl, inl, inr, List, ◌∷◌, Bool-cases, Result-cases, true, ℤ, Option, none, some,
  Result, ok, err, value_error, ◌⊎◌, false,
}
use ptp_client.Wire.{Bytes}
use ptp_client.Header.{PortIdentity}
use ptp_client.Header.Identity.{IsIdentity, port_identity-IsIdentity}
use ptp_client.Master.Config.{MasterConfig, validate}
use ptp_client.Master.Config.Valid.{IsConfig, IdentityFits, validate_iff}
use ptp_client.Master.Node.{
  Master, Change, has_immutable, replaced, new_source, reconfigured, apply_runtime_update,
}
use ptp_client.Master.Node.Invariant.{IsMaster, valid_port}

-- What an update leaves alone.
abbrev pub OnlyConfig : Master → Master → Type 0
OnlyConfig m m' =
    (m'.sessions ≡ m.sessions)
    × (m'.resp_queue ≡ m.resp_queue)
    × (m'.stats ≡ m.stats)
    × (m'.src_mac ≡ m.src_mac)
    × (m'.wire ≡ m.wire)
    × (m'.seq_announce ≡ m.seq_announce)
    × (m'.seq_sync ≡ m.seq_sync)

new_source-IsIdentity :
    (m : Master) (i : Option Bytes) (port : ℤ) (p : PortIdentity)
    → new_source m i port ≡ ok p
    → IsIdentity p
unfolding new_source
new_source-IsIdentity m none port p made = port_identity-IsIdentity _ _ p made
new_source-IsIdentity m (some identity) port p made = port_identity-IsIdentity _ _ p made

-- A configuration that `validate` accepts can always be put in place.
new_source_lem :
    (m : Master) (c : MasterConfig)
    → IsMaster m
    → IsConfig c
    → (p : PortIdentity) × (new_source m c.identity c.port ≡ ok p)
unfolding new_source
new_source_lem m c w v = go c.identity v.identity
  where
    go : (i : Option Bytes) → IdentityFits i → (p : PortIdentity) × (new_source m i c.port ≡ ok p)
    go none fits =
        let (p, made, _) =
          valid_port m.source_port.clock_identity c.port w.source.identity_length v.port in
        (p, made)
    go (some identity) fits =
        let (p, made, _) = valid_port identity c.port fits.0 v.port in (p, made)

-- Refused for a change that is not possible in a running master, for one that cannot be made, or
-- since the changed configuration is not valid; or put in place.
abbrev pub Updated : Master → List Change → Result Master → Type 0
Updated m changes (err e) =
    ((has_immutable changes ≡ true) × (e ≡ value_error))
    ⊎ ((has_immutable changes ≡ false)
        × ((replaced changes m.cfg ≡ err e)
            ⊎ ((c : MasterConfig) × (replaced changes m.cfg ≡ ok c) × (validate c ≡ err e))))
Updated m changes (ok m') =
    (has_immutable changes ≡ false)
    × (replaced changes m.cfg ≡ ok m'.cfg)
    × (validate m'.cfg ≡ ok tt)
    × (m'.interval_gen ≡ m.interval_gen + 1)
    × OnlyConfig m m'
    × IsMaster m'

-- An update with at least one change raises only for a reason: with ValueError if one of them is not
-- possible while the master runs, else with what a change raises that cannot be made, else with what
-- `validate` raises on the result. Otherwise it puts the new configuration in place: `validate` accepts
-- it, the master stays well-formed, the TX loop is told to rebuild its schedulers, and sessions, queue,
-- statistics and sequence numbers stay.
pub apply_runtime_update_lem :
    (m : Master) (change : Change) (rest : List Change)
    → IsMaster m
    → Updated m (change ∷ rest) (apply_runtime_update m (change ∷ rest))
unfolding apply_runtime_update reconfigured new_source_lem
apply_runtime_update_lem m change rest w = elim (Bool-cases (has_immutable (change ∷ rest))) [
  | inl refused ↦ rw (apply_runtime_update, refused) (inl (refused, refl))
  | inr mutable ↦ elim (Result-cases (replaced (change ∷ rest) m.cfg)) [
    | inl (e, raised) ↦ rw (apply_runtime_update, mutable, raised) (inr (mutable, inl raised))
    | inr (c, patched) ↦ elim (Result-cases (validate c)) [
      | inl (e, raised) ↦
          rw (apply_runtime_update, mutable, patched, raised)
            (inr (mutable, inr (c, patched, raised)))
      | inr (u, valid) ↦
          let config = (validate_iff c).0 valid in
          let (p, made) = new_source_lem m c w config in
          rw (apply_runtime_update, mutable, patched, valid, reconfigured, made)
            (
              mutable,
              patched,
              valid,
              refl,
              (refl, refl, refl, refl, refl, refl, refl),
              record {
                config = config;
                table = w.table;
                source = new_source-IsIdentity m c.identity c.port p made;
                mac = w.mac;
                queue_bounded = w.queue_bounded;
                queue_fits = w.queue_fits;
              },
            )
    ]
  ]
]
