-- ===== src/Negotiation/Grants.antt =====
-- src/ptp_client/ptp/g82752_unicast.py: the grants that a session holds, as a dict.
use mathlib.Core.Path.{subst}
use ptp_client.Prelude.{
  ℕ, ◌<◌, ◌≡◌, ◌≢◌, ◌⊎◌, inl, inr, ◌==◌, List, [], ◌∷◌, All, arith, ltb, lt→ltb, ◌∙◌, Bool-cases,
  some, if◌then◌else◌,
}
use ptp_client.Signaling.{ParsedGrant}
use ptp_client.Negotiation.{lookup, store}
use ptp_client.Negotiation.Phases.{store_grants}
use ptp_client.Negotiation.Collect.{Granting, Granted}

-- The dict has a positive number at the key.
abbrev pub IsPositive : ℕ → List (ℕ × ℕ) → Type 0
IsPositive k m = (v : ℕ) × (lookup k m ≡ some v) × (0 < v)

pub lookup-store_self : (k v : ℕ) (m : List (ℕ × ℕ)) → lookup k (store k v m) ≡ some v
unfolding lookup store
lookup-store_self k v [] = ground arith
lookup-store_self k v ((a, x) ∷ m) = ground (arith, lookup-store_self k v m)

pub lookup-store_other :
    (k j v : ℕ) (m : List (ℕ × ℕ)) → j ≢ k → lookup j (store k v m) ≡ lookup j m
unfolding lookup store
lookup-store_other k j v [] other = ground arith
lookup-store_other k j v ((a, x) ∷ m) other = ground (arith, lookup-store_other k j v m other)

equal_or_not : (a b : ℕ) → (a ≡ b) ⊎ (a ≢ b)
equal_or_not a b = elim (Bool-cases (a == b)) [
  | inl same ↦ inl (ground arith)
  | inr other ↦ inr (λ e. ground arith)
]

store-IsPositive :
    (j k v : ℕ) (m : List (ℕ × ℕ)) → 0 < v → IsPositive j m → IsPositive j (store k v m)
store-IsPositive j k v m p (x, found, q) = elim (equal_or_not j k) [
  | inl same ↦ (v, rw same (lookup-store_self k v m), p)
  | inr other ↦ (x, lookup-store_other k j v m other ∙ found, q)
]

-- One grant, stored if its duration is positive.
abbrev with_grant : ParsedGrant → List (ℕ × ℕ) → List (ℕ × ℕ)
with_grant g m = if ltb 0 g.duration_sec then store g.pt_message_type g.duration_sec m else m

with_grant-IsPositive :
    (j : ℕ) (g : ParsedGrant) (m : List (ℕ × ℕ)) → IsPositive j m → IsPositive j (with_grant g m)
with_grant-IsPositive j g m h = elim (Bool-cases (ltb 0 g.duration_sec)) [
  | inl some_time ↦
      rw (some_time) (store-IsPositive j g.pt_message_type g.duration_sec m (ground arith) h)
  | inr no_time ↦ rw (no_time) h
]

with_grant_self :
    (g : ParsedGrant) (m : List (ℕ × ℕ))
    → Granting g
    → IsPositive g.pt_message_type (with_grant g m)
with_grant_self g m p =
    rw (lt→ltb 0 g.duration_sec p)
      (g.duration_sec, lookup-store_self g.pt_message_type g.duration_sec m, p)

pub store_grants-IsPositive :
    (j : ℕ) (gs : List ParsedGrant) (m : List (ℕ × ℕ))
    → IsPositive j m
    → IsPositive j (store_grants gs m)
unfolding store_grants
store_grants-IsPositive j [] m h = h
store_grants-IsPositive j (g ∷ gs) m h =
    store_grants-IsPositive j gs (with_grant g m) (with_grant-IsPositive j g m h)

-- Every message type that was expected has its duration in the dict.
pub store_grants_lem :
    (need : List ℕ) (gs : List ParsedGrant) (m : List (ℕ × ℕ))
    → Granted need gs
    → All (λ mt. IsPositive mt (store_grants gs m)) need
unfolding store_grants
store_grants_lem [] gs m h = tt
store_grants_lem (mt ∷ more) [] m h = absurd h
store_grants_lem (mt ∷ more) (g ∷ gs) m (same, p, h) = (
  store_grants-IsPositive mt gs (with_grant g m)
      (subst (λ k. IsPositive k (with_grant g m)) same (with_grant_self g m p)),
  store_grants_lem more gs (with_grant g m) h,
)
