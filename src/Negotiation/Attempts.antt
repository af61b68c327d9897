-- ===== src/Negotiation/Attempts.antt =====
-- src/ptp_client/ptp/g82752_unicast.py: _collect_grants_until, and the test of what it returns.
use mathlib.Core.Path.{subst}
use ptp_client.Prelude.{
  ℕ, ◌^◌, ◌%◌, ◌<◌, ◌≡◌, refl, ◌⊎◌, inl, inr, ◌==◌, List, [], ◌∷◌, All, arith, false, Bool-cases,
  Option, none, some, if◌then◌else◌,
}
use ptp_client.Signaling.{ParsedGrant}
use ptp_client.Client.World.{finished, Ends}
use ptp_client.Negotiation.{
  Contract, Session, collect_grants_until, last_grant_for, expect_grants_ok,
}
use ptp_client.Negotiation.Within.{Bounded}
use ptp_client.Negotiation.Collect.{Granting, Granted}
use ptp_client.Negotiation.Turns.{Collected, collect_turns_lem}

-- What `_collect_grants_until` returns is one grant of a positive duration for each message type that is
-- expected, in their order. It sends nothing and leaves the contract alone, also where it raises.
pub collect_grants_until_lem :
    (c : Contract) (need : List ℕ) (deadline : ℕ) (s : Session)
    → Ends (Collected need 0 s) (Bounded 0 s) (collect_grants_until c need deadline s)
unfolding collect_grants_until
collect_grants_until_lem c need deadline s =
    collect_turns_lem (c.domain_number % 2 ^ 8) need deadline [] s.client.ticks s refl tt

-- Some grant of a list is of a message type.
abbrev HasType : ℕ → List ParsedGrant → Type 0
HasType mt [] = ⊥
HasType mt (g ∷ gs) = (g.pt_message_type ≡ mt) ⊎ HasType mt gs

last_step :
    (mt : ℕ) (g : ParsedGrant) (o : Option ParsedGrant)
    → Granting g
    → (g.pt_message_type ≡ mt) ⊎ ((x : ParsedGrant) × (o ≡ some x) × Granting x)
    → (o ≡ none) ⊎ ((x : ParsedGrant) × (o ≡ some x) × Granting x)
    → (x : ParsedGrant) × (elim o [
      | some y ↦ some y
      | none ↦ if g.pt_message_type == mt then some g else none
    ]
        ≡ some x)
      × Granting x
last_step mt g o k (inr (x, e, p)) seen = (x, rw e refl, p)
last_step mt g o k (inl same) (inr (x, e, p)) = (x, rw e refl, p)
last_step mt g o k (inl same) (inl e) = (g, rw e (ground arith), k)

last_any :
    (mt : ℕ) (gs : List ParsedGrant)
    → All Granting gs
    → (last_grant_for mt gs ≡ none)
      ⊎ ((x : ParsedGrant) × (last_grant_for mt gs ≡ some x) × Granting x)
unfolding last_grant_for
last_any mt [] h = inl refl
last_any mt (g ∷ gs) (k, h) = elim (last_any mt gs h) [
  | inr (x, e, p) ↦ inr (x, rw (last_grant_for, e) refl, p)
  | inl e ↦ elim (Bool-cases (g.pt_message_type == mt)) [
    | inl same ↦ inr (g, rw (last_grant_for, e, same) refl, k)
    | inr other ↦ inl (rw (last_grant_for, e, other) refl)
  ]
]

last_has :
    (mt : ℕ) (gs : List ParsedGrant)
    → All Granting gs
    → HasType mt gs
    → (x : ParsedGrant) × (last_grant_for mt gs ≡ some x) × Granting x
unfolding last_grant_for
last_has mt [] h has = absurd has
last_has mt (g ∷ gs) (k, h) (inl same) =
    last_step mt g (last_grant_for mt gs) k (inl same) (last_any mt gs h)
last_has mt (g ∷ gs) (k, h) (inr later) =
    last_step mt g (last_grant_for mt gs) k (inr (last_has mt gs h later)) (last_any mt gs h)

Granted-all : (need : List ℕ) (gs : List ParsedGrant) → Granted need gs → All Granting gs
Granted-all [] [] h = tt
Granted-all [] (g ∷ gs) h = absurd h
Granted-all (mt ∷ more) [] h = absurd h
Granted-all (mt ∷ more) (g ∷ gs) (same, k, h) = (k, Granted-all more gs h)

Granted-types :
    (need : List ℕ) (gs : List ParsedGrant) → Granted need gs → All (λ mt. HasType mt gs) need
Granted-types [] gs h = tt
Granted-types (mt ∷ more) [] h = absurd h
Granted-types (mt ∷ more) (g ∷ gs) (same, k, h) = (inl same, widen more (Granted-types more gs h))
  where
    widen : (l : List ℕ) → All (λ m. HasType m gs) l → All (λ m. HasType m (g ∷ gs)) l
    widen [] p = tt
    widen (m ∷ ms) (p, q) = (inr p, widen ms q)

expect_all :
    (gs : List ParsedGrant) (need : List ℕ) (s : Session)
    → All Granting gs
    → All (λ mt. HasType mt gs) need
    → expect_grants_ok gs need s ≡ finished tt s
unfolding expect_grants_ok
expect_all gs [] s h types = refl
expect_all gs (mt ∷ more) s h (has, types) =
    let (x, found, k) = last_has mt gs h has in
    rw (expect_grants_ok, found, positive x.duration_sec k) (expect_all gs more s h types)
  where
    positive : (n : ℕ) → 0 < n → (n == 0) ≡ false
    positive n p = ground arith

-- The grants that `_collect_grants_until` returns pass `_expect_grants_ok`: its failures, and the
-- attempts that are made after them, do not occur.
pub expect-collect :
    (c : Contract) (need : List ℕ) (deadline : ℕ) (s v : Session) (gs : List ParsedGrant)
    → collect_grants_until c need deadline s ≡ finished gs v
    → expect_grants_ok gs need v ≡ finished tt v
expect-collect c need deadline s v gs e =
    let (granted, quiet) =
      subst (Ends (Collected need 0 s) (Bounded 0 s)) e
        (collect_grants_until_lem c need deadline s) in
    expect_all gs need v (Granted-all need gs granted) (Granted-types need gs granted)
