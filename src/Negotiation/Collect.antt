-- ===== src/Negotiation/Collect.antt =====
-- src/ptp_client/ptp/g82752_unicast.py: what _collect_grants_until returns, and what makes it raise.
use ptp_client.Prelude.{
  ℕ, ◌<◌, ◌≡◌, inl, inr, ◌==◌, List, [], ◌∷◌, All, arith, Bool-cases, Result-cases, Option, none,
  some, if◌then◌else◌, pos,
}
use ptp_client.Header.{value, signaling}
use ptp_client.Signaling.{ParsedGrant, extract_grants_from_signaling_udp}
use ptp_client.Client.{Datagram}
use ptp_client.Client.Received.{In}
use ptp_client.Client.Sync.{is_of}
use ptp_client.Negotiation.{
  relevant, Recorded, refused, recorded, record_grants, grant_for, grants_for, Scan, denial, broken,
  gathered, keeping, scan_one, scan_buffer,
}

-- A grant of some duration.
abbrev pub Granting : ParsedGrant → Type 0
Granting g = 0 < g.duration_sec

-- One grant of some duration for each message type, in their order.
abbrev pub Granted : List ℕ → List ParsedGrant → Type 0
Granted [] [] = Unit
Granted [] (g ∷ gs) = ⊥
Granted (mt ∷ more) [] = ⊥
Granted (mt ∷ more) (g ∷ gs) = (g.pt_message_type ≡ mt) × Granting g × Granted more gs

abbrev AllGranting : Recorded → Type 0
AllGranting (refused mt) = Unit
AllGranting (recorded by_mt) = All Granting by_mt

record_step :
    (g : ParsedGrant) (o : Recorded)
    → (Granting g → AllGranting o)
    → AllGranting (if g.duration_sec == 0 then refused g.pt_message_type else o)
record_step g o h = elim (Bool-cases (g.duration_sec == 0)) [
  | inl none_at_all ↦ rw (none_at_all) tt
  | inr some_time ↦ rw (some_time) (h (ground arith))
]

record_lem :
    (by_mt gs : List ParsedGrant) → All Granting by_mt → AllGranting (record_grants by_mt gs)
unfolding record_grants
record_lem by_mt [] h = h
record_lem by_mt (g ∷ gs) h =
    record_step g (record_grants (g ∷ by_mt) gs)
      (λ some_time. record_lem (g ∷ by_mt) gs (some_time, h))

-- What a pass gathers is granted, and what it keeps was in the buffer.
abbrev pub ScanGranting : List Datagram → Scan → Type 0
ScanGranting ds (denial mt) = Unit
ScanGranting ds (broken e) = Unit
ScanGranting ds (gathered by_mt kept) = All Granting by_mt × ((d : Datagram) → In d kept → In d ds)

keeping_lem :
    (d : Datagram) (ds : List Datagram) (o : Scan)
    → ScanGranting ds o
    → ScanGranting (d ∷ ds) (keeping d o)
keeping_lem d ds (denial mt) h = tt
keeping_lem d ds (broken e) h = tt
keeping_lem d ds (gathered by_mt kept) h =
    (h.0, λ x k. elim k [ inl e ↦ inl e | inr l ↦ inr (h.1 x l) ])

skipping_lem :
    (d : Datagram) (ds : List Datagram) (o : Scan) → ScanGranting ds o → ScanGranting (d ∷ ds) o
skipping_lem d ds (denial mt) h = tt
skipping_lem d ds (broken e) h = tt
skipping_lem d ds (gathered by_mt kept) h = (h.0, λ x k. inr (h.1 x k))

scan_one_lem :
    (d : Datagram) (ds : List Datagram) (by_mt gs : List ParsedGrant)
    (later : List ParsedGrant → Scan)
    → All Granting by_mt
    → ((l : List ParsedGrant) → All Granting l → ScanGranting ds (later l))
    → ScanGranting (d ∷ ds) (scan_one d by_mt gs later)
scan_one_lem d ds by_mt [] later h next = keeping_lem d ds (later by_mt) (next by_mt h)
scan_one_lem d ds by_mt (g ∷ gs) later h next =
    go (record_grants by_mt (g ∷ gs)) (record_lem by_mt (g ∷ gs) h)
  where
    go :
        (o : Recorded)
        → AllGranting o
        → ScanGranting (d ∷ ds) (elim o [ refused mt ↦ denial mt | recorded l ↦ later l ])
    go (refused mt) k = tt
    go (recorded l) k = skipping_lem d ds (later l) (next l k)

pub scan_lem :
    (domain : ℕ) (need : List ℕ) (by_mt : List ParsedGrant) (ds : List Datagram)
    → All Granting by_mt
    → ScanGranting ds (scan_buffer domain need by_mt ds)
unfolding scan_buffer
scan_lem domain need by_mt [] h = (h, λ d k. k)
scan_lem domain need by_mt (d ∷ ds) h = elim (Bool-cases (is_of domain (pos (value signaling)) d)) [
  | inr other ↦ rw (scan_buffer, other) (keeping_lem d ds _ (scan_lem domain need by_mt ds h))
  | inl here ↦ elim (Result-cases (extract_grants_from_signaling_udp d.payload)) [
    | inl (e, raised) ↦ rw (scan_buffer, here, raised) tt
    | inr (grants, found) ↦
        rw (scan_buffer, here, found)
          (scan_one_lem d ds by_mt (relevant need grants) _ h (λ l k. scan_lem domain need l ds k))
  ]
]

-- What a look-up finds is of its type, and as the others.
abbrev FoundFor : ℕ → Option ParsedGrant → Type 0
FoundFor mt none = Unit
FoundFor mt (some g) = (g.pt_message_type ≡ mt) × Granting g

grant_step :
    (mt : ℕ) (g : ParsedGrant) (o : Option ParsedGrant)
    → Granting g
    → FoundFor mt o
    → FoundFor mt (if g.pt_message_type == mt then some g else o)
grant_step mt g o k h = elim (Bool-cases (g.pt_message_type == mt)) [
  | inl same ↦ rw (same) (ground arith, k)
  | inr other ↦ rw (other) h
]

grant_for_lem : (mt : ℕ) (gs : List ParsedGrant) → All Granting gs → FoundFor mt (grant_for mt gs)
unfolding grant_for
grant_for_lem mt [] h = tt
grant_for_lem mt (g ∷ gs) (k, h) = grant_step mt g (grant_for mt gs) k (grant_for_lem mt gs h)

abbrev pub AllGranted : List ℕ → Option (List ParsedGrant) → Type 0
AllGranted need none = Unit
AllGranted need (some gs) = Granted need gs

grants_step :
    (mt : ℕ) (more : List ℕ) (o : Option ParsedGrant) (os : Option (List ParsedGrant))
    → FoundFor mt o
    → AllGranted more os
    → AllGranted
        (mt ∷ more)
        (elim o [ none ↦ none | some g ↦ elim os [ none ↦ none | some gs ↦ some (g ∷ gs) ] ])
grants_step mt more none os k h = tt
grants_step mt more (some g) none k h = tt
grants_step mt more (some g) (some gs) (k, l) h = (k, l, h)

pub grants_for_lem :
    (need : List ℕ) (by_mt : List ParsedGrant)
    → All Granting by_mt
    → AllGranted need (grants_for need by_mt)
unfolding grants_for
grants_for_lem [] by_mt h = tt
grants_for_lem (mt ∷ more) by_mt h =
    grants_step mt more (grant_for mt by_mt) (grants_for more by_mt) (grant_for_lem mt by_mt h)
      (grants_for_lem more by_mt h)
