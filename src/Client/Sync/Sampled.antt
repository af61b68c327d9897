-- ===== src/Client/Sync/Sampled.antt =====
-- src/ptp_client/ptp/client.py: what wait_sync_sample returns, on each of its ways to a sample.
use ptp_client.Prelude.{
  ℕ, ◌≡◌, refl, ◌⊎◌, inl, inr, List, [], ◌∷◌, All, ℤ, pos, eq_ℤ, eq_ℤ→eq, Bool, true, false, ltb_ℤ,
  and_true, Bool-cases, Result-cases, Option, none, some, ok, if◌then◌else◌,
}
use ptp_client.Timestamp.{PtpTimestamp}
use ptp_client.Header.{PtpHeader}
use ptp_client.Packet.{parse_sync_body, parse_follow_up_body}
use ptp_client.Client.{Datagram, pop_matching}
use ptp_client.Client.Buffer.{pop_matching_lem, Scanned}
use ptp_client.Client.World.{World, finished, Failure, Ends, with_buffer}
use ptp_client.Client.Quiet.{IsQuiet, IsQuiet-trans, IsQuiet-buffer}
use mathlib.Core.Path.{subst}
use ptp_client.Client.Received.{In, Received, Taken-In, Taken-rest}
use ptp_client.Client.Sync.{
  SyncSample, to_posix, is_of, sync_type, follow_up_type, accept_pair, is_follow_up_of,
  build_two_step_sync_sample, latest, candidates, take_follow_up, degraded_sample, two_step,
  as_sync,
}

-- A datagram of this domain and type, with this sequence id.
pub record IsOf (domain : ℕ) (mt seq : ℤ) (h : PtpHeader) : Type 0 where
  pub in_domain : h.domain_number ≡ pos domain
  pub typed : h.message_type ≡ mt
  pub numbered : h.sequence_id ≡ seq

-- A received Sync that carries its own time.
pub record OneStep (w : World) (x : SyncSample) : Type 0 where
  pub sync : Datagram
  pub received : Received sync w
  pub kind : IsOf w.domain sync_type sync.header.sequence_id sync.header
  pub flagged : two_step sync.header ≡ false
  pub origin : PtpTimestamp
  pub parsed : parse_sync_body sync.payload sync.header ≡ ok origin
  pub sample : x ≡ record {
    sync_udp = sync.payload;
    follow_up_udp = none;
    sync_header = sync.header;
    follow_up_header = none;
    t1 = to_posix origin;
    t2 = sync.wall;
    one_step = true;
  }

-- A received Sync and a received Follow_Up of one sequence id; the time is the Follow_Up's.
pub record TwoStep (w : World) (x : SyncSample) : Type 0 where
  pub sync : Datagram
  pub sync_received : Received sync w
  pub sync_kind : IsOf w.domain sync_type sync.header.sequence_id sync.header
  pub follow_up : Datagram
  pub follow_up_received : Received follow_up w
  pub paired : IsOf w.domain follow_up_type sync.header.sequence_id follow_up.header
  pub origin : PtpTimestamp
  pub parsed : parse_follow_up_body follow_up.payload follow_up.header ≡ ok origin
  pub sample : x ≡ record {
    sync_udp = sync.payload;
    follow_up_udp = some follow_up.payload;
    sync_header = sync.header;
    follow_up_header = some follow_up.header;
    t1 = to_posix origin;
    t2 = sync.wall;
    one_step = false;
  }

-- A received Follow_Up without its Sync: its header with the type changed stands for that of the Sync,
-- and the time of its own arrival for that of the Sync's.
pub record Degraded (w : World) (x : SyncSample) : Type 0 where
  pub follow_up : Datagram
  pub received : Received follow_up w
  pub kind : IsOf w.domain follow_up_type follow_up.header.sequence_id follow_up.header
  pub origin : PtpTimestamp
  pub parsed : parse_follow_up_body follow_up.payload follow_up.header ≡ ok origin
  pub sample : x ≡ record {
    sync_udp = follow_up.payload;
    follow_up_udp = some follow_up.payload;
    sync_header = as_sync follow_up.header;
    follow_up_header = some follow_up.header;
    t1 = to_posix origin;
    t2 = follow_up.wall;
    one_step = false;
  }

abbrev pub Sampled : World → SyncSample → World → Type 0
Sampled w x v = (OneStep w x ⊎ (TwoStep w x ⊎ Degraded w x)) × IsQuiet w v

abbrev pub Quiet : World → Failure → World → Type 0
Quiet w e v = IsQuiet w v

abbrev pub Tried : World → Option SyncSample → World → Type 0
Tried w none v = IsQuiet w v
Tried w (some x) v = Sampled w x v

pub is_of_lem :
    (domain : ℕ) (mt : ℤ) (d : Datagram)
    → is_of domain mt d ≡ true
    → IsOf domain mt d.header.sequence_id d.header
is_of_lem domain mt d h =
    let (domain_eq, type_eq) =
      and_true (eq_ℤ d.header.domain_number (pos domain)) (eq_ℤ d.header.message_type mt) h in
    record { in_domain = eq_ℤ→eq _ _ domain_eq; typed = eq_ℤ→eq _ _ type_eq; numbered = refl }

pub accept_pair_lem :
    (domain : ℕ) (mt : ℤ) (h : PtpHeader) (d : Datagram)
    → accept_pair domain mt h d ≡ true
    → IsOf domain mt h.sequence_id d.header
unfolding accept_pair
accept_pair_lem domain mt h d e =
    let (kind, more) = and_true (is_of domain mt d) _ e in
    let (numbered, clocked) = and_true (eq_ℤ d.header.sequence_id h.sequence_id) _ more in
    let k = is_of_lem domain mt d kind in
    record { in_domain = k.in_domain; typed = k.typed; numbered = eq_ℤ→eq _ _ numbered }

follow_up_lem :
    (domain : ℕ) (seq : ℤ) (d : Datagram)
    → is_follow_up_of domain seq d ≡ true
    → IsOf domain follow_up_type seq d.header
unfolding is_follow_up_of
follow_up_lem domain seq d e =
    let (kind, numbered) = and_true (is_of domain follow_up_type d) _ e in
    let k = is_of_lem domain follow_up_type d kind in
    record { in_domain = k.in_domain; typed = k.typed; numbered = eq_ℤ→eq _ _ numbered }

-- The candidates are the Follow_Ups of the buffer.
pub candidates_of :
    (P : Datagram → Type 0) (domain : ℕ) (ds : List Datagram)
    → ((d : Datagram) → In d ds → is_of domain follow_up_type d ≡ true → P d)
    → All P (candidates domain ds)
unfolding candidates
candidates_of P domain [] h = tt
candidates_of P domain (d ∷ ds) h =
    let rest = candidates_of P domain ds (λ x k e. h x (inr k) e) in
    elim (Bool-cases (is_of domain follow_up_type d)) [
      | inl yes_of ↦ rw (candidates, yes_of) (h d (inl refl) yes_of, rest)
      | inr no_of ↦ rw (candidates, no_of) rest
    ]

abbrev pub OfAll : (Datagram → Type 0) → Option Datagram → Type 0
OfAll P none = Unit
OfAll P (some d) = P d

either_of :
    (P : Datagram → Type 0) (b : Bool) (x y : Datagram)
    → P x
    → P y
    → OfAll P (if b then some x else some y)
either_of P true x y p q = p
either_of P false x y p q = q

greater_of :
    (P : Datagram → Type 0) (d : Datagram) (o : Option Datagram)
    → P d
    → OfAll P o
    → OfAll P (elim o [
      | none ↦ some d
      | some x ↦ if ltb_ℤ d.header.sequence_id x.header.sequence_id then some x else some d
    ])
greater_of P d none p q = p
greater_of P d (some x) p q = either_of P (ltb_ℤ d.header.sequence_id x.header.sequence_id) x d q p

pub latest_of : (P : Datagram → Type 0) (ds : List Datagram) → All P ds → OfAll P (latest ds)
unfolding latest
latest_of P [] h = tt
latest_of P (d ∷ ds) (p, h) = greater_of P d (latest ds) p (latest_of P ds h)

-- A received Follow_Up of that sequence id.
abbrev pub Chosen : ℤ → World → Datagram → World → Type 0
Chosen seq w d v = IsOf w.domain follow_up_type seq d.header × Received d w × IsQuiet w v

pub later-IsOf :
    (w u : World) (mt seq : ℤ) (h : PtpHeader)
    → IsQuiet w u
    → IsOf u.domain mt seq h
    → IsOf w.domain mt seq h
later-IsOf w u mt seq h q kind = subst (λ n. IsOf n mt seq h) q.same_domain kind

pub take_follow_up_lem :
    (fu : Datagram) (w u : World)
    → IsQuiet w u
    → IsOf w.domain follow_up_type fu.header.sequence_id fu.header
    → Received fu w
    → Ends (Chosen fu.header.sequence_id w) (Quiet w) (take_follow_up fu u)
unfolding take_follow_up
take_follow_up_lem fu w u q kind from =
    taken (pop_matching accept u.buffer) (pop_matching_lem accept u.buffer)
  where
    accept : Datagram → Bool
    accept = is_follow_up_of u.domain fu.header.sequence_id

    taken :
        (o : Option (Datagram × List Datagram))
        → Scanned accept u.buffer o
        → Ends
            (Chosen fu.header.sequence_id w)
            (Quiet w)
            (elim o [ none ↦ finished fu u | some (d, rest) ↦ finished d (with_buffer rest u) ])
    taken none scan = (kind, from, q)
    taken (some (d, rest)) scan =
        let (before, after, split, left, accepted, others) = scan in
        (
          later-IsOf w u _ _ d.header q (follow_up_lem u.domain fu.header.sequence_id d accepted),
          q.received d (inl (Taken-In accept u.buffer d rest scan)),
          IsQuiet-trans w u (with_buffer rest u) q
              (IsQuiet-buffer rest u (Taken-rest accept u.buffer d rest scan)),
        )

-- A two-step sample of a received Sync and a received Follow_Up.
pub two_step_lem :
    (w v : World) (s f : Datagram)
    → IsQuiet w v
    → Received s w
    → IsOf w.domain sync_type s.header.sequence_id s.header
    → Received f w
    → IsOf w.domain follow_up_type s.header.sequence_id f.header
    → Ends
        (Sampled w)
        (Quiet w)
        (build_two_step_sync_sample s.header s.payload s.wall f.header f.payload v)
unfolding build_two_step_sync_sample
two_step_lem w v s f quiet s_from s_kind f_from f_kind =
    elim (Result-cases (parse_follow_up_body f.payload f.header)) [
      | inl (e, refused) ↦ rw (refused) quiet
      | inr (t, read_t) ↦ rw (read_t) (
        inr (
            inl (record {
              sync = s;
              sync_received = s_from;
              sync_kind = s_kind;
              follow_up = f;
              follow_up_received = f_from;
              paired = f_kind;
              origin = t;
              parsed = read_t;
              sample = refl;
            })),
        quiet,
      )
    ]

pub degraded_lem :
    (w v : World) (fu : Datagram)
    → IsQuiet w v
    → Received fu w
    → IsOf w.domain follow_up_type fu.header.sequence_id fu.header
    → Ends (Sampled w) (Quiet w) (degraded_sample fu v)
unfolding degraded_sample
degraded_lem w v fu quiet from kind =
    elim (Result-cases (parse_follow_up_body fu.payload fu.header)) [
      | inl (e, refused) ↦ rw (refused) quiet
      | inr (t, read_t) ↦ rw (read_t) (
        inr (
            inr (record {
              follow_up = fu;
              received = from;
              kind = kind;
              origin = t;
              parsed = read_t;
              sample = refl;
            })),
        quiet,
      )
    ]
