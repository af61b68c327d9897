-- ===== src/Negotiation/Turns.antt =====
-- src/ptp_client/ptp/g82752_unicast.py: the turns of _collect_grants_until.
use ptp_client.Prelude.{
  ℕ, ◌+◌, ◌≤◌, ◌≡◌, refl, inl, inr, List, [], ◌∷◌, All, arith, Bool, true, false, ltb, leb,
  Bool-cases, Option, none, some,
}
use ptp_client.Signaling.{ParsedGrant}
use ptp_client.Client.{Datagram}
use ptp_client.Client.World.{
  Outcome, failed, finished, timed_out, denied, raising, Ends, bind-Ends, Tick, at_tick,
  with_buffer, with_ticks, raise, ◌>>◌, Action,
}
use ptp_client.Client.Received.{In}
use ptp_client.Client.Reaches.{Reaches-self}
use ptp_client.Client.Quiet.{IsQuiet-buffer, IsQuiet-end, IsQuiet-tick, tick_rest}
use ptp_client.Negotiation.{
  Session, with_client, bump_denial, lookup, or_zero, grants_for, Scan, denial, broken, gathered,
  scan_buffer, collect_turns,
}
use ptp_client.Negotiation.Within.{
  Within, Bounded, Within-self, Within-trans, Within-more, Within-quiet,
}
use ptp_client.Negotiation.Collect.{
  Granting, Granted, ScanGranting, AllGranted, scan_lem, grants_for_lem,
}

abbrev pub Collected : List ℕ → ℕ → Session → List ParsedGrant → Session → Type 0
Collected need k s gs v = Granted need gs × Within k s v

bump_denial_lem : (mt : ℕ) (s : Session) → Ends (Bounded 0 s) (Bounded 0 s) (bump_denial mt s)
unfolding bump_denial
bump_denial_lem mt s = elim (Bool-cases (leb 3 (or_zero (lookup mt s.denial_counts) + 1))) [
  | inl third ↦
      rw (bump_denial, third)
        (record {
          sent_at_most = omega arith;
          reaches = Reaches-self s.client;
          same_state = refl;
          same_start = refl;
        })
  | inr earlier ↦
      rw (bump_denial, earlier)
        (record {
          sent_at_most = omega arith;
          reaches = Reaches-self s.client;
          same_state = refl;
          same_start = refl;
        })
]

bump_lem :
    {A : Type 0} (P : A → Session → Type 0) (mt : ℕ) (s : Session)
    → Ends P (Bounded 0 s) ((bump_denial mt >> raise denied) s)
bump_lem P mt s =
    bind-Ends (Bounded 0 s) P (Bounded 0 s) (Bounded 0 s) (bump_denial mt s) _
      (bump_denial_lem mt s) (λ e v h. h) (λ a v h. h)

Within-buffer :
    (s : Session) (ds : List Datagram)
    → ((d : Datagram) → In d ds → In d s.client.buffer)
    → Within 0 s (with_client (with_buffer ds s.client) s)
Within-buffer s ds entries =
    Within-quiet s (with_buffer ds s.client) (IsQuiet-buffer ds s.client entries)

-- What ends after some messages, and goes on within some more.
pub Ends-after :
    {A : Type 0} (P : A → Type 0) (j k n : ℕ) (s u : Session) (o : Outcome Session A)
    → j + k ≤ n
    → Within j s u
    → Ends (λ a v. P a × Within k u v) (Bounded k u) o
    → Ends (λ a v. P a × Within n s v) (Bounded n s) o
Ends-after P j k n s u (failed e v) le p h =
    Within-more (j + k) n s v le (Within-trans j k s u v p h)
Ends-after P j k n s u (finished a v) le p (x, h) =
    (x, Within-more (j + k) n s v le (Within-trans j k s u v p h))

-- One turn that was in time or not, with what the pass gathered.
abbrev collect_turn :
    List ℕ
    → (List ParsedGrant → Action Session (List ParsedGrant))
    → Session
    → Bool
    → Scan
    → Outcome Session (List ParsedGrant)
collect_turn need next now in_time scan = elim in_time [
  | false ↦ failed timed_out now
  | true ↦ elim scan [
    | denial mt ↦ (bump_denial mt >> raise denied) now
    | broken e ↦ failed (raising e) now
    | gathered by_mt kept ↦ elim (grants_for need by_mt) [
      | some grants ↦ finished grants (with_client (with_buffer kept now.client) now)
      | none ↦ next by_mt (with_client (with_buffer kept now.client) now)
    ]
  ]
]

turn_lem :
    (need : List ℕ) (next : List ParsedGrant → Action Session (List ParsedGrant)) (ts : List Tick)
    (now : Session) (b : Bool) (scan : Scan)
    → now.client.ticks ≡ ts
    → ((l : List ParsedGrant) (v : Session)
        → v.client.ticks ≡ ts
        → All Granting l
        → Ends (Collected need 0 v) (Bounded 0 v) (next l v))
    → ScanGranting now.client.buffer scan
    → Ends (Collected need 0 now) (Bounded 0 now) (collect_turn need next now b scan)
turn_lem need next ts now false scan e ih h = Within-self now
turn_lem need next ts now true (denial mt) e ih h = bump_lem (Collected need 0 now) mt now
turn_lem need next ts now true (broken x) e ih h = Within-self now
turn_lem need next ts now true (gathered by_mt kept) e ih h =
    found (grants_for need by_mt) (grants_for_lem need by_mt h.0)
  where
    found :
        (o : Option (List ParsedGrant))
        → AllGranted need o
        → Ends (Collected need 0 now) (Bounded 0 now) (elim o [
          | some grants ↦ finished grants (with_client (with_buffer kept now.client) now)
          | none ↦ next by_mt (with_client (with_buffer kept now.client) now)
        ])
    found (some grants) k = (k, Within-buffer now kept h.1)
    found none k =
        Ends-after (Granted need) 0 0 0 now _ (next by_mt _) (omega arith)
          (Within-buffer now kept h.1) (ih by_mt _ e h.0)

pub collect_turns_lem :
    (domain : ℕ) (need : List ℕ) (deadline : ℕ) (by_mt : List ParsedGrant) (ts : List Tick)
    (s : Session)
    → s.client.ticks ≡ ts
    → All Granting by_mt
    → Ends (Collected need 0 s) (Bounded 0 s) (collect_turns domain need deadline by_mt ts s)
unfolding collect_turns
collect_turns_lem domain need deadline by_mt [] s e h =
    Within-quiet s (with_ticks [] s.client) (IsQuiet-end s.client)
collect_turns_lem domain need deadline by_mt (t ∷ ts) s e h =
    let now : Session = with_client (at_tick t ts s.client) s in
    Ends-after (Granted need) 0 0 0 s now
      (collect_turn need (λ l. collect_turns domain need deadline l ts) now
        (ltb t.monotonic deadline) (scan_buffer domain need by_mt now.client.buffer))
      (omega arith) (Within-quiet s (at_tick t ts s.client) (IsQuiet-tick t ts s.client e))
      (turn_lem need (λ l. collect_turns domain need deadline l ts) ts now
        (ltb t.monotonic deadline) _ (tick_rest t ts s.client)
        (λ l v e' k. collect_turns_lem domain need deadline l ts v e' k)
        (scan_lem domain need by_mt now.client.buffer h))
