-- ===== src/Master/Session/Bucket.antt =====
-- The token bucket: what it holds, and how many Delay_Req it lets through.
use ptp_client.Prelude.{
  ℕ, ◌+◌, ◌*◌, ◌≤◌, ◌<◌, ◌≡◌, List, [], ◌∷◌, arith, pos_part, neg_part, ◌+ℤ◌, ◌-ℤ◌, if◌then◌else◌,
}
use ptp_client.Master.Session.{SlaveSession, TokenBucket, token, refill, filled, allow}

mul_mono : (a b r : ℕ) → a ≤ b → a * r ≤ b * r
mul_mono a b r h = grind arith

-- One call at a time that does not run back: the tokens stay between zero and the capacity, and
-- what they and a grant cost is paid by the refill.
allow_step :
    (b : TokenBucket) (s : SlaveSession) (now : ℕ)
    → 0 < b.rate
    → 0 < s.token_ts
    → s.token_ts ≤ now
    → neg_part s.tokens ≡ 0
    → let (s', allowed) = allow b s now in
      (s'.token_ts ≡ now)
      × (neg_part s'.tokens ≡ 0)
      × (pos_part s'.tokens ≤ b.capacity)
      × (pos_part s'.tokens + (if allowed then token else 0) + s.token_ts * b.rate
          ≤ pos_part s.tokens + now * b.rate)
unfolding allow filled refill ◌+ℤ◌ ◌-ℤ◌
allow_step b s now r t l n = ground (arith, mul_mono s.token_ts now b.rate l)

-- The number of Delay_Req of one session that are let through at the times `nows`.
pub granted : TokenBucket → SlaveSession → List ℕ → ℕ
granted b s [] = 0
granted b s (now ∷ nows) =
    let (s', allowed) = allow b s now in (if allowed then 1 else 0) + granted b s' nows

-- The times do not run back from `then`.
abbrev pub Rising : ℕ → List ℕ → Type 0
Rising before [] = Unit {0}
Rising before (now ∷ nows) = (before ≤ now) × Rising now nows

abbrev pub last : ℕ → List ℕ → ℕ
last before [] = before
last before (now ∷ nows) = last now nows

granted_paid :
    (b : TokenBucket) (s : SlaveSession) (nows : List ℕ)
    → 0 < b.rate
    → 0 < s.token_ts
    → neg_part s.tokens ≡ 0
    → Rising s.token_ts nows
    → granted b s nows * token + s.token_ts * b.rate
      ≤ pos_part s.tokens + last s.token_ts nows * b.rate
unfolding granted
granted_paid b s [] r t n up = omega arith
granted_paid b s (now ∷ nows) r t n up =
    let (at, positive, within, paid) = allow_step b s now r t up.0 n in
    let s' = (allow b s now).0 in
    let later = granted_paid b s' nows r (rw at (omega (arith, t, up.0))) positive (rw at up.1) in
    ground (arith, paid, rw at at later)

-- The first call fills the bucket and takes one token.
allow_first :
    (b : TokenBucket) (s : SlaveSession) (now : ℕ)
    → 0 < b.rate
    → token ≤ b.capacity
    → s.token_ts ≡ 0
    → let (s', allowed) = allow b s now in
      (s'.token_ts ≡ now)
      × (neg_part s'.tokens ≡ 0)
      × (pos_part s'.tokens + (if allowed then token else 0) ≤ b.capacity)
unfolding allow filled ◌-ℤ◌
allow_first b s now r c fresh = ground arith

-- A session that is new when the first Delay_Req comes gets at most `capacity` tokens and the
-- refill of the time that passes: the number of replies is bounded by burst and rate.
pub granted_rate :
    (b : TokenBucket) (s : SlaveSession) (start : ℕ) (nows : List ℕ)
    → 0 < b.rate
    → token ≤ b.capacity
    → s.token_ts ≡ 0
    → 0 < start
    → Rising start nows
    → granted b s (start ∷ nows) * token + start * b.rate ≤ b.capacity + last start nows * b.rate
unfolding granted
granted_rate b s start nows r c fresh begun up =
    let (at, positive, paid) = allow_first b s start r c fresh in
    let s' = (allow b s start).0 in
    let rest = granted_paid b s' nows r (rw at begun) positive (rw at up) in
    ground (arith, paid, rw at at rest)
