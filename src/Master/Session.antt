-- ===== src/Master/Session.antt =====
-- src/ptp_client/ptp/l2master/session.py: the table of slave sessions. Times are nanoseconds and
-- tokens are counted in 1e-9 tokens, so that the floating-point arithmetic of the source is exact:
-- a refill of (now - then) * rate tokens is a whole number of these. `rate` is packets per second.
-- A method runs under the table's lock, so that each is one step.
pub mod Table
pub mod Register
pub mod Ageing
pub mod Bucket
use ptp_client.Prelude.{
  ℕ, suc, ◌+◌, ◌*◌, ◌^◌, List, [], ◌∷◌, ◌&&◌, Bool, true, false, ltb, leb, ◌==◌, ℤ, pos, pos_part,
  neg_part, sub_ℕ, ◌+ℤ◌, ◌-ℤ◌, leb_ℤ, min_ℤ, eq_ℤ, length, bytes_eq, if◌then◌else◌, Option, none,
  some, map,
}
use ptp_client.Wire.{Bytes}
use ptp_client.Header.{PortIdentity}

pub record SlaveSession : Type 0 where
  pub port_identity : PortIdentity
  pub src_mac : Bytes
  pub last_seen : ℕ
  pub delay_req_count : ℕ
  pub delay_resp_sent : ℕ
  pub delay_resp_dropped : ℕ
  pub tokens : ℤ
  pub token_ts : ℕ

-- (clock_identity, port_number): the key of the dictionary, and SlaveSession.key.
abbrev pub Key : Type 0
Key = PortIdentity

unfoldable pub key_eq : Key → Key → Bool
key_eq a b = bytes_eq a.clock_identity b.clock_identity && eq_ℤ a.port_number b.port_number

abbrev pub token : ℕ
token = 1000000000

-- TokenBucket: the rate, and max(1.0, rate).
pub record TokenBucket : Type 0 where
  pub rate : ℕ
  pub capacity : ℕ

unfoldable pub token_bucket : ℕ → TokenBucket
token_bucket rate = record { rate = rate; capacity = if ltb 1 rate then rate * token else token }

-- (now - then) * rate
unfoldable pub refill : ℕ → ℕ → ℕ → ℤ
refill now before rate = sub_ℕ (now * rate) (before * rate)

-- session._tokens before one is taken
unfoldable pub filled : TokenBucket → SlaveSession → ℕ → ℤ
unfolding refill
filled b s now =
    if s.token_ts == 0
    then pos b.capacity
    else min_ℤ (pos b.capacity) (s.tokens +ℤ refill now s.token_ts b.rate)

unfoldable pub allow : TokenBucket → SlaveSession → ℕ → SlaveSession × Bool
allow b s now =
    if b.rate == 0
    then (s, true)
    else if leb_ℤ (pos token) (filled b s now)
    then (record s { tokens = filled b s now -ℤ pos token; token_ts = now }, true)
    else (record s { tokens = filled b s now; token_ts = now }, false)

-- `_sessions` in insertion order; the key of an entry is the `key()` of its session.
pub record SessionTable : Type 0 where
  pub max_slaves : ℕ
  pub session_timeout : ℕ
  pub bucket : TokenBucket
  pub sessions : List SlaveSession
  pub overflow_count : ℕ

unfoldable pub session_table : ℕ → ℕ → ℕ → SessionTable
unfolding token_bucket
session_table max_slaves rate timeout = record {
  max_slaves = if ltb 1 max_slaves then max_slaves else 1;
  session_timeout = timeout;
  bucket = token_bucket rate;
  sessions = [];
  overflow_count = 0;
}

-- self._sessions.get(key)
unfoldable pub get : Key → List SlaveSession → Option SlaveSession
get k [] = none
get k (s ∷ ss) = if key_eq s.port_identity k then some s else get k ss

-- del self._sessions[key]
unfoldable pub delete : Key → List SlaveSession → List SlaveSession
delete k [] = []
delete k (s ∷ ss) = if key_eq s.port_identity k then ss else s ∷ delete k ss

-- The session object of a key, changed in place.
unfoldable pub update : Key → SlaveSession → List SlaveSession → List SlaveSession
update k new [] = []
update k new (s ∷ ss) = if key_eq s.port_identity k then new ∷ ss else s ∷ update k new ss

-- self._sessions[key] = s for a new key
unfoldable pub insert : SlaveSession → List SlaveSession → List SlaveSession
insert new [] = new ∷ []
insert new (s ∷ ss) = s ∷ insert new ss

-- now - s.last_seen > self.session_timeout_sec
abbrev pub is_aged : ℕ → ℕ → SlaveSession → Bool
is_aged timeout now s = ltb (s.last_seen + timeout) now

unfoldable pub aged_count : ℕ → ℕ → List SlaveSession → ℕ
aged_count timeout now [] = 0
aged_count timeout now (s ∷ ss) =
    (if is_aged timeout now s then 1 else 0) + aged_count timeout now ss

unfoldable pub without_aged : ℕ → ℕ → List SlaveSession → List SlaveSession
without_aged timeout now [] = []
without_aged timeout now (s ∷ ss) =
    let rest = without_aged timeout now ss in if is_aged timeout now s then rest else s ∷ rest

-- min(values, key=last_seen): the first of the least.
unfoldable pub oldest : SlaveSession → List SlaveSession → SlaveSession
oldest best [] = best
oldest best (s ∷ ss) = oldest (if ltb s.last_seen best.last_seen then s else best) ss

-- _evict_oldest; `min` of no value would raise, and the table is not empty where this is called
unfoldable pub evict_oldest : ℕ → ℕ → List SlaveSession → List SlaveSession
evict_oldest timeout now [] = []
evict_oldest timeout now (s ∷ ss) =
    if ltb 0 (aged_count timeout now (s ∷ ss))
    then without_aged timeout now (s ∷ ss)
    else delete (oldest s ss).port_identity (s ∷ ss)

abbrev pub fresh_session : PortIdentity → Bytes → ℕ → SlaveSession
fresh_session p mac now = record {
  port_identity = p;
  src_mac = mac;
  last_seen = now;
  delay_req_count = 0;
  delay_resp_sent = 0;
  delay_resp_dropped = 0;
  tokens = pos 0;
  token_ts = 0;
}

-- What happens to the session object: counted, and passed through the bucket.
unfoldable pub admit : TokenBucket → SlaveSession → ℕ → SlaveSession × Bool
admit b s now =
    let (s', allowed) = allow b (record s { delay_req_count = s.delay_req_count + 1 }) now in
    if allowed
    then (s', true)
    else (record s' { delay_resp_dropped = s'.delay_resp_dropped + 1 }, false)

pub record Registered : Type 0 where
  pub table : SessionTable
  pub session : Option SlaveSession
  pub allowed : Bool

-- The branch for a new key, on the sessions that are left after any eviction.
unfoldable pub register_new :
    SessionTable → List SlaveSession → PortIdentity → Bytes → ℕ → Registered
register_new t sessions p mac now =
    if leb t.max_slaves (length sessions)
    then record {
      table = record t { sessions = sessions; overflow_count = t.overflow_count + 1 };
      session = none;
      allowed = false;
    }
    else (let (s, allowed) = admit t.bucket (fresh_session p mac now) now in
        record {
          table = record t { sessions = insert s sessions };
          session = some s;
          allowed = allowed;
        })

-- The branch for a known key.
unfoldable pub touch : SessionTable → SlaveSession → PortIdentity → Bytes → ℕ → Registered
touch t known p mac now =
    let (s, allowed) = admit t.bucket (record known { last_seen = now; src_mac = mac }) now in
    record {
      table = record t { sessions = update p s t.sessions };
      session = some s;
      allowed = allowed;
    }

unfoldable pub register_or_touch : SessionTable → PortIdentity → Bytes → ℕ → Registered
register_or_touch t p mac now = elim (get p t.sessions) [
  | some known ↦ touch t known p mac now
  | none ↦
      register_new t
        (if leb t.max_slaves (length t.sessions)
          then evict_oldest t.session_timeout now t.sessions
          else t.sessions)
        p mac now
]

unfoldable pub mark_resp_sent : SessionTable → PortIdentity → SessionTable
mark_resp_sent t p = elim (get p t.sessions) [
  | none ↦ t
  | some s ↦ record t {
    sessions = update p (record s { delay_resp_sent = s.delay_resp_sent + 1 }) t.sessions;
  }
]

unfoldable pub age_out : SessionTable → ℕ → SessionTable × ℕ
age_out t now = (
  record t { sessions = without_aged t.session_timeout now t.sessions },
  aged_count t.session_timeout now t.sessions,
)

unfoldable pub snapshot : SessionTable → List SlaveSession
snapshot t = map (λ (s : SlaveSession). record s { tokens = pos 0; token_ts = 0 }) t.sessions

unfoldable pub count : SessionTable → ℕ
count t = length t.sessions
