-- ===== src/Http/Middleware/RateLimiter.antt =====
-- internal/server/http/middleware/rate_limiter.go. What the script relies on of the Redis server is
-- an interface; a time is in milliseconds, and the server runs a script as a whole.
pub mod Window
pub mod Lapses
use Prim.Native.String.{◌++◌ as concat}
use task_management.Base.{
  ℕ, suc, ◌+◌, ◌-◌, ◌*◌, ◌/◌, ◌≤◌, ◌<◌, String, Bool, true, false, Option, none, some, List, [],
  ◌∷◌, ◌≡◌, leb, ltb, if◌then◌else◌,
}
use task_management.Domain.Errors.{domain, Result, ok, err, too_many_requests}
use task_management.Domain.Text.{decimal}

-- A counter, and when it expires, if it does.
pub record Counter : Type 0 where
  pub count : ℕ
  pub deadline : Option ℕ

abbrev pub expired : ℕ → Option ℕ → Bool
expired now none = false
expired now (some d) = leb d now

-- What is left of a counter at a time.
abbrev pub alive : ℕ → Option Counter → Option Counter
alive now none = none
alive now (some c) = if expired now c.deadline then none else some c

-- INCR: a key that is not there counts from 0 and does not expire.
abbrev pub bumped : Option Counter → Counter
bumped none = record { count = 1; deadline = none }
bumped (some c) = record { count = suc c.count; deadline = c.deadline }

-- The commands of the script, by what a key holds at a time.
pub record Counters (S : Type 0) : Type 0 where
  pub counter : String → ℕ → S → Option Counter
  pub incr : String → ℕ → S → S
  pub pexpire : String → ℕ → ℕ → S → S
  pub counter_incr :
      (k : String) (now : ℕ) (s : S)
      → counter k now (incr k now s) ≡ some (bumped (counter k now s))
  pub counter_pexpire :
      (k : String) (now ms : ℕ) (s : S) (c : Counter)
      → counter k now s ≡ some c
      → counter k now (pexpire k now ms s)
        ≡ alive now (some (record { count = c.count; deadline = some (now + ms) }))
  pub counter_later :
      (k : String) (now later : ℕ) (s : S)
      → now ≤ later
      → counter k later s ≡ alive later (counter k now s)

abbrev pub count_of : Option Counter → ℕ
count_of none = 0
count_of (some c) = c.count

-- PTTL, where it is not negative.
abbrev pub ttl_at : ℕ → Option ℕ → Option ℕ
ttl_at now none = none
ttl_at now (some d) = some (d - now)

abbrev pub pttl : ℕ → Option Counter → Option ℕ
pttl now none = none
pttl now (some c) = ttl_at now c.deadline

module _ {S : Type 0} (redis : Counters S) where
  abbrev pub expiring : String → ℕ → ℕ → ℕ → Option ℕ → S → (ℕ × ℕ) × S
  expiring key window now count none s = ((count, window), redis.pexpire key now window s)
  expiring key window now count (some ttl) s = ((count, ttl), s)

  -- `fixedWindow`, the script: the count and the milliseconds until it starts again.
  unfoldable pub fixed_window : String → ℕ → ℕ → S → (ℕ × ℕ) × S
  fixed_window key window now s =
      let s1 : S = redis.incr key now s in
      expiring key window now (count_of (redis.counter key now s1))
        (pttl now (redis.counter key now s1)) s1

-- The headers, and whether the request goes on.
pub record Passage : Type 0 where
  pub headers : List (String × String)
  pub verdict : Result (Unit {0})

-- Milliseconds to seconds, rounded up, as the source divides nanoseconds.
abbrev pub reset_secs : ℕ → ℕ
reset_secs ttl = (ttl * 1000000 + 999999999) / 1000000000

abbrev pub rate_headers : ℕ → ℕ → String → List (String × String)
rate_headers max count reset =
    ("X-RateLimit-Limit", decimal max)
    ∷ ("X-RateLimit-Remaining", decimal (max - count))
    ∷ ("X-RateLimit-Reset", reset)
    ∷ []

abbrev pub verdict_on : ℕ → ℕ × ℕ → Passage
verdict_on max (count, ttl) =
    let reset : String = decimal (reset_secs ttl) in
    if ltb max count
    then record {
      headers = ("Retry-After", reset) ∷ rate_headers max count reset;
      verdict = err (
          domain too_many_requests (concat "rate limit exceeded, retry after " (concat reset "s")));
    }
    else record { headers = rate_headers max count reset; verdict = ok tt }

abbrev pub rate_key : String → String → String
rate_key scope ip = concat "rate:" (concat scope (concat ":" ip))

module _ {S : Type 0} (redis : Counters S) where
  -- `limit`; with an outage the request goes on.
  unfoldable pub limit : String → ℕ → ℕ → String → Bool → ℕ → S → Passage × S
  limit scope max window ip down now s =
      if down
      then (record { headers = []; verdict = ok tt }, s)
      else (let (reply, s1) = fixed_window redis (rate_key scope ip) window now s in
          (verdict_on max reply, s1))
