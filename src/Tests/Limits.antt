-- ===== src/Tests/Limits.antt =====
-- A server with one counter.
use task_management.Base.{
  ℕ, ◌+◌, ◌≤◌, String, Option, none, some, ◌≡◌, refl, arith, str_eq, if◌then◌else◌,
}
use text.Mathlib.TextPositions.{eq_refl}
use task_management.Http.Middleware.RateLimiter.{Counter, Counters, alive, bumped}

abbrev pub CounterKeys : Type 0
CounterKeys = String → Option Counter

abbrev pub store : String → Option Counter → CounterKeys → CounterKeys
store k c s j = if str_eq j k then c else s j

abbrev pub timed : ℕ → Option Counter → Option Counter
timed d none = none
timed d (some c) = some (record { count = c.count; deadline = some d })

pub alive_twice :
    (now later : ℕ) (o : Option Counter) → now ≤ later → alive later o ≡ alive later (alive now o)
alive_twice now later none le = refl
alive_twice now later (some c) le = by_deadline c.count c.deadline
  where
    by_deadline :
        (n : ℕ) (d : Option ℕ)
        → alive later (some (record { count = n; deadline = d }))
          ≡ alive later (alive now (some (record { count = n; deadline = d })))
    by_deadline n none = refl
    by_deadline n (some d) = ground arith

pub alive-bumped :
    (now : ℕ) (o : Option Counter)
    → alive now (some (bumped (alive now o))) ≡ some (bumped (alive now o))
alive-bumped now none = refl
alive-bumped now (some c) = by_deadline c.count c.deadline
  where
    by_deadline :
        (n : ℕ) (d : Option ℕ)
        → alive now (some (bumped (alive now (some (record { count = n; deadline = d })))))
          ≡ some (bumped (alive now (some (record { count = n; deadline = d }))))
    by_deadline n none = refl
    by_deadline n (some d) = ground arith

pub counter-incr :
    (k : String) (now : ℕ) (s : CounterKeys)
    → alive now (store k (some (bumped (alive now (s k)))) s k) ≡ some (bumped (alive now (s k)))
counter-incr k now s = rw (eq_refl k) (alive-bumped now (s k))

pub counter-pexpire :
    (k : String) (now ms : ℕ) (s : CounterKeys) (c : Counter)
    → alive now (s k) ≡ some c
    → alive now (store k (timed (now + ms) (alive now (s k))) s k)
      ≡ alive now (some (record { count = c.count; deadline = some (now + ms) }))
counter-pexpire k now ms s c h = rw (eq_refl k, h) refl

abbrev pub counters : Counters CounterKeys
counters = record {
  counter = λ k now s. alive now (s k);
  incr = λ k now s. store k (some (bumped (alive now (s k)))) s;
  pexpire = λ k now ms s. store k (timed (now + ms) (alive now (s k))) s;
  counter_incr = counter-incr;
  counter_pexpire = counter-pexpire;
  counter_later = λ k now later s le. alive_twice now later (s k) le;
}
