-- ===== src/Http/Middleware/RateLimiter/Window.antt =====
-- How many requests of one client pass, while the server answers.
use task_management.Base.{
  ℕ, suc, ◌+◌, ◌-◌, ◌≤◌, ◌<◌, String, false, Option, none, some, List, [], ◌∷◌, ◌≡◌, refl, ◌∙◌, ap,
  arith, leb, ltb, if◌then◌else◌, length, Bool-cases, inl, inr,
}
use task_management.Domain.Errors.{Result, ok, err}
use task_management.Http.Middleware.RateLimiter.{
  Counter, Counters, Passage, alive, bumped, count_of, pttl, expiring, fixed_window, rate_key,
  verdict_on, limit,
}

-- The counter after a request.
abbrev pub deadline_or : ℕ → Option ℕ → ℕ
deadline_or d none = d
deadline_or d (some e) = e

abbrev pub renewed : ℕ → Option Counter → Counter
renewed d none = record { count = 1; deadline = some d }
renewed d (some c) = record { count = suc c.count; deadline = some (deadline_or d c.deadline) }

abbrev pub passed : Result (Unit {0}) → ℕ
passed (ok tt) = 1
passed (err e) = 0

-- One after the other, from a time on and before another.
abbrev pub Within : ℕ → ℕ → List ℕ → Type 0
Within start before [] = Unit
Within start before (t ∷ ts) = (start ≤ t) × (t < before) × Within t before ts

abbrev pub Ascending : ℕ → List ℕ → Type 0
Ascending start [] = Unit
Ascending start (t ∷ ts) = (start ≤ t) × Ascending t ts

abbrev pub last_of : ℕ → List ℕ → ℕ
last_of start [] = start
last_of start (t ∷ ts) = last_of t ts

abbrev pub at_most : ℕ → ℕ → ℕ
at_most max n = if leb n max then n else max

module _ {S : Type 0} (redis : Counters S) (scope ip : String) (max window : ℕ) where
  abbrev pub at_key : ℕ → S → Option Counter
  at_key now s = redis.counter (rate_key scope ip) now s

  abbrev pub request : ℕ → S → Passage × S
  request now s = limit redis scope max window ip false now s

  -- The requests that go on, of those at the given times.
  abbrev pub admitted : List ℕ → S → ℕ
  admitted [] s = 0
  admitted (t ∷ ts) s = let (p, s1) = request t s in passed p.verdict + admitted ts s1

  -- The server after requests at the given times.
  abbrev pub after_requests : List ℕ → S → S
  after_requests [] s = s
  after_requests (t ∷ ts) s = after_requests ts (request t s).1

  fresh-alive :
      (n now : ℕ)
      → 0 < window
      → alive now (some (record { count = n; deadline = some (now + window) }))
        ≡ some (record { count = n; deadline = some (now + window) })
  fresh-alive n now pos = ground arith

  expiring-counter :
      (n now : ℕ) (o : Option ℕ) (s : S)
      → 0 < window
      → at_key now s ≡ some (record { count = n; deadline = o })
      → at_key now (expiring redis (rate_key scope ip) window now n (pttl now (at_key now s)) s).1
        ≡ some (record { count = n; deadline = some (deadline_or (now + window) o) })
  expiring-counter n now none s pos h =
      rw h (redis.counter_pexpire (rate_key scope ip) now window s _ h ∙ fresh-alive n now pos)
  expiring-counter n now (some d) s pos h = rw h h

  window-counter :
      (now : ℕ) (s : S)
      → 0 < window
      → at_key now (fixed_window redis (rate_key scope ip) window now s).1
        ≡ some (renewed (now + window) (at_key now s))
  unfolding fixed_window
  window-counter now s pos =
      by_counter (at_key now s) (redis.counter_incr (rate_key scope ip) now s)
    where
      key : String
      key = rate_key scope ip

      s1 : S
      s1 = redis.incr key now s

      by_counter :
          (o : Option Counter)
          → at_key now s1 ≡ some (bumped o)
          → at_key now
              (expiring redis key window now
                (count_of (at_key now s1))
                (pttl now (at_key now s1))
                s1).1
            ≡ some (renewed (now + window) o)
      by_counter none h =
          ap (λ n. at_key now (expiring redis key window now n (pttl now (at_key now s1)) s1).1)
            (ap count_of h)
          ∙ expiring-counter 1 now none s1 pos h
      by_counter (some c) h =
          ap (λ n. at_key now (expiring redis key window now n (pttl now (at_key now s1)) s1).1)
            (ap count_of h)
          ∙ expiring-counter (suc c.count) now c.deadline s1 pos h

  expiring-count :
      (n now : ℕ) (ttl : Option ℕ) (s : S)
      → (expiring redis (rate_key scope ip) window now n ttl s).0.0 ≡ n
  expiring-count n now none s = refl
  expiring-count n now (some d) s = refl

  renewed-count : (d : ℕ) (o : Option Counter) → (bumped o).count ≡ (renewed d o).count
  renewed-count d none = refl
  renewed-count d (some c) = refl

  window-count :
      (now : ℕ) (s : S)
      → (fixed_window redis (rate_key scope ip) window now s).0.0
        ≡ (renewed (now + window) (at_key now s)).count
  unfolding fixed_window
  window-count now s =
      expiring-count _ now _ (redis.incr (rate_key scope ip) now s)
      ∙ ap count_of (redis.counter_incr (rate_key scope ip) now s)
      ∙ renewed-count (now + window) (at_key now s)

  verdict-passed : (r : ℕ × ℕ) → passed (verdict_on max r).verdict ≡ (if ltb max r.0 then 0 else 1)
  verdict-passed (count, ttl) = elim (Bool-cases (ltb max count)) [
    | inl e ↦ rw e refl
    | inr e ↦ rw e refl
  ]

  pub request-passed :
      (now : ℕ) (s : S)
      → passed (request now s).0.verdict
        ≡ (if ltb max (renewed (now + window) (at_key now s)).count then 0 else 1)
  unfolding limit
  request-passed now s =
      verdict-passed (fixed_window redis (rate_key scope ip) window now s).0
      ∙ ap (λ n. if ltb max n then 0 else 1) (window-count now s)

  pub request-counter :
      (now : ℕ) (s : S)
      → 0 < window
      → at_key now (request now s).1 ≡ some (renewed (now + window) (at_key now s))
  unfolding limit
  request-counter now s pos = window-counter now s pos

  not_expired :
      (now : ℕ) (c : Counter) (d : ℕ) → c.deadline ≡ some d → now < d → alive now (some c) ≡ some c
  not_expired now c d h l = rw h (ground arith)

  -- Within a window that has begun, what is left of the limit passes.
  admitted-left :
      (ts : List ℕ) (s : S) (t n d : ℕ)
      → 0 < window
      → at_key t s ≡ some (record { count = n; deadline = some d })
      → Within t d ts
      → admitted ts s ≡ at_most (max - n) (length ts)
  admitted-left [] s t n d pos h w = ground arith
  admitted-left (t' ∷ ts) s t n d pos h (up, before, rest) =
      ap (λ o. passed (request t' s).0.verdict + o)
        (admitted-left ts (request t' s).1 t' (suc n) d pos counted rest)
      ∙ ap (λ o. o + at_most (max - suc n) (length ts))
          (request-passed t' s
            ∙ ap (λ o. if ltb max (renewed (t' + window) o).count then 0 else 1) here)
      ∙ sum
    where
      here : at_key t' s ≡ some (record { count = n; deadline = some d })
      here =
          redis.counter_later (rate_key scope ip) t t' s up
          ∙ ap (alive t') h
          ∙ not_expired t' (record { count = n; deadline = some d }) d refl before

      counted : at_key t' (request t' s).1 ≡ some (record { count = suc n; deadline = some d })
      counted = request-counter t' s pos ∙ ap (λ o. some (renewed (t' + window) o)) here

      sum :
          (if ltb max (suc n) then 0 else 1) + at_most (max - suc n) (length ts)
          ≡ at_most (max - n) (suc (length ts))
      sum = ground arith

  -- Of the requests that an address sends within one window, counted from the first of them, for
  -- which there is no counter yet, `max` pass, or all if there are fewer, while the server answers
  -- and the window is positive.
  pub admitted-window :
      (t : ℕ) (ts : List ℕ) (s : S)
      → 0 < window
      → redis.counter (rate_key scope ip) t s ≡ none
      → Within t (t + window) ts
      → admitted (t ∷ ts) s ≡ at_most max (suc (length ts))
  admitted-window t ts s pos fresh w =
      ap (λ o. passed (request t s).0.verdict + o)
        (admitted-left ts (request t s).1 t 1 (t + window) pos counted w)
      ∙ ap (λ o. o + at_most (max - 1) (length ts))
          (request-passed t s
            ∙ ap (λ o. if ltb max (renewed (t + window) o).count then 0 else 1) fresh)
      ∙ sum
    where
      counted : at_key t (request t s).1 ≡ some (record { count = 1; deadline = some (t + window) })
      counted = request-counter t s pos ∙ ap (λ o. some (renewed (t + window) o)) fresh

      sum :
          (if ltb max 1 then 0 else 1) + at_most (max - 1) (length ts)
          ≡ at_most max (suc (length ts))
      sum = ground arith
