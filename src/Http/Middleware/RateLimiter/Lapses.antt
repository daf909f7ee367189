-- ===== src/Http/Middleware/RateLimiter/Lapses.antt =====
-- A counter lapses, whatever came before.
use mathlib.Core.Path.{subst, sym}
use task_management.Base.{
  ℕ, ◌+◌, ◌≤◌, ◌<◌, String, false, Option, none, some, List, [], ◌∷◌, ◌≡◌, refl, ◌∙◌, ap, arith,
  ltb, if◌then◌else◌,
}
use task_management.Http.Middleware.RateLimiter.{Counter, Counters, Passage, alive, rate_key, limit}
use task_management.Http.Middleware.RateLimiter.Window.{
  passed, renewed, Ascending, last_of, after_requests, request-passed, request-counter,
}

module _ {S : Type 0} (redis : Counters S) (scope ip : String) (max window : ℕ) where
  abbrev at_key : ℕ → S → Option Counter
  at_key now s = redis.counter (rate_key scope ip) now s

  abbrev request : ℕ → S → Passage × S
  request now s = limit redis scope max window ip false now s

  -- The counter is gone one window after `now`.
  abbrev Lapses : ℕ → Option Counter → Type 0
  Lapses now o = alive (now + window) o ≡ none

  later-Lapses :
      (now later : ℕ) (o : Option Counter)
      → now ≤ later
      → Lapses now o
      → Lapses later (alive later o)
  later-Lapses now later none up h = refl
  later-Lapses now later (some c) up h = by_deadline c.count c.deadline h
    where
      by_deadline :
          (n : ℕ) (d : Option ℕ)
          → Lapses now (some (record { count = n; deadline = d }))
          → Lapses later (alive later (some (record { count = n; deadline = d })))
      by_deadline n none l = ground arith
      by_deadline n (some d) l = ground arith

  renewed-Lapses :
      (now : ℕ) (o : Option Counter) → Lapses now o → Lapses now (some (renewed (now + window) o))
  renewed-Lapses now none h = ground arith
  renewed-Lapses now (some c) h = by_deadline c.count c.deadline h
    where
      by_deadline :
          (n : ℕ) (d : Option ℕ)
          → Lapses now (some (record { count = n; deadline = d }))
          → Lapses now (some (renewed (now + window) (some (record { count = n; deadline = d }))))
      by_deadline n none l = ground arith
      by_deadline n (some d) l = ground arith

  after-Lapses :
      (ts : List ℕ) (s : S) (start : ℕ)
      → 0 < window
      → Ascending start ts
      → Lapses start (at_key start s)
      → Lapses
          (last_of start ts)
          (at_key (last_of start ts) (after_requests redis scope ip max window ts s))
  after-Lapses [] s start pos up h = h
  after-Lapses (t ∷ ts) s start pos (le, up) h = after-Lapses ts (request t s).1 t pos up (
      subst (Lapses t) (sym (request-counter redis scope ip max window t s pos)) (
        renewed-Lapses t (at_key t s) (
          subst (Lapses t) (sym (redis.counter_later (rate_key scope ip) start t s le))
            (later-Lapses start t (at_key start s) le h))))

  lapsed :
      (now later : ℕ) (o : Option Counter)
      → now + window ≤ later
      → Lapses now o
      → alive later o ≡ none
  lapsed now later none up h = refl
  lapsed now later (some c) up h = by_deadline c.count c.deadline h
    where
      by_deadline :
          (n : ℕ) (d : Option ℕ)
          → Lapses now (some (record { count = n; deadline = d }))
          → alive later (some (record { count = n; deadline = d })) ≡ none
      by_deadline n none l = ground arith
      by_deadline n (some d) l = ground arith

  -- Nobody is locked out: whatever requests an address has sent since a time when it had no counter,
  -- one that it sends at least a window after the last of them passes, while the server answers and
  -- the window and the limit are positive.
  pub limit-lapses :
      (ts : List ℕ) (s : S) (start later : ℕ)
      → 0 < window
      → 0 < max
      → redis.counter (rate_key scope ip) start s ≡ none
      → Ascending start ts
      → last_of start ts + window ≤ later
      → ◌≡◌ {A = ℕ}
          (passed
            (limit redis scope max window ip false later
              (after_requests redis scope ip max window ts s)).0.verdict)
          1
  limit-lapses ts s start later pos some_pass fresh up wait =
      request-passed redis scope ip max window later (after_requests redis scope ip max window ts s)
      ∙ ap (λ o. if ltb max (renewed (later + window) o).count then 0 else 1) gone
      ∙ one
    where
      latest : ℕ
      latest = last_of start ts

      gone : at_key later (after_requests redis scope ip max window ts s) ≡ none
      gone =
          redis.counter_later (rate_key scope ip) latest later
            (after_requests redis scope ip max window ts s) (le latest wait)
          ∙ lapsed latest later (at_key latest (after_requests redis scope ip max window ts s)) wait
              (after-Lapses ts s start pos up (subst (Lapses start) (sym fresh) refl))
        where
          le : (n : ℕ) → n + window ≤ later → n ≤ later
          le n h = ground arith

      one : ◌≡◌ {A = ℕ} (if ltb max 1 then 0 else 1) 1
      one = ground arith
