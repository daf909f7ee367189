-- ===== src/Tests/Pages.antt =====
-- A page server that is two functions, and a reader that stores its page after an invalidation.
use task_management.Base.{
  ℕ, suc, Option, none, some, ◌≡◌, ◌≢◌, refl, arith, ◌==◌, if◌then◌else◌, ◌⊎◌, inl, inr,
}
use task_management.Domain.Errors.{ok}
use task_management.Cache.Token.{Store}
use task_management.Cache.Pages.{PageKey, PageServer, counted}
use task_management.Cache.Pages.Keys.{same_key}
use task_management.Cache.Task.{generation, look, invalidate_team}
use task_management.Tests.Sample.{quiet}

-- A page is the number of changes that it shows.
abbrev pub PageStore : Type 0
PageStore = (ℕ → Option ℕ) × (PageKey → Option (Option ℕ))

abbrev pub pick : {A B : Type 0} → A ⊎ B → Option (Option ℕ) → Option (Option ℕ) → Option (Option ℕ)
pick (inl e) x y = x
pick (inr e) x y = y

pub pick-same : (k : PageKey) (d : (k ≡ k) ⊎ (k ≢ k)) (x y : Option (Option ℕ)) → pick d x y ≡ x
pick-same k (inl e) x y = refl
pick-same k (inr ne) x y = elim (ne refl) [ ]

pick-other :
    (j k : PageKey) (d : (j ≡ k) ⊎ (j ≢ k)) (x y : Option (Option ℕ)) → j ≢ k → pick d x y ≡ y
pick-other j k (inl e) x y ne = elim (ne e) [ ]
pick-other j k (inr d) x y ne = refl

abbrev pub put :
    PageKey → Option (Option ℕ) → (PageKey → Option (Option ℕ)) → PageKey → Option (Option ℕ)
put k p f j = pick (same_key j k) p (f j)

abbrev pub next_count : ℕ → (ℕ → Option ℕ) → ℕ → Option ℕ
next_count t f u = if u == t then some (suc (counted (f t))) else f u

pub put-same :
    (k : PageKey) (p : Option (Option ℕ)) (f : PageKey → Option (Option ℕ)) → put k p f k ≡ p
put-same k p f = pick-same k (same_key k k) p (f k)

pub put-other :
    (k j : PageKey) (p : Option (Option ℕ)) (f : PageKey → Option (Option ℕ))
    → j ≢ k
    → put k p f j ≡ f j
put-other k j p f ne = pick-other j k (same_key j k) p (f j) ne

pub next_count-same : (t : ℕ) (f : ℕ → Option ℕ) → next_count t f t ≡ some (suc (counted (f t)))
next_count-same t f = ground arith

pub next_count-other : (t u : ℕ) (f : ℕ → Option ℕ) → u ≢ t → next_count t f u ≡ f u
next_count-other t u f ne = ground arith

abbrev pub page_server : PageServer PageStore (Option ℕ)
page_server = record {
  counter = λ t s. s.0 t;
  incr = λ t s. (next_count t s.0, s.1);
  get = λ k s. s.1 k;
  set = λ k p s. (s.0, put k (some p) s.1);
  drop = λ k s. (s.0, put k none s.1);
  counter_incr = λ t s. next_count-same t s.0;
  counter_incr_ne = λ t u s ne. next_count-other t u s.0 ne;
  counter_set = λ t k p s. refl;
  counter_drop = λ t k s. refl;
  get_incr = λ t k s. refl;
  get_set = λ k p s. put-same k (some p) s.1;
  get_set_ne = λ k j p s ne. put-other k j (some p) s.1 ne;
  get_drop = λ k s. put-same k none s.1;
  get_drop_ne = λ k j s ne. put-other k j none s.1 ne;
}

-- Nothing is counted and nothing is stored.
abbrev pub bare : Store PageStore
bare = record { keys = (λ t. none, λ k. none); ttl = 300; down = quiet; sent = 0 }

abbrev pub invalidated : Store PageStore
invalidated = record {
  keys = (next_count 7 (λ t. none), λ k. none);
  ttl = 300;
  down = quiet;
  sent = 1;
}

abbrev pub counted_once : Store PageStore
counted_once = record invalidated { sent = 2 }

abbrev pub looked_up : Store PageStore
looked_up = record invalidated { sent = 3 }

pub invalidates : invalidate_team page_server 7 bare ≡ (ok tt, invalidated)
unfolding invalidate_team
invalidates = refl

pub asks : generation page_server 7 invalidated ≡ (ok 1, counted_once)
unfolding generation
asks = refl

pub misses : look page_server 7 "all" 1 counted_once ≡ (ok (none, some 1), looked_up)
misses = refl
