-- ===== src/Cache/Pages.antt =====
-- What internal/cache/task.go relies on of the Redis server, through the client library: a counter
-- and pages by their keys, and the documented effect of INCR and SET. A page whose time to live has
-- run out is dropped.
pub mod Keys
use task_management.Base.{ℕ, suc, String, Option, none, some, ◌≡◌, ◌≢◌}

-- `genKey` and `pageKey` as their parts: the team, the generation, and the digest of the query. The
-- texts that the source makes of them differ where the parts do.
pub record PageKey : Type 0 where
  pub team : ℕ
  pub generation : ℕ
  pub digest : String

abbrev pub counted : Option ℕ → ℕ
counted none = 0
counted (some n) = n

pub record PageServer (S P : Type 0) : Type 0 where
  pub counter : ℕ → S → Option ℕ
  pub incr : ℕ → S → S
  pub get : PageKey → S → Option P
  pub set : PageKey → P → S → S
  pub drop : PageKey → S → S
  pub counter_incr : (t : ℕ) (s : S) → counter t (incr t s) ≡ some (suc (counted (counter t s)))
  pub counter_incr_ne : (t u : ℕ) (s : S) → u ≢ t → counter u (incr t s) ≡ counter u s
  pub counter_set : (t : ℕ) (k : PageKey) (p : P) (s : S) → counter t (set k p s) ≡ counter t s
  pub counter_drop : (t : ℕ) (k : PageKey) (s : S) → counter t (drop k s) ≡ counter t s
  pub get_incr : (t : ℕ) (k : PageKey) (s : S) → get k (incr t s) ≡ get k s
  pub get_set : (k : PageKey) (p : P) (s : S) → get k (set k p s) ≡ some p
  pub get_set_ne : (k j : PageKey) (p : P) (s : S) → j ≢ k → get j (set k p s) ≡ get j s
  pub get_drop : (k : PageKey) (s : S) → get k (drop k s) ≡ none
  pub get_drop_ne : (k j : PageKey) (s : S) → j ≢ k → get j (drop k s) ≡ get j s
