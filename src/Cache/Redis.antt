-- ===== src/Cache/Redis.antt =====
-- What internal/cache relies on of the Redis server, through the client library: the keys as it
-- reads them, the documented effect of SET with a time to live and of DEL, and what time that passes
-- does to a key. A value is a user's id.
use task_management.Base.{ℕ, String, Option, none, some, ◌≡◌, ◌≢◌, ◌<◌, ◌-◌}

pub record Redis (S : Type 0) : Type 0 where
  pub get : String → S → Option ℕ
  -- the key, the value and the time to live
  pub set : String → ℕ → ℕ → S → S
  pub del : String → S → S
  -- what is left of the time to live of a key that has one
  pub left : String → S → ℕ
  -- so much time passes
  pub elapse : ℕ → S → S
  pub get_set : (k : String) (v ttl : ℕ) (s : S) → get k (set k v ttl s) ≡ some v
  pub get_set_ne : (k j : String) (v ttl : ℕ) (s : S) → j ≢ k → get j (set k v ttl s) ≡ get j s
  pub get_del : (k : String) (s : S) → get k (del k s) ≡ none
  pub get_del_ne : (k j : String) (s : S) → j ≢ k → get j (del k s) ≡ get j s
  pub left_set : (k : String) (v ttl : ℕ) (s : S) → 0 < ttl → left k (set k v ttl s) ≡ ttl
  pub left_set_ne : (k j : String) (v ttl : ℕ) (s : S) → j ≢ k → left j (set k v ttl s) ≡ left j s
  pub left_del_ne : (k j : String) (s : S) → j ≢ k → left j (del k s) ≡ left j s
  -- A key stays until its time is up.
  pub get_elapse : (k : String) (n : ℕ) (s : S) → n < left k s → get k (elapse n s) ≡ get k s
  pub left_elapse : (k : String) (n : ℕ) (s : S) → n < left k s → left k (elapse n s) ≡ left k s - n
  -- None comes back.
  pub absent_elapse : (k : String) (n : ℕ) (s : S) → get k s ≡ none → get k (elapse n s) ≡ none
