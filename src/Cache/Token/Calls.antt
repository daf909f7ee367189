-- ===== src/Cache/Token/Calls.antt =====
-- Calls of internal/cache/token.go by whatever clients, one after another, with time between them.
use task_management.Base.{ℕ, String, List, [], ◌∷◌, ◌+◌, ◌≤◌, ◌≡◌}
use task_management.Cache.Redis.{Redis}
use task_management.Cache.Token.{
  Store, set_refresh_token, get_refresh_token, rotate_refresh_token, delete_refresh_token,
  blacklist_access_token, is_access_token_blacklisted,
}

pub data Call : Type 0 where
  saves : String → ℕ → Call
  looks : String → Call
  rotates : String → String → ℕ → Call
  deletes : String → Call
  blacklists : String → ℕ → Call
  checks : String → Call
  waits : ℕ → Call

module _ {S : Type 0} (redis : Redis S) where
  abbrev pub make : Call → Store S → Store S
  make (saves hash user) w = (set_refresh_token redis hash user w).1
  make (looks hash) w = (get_refresh_token redis hash w).1
  make (rotates old new user) w = (rotate_refresh_token redis old new user w).1
  make (deletes hash) w = (delete_refresh_token redis hash w).1
  make (blacklists jti ttl) w = (blacklist_access_token redis jti ttl w).1
  make (checks jti) w = (is_access_token_blacklisted redis jti w).1
  make (waits n) w = record w { keys = redis.elapse n w.keys }

  abbrev pub make_all : List Call → Store S → Store S
  make_all [] w = w
  make_all (c ∷ cs) w = make_all cs (make c w)

-- How much time a call takes, and all of them.
abbrev pub duration : Call → ℕ
duration (waits n) = n
duration _ = 0

abbrev pub total : List Call → ℕ
total [] = 0
total (c ∷ cs) = duration c + total cs

-- At the clock, the token that lasts until `expires` is blacklisted, if at all, for its remaining time
-- at least.
abbrev pub LeavesBarred : String → ℕ → ℕ → Call → Type 0
LeavesBarred jti expires clock (blacklists j ttl) = j ≡ jti → expires ≤ clock + ttl
LeavesBarred jti expires clock _ = Unit

abbrev pub LeaveBarred : String → ℕ → ℕ → List Call → Type 0
LeaveBarred jti expires clock [] = Unit
LeaveBarred jti expires clock (c ∷ cs) =
    LeavesBarred jti expires clock c × LeaveBarred jti expires (clock + duration c) cs
