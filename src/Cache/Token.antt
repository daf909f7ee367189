-- ===== src/Cache/Token.antt =====
-- internal/cache/token.go. Commands are sent one by one, each of which may fail as an unreachable
-- server does.
pub mod Single
pub mod Prefixes
pub mod Calls
pub mod Lasting
pub mod Once
use Prim.Native.String.{◌++◌ as concat}
use task_management.Base.{
  ℕ, String, Bool, true, false, Option, none, some, suc, ◌==◌, if◌then◌else◌, is_some,
}
use task_management.Domain.Errors.{
  Failure, plain, sentinel, wrap, Result, ok, err, not_found, invalid_credentials, unavailable,
}
use task_management.Cache.Redis.{Redis}

-- The server's keys, the configured time to live of what is stored (`refreshTTL`, or `ttl` of the
-- pages), and the outages: does the n-th command fail?
pub record Store (S : Type 0) : Type 0 where
  pub keys : S
  pub ttl : ℕ
  pub down : ℕ → Bool
  pub sent : ℕ

abbrev pub refresh_token_key : String → String
refresh_token_key hash = concat "auth:refresh:" hash

abbrev pub access_token_key : String → String
access_token_key jti = concat "auth:bl:" jti

-- `unavailable`
abbrev pub unreachable : String → Failure
unreachable op = wrap (sentinel unavailable) (plain op)

module _ {S A : Type 0} where
  -- A command: with an outage it has no effect.
  abbrev pub command : String → (S → A × S) → Store S → Result A × Store S
  command op f w =
      if w.down w.sent
      then (err (unreachable op), record w { sent = suc w.sent })
      else (ok (f w.keys).0, record w { keys = (f w.keys).1; sent = suc w.sent })

module _ {S A B : Type 0} where
  abbrev pub then_do : Result A × Store S → (A → Store S → Result B × Store S) → Result B × Store S
  then_do (ok a, w) k = k a w
  then_do (err e, w) k = (err e, w)

module _ {S : Type 0} (redis : Redis S) where
  unfoldable pub set_refresh_token : String → ℕ → Store S → Result (Unit {0}) × Store S
  set_refresh_token hash user w =
      command "save refresh token" (λ s. (tt, redis.set (refresh_token_key hash) user w.ttl s)) w

  abbrev pub found_user_id : Option ℕ → Store S → Result ℕ × Store S
  found_user_id none w = (err (sentinel not_found), w)
  found_user_id (some user) w = (ok user, w)

  unfoldable pub get_refresh_token : String → Store S → Result ℕ × Store S
  get_refresh_token hash w =
      then_do (command "get refresh token" (λ s. (redis.get (refresh_token_key hash) s, s)) w)
        found_user_id

  -- After GETDEL: the value that it had is the user's.
  abbrev pub replace : String → ℕ → Option ℕ → Store S → Result (Unit {0}) × Store S
  replace new_hash user none w = (err (sentinel invalid_credentials), w)
  replace new_hash user (some old_user) w =
      if old_user == user
      then command "rotate refresh token: set new"
          (λ s. (tt, redis.set (refresh_token_key new_hash) user w.ttl s)) w
      else (err (sentinel invalid_credentials), w)

  unfoldable pub rotate_refresh_token : String → String → ℕ → Store S → Result (Unit {0}) × Store S
  rotate_refresh_token old_hash new_hash user w =
      then_do
        (command "rotate refresh token: get old"
          (λ s.
            (redis.get (refresh_token_key old_hash) s, redis.del (refresh_token_key old_hash) s))
          w)
        (replace new_hash user)

  unfoldable pub delete_refresh_token : String → Store S → Result (Unit {0}) × Store S
  delete_refresh_token hash w =
      command "delete refresh token" (λ s. (tt, redis.del (refresh_token_key hash) s)) w

  -- A time to live that has run out: there is nothing to refuse any more. The value "1" is 1.
  unfoldable pub blacklist_access_token : String → ℕ → Store S → Result (Unit {0}) × Store S
  blacklist_access_token jti ttl w =
      if ttl == 0
      then (ok tt, w)
      else command "blacklist access token" (λ s. (tt, redis.set (access_token_key jti) 1 ttl s)) w

  unfoldable pub is_access_token_blacklisted : String → Store S → Result Bool × Store S
  is_access_token_blacklisted jti w =
      command "check access token blacklist"
        (λ s. (is_some (redis.get (access_token_key jti) s), s)) w
