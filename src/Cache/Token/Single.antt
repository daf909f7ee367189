-- ===== src/Cache/Token/Single.antt =====
-- A refresh token is good for one rotation.
use text.Mathlib.TextLemmas.{append_cancel_left}
use task_management.Base.{
  ℕ, String, true, Option, none, some, ◌≡◌, ◌≢◌, arith, ◌==◌, Bool-cases, inl, inr,
}
use task_management.Domain.Errors.{ok}
use task_management.Cache.Redis.{Redis}
use task_management.Cache.Token.{Store, refresh_token_key, replace, rotate_refresh_token}

module _ {S : Type 0} (redis : Redis S) where
  pub key-ne : (a b : String) → a ≢ b → refresh_token_key a ≢ refresh_token_key b
  key-ne a b ne h = ne (append_cancel_left "auth:refresh:" a b h)

  user_eq : (a b : ℕ) → (a == b) ≡ true → a ≡ b
  user_eq a b h = ground arith

  replace-ok :
      (old new : String) (user : ℕ) (found : Option ℕ) (w w' : Store S)
      → old ≢ new
      → redis.get (refresh_token_key old) w.keys ≡ none
      → replace redis new user found w ≡ (ok tt, w')
      → (found ≡ some user)
        × (redis.get (refresh_token_key old) w'.keys ≡ none)
        × (redis.get (refresh_token_key new) w'.keys ≡ some user)
  replace-ok old new user none w w' ne gone h = ground arith
  replace-ok old new user (some u) w w' ne gone h = ground (
    arith,
    user_eq u user,
    redis.get_set (refresh_token_key new) user w.ttl w.keys,
    redis.get_set_ne (refresh_token_key new) (refresh_token_key old) user w.ttl w.keys
        (key-ne old new ne),
  )

  -- RotateRefreshToken that succeeds, with a new hash other than the old, had the old hash stored
  -- for this user; afterwards the old hash is gone and the new one is stored for the user.
  pub rotate_refresh_token-consumes :
      (old new : String) (user : ℕ) (w w' : Store S)
      → old ≢ new
      → rotate_refresh_token redis old new user w ≡ (ok tt, w')
      → (redis.get (refresh_token_key old) w.keys ≡ some user)
        × (redis.get (refresh_token_key old) w'.keys ≡ none)
        × (redis.get (refresh_token_key new) w'.keys ≡ some user)
  unfolding rotate_refresh_token
  rotate_refresh_token-consumes old new user w w' ne h = elim (Bool-cases (w.down w.sent)) [
    | inl d ↦ ground arith
    | inr d ↦
        replace-ok old new user (redis.get (refresh_token_key old) w.keys) _ w' ne
          (redis.get_del (refresh_token_key old) w.keys) (rw d at h)
  ]
