-- ===== src/Service/Auth.antt =====
-- internal/service/auth.go. `uuid.NewString()`, the clock and the randomness of a call are arguments.
pub mod Rotation
pub mod Access
use task_management.Base.{
  ℕ, String, Bool, true, false, Option, none, some, ◌-◌, if◌then◌else◌, str_eq,
}
use task_management.Domain.Errors.{
  Failure, domain, sentinel, is, wrap, plain, Result, ok, err, not_found, invalid_credentials,
}
use task_management.Domain.Team.{User}
use task_management.Domain.Text.{trim_space, normalize_email}
use task_management.Repository.User
use task_management.Cache.Redis.{Redis}
use task_management.Cache.Token.{
  Store, get_refresh_token, set_refresh_token, rotate_refresh_token, delete_refresh_token,
  blacklist_access_token,
}
use task_management.Service.Account.{
  Claims, Crypto, Account, on_tables, on_sessions, settled, recast_account, ◌>>=◌, ◌>>◌,
}

-- `ExpiresIn`, the configured time to live, is left out.
pub record TokenPair : Type 0 where
  pub access_token : String
  pub refresh_token : String

abbrev pub bad_credentials : Failure → Failure
bad_credentials e = if is e not_found then sentinel invalid_credentials else e

abbrev pub require_password : Bool → Result (Unit {0})
require_password true = ok tt
require_password false = err (sentinel invalid_credentials)

-- `fmt.Errorf("hash password: %w", err)`, of an error that is no domain error.
abbrev hash_failed : Failure → Failure
hash_failed e = plain "hash password"

abbrev pub refresh_token_required : String → Result (Unit {0})
refresh_token_required token =
    if str_eq token "" then err (domain invalid_credentials "refresh token required") else ok tt

abbrev pub stale_token : Failure → Failure
stale_token e =
    if is e not_found then domain invalid_credentials "refresh token is invalid or expired" else e

module _ {S : Type 0} (redis : Redis S) (crypto : Crypto) where
  unfoldable pub register : ℕ → ℕ → ℕ → String → String → String → Account S User
  register salt id clock email password name = do
    hash ← recast_account hash_failed (settled (crypto.hash salt password))
    let user : User = record {
      id = id;
      email = normalize_email email;
      password_hash = hash;
      name = trim_space name;
      created_at = clock;
    }
    on_tables (User.create user)
    settled (ok user)

  unfoldable pub issue_tokens : ℕ → User → Account S TokenPair
  issue_tokens salt user = do
    access ← settled (crypto.generate_access_token salt user.id user.email)
    refresh ← settled (crypto.generate_refresh_token salt)
    on_sessions (set_refresh_token redis (crypto.hash_refresh_token refresh) user.id)
    settled (ok (record { access_token = access; refresh_token = refresh }))

  -- The comparison with the dummy hash, which only takes time, is left out.
  unfoldable pub login : ℕ → String → String → Account S (User × TokenPair)
  login salt email password = do
    user ← recast_account bad_credentials (on_tables (User.get_by_email (normalize_email email)))
    settled (require_password (crypto.compare user.password_hash password))
    pair ← issue_tokens salt user
    settled (ok (user, pair))

  unfoldable pub refresh : ℕ → String → Account S TokenPair
  refresh salt raw = do
    settled (refresh_token_required (trim_space raw))
    user_id ←
        recast_account stale_token
          (on_sessions (get_refresh_token redis (crypto.hash_refresh_token (trim_space raw))))
    user ← recast_account bad_credentials (on_tables (User.get_by_id user_id))
    access ← settled (crypto.generate_access_token salt user.id user.email)
    next ← settled (crypto.generate_refresh_token salt)
    on_sessions (
        rotate_refresh_token redis (crypto.hash_refresh_token (trim_space raw))
          (crypto.hash_refresh_token next) user.id)
    settled (ok (record { access_token = access; refresh_token = next }))

  -- A token that is not valid, or whose time is up, is not revoked.
  abbrev pub revoke_access : ℕ → Option Claims → Account S (Unit {0})
  revoke_access clock none = settled (ok tt)
  revoke_access clock (some claims) =
      on_sessions (blacklist_access_token redis claims.jti (claims.expires_at - clock))

  unfoldable pub logout : ℕ → String → String → Account S (Unit {0})
  logout clock access_token refresh_token = do
    if str_eq access_token ""
        then settled (ok tt)
        else revoke_access clock (crypto.validate_access_token access_token)
    if str_eq (trim_space refresh_token) ""
        then settled (ok tt)
        else on_sessions
            (delete_refresh_token redis (crypto.hash_refresh_token (trim_space refresh_token)))
