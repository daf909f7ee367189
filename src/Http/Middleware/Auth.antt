-- ===== src/Http/Middleware/Auth.antt =====
-- internal/server/http/middleware/auth.go
pub mod Revoked
use task_management.Base.{
  ℕ, String, Bool, true, false, Option, none, some, ◌&&◌, not, if◌then◌else◌, str_eq, ◌==◌,
}
use task_management.Domain.Errors.{
  domain, sentinel, wrap, Result, ok, err, unauthorized, unavailable,
}
use task_management.Domain.Text.{trim_space, to_lower}
use task_management.Cache.Redis.{Redis}
use task_management.Cache.Token.{Store, is_access_token_blacklisted}
use task_management.Service.Account.{Claims, Crypto}
use Prim.Native.Char.{Char, code}

abbrev pub after_char : Char → Option (String × String) → Option (String × String)
after_char c none = none
after_char c (some (before, after)) = some (String.◌∷◌ c before, after)

-- `strings.Cut`, at the first blank.
abbrev pub cut : String → Option (String × String)
cut String.[] = none
cut (String.◌∷◌ c s) =
    let rest = cut s in if code c == b' ' then some (String.[], s) else after_char c rest

abbrev pub token_of : Option (String × String) → Option String
token_of none = none
token_of (some (scheme, token)) =
    if not (str_eq (to_lower scheme) "bearer")
    then none
    else if str_eq (trim_space token) ""
    then none
    else some (trim_space token)

-- `BearerToken`, of the Authorization header.
unfoldable pub bearer_token : String → Option String
bearer_token header = token_of (cut header)

module _ {S : Type 0} (redis : Redis S) (crypto : Crypto) where
  abbrev pub unless_revoked : ℕ → Result Bool × Store S → Result ℕ × Store S
  unless_revoked user (err e, s) = (err (wrap (sentinel unavailable) e), s)
  unless_revoked user (ok true, s) = (err (domain unauthorized "access token has been revoked"), s)
  unless_revoked user (ok false, s) = (ok user, s)

  abbrev pub check_claims : Option Claims → Store S → Result ℕ × Store S
  check_claims none s = (err (domain unauthorized "invalid or expired access token"), s)
  check_claims (some claims) s =
      unless_revoked claims.user_id (is_access_token_blacklisted redis claims.jti s)

  abbrev pub check_token : Option String → Store S → Result ℕ × Store S
  check_token none s = (err (domain unauthorized "missing or malformed Authorization header"), s)
  check_token (some token) s = check_claims (crypto.validate_access_token token) s

  -- `Auth`: the user whose id is left for the handlers.
  unfoldable pub auth : String → Store S → Result ℕ × Store S
  auth header s = check_token (bearer_token header) s
