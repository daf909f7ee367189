-- ===== src/Tests/Gate.antt =====
-- The theorems on requests, replies and limits at concrete inputs.
use task_management.Base.{
  ◌*◌, List, false, true, ◌≢◌, ℕ, false, some, none, [], ◌∷◌, ◌≡◌, ◌⊎◌, ◌↔◌, ◌≤◌, ◌<◌, refl, arith,
}
use task_management.Domain.Errors.{domain, plain, ok, unavailable, internal, not_found}
use task_management.Domain.Text.{trim_space, to_lower}
use task_management.Service.Account.{Claims, on_sessions, settled}
use task_management.Service.Account as Account
use task_management.Service.Auth.{logout}
use task_management.Cache.Token.Calls as TokenCalls
use task_management.Cache.Token.Calls.{make_all}
use task_management.Cache.Token.{blacklist_access_token, delete_refresh_token}
use task_management.Http.Response.{to_response, error_handler, failed, fiber, bound}
use task_management.Http.Response.Safe.{Alike, error_handler-Alike, to_response-status}
use task_management.Http.Handler.Calls.{Call}
use task_management.Http.Middleware.Auth.{auth, bearer_token}
use task_management.Http.Middleware.Auth.Revoked.{logout-bars}
use task_management.Http.Middleware.RateLimiter.{limit}
use task_management.Http.Middleware.RateLimiter.Window.{
  admitted, after_requests, at_most, passed, admitted-window,
}
use task_management.Http.Middleware.RateLimiter.Lapses.{limit-lapses}
use task_management.Http.Handler.Session as Session
use task_management.Http.Handler.Session.{AuthConfig, clear_refresh_cookie}
use task_management.Http.Handler.Session.Over.{logout-refresh}
use task_management.Database.Runs.{Runs}
use task_management.Service.User.{change_password}
use task_management.Service.User.Passwords.{IsChanged, change_password-IsChanged}
use task_management.Domain.Listing.{pos}
use task_management.Domain.Time.{second}
use task_management.Config.{Config, checks, validate}
use task_management.Config.Valid.{IsValid, validate-IsValid}
use task_management.Http.Protected.{protected, ByToken, protected-ByToken}
use task_management.Tests.Sample.{world, tables}
use task_management.Tests.Sessions.{redis, crypto, sessions, account}
use task_management.Tests.Limits.{CounterKeys, counters}

abbrev no_counters : CounterKeys
no_counters k = none

protected-ByToken_example :
    ByToken redis crypto "Bearer access" sessions tables
      (protected redis crypto "Bearer access"
        (Call.rename_team (some 7) (bound "ops"))
        (world, sessions)).1.0.db
protected-ByToken_example =
    protected-ByToken redis crypto "Bearer access" (Call.rename_team (some 7) (bound "ops")) world
      sessions

-- A request without a token is answered with 401.
anonymous_rename :
    (protected redis crypto "" (Call.rename_team (some 7) (bound "ops")) (world, sessions)).0 ≡ 401
unfolding protected auth bearer_token to_response
anonymous_rename = refl

-- After the logout somebody else logs in, the token is tried, and 30 units of time pass.
abbrev afterwards : List TokenCalls.Call
afterwards =
    TokenCalls.Call.saves "#other" 4
    ∷ TokenCalls.Call.checks "access"
    ∷ TokenCalls.Call.waits 30
    ∷ []

logout-bars_example : ¬ (
    (auth redis crypto "Bearer access"
      (make_all redis afterwards (logout redis crypto 20 "access" "first" account).1.1)).0
    ≡ ok 3)
unfolding logout bearer_token to_lower trim_space Account.◌>>=◌ on_sessions blacklist_access_token
    delete_refresh_token
logout-bars_example =
    logout-bars redis crypto 20 3 "access" "first" "Bearer access"
      (record { user_id = 3; jti = "access"; expires_at = 60 }) afterwards account refl refl refl
      refl (omega arith) (tt, (tt, (tt, tt)))

admitted-window_example :
    admitted counters "auth" "::1" 2 60 (100 ∷ 120 ∷ 130 ∷ 159 ∷ []) no_counters ≡ at_most 2 4
admitted-window_example =
    admitted-window counters "auth" "::1" 2 60 100 (120 ∷ 130 ∷ 159 ∷ []) no_counters (omega arith)
      refl (ground arith)

limit-lapses_example :
    ◌≡◌ {A = ℕ}
      (passed
        (limit counters "auth" 2 60 "::1" false 219
          (after_requests counters "auth" "::1" 2 60 (100 ∷ 120 ∷ 159 ∷ []) no_counters)).0.verdict)
      1
limit-lapses_example =
    limit-lapses counters "auth" "::1" 2 60 (100 ∷ 120 ∷ 159 ∷ []) no_counters 100 219 (omega arith)
      (omega arith) refl (ground arith) (omega arith)

error_handler-Alike_example :
    error_handler (fiber 503 "dial tcp 10.0.0.7:3306") ≡ error_handler (failed (plain "no rows"))
error_handler-Alike_example =
    error_handler-Alike (fiber 503 "dial tcp 10.0.0.7:3306") (failed (plain "no rows"))
      (Alike.program_and_framework 503 "dial tcp 10.0.0.7:3306" "no rows" (omega arith))

to_response-status_example :
    (400 ≤ (to_response (failed (domain not_found "no"))).0)
    × ((to_response (failed (domain not_found "no"))).0 < 600)
    × ((500 ≤ (to_response (failed (domain not_found "no"))).0) ↔ (
        ((to_response (failed (domain not_found "no"))).1.code ≡ unavailable)
        ⊎ ((to_response (failed (domain not_found "no"))).1.code ≡ internal)))
to_response-status_example = to_response-status (domain not_found "no")

abbrev cookie_config : AuthConfig
cookie_config = record {
  access_token_ttl = 900;
  refresh_token_ttl = 604800;
  cookie_domain = "";
  cookie_secure = true;
  cookie_same_site = "Lax";
}

logout-refresh_example :
    ((Session.logout redis crypto cookie_config 20 "Bearer access" "first" account).0.cookies
      ≡ clear_refresh_cookie cookie_config ∷ [])
    × ((Session.refresh redis crypto cookie_config 5 "first"
          (Session.logout redis crypto cookie_config 20 "Bearer access" "first"
            account).1).0.reply.status
        ≢ 200)
unfolding Session.logout logout bearer_token to_lower trim_space Account.◌>>=◌ on_sessions
    blacklist_access_token delete_refresh_token
logout-refresh_example =
    logout-refresh redis crypto cookie_config 20 5 "Bearer access" "first" account refl refl

change_password-IsChanged_example :
    Runs tables
      (change_password crypto 8 3 "pw" "next")
      (λ b'. b' ≡ tables)
      (λ _ b'. IsChanged crypto 3 "pw" "next" tables b' 8)
change_password-IsChanged_example = change_password-IsChanged crypto 8 3 "pw" "next" tables

-- The settings that `Load` falls back on.
abbrev defaults : Config
defaults = record {
  app_env = "development";
  log_format = "console";
  http_port = pos 8080;
  body_limit_bytes = pos 1048576;
  allowed_origins = "*" ∷ [];
  allow_credentials = false;
  secret = "secret";
  access_token_ttl = pos (900 * second);
  refresh_token_ttl = pos (604800 * second);
  bcrypt_cost = pos 12;
  cookie_secure = false;
  cookie_same_site = "Lax";
  consecutive_failures = pos 5;
  open_timeout = pos (15 * second);
  task_list_ttl = pos (300 * second);
  global_max = pos 100;
  auth_max = pos 20;
}

defaults_pass : validate defaults ≡ []
unfolding validate checks
defaults_pass = refl

validate-IsValid_example : (validate defaults ≡ []) ↔ IsValid defaults
validate-IsValid_example = validate-IsValid defaults
