-- ===== src/Http/Handler/Session.antt =====
-- internal/server/http/handler/auth.go, with the configuration of its cookie.
pub mod Over
use task_management.Base.{ℕ, String, Bool, true, Option, none, some, List, [], ◌∷◌}
use task_management.Domain.Errors.{Result, ok, err}
use task_management.Domain.Team.{User}
use task_management.Domain.Listing.{ℤ, pos, negsuc}
use task_management.Database.Tx.{World}
use task_management.Cache.Redis.{Redis}
use task_management.Cache.Token.{Store}
use task_management.Service.Account.{Crypto, Account}
use task_management.Service.Auth as Service
use task_management.Service.Auth.{TokenPair}
use task_management.Http.Response.{Reply, Bound, HttpError, failed}
use task_management.Http.Handler.Flow.{
  Checked, refused, passed, bind_json, Body, problem_reply, content_reply,
}
use task_management.Http.Middleware.Auth.{bearer_token}

-- `domain.UserResponse`
pub record UserResponse : Type 0 where
  pub id : ℕ
  pub email : String
  pub name : String
  pub created_at : ℕ

abbrev pub response : User → UserResponse
response u = record { id = u.id; email = u.email; name = u.name; created_at = u.created_at }

pub record RegisterRequest : Type 0 where
  pub email : String
  pub password : String
  pub name : String

pub record LoginRequest : Type 0 where
  pub email : String
  pub password : String

pub record LoginResponse : Type 0 where
  pub user : UserResponse
  pub access_token : String
  pub token_type : String
  pub expires_in : ℕ

pub record RefreshResponse : Type 0 where
  pub access_token : String
  pub token_type : String
  pub expires_in : ℕ

-- What is read of `config.AuthConfig`; the times to live are in seconds.
pub record AuthConfig : Type 0 where
  pub access_token_ttl : ℕ
  pub refresh_token_ttl : ℕ
  pub cookie_domain : String
  pub cookie_secure : Bool
  pub cookie_same_site : String

-- `fiber.Cookie`
pub record Cookie : Type 0 where
  pub name : String
  pub value : String
  pub path : String
  pub domain : String
  pub max_age : ℤ
  pub http_only : Bool
  pub secure : Bool
  pub same_site : String

-- A reply with the cookies that it sets.
pub record Answer (A : Type 0) : Type 0 where
  pub reply : Reply (Body A)
  pub cookies : List Cookie

abbrev pub refusal : {A : Type 0} → HttpError → List Cookie → Answer A
refusal e cookies = record { reply = problem_reply e; cookies = cookies }

abbrev pub refresh_cookie : AuthConfig → String → ℤ → Cookie
refresh_cookie cfg value age = record {
  name = "refresh_token";
  value = value;
  path = "/api/v1/auth";
  domain = cfg.cookie_domain;
  max_age = age;
  http_only = true;
  secure = cfg.cookie_secure;
  same_site = cfg.cookie_same_site;
}

abbrev pub set_refresh_cookie : AuthConfig → String → Cookie
set_refresh_cookie cfg token = refresh_cookie cfg token (pos cfg.refresh_token_ttl)

abbrev pub clear_refresh_cookie : AuthConfig → Cookie
clear_refresh_cookie cfg = refresh_cookie cfg "" (negsuc 0)

abbrev pub access_of : Option String → String
access_of none = ""
access_of (some token) = token

module _ {S : Type 0} (redis : Redis S) (crypto : Crypto) (cfg : AuthConfig) where
  abbrev pub Handled : Type 0 → Type 0
  Handled A = World × Store S → Answer A × (World × Store S)

  abbrev pub registered : Result User × (World × Store S) → Answer UserResponse × (World × Store S)
  registered (err e, w) = (refusal (failed e) [], w)
  registered (ok user, w) = (record { reply = content_reply 201 (response user); cookies = [] }, w)

  abbrev pub register_bound : ℕ → ℕ → ℕ → Checked RegisterRequest → Handled UserResponse
  register_bound salt id clock (refused e) w = (refusal e [], w)
  register_bound salt id clock (passed req) w =
      registered (Service.register redis crypto salt id clock req.email req.password req.name w)

  unfoldable pub register : ℕ → ℕ → ℕ → Bound RegisterRequest → Handled UserResponse
  register salt id clock body w = register_bound salt id clock (bind_json body) w

  abbrev pub logged_in :
      Result (User × TokenPair) × (World × Store S) → Answer LoginResponse × (World × Store S)
  logged_in (err e, w) = (refusal (failed e) [], w)
  logged_in (ok (user, pair), w) =
      let body : LoginResponse = record {
        user = response user;
        access_token = pair.access_token;
        token_type = "Bearer";
        expires_in = cfg.access_token_ttl;
      } in
      (
        record {
          reply = content_reply 200 body;
          cookies = set_refresh_cookie cfg pair.refresh_token ∷ [];
        },
        w,
      )

  abbrev pub login_bound : ℕ → Checked LoginRequest → Handled LoginResponse
  login_bound salt (refused e) w = (refusal e [], w)
  login_bound salt (passed req) w =
      logged_in (Service.login redis crypto salt req.email req.password w)

  unfoldable pub login : ℕ → Bound LoginRequest → Handled LoginResponse
  login salt body w = login_bound salt (bind_json body) w

  abbrev pub refreshed :
      Result TokenPair × (World × Store S) → Answer RefreshResponse × (World × Store S)
  refreshed (err e, w) = (refusal (failed e) (clear_refresh_cookie cfg ∷ []), w)
  refreshed (ok pair, w) =
      let body : RefreshResponse = record {
        access_token = pair.access_token;
        token_type = "Bearer";
        expires_in = cfg.access_token_ttl;
      } in
      (
        record {
          reply = content_reply 200 body;
          cookies = set_refresh_cookie cfg pair.refresh_token ∷ [];
        },
        w,
      )

  -- The cookie is the empty text where the request has none.
  unfoldable pub refresh : ℕ → String → Handled RefreshResponse
  refresh salt cookie w = refreshed (Service.refresh redis crypto salt cookie w)

  abbrev pub logged_out :
      Result (Unit {0}) × (World × Store S) → Answer (Unit {0}) × (World × Store S)
  logged_out (err e, w) = (refusal (failed e) [], w)
  logged_out (ok tt, w) =
      (record { reply = content_reply 204 tt; cookies = clear_refresh_cookie cfg ∷ [] }, w)

  unfoldable pub logout : ℕ → String → String → Handled (Unit {0})
  logout clock header cookie w =
      logged_out (Service.logout redis crypto clock (access_of (bearer_token header)) cookie w)
