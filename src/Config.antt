-- ===== src/Config.antt =====
-- internal/config: the settings that `validate` reads, and its checks. A text that `Load` reads may be
-- anything; a number is Go's int, and a duration is in nanoseconds.
pub mod Valid
pub mod Env
use Prim.Native.String.{len}
use task_management.Base.{
  ℕ, ◌*◌, String, Bool, true, false, not, List, [], ◌∷◌, ◌&&◌, ◌||◌, ltb, leb, if◌then◌else◌,
  str_eq,
}
use task_management.Domain.Listing.{ℤ, pos, negsuc}
use task_management.Domain.Time.{second}

-- The fields of `Config` that are checked.
pub record Config : Type 0 where
  pub app_env : String
  pub log_format : String
  pub http_port : ℤ
  pub body_limit_bytes : ℤ
  pub allowed_origins : List String
  pub allow_credentials : Bool
  pub secret : String
  pub access_token_ttl : ℤ
  pub refresh_token_ttl : ℤ
  pub bcrypt_cost : ℤ
  pub cookie_secure : Bool
  pub cookie_same_site : String
  pub consecutive_failures : ℤ
  pub open_timeout : ℤ
  pub task_list_ttl : ℤ
  pub global_max : ℤ
  pub auth_max : ℤ

-- z > n
abbrev pub above : ℕ → ℤ → Bool
above n (pos m) = ltb n m
above n (negsuc m) = false

-- z <= n
abbrev pub up_to : ℕ → ℤ → Bool
up_to n (pos m) = leb m n
up_to n (negsuc m) = true

-- y > z
abbrev pub longer : ℤ → ℤ → Bool
longer (pos m) (pos n) = ltb n m
longer (pos m) (negsuc n) = true
longer (negsuc m) (pos n) = false
longer (negsuc m) (negsuc n) = ltb m n

-- `slices.Contains`
abbrev pub contains : List String → String → Bool
contains [] s = false
contains (x ∷ xs) s = let rest = contains xs s in str_eq x s || rest

abbrev pub is_production : Config → Bool
is_production c = str_eq c.app_env "production"

abbrev pub weak_secret : Config → Bool
weak_secret c = ltb (len c.secret) 32

-- The conditions, each with the text of its error, without its arguments.
unfoldable pub checks : Config → List (Bool × String)
checks c =
    (
      contains ("development" ∷ "test" ∷ "production" ∷ []) c.app_env,
      "APP_ENV must be one of development, test, production",
    )
    ∷ (contains ("json" ∷ "console" ∷ []) c.log_format, "LOG_FORMAT must be json or console")
    ∷ (above 0 c.http_port && up_to 65535 c.http_port, "HTTP_PORT must be between 1 and 65535")
    ∷ (above 0 c.body_limit_bytes, "BODY_LIMIT_MB must be positive")
    ∷ (above 9 c.bcrypt_cost && up_to 16 c.bcrypt_cost, "COST must be between 10 and 16")
    ∷ (above 0 c.access_token_ttl, "ACCESS_TOKEN_TTL must be positive")
    ∷ (
      longer c.refresh_token_ttl c.access_token_ttl,
      "REFRESH_TOKEN_TTL must be longer than ACCESS_TOKEN_TTL",
    )
    ∷ (
      contains ("Strict" ∷ "Lax" ∷ "None" ∷ []) c.cookie_same_site,
      "COOKIE_SAME_SITE must be Strict, Lax or None",
    )
    ∷ (
      not (str_eq c.cookie_same_site "None") || c.cookie_secure,
      "COOKIE_SAME_SITE=None requires COOKIE_SECURE=true",
    )
    ∷ (
      above 0 c.task_list_ttl && up_to (3600 * second) c.task_list_ttl,
      "CACHE_TASK_LIST_TTL must be between 0 and 1h",
    )
    ∷ (above 0 c.global_max && above 0 c.auth_max, "rate limits must be positive")
    ∷ (
      above 0 c.consecutive_failures && up_to 999 c.consecutive_failures,
      "REDIS_BREAKER_FAILURES must be between 1 and 999",
    )
    ∷ (above 0 c.open_timeout, "REDIS_BREAKER_OPEN_TIMEOUT must be positive")
    ∷ (
      not c.allow_credentials || not (contains c.allowed_origins "*"),
      "ALLOW_CREDENTIALS=true cannot be combined with ALLOWED_ORIGINS=*",
    )
    ∷ (
      not (is_production c) || not (weak_secret c),
      "SECRET must be at least 32 bytes in production",
    )
    ∷ []

-- `env.check`, for one condition after the other: every error is kept.
abbrev pub failures : List (Bool × String) → List String
failures [] = []
failures (c ∷ cs) = let rest = failures cs in if c.0 then rest else c.1 ∷ rest

unfoldable pub validate : Config → List String
validate c = failures (checks c)
