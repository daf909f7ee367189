-- ===== src/Domain/Errors.antt =====
-- internal/domain/errors.go: the error codes, the sentinels, and matching along a chain of causes.
use task_management.Base.{ℕ, String, Bool, false, ◌||◌, ◌==◌}

pub data ErrorCode : Type 0 where
  invalid_input validation_failed not_found already_exists conflict version_conflict : ErrorCode
  unauthorized invalid_credentials forbidden assignee_not_in_team too_many_requests : ErrorCode
  unavailable internal : ErrorCode

-- A Go error value: a `*domain.Error` without and with a cause in its field `Err`, and any other
-- error (a driver's, or one made by `fmt.Errorf`), which wraps no domain error in this program.
pub data Failure : Type 0 where
  domain : ErrorCode → String → Failure
  caused : ErrorCode → String → Failure → Failure
  plain : String → Failure

pub data Result {ℓ} (A : Type ℓ) : Type ℓ where
  ok : A → Result A
  err : Failure → Result A

-- The codes are distinct strings in the source, and are only compared.
abbrev code_index : ErrorCode → ℕ
code_index invalid_input = 0
code_index validation_failed = 1
code_index not_found = 2
code_index already_exists = 3
code_index conflict = 4
code_index version_conflict = 5
code_index unauthorized = 6
code_index invalid_credentials = 7
code_index forbidden = 8
code_index assignee_not_in_team = 9
code_index too_many_requests = 10
code_index unavailable = 11
code_index internal = 12

abbrev pub code_eq : ErrorCode → ErrorCode → Bool
code_eq a b = code_index a == code_index b

-- `errors.Is(err, sentinel)`: the codes agree, here or at a cause.
abbrev pub is : Failure → ErrorCode → Bool
is (domain c m) code = code_eq c code
is (caused c m e) code = code_eq c code || is e code
is (plain m) code = false

-- The sentinels `ErrInvalidInput`, ..., and `WithMessage`.
abbrev pub default_message : ErrorCode → String
default_message invalid_input = "invalid input"
default_message validation_failed = "request validation failed"
default_message not_found = "resource not found"
default_message already_exists = "resource already exists"
default_message conflict = "resource has been modified by another request"
default_message version_conflict = "task version is outdated; reload and retry"
default_message unauthorized = "authentication required"
default_message invalid_credentials = "invalid credentials"
default_message forbidden = "insufficient permissions"
default_message assignee_not_in_team = "assignee must be a member of the team"
default_message too_many_requests = "too many requests"
default_message unavailable = "service temporarily unavailable, retry shortly"
default_message internal = "internal server error"

abbrev pub sentinel : ErrorCode → Failure
sentinel c = domain c (default_message c)

abbrev pub with_message : Failure → String → Failure
with_message (domain c m) text = domain c text
with_message (caused c m e) text = caused c text e
with_message (plain m) text = plain m

-- `Wrap`
abbrev pub wrap : Failure → Failure → Failure
wrap (domain c m) cause = caused c m cause
wrap (caused c m e) cause = caused c m cause
wrap (plain m) cause = plain m

infixl 10 ◌>>=ᵣ◌
unfoldable pub ◌>>=ᵣ◌ {ℓ κ} : {A : Type ℓ} {B : Type κ} → Result A → (A → Result B) → Result B
ok a >>=ᵣ f = f a
err e >>=ᵣ f = err e
