-- ===== src/Http/Response.antt =====
-- internal/server/http/handler/response.go: how an error becomes a reply.
pub mod Safe
use task_management.Base.{
  ℕ, String, Bool, true, false, Option, none, some, List, [], ◌∷◌, ◌==◌, ltb, if◌then◌else◌,
}
use task_management.Domain.Errors.{
  ErrorCode, invalid_input, validation_failed, not_found, already_exists, conflict,
  version_conflict, unauthorized, invalid_credentials, forbidden, assignee_not_in_team,
  too_many_requests, unavailable, internal, Failure, domain, caused, plain, default_message, Result,
  ok, err,
}

-- `validator.FieldError`
pub record FieldError : Type 0 where
  pub field : String
  pub message : String

-- What a handler or the framework may return: the validator's errors, an error of the program's own,
-- or a `*fiber.Error` with its status.
pub data HttpError : Type 0 where
  invalid : List FieldError → HttpError
  failed : Failure → HttpError
  fiber : ℕ → String → HttpError

-- The request id is the middleware's.
pub record ErrorResponse : Type 0 where
  pub error : String
  pub code : ErrorCode
  pub details : List FieldError

abbrev pub code_status : ErrorCode → ℕ
code_status invalid_input = 400
code_status validation_failed = 400
code_status assignee_not_in_team = 400
code_status unauthorized = 401
code_status invalid_credentials = 401
code_status forbidden = 403
code_status not_found = 404
code_status already_exists = 409
code_status conflict = 409
code_status version_conflict = 409
code_status too_many_requests = 429
code_status unavailable = 503
code_status internal = 500

-- A status that is not in the table is an invalid input.
abbrev pub status_code : ℕ → ErrorCode
status_code s =
    if s == 400
    then invalid_input
    else if s == 401
    then unauthorized
    else if s == 403
    then forbidden
    else if s == 404
    then not_found
    else if s == 409
    then conflict
    else if s == 429
    then too_many_requests
    else if s == 500
    then internal
    else invalid_input

abbrev pub internal_error : ℕ × ErrorResponse
internal_error = (500, record { error = default_message internal; code = internal; details = [] })

unfoldable pub to_response : HttpError → ℕ × ErrorResponse
to_response (invalid fields) = (
  400,
  record { error = "request validation failed"; code = validation_failed; details = fields },
)
to_response (failed (domain c m)) = (code_status c, record { error = m; code = c; details = [] })
to_response (failed (caused c m e)) = (code_status c, record { error = m; code = c; details = [] })
to_response (failed (plain m)) = internal_error
to_response (fiber status m) =
    if ltb status 500
    then (status, record { error = m; code = status_code status; details = [] })
    else internal_error

-- The headers that `ErrorHandler` sets.
abbrev pub error_headers : ℕ → List (String × String)
error_headers status =
    if status == 401
    then ("WWW-Authenticate", "Bearer realm=\"api\"") ∷ []
    else if status == 503
    then ("Retry-After", "5") ∷ []
    else []

pub record Reply (A : Type 0) : Type 0 where
  pub status : ℕ
  pub headers : List (String × String)
  pub body : A

-- `ErrorHandler`, without the log.
unfoldable pub error_handler : HttpError → Reply ErrorResponse
error_handler e = record {
  status = (to_response e).0;
  headers = error_headers (to_response e).0;
  body = (to_response e).1;
}

-- `bindJSON` and `bindQuery`, given whether the body or the query could be parsed and what the
-- validator says of it.
pub data Bound (A : Type 0) : Type 0 where
  unreadable : Bound A
  rejected : List FieldError → Bound A
  bound : A → Bound A

-- `pathUUID`, given the number of the UUID, or `none` where the text is no UUID.
unfoldable pub path_uuid : String → Option ℕ → Result ℕ
path_uuid text none = err (domain invalid_input text)
path_uuid text (some id) = ok id

-- `currentUser`: 0 is the empty id.
unfoldable pub current_user : Option ℕ → Result ℕ
current_user none = err (domain unauthorized (default_message unauthorized))
current_user (some id) =
    if id == 0 then err (domain unauthorized (default_message unauthorized)) else ok id
