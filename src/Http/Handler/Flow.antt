-- ===== src/Http/Handler/Flow.antt =====
-- The shape of the handlers.
use task_management.Base.{ℕ, String, Option, []}
use task_management.Domain.Errors.{domain, Result, ok, err, invalid_input}
use task_management.Database.Tx.{World, Action}
use task_management.Http.Response.{
  HttpError, invalid, failed, ErrorResponse, Reply, error_handler, Bound, unreadable, rejected,
  bound, current_user, path_uuid,
}

pub data Checked (A : Type 0) : Type 0 where
  refused : HttpError → Checked A
  passed : A → Checked A

-- `if err != nil { return err }`
infixl 5 ◌>>=◌
unfoldable pub ◌>>=◌ : {A B : Type 0} → Checked A → (A → Checked B) → Checked B
refused e >>= f = refused e
passed a >>= f = f a

abbrev pub checked : {A : Type 0} → Result A → Checked A
checked (ok a) = passed a
checked (err e) = refused (failed e)

-- `bindJSON`, `bindQuery`; the text is the refusal's.
abbrev pub bind : {A : Type 0} → String → Bound A → Checked A
bind text unreadable = refused (failed (domain invalid_input text))
bind text (rejected fields) = refused (invalid fields)
bind text (bound a) = passed a

abbrev pub bind_json : {A : Type 0} → Bound A → Checked A
bind_json = bind "request body must be valid JSON"

abbrev pub bind_query : {A : Type 0} → Bound A → Checked A
bind_query = bind "invalid query parameters"

-- The JSON that is sent: an error's, or the handler's own.
pub data Body (A : Type 0) : Type 0 where
  problem : ErrorResponse → Body A
  content : A → Body A

abbrev pub problem_reply : {A : Type 0} → HttpError → Reply (Body A)
problem_reply e =
    let r : Reply ErrorResponse = error_handler e in
    record { status = r.status; headers = r.headers; body = problem r.body }

abbrev pub content_reply : {A : Type 0} → ℕ → A → Reply (Body A)
content_reply status a = record { status = status; headers = []; body = content a }

abbrev pub reply_to : {A : Type 0} → ℕ → Result A × World → Reply (Body A) × World
reply_to status (ok a, w) = (content_reply status a, w)
reply_to status (err e, w) = (problem_reply (failed e), w)

-- The answer of a handler, through the error handler: the status is the one of a success.
unfoldable pub answer :
    {A B : Type 0} → ℕ → Checked A → (A → Action B) → World → Reply (Body B) × World
answer status (refused e) call w = (problem_reply e, w)
answer status (passed a) call w = reply_to status (call a w)

-- The caller, as the middleware has left him, and one id of the path.
unfoldable pub caller_and : String → Option ℕ → Option ℕ → Checked (ℕ × ℕ)
caller_and text user id =
    checked (current_user user) >>= λ u. checked (path_uuid text id) >>= λ i. passed (u, i)
