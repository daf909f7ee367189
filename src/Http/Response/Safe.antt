-- ===== src/Http/Response/Safe.antt =====
-- What a client learns of an error.
use task_management.Base.{ℕ, ap, sym, ◌∙◌, ◌≤◌, ◌<◌, String, ◌≡◌, refl, ◌⊎◌, ◌↔◌, arith}
use task_management.Domain.Errors.{
  ErrorCode, Failure, domain, caused, plain, unavailable, internal, wrap,
}
use task_management.Http.Response.{
  HttpError, fiber, failed, to_response, internal_error, error_handler, error_headers, Reply,
  ErrorResponse,
}

abbrev answered : ℕ × ErrorResponse → Reply ErrorResponse
answered r = record { status = r.0; headers = error_headers r.0; body = r.1 }

-- Two errors that differ in nothing that a client may learn: the cause of a domain error is internal,
-- and so is everything of an error of the program that is no domain error and of one of the framework
-- whose status is 500 or more. The details of the validator and the message of the framework below 500
-- are not.
pub data Alike : HttpError → HttpError → Type 0 where
  causes :
      (c : ErrorCode) (m : String) (e e' : Failure)
      → Alike (failed (wrap (domain c m) e)) (failed (wrap (domain c m) e'))
  no_cause :
      (c : ErrorCode) (m : String) (e : Failure)
      → Alike (failed (wrap (domain c m) e)) (failed (domain c m))
  of_program : (text text' : String) → Alike (failed (plain text)) (failed (plain text'))
  of_framework :
      (s s' : ℕ) (text text' : String) → 500 ≤ s → 500 ≤ s' → Alike (fiber s text) (fiber s' text')
  program_and_framework :
      (s : ℕ) (text text' : String) → 500 ≤ s → Alike (fiber s text) (failed (plain text'))

fiber-internal : (s : ℕ) (text : String) → 500 ≤ s → to_response (fiber s text) ≡ internal_error
unfolding to_response
fiber-internal s text h = ground (arith, h)

-- Errors that differ only in what caused a domain error, in the text of a program error that is no
-- domain error, or in the status and the message of framework errors of 500 or more get the same
-- reply, with its status, headers and body; such a framework error gets that of a program error.
pub error_handler-Alike : (e e' : HttpError) → Alike e e' → error_handler e ≡ error_handler e'
unfolding error_handler to_response
error_handler-Alike _ _ (Alike.causes c m e e') = refl
error_handler-Alike _ _ (Alike.no_cause c m e) = refl
error_handler-Alike _ _ (Alike.of_program text text') = refl
error_handler-Alike _ _ (Alike.of_framework s s' text text' h h') =
    ap answered (fiber-internal s text h ∙ sym (fiber-internal s' text' h'))
error_handler-Alike _ _ (Alike.program_and_framework s text text' h) =
    ap answered (fiber-internal s text h)

-- The status of a failure of the program is one from 400 to 599, and it is 500 or more exactly when
-- the code that is sent is `unavailable` or `internal`.
pub to_response-status :
    (f : Failure)
    → (400 ≤ (to_response (failed f)).0)
      × ((to_response (failed f)).0 < 600)
      × ((500 ≤ (to_response (failed f)).0) ↔ (
          ((to_response (failed f)).1.code ≡ unavailable)
          ⊎ ((to_response (failed f)).1.code ≡ internal)))
unfolding to_response
to_response-status (domain c m) =
    (ground arith, ground arith, (λ h. ground arith, λ h. ground arith))
to_response-status (caused c m e) =
    (ground arith, ground arith, (λ h. ground arith, λ h. ground arith))
to_response-status (plain m) = (ground arith, ground arith, (λ h. ground arith, λ h. ground arith))
