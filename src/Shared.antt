-- ===== src/Shared.antt =====
-- backend/src/shared/error.rs: the error type of the application and its HTTP form.
use sagiton.Prelude.{Bool, true, false, ℕ, String, Option, none, some}

-- The text of an error: a literal, or the two `format!` texts of `validate_name`.
pub data Message : Type 0 where
  text : String → Message
  at_least at_most : String → ℕ → Message

pub data AppError : Type 0 where
  validation conflict unauthorized forbidden rate_limited not_found internal : Message → AppError

-- `Result<T, AppError>`, under the name `AppResult`.
pub data AppResult (A : Type 0) : Type 0 where
  ok : A → AppResult A
  err : AppError → AppResult A

-- `Option::ok_or_else`.
abbrev pub ok_or : {A : Type 0} → Option A → AppError → AppResult A
ok_or none e = err e
ok_or (some a) e = ok a

-- `Result::is_ok`.
abbrev pub is_ok : {A : Type 0} → AppResult A → Bool
is_ok (ok _) = true
is_ok (err _) = false

-- `AppError::as_http_parts`: the status, the code and the text of the response.
unfoldable pub as_http_parts : AppError → ℕ × String × Message
as_http_parts (validation m) = (400, "VALIDATION_ERROR", m)
as_http_parts (conflict m) = (409, "CONFLICT", m)
as_http_parts (unauthorized m) = (401, "UNAUTHORIZED", m)
as_http_parts (forbidden m) = (403, "FORBIDDEN", m)
as_http_parts (rate_limited m) = (429, "RATE_LIMITED", m)
as_http_parts (not_found m) = (404, "NOT_FOUND", m)
as_http_parts (internal m) = (500, "INTERNAL_ERROR", m)
