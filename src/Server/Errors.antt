-- ===== src/Server/Errors.antt =====
-- internal/server/errors.go: the response to an error. The codes of the model are those of the
-- table codeToStatus, so that the branch for an unknown code is not there.
use kpi_tenders_go.Prelude.{ℕ, String, Option, none, some}
use kpi_tenders_go.Errs.{
  Error, Code, not_found, conflict, validation_failed, unauthorized, forbidden, internal_error,
  not_implemented, app_error,
}
use kpi_tenders_go.Effects.{Result, ok, err}

-- `codeToStatus`.
abbrev pub code_to_status : Code → ℕ
code_to_status not_found = 404
code_to_status conflict = 409
code_to_status validation_failed = 400
code_to_status unauthorized = 401
code_to_status forbidden = 403
code_to_status internal_error = 500
code_to_status not_implemented = 501

-- The status and the body `errorResponse`.
pub record ErrorResponse : Type 0 where
  pub status : ℕ
  pub code : Code
  pub message : String

abbrev pub error_response : Code → String → ErrorResponse
error_response code message = record {
  status = code_to_status code;
  code = code;
  message = message;
}

abbrev pub respond_found : Option (Code × String) → ErrorResponse
respond_found none = error_response internal_error "internal server error"
respond_found (some (code, message)) = error_response code message

unfoldable pub respond_with_error : Error → ErrorResponse
respond_with_error x = respond_found (app_error x)

-- What the caller of a handler sees of a service's result.
pub data Response (A : Type 0) : Type 0 where
  success : A → Response A
  failure : ErrorResponse → Response A

module _ {A : Type 0} where
  unfoldable pub answer : Result A → Response A
  unfolding respond_with_error
  answer (ok a) = success a
  answer (err x) = failure (respond_with_error x)
