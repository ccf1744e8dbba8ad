-- ===== src/Errs.antt =====
-- Errors as values: pkg/errs/errs.go, the errors of the database driver that the services look at
-- (pgx.ErrNoRows and the constraint violations of internal/pgutil/pgutil.go), and those that
-- fmt.Errorf builds.
use Prim.Native.String.{◌++◌ as text_append}
use kpi_tenders_go.Prelude.{Option, none, some, String, Bool, true, false, str_eq, if◌then◌else◌}

-- `errs.Code`.
pub data Code : Type 0 where
  internal_error not_found conflict validation_failed unauthorized forbidden : Code
  not_implemented : Code

pub data Error : Type 0 where
  -- pgx.ErrNoRows
  no_rows : Error
  -- a PostgreSQL error by its class; the text is the constraint's name
  unique_violation foreign_key_violation check_violation : String → Error
  -- an error that is told from these by its text only: a lost connection, a timeout, bad JSON
  plain : String → Error
  -- errs.New(code, msg, nil) and errs.New(code, msg, err)
  app : Code → String → Error
  app_of : Code → String → Error → Error
  -- fmt.Errorf("msg: %w", err)
  wrapped : String → Error → Error

-- `errors.Is(err, pgx.ErrNoRows)`, which follows `Unwrap`.
unfoldable pub is_no_rows : Error → Bool
is_no_rows no_rows = true
is_no_rows (app_of code msg cause) = is_no_rows cause
is_no_rows (wrapped msg cause) = is_no_rows cause
is_no_rows e = false

-- `code` as the text that the frontend reads.
pub code_text : Code → String
code_text internal_error = "internal_error"
code_text not_found = "not_found"
code_text conflict = "conflict"
code_text validation_failed = "validation_failed"
code_text unauthorized = "unauthorized"
code_text forbidden = "forbidden"
code_text not_implemented = "not_implemented"

abbrev joined : String → String → String
joined s t = text_append s (text_append ": " t)

-- `err.Error()`.
pub error_text : Error → String
error_text no_rows = "no rows in result set"
error_text (unique_violation c) = joined "unique violation" c
error_text (foreign_key_violation c) = joined "foreign key violation" c
error_text (check_violation c) = joined "check violation" c
error_text (plain s) = s
error_text (app code msg) = joined (code_text code) msg
error_text (app_of code msg cause) = joined (code_text code) (joined msg (error_text cause))
error_text (wrapped msg cause) = joined msg (error_text cause)

-- `errs.New(errs.CodeInternalError, "internal server error", err)`.
abbrev pub internal : Error → Error
internal x = app_of internal_error "internal server error" x

-- `if errors.Is(err, pgx.ErrNoRows) { 404 } else { 500 }`.
abbrev pub missing_as : String → Error → Error
missing_as msg x = if is_no_rows x then app_of not_found msg x else internal x

-- `pgutil.IsUniqueViolation`, which follows `Unwrap`; the name is not empty.
unfoldable pub is_unique_violation : Error → String → Bool
is_unique_violation (unique_violation c) name = str_eq c name
is_unique_violation (app_of code msg cause) name = is_unique_violation cause name
is_unique_violation (wrapped msg cause) name = is_unique_violation cause name
is_unique_violation e name = false

-- `pgutil.IsForeignKeyViolation` for any constraint.
unfoldable pub is_foreign_key_violation : Error → Bool
is_foreign_key_violation (foreign_key_violation c) = true
is_foreign_key_violation (app_of code msg cause) = is_foreign_key_violation cause
is_foreign_key_violation (wrapped msg cause) = is_foreign_key_violation cause
is_foreign_key_violation e = false

-- `errors.As(err, &appErr)`: the first application error along `Unwrap`, its code and message.
unfoldable pub app_error : Error → Option (Code × String)
app_error (app code msg) = some (code, msg)
app_error (app_of code msg cause) = some (code, msg)
app_error (wrapped msg cause) = app_error cause
app_error e = none
