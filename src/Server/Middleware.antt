-- ===== src/Server/Middleware.antt =====
-- internal/server/middleware.go: the checks before a handler. A request is its access_token cookie
-- and its Authorization header; a check answers the error, or what the next one knows.
use Prim.Native.Char.{code}
use kpi_tenders_go.Prelude.{ℕ, String, Bool, Option, none, some, ◌==◌, str_eq, if◌then◌else◌}
use kpi_tenders_go.Errs.{unauthorized, forbidden}
use kpi_tenders_go.Models.{Role, is_admin, is_owner}
use kpi_tenders_go.Payloads.{Claims}
use kpi_tenders_go.Effects.{Env, World, Result, ok, err}
use kpi_tenders_go.AuthService.{validate_access_token}
use kpi_tenders_go.Server.Errors.{ErrorResponse, error_response}

pub record Request : Type 0 where
  pub access_token : Option String
  -- `""` when there is none
  pub authorization : String

-- What the Gin context holds after AuthMiddleware.
pub record Context : Type 0 where
  pub user_id : ℕ
  pub org_id : ℕ
  pub role : Role

pub data Guarded (A : Type 0) : Type 0 where
  aborted : ErrorResponse → Guarded A
  next : A → Guarded A

abbrev pub context_of : Result Claims → Guarded Context
context_of (err x) = aborted (error_response unauthorized "invalid or expired token")
context_of (ok c) = next (record { user_id = c.user_id; org_id = c.org_id; role = c.role })

abbrev pub with_cookie : Option String → Env → World → Guarded Context × World
with_cookie none e w = (aborted (error_response unauthorized "missing access token"), w)
with_cookie (some token) e w = let (r, w') = validate_access_token token e w in (context_of r, w')

unfoldable pub auth_middleware : Request → Env → World → Guarded Context × World
auth_middleware req e w = with_cookie req.access_token e w

unfoldable pub admin_only : Context → Guarded Context
admin_only c =
    if is_admin c.role then next c else aborted (error_response forbidden "admin rights required")

unfoldable pub owner_only : Context → Guarded Context
owner_only c =
    if is_owner c.role then next c else aborted (error_response forbidden "owner rights required")

unfoldable pub tenant_scoped_only : Context → Guarded Context
tenant_scoped_only c =
    if is_owner c.role
    then aborted (error_response forbidden "owner token cannot access tenant-scoped route")
    else next c

-- `strings.CutPrefix`.
unfoldable pub cut_prefix : String → String → Option String
cut_prefix s String.[] = some s
cut_prefix String.[] (String.◌∷◌ d p) = none
cut_prefix (String.◌∷◌ c s) (String.◌∷◌ d p) =
    let rest = cut_prefix s p in if code c == code d then rest else none

abbrev pub is_blank_token : String → Bool
is_blank_token token = str_eq token ""

-- `subtle.ConstantTimeCompare` of the bytes.
abbrev pub check_token : String → Option String → Guarded (Unit {0})
check_token expected none =
    aborted (error_response unauthorized "missing or malformed service token")
check_token expected (some token) =
    if is_blank_token token
    then aborted (error_response unauthorized "missing or malformed service token")
    else if str_eq token expected
    then next tt
    else aborted (error_response unauthorized "invalid service token")

-- The first argument is the configured ServiceToken.
unfoldable pub service_bearer_auth : String → Request → Guarded (Unit {0})
unfolding cut_prefix
service_bearer_auth expected req = check_token expected (cut_prefix req.authorization "Bearer ")
