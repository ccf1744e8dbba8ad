-- ===== src/AuthService.antt =====
-- internal/service/service_auth.go: login, and the tokens that it gives out. The comparison with a
-- dummy hash for an unknown user takes time only, and is left out.
use kpi_tenders_go.Prelude.{ℕ, ◌+◌, String, Option, none, some, if◌then◌else◌}
use kpi_tenders_go.Errs.{Error, app, app_of, unauthorized, internal_error, is_no_rows, internal}
use kpi_tenders_go.Models.{User, Organization, Role, is_owner}
use kpi_tenders_go.Payloads.{Claims, RefreshClaims}
use kpi_tenders_go.Effects.{Env, M, pure, throw, ◌>>=◌, ◌>>◌, map_error, asks, current_time}
use kpi_tenders_go.Repository.Accounts.{get_user_by_email, get_user_by_id, get_organization_by_id}

-- Seconds.
abbrev pub access_token_ttl : ℕ
access_token_ttl = 900

abbrev pub refresh_token_ttl : ℕ
refresh_token_ttl = 2592000

-- A UUID column's `Bytes`: NULL is uuid.Nil.
abbrev pub bytes : Option ℕ → ℕ
bytes none = 0
bytes (some i) = i

-- `SignedString`, which may fail.
abbrev pub signed : Option String → M String
signed none = throw (app internal_error "internal server error")
signed (some token) = pure token

abbrev pub access_claims : ℕ → ℕ → Role → ℕ → Claims
access_claims user org role now = record {
  user_id = user;
  org_id = org;
  role = role;
  issued_at = now;
  expires_at = now + access_token_ttl;
}

abbrev pub refresh_claims : ℕ → ℕ → RefreshClaims
refresh_claims user now = record {
  user_id = user;
  issued_at = now;
  expires_at = now + refresh_token_ttl;
}

-- The access token and the refresh token.
unfoldable pub generate_tokens : ℕ → ℕ → Role → M (String × String)
generate_tokens user org role = do
  now ← current_time
  access ← asks (λ (e : Env). e.sign_access (access_claims user org role now)) >>= signed
  refresh ← asks (λ (e : Env). e.sign_refresh (refresh_claims user now)) >>= signed
  pure (access, refresh)

-- `if errors.Is(err, pgx.ErrNoRows) { 401 } else { 500 }`, without the cause.
abbrev pub refused_as : String → Error → Error
refused_as msg x = if is_no_rows x then app unauthorized msg else internal x

-- `CompareHashAndPassword`.
abbrev pub check_password : User → String → M (Unit {0})
check_password u password = do
  matches ← asks (λ (e : Env). e.password_matches u.password_hash password)
  if matches then pure tt else throw (app unauthorized "invalid email or password")

abbrev pub check_active : User → M (Unit {0})
check_active u = if u.is_active then pure tt else throw (app unauthorized "account is unavailable")

abbrev pub check_organization : Organization → M (Unit {0})
check_organization o =
    if o.is_active then pure tt else throw (app unauthorized "organization is unavailable")

-- What follows the checks of the user.
abbrev pub tokens_for : User → M (String × String)
tokens_for u = if is_owner u.role then generate_tokens u.id 0 u.role else do
  o ←
      map_error (refused_as "organization is unavailable")
        (get_organization_by_id (bytes u.organization_id))
  check_organization o
  generate_tokens u.id (bytes u.organization_id) u.role

unfoldable pub login : String → String → M (String × String)
login email password = do
  u ← map_error (refused_as "invalid email or password") (get_user_by_email email)
  check_password u password
  check_active u
  tokens_for u

module _ {A : Type 0} where
  -- What `jwt.ParseWithClaims` gives, any failure answered alike.
  abbrev pub parsed : Option A → M A
  parsed none = throw (app unauthorized "invalid or expired token")
  parsed (some claims) = pure claims

unfoldable pub validate_access_token : String → M Claims
validate_access_token token = do
  now ← current_time
  asks (λ (e : Env). e.parse_access now token) >>= parsed

unfoldable pub validate_refresh_token : String → M RefreshClaims
validate_refresh_token token = do
  now ← current_time
  asks (λ (e : Env). e.parse_refresh now token) >>= parsed

abbrev pub unresolved : Error → Error
unresolved x = if is_no_rows x then app_of unauthorized "invalid or expired token" x else internal x

unfoldable pub resolve_user_for_refresh : ℕ → M User
resolve_user_for_refresh id = map_error unresolved (get_user_by_id id)

-- internal/server/handler_auth.go, RefreshTokens from the cookie's token on.
unfoldable pub refresh_tokens : String → M (String × String)
refresh_tokens token = do
  claims ← validate_refresh_token token
  u ← resolve_user_for_refresh claims.user_id
  generate_tokens u.id (bytes u.organization_id) u.role
