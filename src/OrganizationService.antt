-- ===== src/OrganizationService.antt =====
-- internal/service/service_organization.go: registration, and the organizations.
use Prim.Native.Char.{Char, code}
use kpi_tenders_go.Prelude.{
  ℕ, zero, suc, String, Bool, true, false, Option, none, some, ◌&&◌, ◌||◌, ◌==◌, leb, if◌then◌else◌,
}
use kpi_tenders_go.Errs.{
  Error, app, app_of, conflict, validation_failed, not_found, is_no_rows, internal, missing_as,
  is_unique_violation, plain, internal_error, app_error,
}
use kpi_tenders_go.Models.{User, Organization, Role}
use kpi_tenders_go.Effects.{
  M, Hashed, hashed, too_long, hash_failed, Result, ok, err, pure, throw, ◌>>=◌, map_error, counted,
}
use kpi_tenders_go.Repository.Accounts.{
  create_organization, create_user, exec_tx, get_organization_by_id, update_organization,
  delete_organization,
}
use kpi_tenders_go.DocumentService.{unless_zero}

-- The code points of `unicode.IsSpace`.
abbrev pub is_space : ℕ → Bool
is_space c =
    c == 32
    || leb 9 c && leb c 13
    || c == 133
    || c == 160
    || c == 5760
    || leb 8192 c && leb c 8202
    || c == 8232
    || c == 8233
    || c == 8239
    || c == 8287
    || c == 12288

unfoldable pub trim_left : String → String
trim_left String.[] = String.[]
trim_left (String.◌∷◌ c s) =
    let rest = trim_left s in if is_space (code c) then rest else String.◌∷◌ c s

-- A character before what is left of the text after it.
abbrev pub keep_before : Char → String → String
keep_before c String.[] = if is_space (code c) then String.[] else String.◌∷◌ c String.[]
keep_before c (String.◌∷◌ d s) = String.◌∷◌ c (String.◌∷◌ d s)

unfoldable pub trim_right : String → String
trim_right String.[] = String.[]
trim_right (String.◌∷◌ c s) = keep_before c (trim_right s)

-- `strings.TrimSpace`.
unfoldable pub trim_space : String → String
unfolding trim_left trim_right
trim_space s = trim_right (trim_left s)

abbrev pub is_digit : ℕ → Bool
is_digit c = leb b'0' c && leb c b'9'

-- `^\d{n}$`.
unfoldable pub is_digits : ℕ → String → Bool
is_digits zero String.[] = true
is_digits (suc n) (String.◌∷◌ c s) = is_digit (code c) && is_digits n s
is_digits n s = false

abbrev pub is_empty_text : String → Bool
is_empty_text String.[] = true
is_empty_text (String.◌∷◌ c s) = false

abbrev pub inn_of : String → Result (Option String)
inn_of s =
    if is_empty_text s
    then ok none
    else if is_digits 10 s
    then ok (some s)
    else err (app validation_failed "INN must be exactly 10 digits")

-- `none` is NULL.
unfoldable pub parse_inn : String → Result (Option String)
unfolding trim_space is_digits
parse_inn raw = inn_of (trim_space raw)

module _ {A : Type 0} where
  abbrev pub returned : Result A → M A
  returned (ok a) = pure a
  returned (err x) = throw x

-- `bcrypt.GenerateFromPassword(password, bcrypt.DefaultCost)`.
unfoldable pub generate_from_password : String → M Hashed
generate_from_password password e w = (ok (e.hash_password w.calls password), counted w)

-- Registration does not tell a password that is too long from other failures.
abbrev pub hash_of : Hashed → M String
hash_of (hashed h) = pure h
hash_of too_long = throw (app_of internal_error "internal server error" (plain "password too long"))
hash_of hash_failed = throw (app_of internal_error "internal server error" (plain "bcrypt"))

pub record RegisterParams : Type 0 where
  pub org_name : String
  pub inn : String
  pub email : String
  pub password : String
  pub full_name : String

abbrev pub inn_conflict : Error → Error
inn_conflict x =
    if is_unique_violation x "organizations_inn_key"
    then app_of conflict "INN already in use" x
    else internal x

abbrev pub email_conflict : Error → Error
email_conflict x =
    if is_unique_violation x "users_email_key"
    then app_of conflict "email already in use" x
    else internal x

-- The body of the transaction.
unfoldable pub create_tenant : RegisterParams → Option String → String → M (Organization × User)
create_tenant p inn hash = do
  o ← map_error inn_conflict (create_organization p.org_name inn)
  u ← map_error email_conflict (
      create_user (record {
        organization_id = some o.id;
        email = p.email;
        password_hash = hash;
        full_name = p.full_name;
        role = Role.admin;
      }))
  pure (o, u)

-- An application error is passed on, another becomes a 500.
abbrev pub as_app : Error → Error
as_app x = elim (app_error x) [ none ↦ internal x | some found ↦ x ]

unfoldable pub register : RegisterParams → M (Organization × User)
register p = do
  inn ← returned (parse_inn p.inn)
  outcome ← generate_from_password p.password
  hash ← hash_of outcome
  map_error as_app (exec_tx (create_tenant p inn hash))

unfoldable pub get_by_id : ℕ → M Organization
get_by_id id = map_error (missing_as "organization not found") (get_organization_by_id id)

abbrev pub update_conflict : Error → Error
update_conflict x =
    if is_no_rows x then app_of not_found "organization not found" x else inn_conflict x

-- `inn` is none for leave unchanged; a blank text clears the INN.
abbrev pub new_inn : Option String → M (Option (Option String))
new_inn none = pure none
new_inn (some raw) = returned (parse_inn raw) >>= λ inn. pure (some inn)

unfoldable pub update : ℕ → String → Option String → M Organization
update id name inn = do
  value ← new_inn inn
  map_error update_conflict (update_organization id name value)

unfoldable pub delete : ℕ → M (Unit {0})
delete id = map_error internal (delete_organization id) >>= unless_zero "organization not found"
