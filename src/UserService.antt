-- ===== src/UserService.antt =====
-- internal/service/service_user.go: the users of an organization.
use kpi_tenders_go.Prelude.{
  ℕ, String, Bool, false, Option, none, some, List, ◌&&◌, ◌||◌, ◌==◌, if◌then◌else◌,
}
use kpi_tenders_go.Errs.{
  app, app_of, validation_failed, unauthorized, internal, missing_as, plain, internal_error,
}
use kpi_tenders_go.Models.{User, Role, is_admin, is_member, is_null}
use kpi_tenders_go.Effects.{
  M, Hashed, hashed, too_long, hash_failed, pure, throw, ◌>>=◌, ◌>>◌, map_error,
}
use kpi_tenders_go.Repository.Accounts.{
  UserRow, shown, create_user, list_users_by_organization, update_user, get_user_by_id,
  get_user_by_id_and_org,
}
use kpi_tenders_go.OrganizationService.{generate_from_password, email_conflict}

pub record CreateParams : Type 0 where
  pub org_id : ℕ
  pub email : String
  pub password : String
  pub full_name : String
  pub role : Role

abbrev pub is_tenant_role : Role → Bool
is_tenant_role r = is_admin r || is_member r

abbrev pub check_role : Role → M (Unit {0})
check_role r =
    if is_tenant_role r
    then pure tt
    else throw (app validation_failed "role must be admin or member")

abbrev pub hash_of : Hashed → M String
hash_of (hashed h) = pure h
hash_of too_long =
    throw (app_of validation_failed "password must be at most 72 bytes" (plain "password too long"))
hash_of hash_failed = throw (app_of internal_error "internal server error" (plain "bcrypt"))

unfoldable pub create : CreateParams → M User
create p = do
  check_role p.role
  outcome ← generate_from_password p.password
  hash ← hash_of outcome
  map_error email_conflict (
      create_user (record {
        organization_id = some p.org_id;
        email = p.email;
        password_hash = hash;
        full_name = p.full_name;
        role = p.role;
      }))

unfoldable pub list : ℕ → M (List UserRow)
list org = map_error internal (list_users_by_organization org)

-- `if p.Role != nil && ...`.
abbrev pub check_new_role : Option Role → M (Unit {0})
check_new_role none = pure tt
check_new_role (some r) = check_role r

unfoldable pub update : ℕ → ℕ → Option Role → Option Bool → M UserRow
update id org role active =
    if is_null role && is_null active
    then throw (app validation_failed "at least one field must be provided")
    else check_new_role role
      >> map_error (missing_as "user not found") (update_user id org role active)

unfoldable pub deactivate : ℕ → ℕ → M UserRow
unfolding update
deactivate id org = update id org none (some false)

abbrev pub active_only : UserRow → M UserRow
active_only u = if u.is_active then pure u else throw (app unauthorized "account is unavailable")

abbrev pub active_user : User → M UserRow
active_user u = active_only (shown u)

-- The organization 0 is uuid.Nil, that of an owner's token.
unfoldable pub get_profile : ℕ → ℕ → M UserRow
get_profile id org =
    if org == 0
    then map_error (missing_as "user not found") (get_user_by_id id) >>= active_user
    else map_error (missing_as "user not found") (get_user_by_id_and_org id org) >>= active_only
