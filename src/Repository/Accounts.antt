-- ===== src/Repository/Accounts.antt =====
-- internal/repository/user.sql.go and organization.sql.go, and the transaction of
-- internal/store/store.go.
use kpi_tenders_go.Prelude.{
  ℕ, suc, String, Bool, true, false, not, Option, none, some, List, [], ◌∷◌, ◌++◌, ◌&&◌, ◌==◌,
  str_eq, leb, if◌then◌else◌, map, select, find, exists, update, count, sort_by,
}
use kpi_tenders_go.Errs.{no_rows, check_violation, unique_violation, foreign_key_violation}
use kpi_tenders_go.Models.{
  UserInvitation, ComparisonSession, ComparisonSessionDocument, User, Organization, Role, Document,
  ExtractionRequest, ExtractionKey, ExtractedDatum, Site, ContractKind, FileRole, is_owner, is_id,
  is_null,
}
use kpi_tenders_go.Effects.{Env, World, Result, ok, err, Stmt, M, run, settle, counted}
use kpi_tenders_go.Repository.Documents.{first}
use kpi_tenders_go.Repository.Tasks.{coalesce}
use kpi_tenders_go.Repository.Originals.{descendants, without_documents}
use kpi_tenders_go.Repository.Documents.{is_user_of}

pub record CreateUserParams : Type 0 where
  pub organization_id : Option ℕ
  pub email : String
  pub password_hash : String
  pub full_name : String
  pub role : Role

abbrev pub user_row : CreateUserParams → ℕ → ℕ → User
user_row p id now = record {
  id = id;
  organization_id = p.organization_id;
  email = p.email;
  password_hash = p.password_hash;
  full_name = p.full_name;
  role = p.role;
  is_active = true;
  created_at = now;
  updated_at = now;
}

-- `ListUsersByOrganizationRow`, `GetUserByIDAndOrgRow` and `UpdateUserRow`: without the hash.
pub record UserRow : Type 0 where
  pub id : ℕ
  pub organization_id : Option ℕ
  pub email : String
  pub full_name : String
  pub role : Role
  pub is_active : Bool
  pub created_at : ℕ
  pub updated_at : ℕ

abbrev pub shown : User → UserRow
shown u = record {
  id = u.id;
  organization_id = u.organization_id;
  email = u.email;
  full_name = u.full_name;
  role = u.role;
  is_active = u.is_active;
  created_at = u.created_at;
  updated_at = u.updated_at;
}

abbrev pub first_shown : Option User → Result UserRow
first_shown none = err no_rows
first_shown (some u) = ok (shown u)

abbrev pub has_email : String → User → Bool
has_email email u = str_eq u.email email

abbrev pub has_user_id : ℕ → User → Bool
has_user_id id u = u.id == id

abbrev pub has_org_id : ℕ → Organization → Bool
has_org_id id o = o.id == id

abbrev is_known_role : Role → Bool
is_known_role (Role.other_role s) = false
is_known_role r = true

-- users_role_chk and users_owner_org_chk.
abbrev pub role_checks : Role → Option ℕ → Bool
role_checks r org = is_known_role r && (if is_owner r then is_null org else not (is_null org))

abbrev pub org_exists : Option ℕ → World → Bool
org_exists none w = true
org_exists (some id) w = exists (has_org_id id) w.organizations

unfoldable pub insert_user : CreateUserParams → Stmt User
insert_user p now w =
    if role_checks p.role p.organization_id
    then if exists (has_email p.email) w.users
      then (err (unique_violation "users_email_key"), w)
      else if org_exists p.organization_id w
      then (
        ok (user_row p w.next_id now),
        record w { users = w.users ++ user_row p w.next_id now ∷ []; next_id = suc w.next_id },
      )
      else (err (foreign_key_violation "users_organization_id_fkey"), w)
    else (err (check_violation "users_role_chk"), w)

unfoldable pub create_user : CreateUserParams → M User
create_user p = run (insert_user p)

unfoldable pub get_user_by_email : String → M User
get_user_by_email email = run λ now w. (first (find (has_email email) w.users), w)

unfoldable pub get_user_by_id : ℕ → M User
get_user_by_id id = run λ now w. (first (find (has_user_id id) w.users), w)

unfoldable pub get_user_by_id_and_org : ℕ → ℕ → M UserRow
get_user_by_id_and_org id org = run λ now w. (first_shown (find (is_user_of id org) w.users), w)

abbrev pub oldest_user_first : User → User → Bool
oldest_user_first u v = leb u.created_at v.created_at

unfoldable pub list_users_by_organization : ℕ → M (List UserRow)
list_users_by_organization org = run λ now w. (
  ok (
      map shown
        (sort_by oldest_user_first (select (λ (u : User). is_id u.organization_id org) w.users))),
  w,
)

abbrev pub set_user : Option Role → Option Bool → ℕ → User → User
set_user role active now u = record u {
  role = coalesce role u.role;
  is_active = coalesce active u.is_active;
  updated_at = now;
}

abbrev pub checked_user : Option User → Bool
checked_user none = true
checked_user (some u) = role_checks u.role u.organization_id

unfoldable pub write_user : ℕ → ℕ → Option Role → Option Bool → Stmt UserRow
write_user id org role active now w =
    let rows = update (is_user_of id org) (set_user role active now) w.users in
    let row = find (is_user_of id org) rows in
    if checked_user row
    then (first_shown row, record w { users = rows })
    else (err (check_violation "users_role_chk"), w)

unfoldable pub update_user : ℕ → ℕ → Option Role → Option Bool → M UserRow
update_user id org role active = run (write_user id org role active)

abbrev pub organization_row : String → Option String → ℕ → ℕ → Organization
organization_row name inn id now = record {
  id = id;
  name = name;
  inn = inn;
  settings = "{}";
  is_active = true;
  created_at = now;
  updated_at = now;
}

-- The unique constraint organizations_inn_key, which rows without an INN do not meet.
abbrev pub has_inn : Option String → Organization → Bool
has_inn none o = false
has_inn (some s) o = elim o.inn [ none ↦ false | some t ↦ str_eq t s ]

unfoldable pub insert_organization : String → Option String → Stmt Organization
insert_organization name inn now w =
    let o = organization_row name inn w.next_id now in
    if exists (has_inn inn) w.organizations
    then (err (unique_violation "organizations_inn_key"), w)
    else (ok o, record w { organizations = w.organizations ++ o ∷ []; next_id = suc w.next_id })

unfoldable pub create_organization : String → Option String → M Organization
create_organization name inn = run (insert_organization name inn)

unfoldable pub get_organization_by_id : ℕ → M Organization
get_organization_by_id id = run λ now w. (first (find (has_org_id id) w.organizations), w)

-- `inn = CASE WHEN set_inn THEN $3 ELSE inn END`; `none` is without `set_inn`.
abbrev pub set_organization : String → Option (Option String) → ℕ → Organization → Organization
set_organization name inn now o = record o {
  name = name;
  inn = coalesce inn o.inn;
  updated_at = now;
}

-- Another organization that has the INN already.
abbrev pub inn_taken : ℕ → Option (Option String) → Organization → Bool
inn_taken id none o = false
inn_taken id (some inn) o = not (has_org_id id o) && has_inn inn o

unfoldable pub write_organization : ℕ → String → Option (Option String) → Stmt Organization
write_organization id name inn now w =
    let rows = update (has_org_id id) (set_organization name inn now) w.organizations in
    if exists (has_org_id id) w.organizations && exists (inn_taken id inn) w.organizations
    then (err (unique_violation "organizations_inn_key"), w)
    else (first (find (has_org_id id) rows), record w { organizations = rows })

unfoldable pub update_organization : ℕ → String → Option (Option String) → M Organization
update_organization id name inn = run (write_organization id name inn)

abbrev pub ids_of : List Document → List ℕ
ids_of [] = []
ids_of (d ∷ ds) = d.id ∷ ids_of ds

abbrev pub is_document_of : ℕ → Document → Bool
is_document_of org d = d.organization_id == org

abbrev pub is_session_in : ℕ → ComparisonSession → Bool
is_session_in org s = s.organization_id == org

-- `ON DELETE CASCADE` of the organization: its rows, and what hangs on its documents.
abbrev pub without_organization : ℕ → World → World
without_organization org w =
    let gone = descendants (ids_of (select (is_document_of org) w.documents)) w.documents in
    let v = without_documents gone w in
    record v {
      organizations = select (λ (o : Organization). not (o.id == org)) v.organizations;
      users = select (λ (u : User). not (is_id u.organization_id org)) v.users;
      sites = select (λ (s : Site). not (s.organization_id == org)) v.sites;
      contract_kinds =
          select (λ (k : ContractKind). not (is_id k.organization_id org)) v.contract_kinds;
      file_roles = select (λ (r : FileRole). not (is_id r.organization_id org)) v.file_roles;
      comparison_sessions =
          select (λ (s : ComparisonSession). not (is_session_in org s)) v.comparison_sessions;
      session_documents =
          select
            (λ (p : ComparisonSessionDocument).
              not (exists (λ s. is_session_in org s && s.id == p.session_id) v.comparison_sessions))
            v.session_documents;
      user_invitations =
          select (λ (i : UserInvitation). not (i.organization_id == org)) v.user_invitations;
      requests = select (λ (r : ExtractionRequest). not (r.organization_id == org)) v.requests;
      keys = select (λ (k : ExtractionKey). not (is_id k.organization_id org)) v.keys;
      extracted = select (λ (x : ExtractedDatum). not (x.organization_id == org)) v.extracted;
    }

-- documents.uploaded_by, without an action on deletion.
abbrev pub uploaded_by_known : List User → Document → Bool
uploaded_by_known us d = exists (has_user_id d.uploaded_by) us

abbrev pub lost_uploader : World → Bool
lost_uploader w = exists (λ d. not (uploaded_by_known w.users d)) w.documents

unfoldable pub remove_organization : ℕ → Stmt ℕ
remove_organization org now w =
    if exists (has_org_id org) w.organizations
    then if lost_uploader (without_organization org w)
      then (err (foreign_key_violation "documents_uploaded_by_fkey"), w)
      else (ok (count (has_org_id org) w.organizations), without_organization org w)
    else (ok 0, w)

unfoldable pub delete_organization : ℕ → M ℕ
delete_organization org = run (remove_organization org)

-- The tables as the transaction found them.
abbrev pub rolled_back : World → World → World
rolled_back before after = record before { next_id = after.next_id; calls = after.calls }

module _ {A : Type 0} where
  abbrev pub commit : Env → World → Result A → World → Result A × World
  commit e before (err x) w = (err x, rolled_back before w)
  commit e before (ok a) w =
      settle (e.fate w.calls) (ok a, counted w) (rolled_back before (counted w))

  abbrev pub in_transaction : M A → Result (Unit {0}) → M A
  in_transaction m (err x) e w = (err x, w)
  in_transaction m (ok u) e w = let (r, w') = m e w in commit e w r w'

  -- `SQLStore.ExecTx`: Begin, the statements, then Commit, or Rollback after an error.
  unfoldable pub exec_tx : M A → M A
  exec_tx m e w = let (begun, w') = run (λ now v. (ok tt, v)) e w in in_transaction m begun e w'
