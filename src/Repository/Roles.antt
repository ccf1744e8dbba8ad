-- ===== src/Repository/Roles.antt =====
-- internal/repository/file_role.sql.go: the file roles of an organization and of the system.
use kpi_tenders_go.Prelude.{
  ℕ, suc, String, Bool, not, none, some, List, [], ◌∷◌, ◌++◌, ◌&&◌, ◌||◌, ◌==◌, str_eq, ltb,
  if◌then◌else◌, map, select, find, exists, update, count, sort_by,
}
use kpi_tenders_go.Errs.{unique_violation}
use kpi_tenders_go.Models.{Document, FileRole, is_id}
use kpi_tenders_go.Effects.{Env, ok, err, Stmt, M, run}
use kpi_tenders_go.Repository.Documents.{first}
use kpi_tenders_go.Repository.Originals.{visible_to}

-- `ORDER BY sort_order ASC, display_name ASC`, with the collation of the database.
abbrev pub role_order : Env → FileRole → FileRole → Bool
role_order e j r =
    ltb j.sort_order r.sort_order
    || j.sort_order == r.sort_order && e.name_le j.display_name r.display_name

unfoldable pub list_file_roles_by_org : ℕ → M (List FileRole)
list_file_roles_by_org org e w =
    run
      (λ now v. (
        ok (
            sort_by (role_order e)
              (select (λ (r : FileRole). visible_to r.organization_id org) v.file_roles)),
        v,
      ))
      e w

pub record FileRoleParams : Type 0 where
  pub display_name : String
  pub sort_order : ℕ
  pub is_active : Bool

abbrev pub role_row : ℕ → FileRoleParams → ℕ → ℕ → FileRole
role_row org p id now = record {
  id = id;
  organization_id = some org;
  display_name = p.display_name;
  sort_order = p.sort_order;
  is_active = p.is_active;
  created_at = now;
  updated_at = now;
}

abbrev pub is_role_of : ℕ → ℕ → FileRole → Bool
is_role_of id org r = r.id == id && is_id r.organization_id org

-- A row with that name in the organization: uq_file_roles_org_name.
abbrev pub has_role_name : ℕ → String → FileRole → Bool
has_role_name org name r = is_id r.organization_id org && str_eq r.display_name name

unfoldable pub insert_role : ℕ → FileRoleParams → Stmt FileRole
insert_role org p now w =
    let r = role_row org p w.next_id now in
    if exists (has_role_name org p.display_name) w.file_roles
    then (err (unique_violation "uq_file_roles_org_name"), w)
    else (ok r, record w { file_roles = w.file_roles ++ r ∷ []; next_id = suc w.next_id })

unfoldable pub create_file_role : ℕ → FileRoleParams → M FileRole
create_file_role org p = run (insert_role org p)

abbrev pub set_role : FileRoleParams → ℕ → FileRole → FileRole
set_role p now r = record r {
  display_name = p.display_name;
  sort_order = p.sort_order;
  is_active = p.is_active;
  updated_at = now;
}

-- Another row of the organization that has the name already.
abbrev pub role_name_taken : ℕ → ℕ → String → FileRole → Bool
role_name_taken id org name r = not (r.id == id) && has_role_name org name r

unfoldable pub write_role : ℕ → ℕ → FileRoleParams → Stmt FileRole
write_role id org p now w =
    let rows = update (is_role_of id org) (set_role p now) w.file_roles in
    if exists (is_role_of id org) w.file_roles
      && exists (role_name_taken id org p.display_name) w.file_roles
    then (err (unique_violation "uq_file_roles_org_name"), w)
    else (first (find (is_role_of id org) rows), record w { file_roles = rows })

unfoldable pub update_file_role : ℕ → ℕ → FileRoleParams → M FileRole
update_file_role id org p = run (write_role id org p)

-- `ON DELETE SET NULL` of documents.file_role_id.
abbrev pub clear_role : ℕ → Document → Document
clear_role id d = record d {
  file_role_id = if is_id d.file_role_id id then none else d.file_role_id;
}

unfoldable pub remove_role : ℕ → ℕ → Stmt ℕ
remove_role id org now w =
    if exists (is_role_of id org) w.file_roles
    then (
      ok (count (is_role_of id org) w.file_roles),
      record w {
        file_roles = select (λ (r : FileRole). not (is_role_of id org r)) w.file_roles;
        documents = map (clear_role id) w.documents;
      },
    )
    else (ok 0, w)

unfoldable pub delete_file_role : ℕ → ℕ → M ℕ
delete_file_role id org = run (remove_role id org)
