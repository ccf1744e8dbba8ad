-- ===== src/FileRoleService.antt =====
-- internal/service/service_file_role.go: the file roles that an organization sees and those
-- that it owns.
use kpi_tenders_go.Prelude.{ℕ, List, if◌then◌else◌}
use kpi_tenders_go.Errs.{
  Error, app_of, conflict, not_found, is_no_rows, internal, missing_as, is_unique_violation,
}
use kpi_tenders_go.Models.{FileRole}
use kpi_tenders_go.Effects.{M, ◌>>=◌, map_error}
use kpi_tenders_go.Repository.Originals.{get_file_role}
use kpi_tenders_go.Repository.Roles.{
  FileRoleParams, list_file_roles_by_org, create_file_role, update_file_role, delete_file_role,
}
use kpi_tenders_go.DocumentService.{unless_zero}

unfoldable pub list : ℕ → M (List FileRole)
list org = map_error internal (list_file_roles_by_org org)

unfoldable pub get : ℕ → ℕ → M FileRole
get id org = map_error (missing_as "file role not found") (get_file_role id org)

abbrev pub name_conflict : Error → Error
name_conflict x =
    if is_unique_violation x "uq_file_roles_org_name"
    then app_of conflict "file role with this name already exists" x
    else internal x

unfoldable pub create : ℕ → FileRoleParams → M FileRole
create org p = map_error name_conflict (create_file_role org p)

abbrev pub not_updated : Error → Error
not_updated x = if is_no_rows x then app_of not_found "file role not found" x else name_conflict x

unfoldable pub update : ℕ → ℕ → FileRoleParams → M FileRole
update id org p = map_error not_updated (update_file_role id org p)

unfoldable pub delete : ℕ → ℕ → M (Unit {0})
delete id org = map_error internal (delete_file_role id org) >>= unless_zero "file role not found"
