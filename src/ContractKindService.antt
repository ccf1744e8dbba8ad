-- ===== src/ContractKindService.antt =====
-- internal/service/service_contract_kind.go: the contract kinds that an organization sees and those
-- that it owns.
use kpi_tenders_go.Prelude.{ℕ, List, if◌then◌else◌}
use kpi_tenders_go.Errs.{
  Error, app_of, conflict, not_found, is_no_rows, internal, missing_as, is_unique_violation,
}
use kpi_tenders_go.Models.{ContractKind}
use kpi_tenders_go.Effects.{M, ◌>>=◌, map_error}
use kpi_tenders_go.Repository.Originals.{get_contract_kind}
use kpi_tenders_go.Repository.Kinds.{
  KindParams, list_contract_kinds_by_org, create_contract_kind, update_contract_kind,
  delete_contract_kind,
}
use kpi_tenders_go.DocumentService.{unless_zero}

unfoldable pub list : ℕ → M (List ContractKind)
list org = map_error internal (list_contract_kinds_by_org org)

unfoldable pub get : ℕ → ℕ → M ContractKind
get id org = map_error (missing_as "contract kind not found") (get_contract_kind id org)

abbrev pub name_conflict : Error → Error
name_conflict x =
    if is_unique_violation x "uq_contract_kinds_org_name"
    then app_of conflict "contract kind with this name already exists" x
    else internal x

unfoldable pub create : ℕ → KindParams → M ContractKind
create org p = map_error name_conflict (create_contract_kind org p)

abbrev pub not_updated : Error → Error
not_updated x =
    if is_no_rows x then app_of not_found "contract kind not found" x else name_conflict x

unfoldable pub update : ℕ → ℕ → KindParams → M ContractKind
update id org p = map_error not_updated (update_contract_kind id org p)

unfoldable pub delete : ℕ → ℕ → M (Unit {0})
delete id org =
    map_error internal (delete_contract_kind id org) >>= unless_zero "contract kind not found"
