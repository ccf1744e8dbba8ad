-- ===== src/ComparisonSessionService.antt =====
-- internal/service/service_comparison_session.go: the comparison sessions of an organization.
use kpi_tenders_go.Prelude.{ℕ, String, Option, none, some, List, if◌then◌else◌}
use kpi_tenders_go.Errs.{Error, app_of, not_found, internal, missing_as, is_foreign_key_violation}
use kpi_tenders_go.Models.{ComparisonSession, ComparisonSessionDocument}
use kpi_tenders_go.Effects.{M, pure, ◌>>=◌, ◌>>◌, map_error}
use kpi_tenders_go.Repository.Originals.{get_contract_kind}
use kpi_tenders_go.Repository.Sessions.{
  create_comparison_session, get_comparison_session, list_comparison_sessions_by_org,
  delete_comparison_session, add_document_to_comparison_session,
  remove_document_from_comparison_session, list_comparison_session_documents,
}
use kpi_tenders_go.DocumentService.{unless_zero, invalid_as}

abbrev pub check_kind : Option ℕ → ℕ → M (Unit {0})
check_kind none org = pure tt
check_kind (some id) org =
    map_error (invalid_as "contract kind not found") (get_contract_kind id org) >> pure tt

unfoldable pub create : ℕ → ℕ → Option String → Option ℕ → M ComparisonSession
create org created_by name kind =
    check_kind kind org
    >> map_error internal (
        create_comparison_session (record {
          organization_id = org;
          created_by = some created_by;
          name = name;
          contract_kind_id = kind;
        }))

unfoldable pub get : ℕ → ℕ → M ComparisonSession
get id org = map_error (missing_as "comparison session not found") (get_comparison_session id org)

unfoldable pub list_by_org : ℕ → M (List ComparisonSession)
list_by_org org = map_error internal (list_comparison_sessions_by_org org)

unfoldable pub delete : ℕ → ℕ → M (Unit {0})
delete id org =
    map_error internal (delete_comparison_session id org)
    >>= unless_zero "comparison session not found"

abbrev pub not_added : Error → Error
not_added x =
    if is_foreign_key_violation x
    then app_of not_found "session or document not found" x
    else internal x

unfoldable pub add_document : ℕ → ℕ → ℕ → ℕ → M ComparisonSessionDocument
add_document session document org position =
    map_error not_added (add_document_to_comparison_session session document org position)

unfoldable pub remove_document : ℕ → ℕ → ℕ → M (Unit {0})
remove_document session document org =
    map_error internal (remove_document_from_comparison_session session document org)
    >>= unless_zero "document not found in comparison session"

unfoldable pub list_documents : ℕ → ℕ → M (List ComparisonSessionDocument)
list_documents session org = map_error internal (list_comparison_session_documents session org)
