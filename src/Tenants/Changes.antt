-- ===== src/Tenants/Changes.antt =====
-- The requests of a user that write, in the organization that the token names
-- (internal/server/handler_document.go, handler_document_task.go, handler_user.go,
-- handler_contract_kind.go, handler_file_role.go), each by the service's operation that answers it.
-- The deletion of a document is in Deletions.
use kpi_tenders_go.Prelude.{if◌then◌else◌, ℕ, Bool, false, Option, ◌≡◌, ◌==◌}
use kpi_tenders_go.Models.{
  Document, DocumentTask, ContractKind, FileRole, ModuleName, TaskStatus, Role, User,
}
use kpi_tenders_go.Effects.{Env, World, M}
use kpi_tenders_go.Repository.Originals.{CreateDocumentParams, MetaParams}
use kpi_tenders_go.Repository.Accounts.{UserRow}
use kpi_tenders_go.Errs.{app, validation_failed}
use kpi_tenders_go.Effects.{throw}
use kpi_tenders_go.Effects.Evolves.{Evolves-if, Evolves-throw}
use kpi_tenders_go.Repository.Tasks.{check_status}
use kpi_tenders_go.Tenants.Writes.{Spares-Closed}
use kpi_tenders_go.Tenants.Quiet.{update_status-Quiet}
use kpi_tenders_go.DocumentService
use kpi_tenders_go.DocumentTaskService
use kpi_tenders_go.Repository.Kinds.{KindParams}
use kpi_tenders_go.Repository.Roles.{FileRoleParams}
use kpi_tenders_go.ContractKindService
use kpi_tenders_go.FileRoleService
use kpi_tenders_go.Tenants.DirectoryQuiet.{directory_quiet_rules}
use kpi_tenders_go.UserService
use kpi_tenders_go.UserService.{CreateParams}
use kpi_tenders_go.Tenants.View.{SameRows, IsKeyed}
use kpi_tenders_go.Tenants.Quiet.{Quiet, quiet_rules}

pub data Change : Type 0 where
  add_document : CreateDocumentParams → Change
  classify_document : MetaParams → Change
  add_task : ℕ → ModuleName → Change
  set_task_status : ℕ → TaskStatus → Change
  remove_task : ℕ → Change
  add_user : CreateParams → Change
  change_user : ℕ → Option Role → Option Bool → Change
  add_kind : KindParams → Change
  change_kind : ℕ → KindParams → Change
  add_role : FileRoleParams → Change
  change_role : ℕ → FileRoleParams → Change

abbrev pub Written : Change → Type 0
Written (Change.add_document p) = Document
Written (Change.classify_document p) = Document
Written (Change.add_task document m) = DocumentTask
Written (Change.set_task_status id status) = DocumentTask
Written (Change.remove_task id) = Unit {0}
Written (Change.add_user p) = User
Written (Change.change_user id role active) = UserRow
Written (Change.add_kind p) = ContractKind
Written (Change.change_kind id p) = ContractKind
Written (Change.add_role p) = FileRole
Written (Change.change_role id p) = FileRole

-- The handlers take the organization from the token, whatever the body says.
unfoldable pub perform : ℕ → (c : Change) → M (Written c)
perform org (Change.add_document p) = DocumentService.create (record p { organization_id = org })
perform org (Change.classify_document p) =
    DocumentService.update_meta (record p { organization_id = org })
perform org (Change.add_task document m) = DocumentTaskService.create document m org
perform org (Change.set_task_status id status) =
    if check_status status
    then DocumentTaskService.update_status id org status
    else throw
        (app validation_failed "invalid status: must be pending, processing, completed or failed")
perform org (Change.remove_task id) = DocumentTaskService.delete id org
perform org (Change.add_user p) = UserService.create (record p { org_id = org })
perform org (Change.change_user id role active) = UserService.update id org role active
perform org (Change.add_kind p) = ContractKindService.create org p
perform org (Change.change_kind id p) = ContractKindService.update id org p
perform org (Change.add_role p) = FileRoleService.create org p
perform org (Change.change_role id p) = FileRoleService.update id org p

perform-Quiet :
    (org other : ℕ) → (org == other) ≡ false → (c : Change) → Quiet other (perform org c)
unfolding perform
perform-Quiet org other apart (Change.add_document p) = search (apart, quiet_rules)
perform-Quiet org other apart (Change.classify_document p) = search (apart, quiet_rules)
perform-Quiet org other apart (Change.add_task document m) = search (apart, quiet_rules)
perform-Quiet org other apart (Change.set_task_status id status) =
    Evolves-if (Spares-Closed other) (check_status status) _ _
      (update_status-Quiet other org apart id status) (Evolves-throw (Spares-Closed other) _)
perform-Quiet org other apart (Change.remove_task id) = search (apart, quiet_rules)
perform-Quiet org other apart (Change.add_user p) = search (apart, quiet_rules)
perform-Quiet org other apart (Change.change_user id role active) = search (apart, quiet_rules)
perform-Quiet org other apart (Change.add_kind p) = search (apart, directory_quiet_rules)
perform-Quiet org other apart (Change.change_kind id p) = search (apart, directory_quiet_rules)
perform-Quiet org other apart (Change.add_role p) = search (apart, directory_quiet_rules)
perform-Quiet org other apart (Change.change_role id p) = search (apart, directory_quiet_rules)

-- Where document ids are unique, what a user of an organization writes (documents and their
-- classification, tasks, users, and the contract kinds and file roles that it adds or changes) leaves
-- another organization's documents, tasks, users, sites, contract kinds, file roles, requests, keys
-- and values as they are, and their order, whatever ids the request names and whatever the outside
-- answers.
pub perform-SameRows :
    (org other : ℕ) (c : Change) (e : Env) (w : World)
    → (org == other) ≡ false
    → IsKeyed w
    → SameRows other w (perform org c e w).1
perform-SameRows org other c e w apart keyed = ((perform-Quiet org other apart c).at e w keyed).0
