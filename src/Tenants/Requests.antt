-- ===== src/Tenants/Requests.antt =====
-- The requests of a user that read, in the organization that the token names
-- (internal/server/handler_document.go, handler_document_task.go, handler_user.go,
-- handler_contract_kind.go, handler_file_role.go), each by the service's operation that answers it.
use kpi_tenders_go.Prelude.{ℕ, String, Bool, List, Option, none, some, ap, sym, ◌≡◌, ◌∙◌}
use kpi_tenders_go.Errs.{missing_as}
use kpi_tenders_go.Models.{Document, DocumentTask, ContractKind, FileRole}
use kpi_tenders_go.Effects.{◌>>◌, M, Env, World}
use kpi_tenders_go.Repository.Accounts.{UserRow}
use kpi_tenders_go.DocumentService
use kpi_tenders_go.DocumentService.{find_own, sign_url, presigned}
use kpi_tenders_go.DocumentTaskService
use kpi_tenders_go.UserService
use kpi_tenders_go.ContractKindService
use kpi_tenders_go.FileRoleService
use kpi_tenders_go.Server.Errors.{answer}
use kpi_tenders_go.Tenants.View.{SameView, SameView-counted}
use kpi_tenders_go.Tenants.Local.{
  Exact, Hidden, Hidden-Exact, Hidden-bind, Hidden-if, Exact-map_error, exact_rules,
}
use kpi_tenders_go.Tenants.Reads.{get_document-Exact, read_rules}
use kpi_tenders_go.Tenants.DirectoryReads.{directory_read_rules}
use kpi_tenders_go.Tenants.Answers.{find_own-answer, find_own-world}

-- `ListUsersByOrganization` and the others by the handler's name.
pub data Reading : Type 0 where
  get_document list_artifacts list_site_documents get_task list_tasks get_kind get_role :
      ℕ → Reading
  list_documents list_users list_kinds list_roles : Reading
  list_tasks_of : List ℕ → Reading
  get_document_url : ℕ → Bool → Reading

abbrev pub Reply : Reading → Type 0
Reply (Reading.get_document id) = Document
Reply (Reading.list_artifacts parent) = List Document
Reply (Reading.list_site_documents site) = List Document
Reply (Reading.get_task id) = DocumentTask
Reply (Reading.list_tasks document) = List DocumentTask
Reply Reading.list_documents = List Document
Reply Reading.list_users = List UserRow
Reply (Reading.list_tasks_of ids) = List DocumentTask
Reply (Reading.get_document_url id download) = String
Reply (Reading.get_kind id) = ContractKind
Reply (Reading.get_role id) = FileRole
Reply Reading.list_kinds = List ContractKind
Reply Reading.list_roles = List FileRole

unfoldable pub handle : ℕ → (r : Reading) → M (Reply r)
handle org (Reading.get_document id) = DocumentService.get id org
handle org (Reading.list_artifacts parent) =
    DocumentService.get parent org >> DocumentService.list_by_parent parent org
handle org (Reading.list_site_documents site) = DocumentService.list_by_site org site
handle org (Reading.get_task id) = DocumentTaskService.get id org
handle org (Reading.list_tasks document) = DocumentTaskService.list_by_document document org
handle org Reading.list_documents = DocumentService.list_by_organization org
handle org Reading.list_users = UserService.list org
handle org (Reading.list_tasks_of ids) = DocumentTaskService.list_by_documents ids org
handle org (Reading.get_document_url id download) =
    DocumentService.get_presigned_url id org download
handle org (Reading.get_kind id) = ContractKindService.get id org
handle org (Reading.get_role id) = FileRoleService.get id org
handle org Reading.list_kinds = ContractKindService.list org
handle org Reading.list_roles = FileRoleService.list org

module _ (org : ℕ) where
  find_own-Hidden : (msg : String) (id : ℕ) → Hidden org (find_own msg id org)
  find_own-Hidden msg id = record {
    at = λ e v w same.
        let scoped =
          (Exact-map_error org (missing_as msg) _ (get_document-Exact org id)).at e v w same in
        (
          find_own-answer msg id org e v same.left
              ∙ ap answer scoped.0
              ∙ sym (find_own-answer msg id org e w same.right),
          rw (find_own-world msg id org e v, find_own-world msg id org e w)
              (SameView-counted org v w same),
        );
  }

  presigned-Exact : (url : Option String) → Exact org (presigned url)
  presigned-Exact none = search (exact_rules)
  presigned-Exact (some u) = search (exact_rules)

  sign_url-Exact : (download : Bool) (d : Document) → Exact org (sign_url download d)
  sign_url-Exact download d = search (exact_rules, presigned-Exact)

  get_presigned_url-Hidden :
      (id : ℕ) (download : Bool) → Hidden org (DocumentService.get_presigned_url id org download)
  unfolding DocumentService.get_presigned_url
  get_presigned_url-Hidden id download =
      Hidden-bind org _ _ (Hidden-Exact org _ (search (exact_rules))) (λ stored.
        Hidden-if org stored _ _
          (Hidden-bind org _ _ (find_own-Hidden "document not found" id)
            (λ d. Hidden-Exact org _ (sign_url-Exact download d)))
          (Hidden-Exact org _ (search (exact_rules))))

  handle-Hidden : (r : Reading) → Hidden org (handle org r)
  unfolding handle DocumentService.get DocumentService.list_by_parent DocumentService.list_by_site
      DocumentTaskService.get DocumentTaskService.list_by_document
      DocumentService.list_by_organization UserService.list DocumentTaskService.list_by_documents
      ContractKindService.get ContractKindService.list FileRoleService.get FileRoleService.list
  handle-Hidden (Reading.get_document id) = Hidden-Exact org _ (search (exact_rules, read_rules))
  handle-Hidden (Reading.list_artifacts parent) =
      Hidden-Exact org _ (search (exact_rules, read_rules))
  handle-Hidden (Reading.list_site_documents site) =
      Hidden-Exact org _ (search (exact_rules, read_rules))
  handle-Hidden (Reading.get_task id) = Hidden-Exact org _ (search (exact_rules, read_rules))
  handle-Hidden (Reading.list_tasks document) =
      Hidden-Exact org _ (search (exact_rules, read_rules))
  handle-Hidden Reading.list_documents = Hidden-Exact org _ (search (exact_rules, read_rules))
  handle-Hidden Reading.list_users = Hidden-Exact org _ (search (exact_rules, read_rules))
  handle-Hidden (Reading.list_tasks_of ids) = Hidden-Exact org _ (search (exact_rules, read_rules))
  handle-Hidden (Reading.get_document_url id download) = get_presigned_url-Hidden id download
  handle-Hidden (Reading.get_kind id) = Hidden-Exact org _ (search (exact_rules, read_rules))
  handle-Hidden (Reading.get_role id) = Hidden-Exact org _ (search (exact_rules, read_rules))
  handle-Hidden Reading.list_kinds = Hidden-Exact org _ (search (exact_rules, directory_read_rules))
  handle-Hidden Reading.list_roles = Hidden-Exact org _ (search (exact_rules, directory_read_rules))

-- What a user of an organization is answered to a request that reads (documents, artifacts, tasks,
-- users, contract kinds, file roles, presigned URLs) depends only on the rows of that organization and of the system: in two
-- worlds that hold the same such rows, with unique document ids and the same number of calls
-- made, the answers have the same content, or the same status, code and message, whatever other
-- organizations have stored.
pub handle-answer :
    (org : ℕ) (r : Reading) (e : Env) (v w : World)
    → SameView org v w
    → answer (handle org r e v).0 ≡ answer (handle org r e w).0
handle-answer org r e v w same = ((handle-Hidden org r).at e v w same).0
