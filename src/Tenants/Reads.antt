-- ===== src/Tenants/Reads.antt =====
-- The queries of the documents, tasks, directories and users of one organization.
use kpi_tenders_go.Prelude.{
  ℕ, List, ap, ◌==◌, arith, find_alike, select_alike, find-and_alike, select-and_alike, sort_by,
  map,
}
use kpi_tenders_go.Models.{DocumentTask}
use kpi_tenders_go.Effects.{ok}
use kpi_tenders_go.Repository.Documents.{
  first, has_id_org, is_child, oldest_first, get_document, list_documents_by_parent,
}
use kpi_tenders_go.Repository.Originals.{
  is_root_of, is_root_at, newest_first, list_root_documents_by_organization,
  list_root_documents_by_site, is_kind_for, is_role_for, get_contract_kind, get_file_role, among,
}
use kpi_tenders_go.Repository.Documents.{is_user_of}
use kpi_tenders_go.Repository.Owned.{
  owns, get_document_task, newest_task_first, list_tasks_by_document, by_document,
  list_tasks_by_documents,
}
use kpi_tenders_go.Repository.Accounts.{
  is_document_of, first_shown, shown, oldest_user_first, get_user_by_id_and_org,
  list_users_by_organization,
}
use kpi_tenders_go.Tenants.View.{user_of, kind_for, role_for}
use kpi_tenders_go.Tenants.Local.{Exact, Exact-query}

module _ (org : ℕ) where
  pub get_document-Exact : (id : ℕ) → Exact org (get_document id org)
  unfolding get_document
  get_document-Exact id = Exact-query org _ (λ v w same. ap first (
      find_alike (has_id_org id org) (is_document_of org) (λ d h. ground (arith, h)) v.documents
        w.documents same.rows.documents))

  pub list_by_parent-Exact : (parent : ℕ) → Exact org (list_documents_by_parent parent org)
  unfolding list_documents_by_parent
  list_by_parent-Exact parent = Exact-query org _ (λ v w same.
      ap (λ ds. ok (sort_by oldest_first ds))
        (select_alike (is_child parent org) (is_document_of org) (λ d h. ground (arith, h))
          v.documents w.documents same.rows.documents))

  pub list_roots-Exact : Exact org (list_root_documents_by_organization org)
  unfolding list_root_documents_by_organization
  list_roots-Exact = Exact-query org _ (λ v w same.
      ap (λ ds. ok (sort_by newest_first ds))
        (select_alike (is_root_of org) (is_document_of org) (λ d h. ground (arith, h)) v.documents
          w.documents same.rows.documents))

  pub list_roots_at-Exact : (site : ℕ) → Exact org (list_root_documents_by_site org site)
  unfolding list_root_documents_by_site
  list_roots_at-Exact site = Exact-query org _ (λ v w same.
      ap (λ ds. ok (sort_by newest_first ds))
        (select_alike (is_root_at org site) (is_document_of org) (λ d h. ground (arith, h))
          v.documents w.documents same.rows.documents))

  pub get_contract_kind-Exact : (id : ℕ) → Exact org (get_contract_kind id org)
  unfolding get_contract_kind
  get_contract_kind-Exact id = Exact-query org _ (λ v w same. ap first (
      find_alike (is_kind_for id org) (kind_for org) (λ k h. ground (arith, h)) v.contract_kinds
        w.contract_kinds same.rows.contract_kinds))

  pub get_file_role-Exact : (id : ℕ) → Exact org (get_file_role id org)
  unfolding get_file_role
  get_file_role-Exact id = Exact-query org _ (λ v w same. ap first (
      find_alike (is_role_for id org) (role_for org) (λ k h. ground (arith, h)) v.file_roles
        w.file_roles same.rows.file_roles))

  pub get_document_task-Exact : (id : ℕ) → Exact org (get_document_task id org)
  unfolding get_document_task
  get_document_task-Exact id = Exact-query org _ (λ v w same. ap first (
      find-and_alike (λ (t : DocumentTask). t.id == id) (owns org v.documents)
        (owns org w.documents) v.tasks w.tasks same.rows.tasks))

  pub list_tasks-Exact : (document : ℕ) → Exact org (list_tasks_by_document document org)
  unfolding list_tasks_by_document
  list_tasks-Exact document = Exact-query org _ (λ v w same.
      ap (λ ts. ok (sort_by newest_task_first ts))
        (select-and_alike (λ (t : DocumentTask). t.document_id == document) (owns org v.documents)
          (owns org w.documents) v.tasks w.tasks same.rows.tasks))

  pub list_tasks_of-Exact : (ids : List ℕ) → Exact org (list_tasks_by_documents ids org)
  unfolding list_tasks_by_documents
  list_tasks_of-Exact ids = Exact-query org _ (λ v w same.
      ap (λ ts. ok (sort_by by_document ts))
        (select-and_alike (λ (t : DocumentTask). among ids t.document_id) (owns org v.documents)
          (owns org w.documents) v.tasks w.tasks same.rows.tasks))

  pub get_user-Exact : (id : ℕ) → Exact org (get_user_by_id_and_org id org)
  unfolding get_user_by_id_and_org
  get_user-Exact id = Exact-query org _ (λ v w same. ap first_shown (
      find_alike (is_user_of id org) (user_of org) (λ u h. ground (arith, h)) v.users w.users
        same.rows.users))

  pub list_users-Exact : Exact org (list_users_by_organization org)
  unfolding list_users_by_organization
  list_users-Exact =
      Exact-query org _
        (λ v w same. ap (λ us. ok (map shown (sort_by oldest_user_first us))) same.rows.users)

pub ruleset read_rules = (
  get_document-Exact, list_by_parent-Exact, list_roots-Exact, list_roots_at-Exact,
  get_contract_kind-Exact, get_file_role-Exact, get_document_task-Exact, list_tasks-Exact,
  list_tasks_of-Exact, get_user-Exact, list_users-Exact,
)
