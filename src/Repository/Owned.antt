-- ===== src/Repository/Owned.antt =====
-- internal/repository/document_task.sql.go, the queries of the document task service, which see
-- the tasks of one organization's documents.
use kpi_tenders_go.Prelude.{
  ℕ, Bool, not, List, ◌&&◌, ◌||◌, ◌==◌, ltb, leb, if◌then◌else◌, select, find, exists, update,
  count, sort_by,
}
use kpi_tenders_go.Errs.{check_violation}
use kpi_tenders_go.Models.{Document, DocumentTask, TaskStatus}
use kpi_tenders_go.Effects.{ok, err, Stmt, M, run}
use kpi_tenders_go.Repository.Documents.{first, has_id_org}
use kpi_tenders_go.Repository.Tasks.{check_status}
use kpi_tenders_go.Repository.Originals.{among}

-- The join with the documents of the organization.
abbrev pub owns : ℕ → List Document → DocumentTask → Bool
owns org ds t = exists (has_id_org t.document_id org) ds

abbrev pub is_owned : ℕ → ℕ → List Document → DocumentTask → Bool
is_owned id org ds t = t.id == id && owns org ds t

unfoldable pub get_document_task : ℕ → ℕ → M DocumentTask
get_document_task id org = run λ now w. (first (find (is_owned id org w.documents) w.tasks), w)

abbrev pub newest_task_first : DocumentTask → DocumentTask → Bool
newest_task_first s t = leb t.created_at s.created_at

unfoldable pub list_tasks_by_document : ℕ → ℕ → M (List DocumentTask)
list_tasks_by_document document org = run λ now w. (
  ok (
      sort_by newest_task_first (
        select (λ (t : DocumentTask). t.document_id == document && owns org w.documents t)
          w.tasks)),
  w,
)

-- `ORDER BY document_id, created_at DESC, id DESC`.
abbrev pub by_document : DocumentTask → DocumentTask → Bool
by_document s t =
    ltb s.document_id t.document_id
    || s.document_id == t.document_id
      && (ltb t.created_at s.created_at || s.created_at == t.created_at && leb t.id s.id)

unfoldable pub list_tasks_by_documents : List ℕ → ℕ → M (List DocumentTask)
list_tasks_by_documents ids org = run λ now w. (
  ok (
      sort_by by_document
        (select (λ (t : DocumentTask). among ids t.document_id && owns org w.documents t) w.tasks)),
  w,
)

abbrev pub mark_status : TaskStatus → ℕ → DocumentTask → DocumentTask
mark_status status now t = record t { status = status; updated_at = now }

abbrev pub mark_owned : ℕ → ℕ → TaskStatus → Stmt DocumentTask
mark_owned id org status now w =
    let rows = update (is_owned id org w.documents) (mark_status status now) w.tasks in
    (first (find (is_owned id org w.documents) rows), record w { tasks = rows })

unfoldable pub write_owned_status : ℕ → ℕ → TaskStatus → Stmt DocumentTask
write_owned_status id org status now w =
    if check_status status || not (exists (is_owned id org w.documents) w.tasks)
    then mark_owned id org status now w
    else (err (check_violation "document_tasks_status_check"), w)

unfoldable pub update_document_task_status : ℕ → ℕ → TaskStatus → M DocumentTask
update_document_task_status id org status = run (write_owned_status id org status)

unfoldable pub remove_owned_task : ℕ → ℕ → Stmt ℕ
remove_owned_task id org now w = (
  ok (count (is_owned id org w.documents) w.tasks),
  record w { tasks = select (λ (t : DocumentTask). not (is_owned id org w.documents t)) w.tasks },
)

unfoldable pub delete_document_task : ℕ → ℕ → M ℕ
delete_document_task id org = run (remove_owned_task id org)
