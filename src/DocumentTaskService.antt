-- ===== src/DocumentTaskService.antt =====
-- internal/service/service_document_task.go: the worker tasks that a user sees.
use Prim.Native.String.{◌++◌ as text_append}
use kpi_tenders_go.Prelude.{ℕ, String, List, if◌then◌else◌}
use kpi_tenders_go.Errs.{
  Error, app, app_of, not_found, conflict, validation_failed, is_no_rows, internal, missing_as,
  is_unique_violation,
}
use kpi_tenders_go.Models.{DocumentTask, ModuleName, TaskStatus, convert, module_eq, module_text}
use kpi_tenders_go.Payloads.{no_kwargs}
use kpi_tenders_go.Effects.{
  Env, M, Result, ok, err, pure, throw, ◌>>=◌, ◌>>◌, map_error, asks, when, best_effort,
}
use kpi_tenders_go.PythonWorker.{validate_module, process}
use kpi_tenders_go.Repository.Tasks.{create_document_task}
use kpi_tenders_go.Repository.Owned.{
  get_document_task, list_tasks_by_document, list_tasks_by_documents, update_document_task_status,
  delete_document_task,
}
use kpi_tenders_go.DocumentService.{unless_zero}

-- What the insert may answer.
abbrev pub not_created : Error → Error
not_created x =
    if is_no_rows x
    then app_of not_found "document not found" x
    else if is_unique_violation x "uq_document_tasks_doc_singleton"
    then app_of conflict "task for this module already exists" x
    else internal x

abbrev pub trigger : DocumentTask → M (Unit {0})
trigger t = do
  has_client ← asks (λ (e : Env). e.has_python_client)
  when has_client (
      best_effort (
        process (record {
          task_id = t.id;
          document_id = t.document_id;
          module_name = t.module_name;
          storage_path = t.input_storage_path;
          kwargs = no_kwargs;
        })))

abbrev not_public : String → String → String
not_public name only = text_append "module " (
    text_append name
      (text_append " cannot be created via the public API; only " (text_append only " is allowed")))

-- `pythonworker.ValidateModule`, then the public API's own limit to convert.
abbrev pub accepted : ModuleName → Result (Unit {0}) → M (Unit {0})
accepted m (err x) = do
  name ← asks (λ (e : Env). e.quoted (module_text m))
  throw (app_of validation_failed (text_append "unsupported module: " name) x)
accepted m (ok u) = if module_eq m convert then pure tt else do
  name ← asks (λ (e : Env). e.quoted (module_text m))
  only ← asks (λ (e : Env). e.quoted (module_text convert))
  throw (app validation_failed (not_public name only))

unfoldable pub create : ℕ → ModuleName → ℕ → M DocumentTask
create document m org = do
  accepted m (validate_module m)
  t ← map_error not_created (create_document_task document m org)
  trigger t
  pure t

unfoldable pub get : ℕ → ℕ → M DocumentTask
get id org = map_error (missing_as "task not found") (get_document_task id org)

unfoldable pub list_by_document : ℕ → ℕ → M (List DocumentTask)
list_by_document document org = map_error internal (list_tasks_by_document document org)

unfoldable pub list_by_documents : List ℕ → ℕ → M (List DocumentTask)
list_by_documents ids org = map_error internal (list_tasks_by_documents ids org)

unfoldable pub update_status : ℕ → ℕ → TaskStatus → M DocumentTask
update_status id org status =
    map_error (missing_as "task not found") (update_document_task_status id org status)

unfoldable pub delete : ℕ → ℕ → M (Unit {0})
delete id org = map_error internal (delete_document_task id org) >>= unless_zero "task not found"
