-- ===== src/Worker/Status.antt =====
-- service_worker.go: `HandleStatusUpdate` and the requests that it moves on or fails.
use Prim.Native.String.{◌++◌ as text_append}
use kpi_tenders_go.Prelude.{ℕ, String, Bool, true, false, Option, none, some, List, if◌then◌else◌}
use kpi_tenders_go.Errs.{Error, app_of, is_no_rows, not_found, internal_error}
use kpi_tenders_go.Models.{
  DocumentTask, ExtractionRequest, ModuleName, convert, anonymize, resolve_keys, extract,
  parse_invoice, other_module, TaskStatus,
}
use kpi_tenders_go.Effects.{
  Result, ok, err, M, pure, ◌>>=◌, ◌>>◌, attempt, best_effort, map_error, for_each,
}
use kpi_tenders_go.Repository.Tasks.{StatusParams, update_worker_task_status}
use kpi_tenders_go.Repository.Requests.{list_pending_extraction_requests_by_document}
use kpi_tenders_go.Extraction.Enqueue.{mark_request_failed, on_failure}
use kpi_tenders_go.Extraction.Progress.{progress}
use kpi_tenders_go.Extraction.Callbacks.{on_resolve_keys_completed, on_extract_completed}
use kpi_tenders_go.Worker.Artifacts.{
  register_convert_artifacts, register_anonymize_artifacts, trigger_anonymize,
}

-- `WorkerStatusUpdate`.
pub record StatusUpdate : Type 0 where
  pub status : TaskStatus
  pub celery_task_id : Option String
  pub result_payload : Option String
  pub error_message : Option String

abbrev pub is_completed : TaskStatus → Bool
is_completed TaskStatus.completed = true
is_completed s = false

abbrev pub is_failed : TaskStatus → Bool
is_failed TaskStatus.failed = true
is_failed s = false

unfoldable pub each_listed :
    Result (List ExtractionRequest) → (ExtractionRequest → M (Unit {0})) → M (Unit {0})
each_listed (ok requests) f = for_each requests f
each_listed (err x) f = pure tt

-- `progressPendingRequests`: a request that fails to progress does not stop the others.
unfoldable pub progress_pending_requests : ℕ → M (Unit {0})
progress_pending_requests document = do
  listed ← attempt (list_pending_extraction_requests_by_document document)
  each_listed listed λ req. best_effort (progress req)

-- `failPendingRequests`.
unfoldable pub fail_pending_requests : ℕ → String → M (Unit {0})
fail_pending_requests document reason = do
  listed ← attempt (list_pending_extraction_requests_by_document document)
  each_listed listed λ req. mark_request_failed req.id reason

-- `if task.ExtractionRequestID.Valid { MarkRequestFailed }`.
unfoldable pub fail_owner : Option ℕ → String → M (Unit {0})
fail_owner none msg = pure tt
fail_owner (some id) msg = mark_request_failed id msg

-- `if err := callback; err != nil { fail the owner }`.
unfoldable pub or_fail_owner : DocumentTask → String → M (Unit {0}) → M (Unit {0})
or_fail_owner task msg callback = do
  r ← attempt callback
  on_failure r λ x. fail_owner task.extraction_request_id msg

abbrev pub module_text : ModuleName → String
module_text convert = "convert"
module_text anonymize = "anonymize"
module_text resolve_keys = "resolve_keys"
module_text extract = "extract"
module_text parse_invoice = "parse_invoice"
module_text (other_module s) = s

abbrev pub failure_text : DocumentTask → String
failure_text task = elim task.error_message [ none ↦ "task failed" | some msg ↦ msg ]

-- What follows a completed task, by its module.
unfoldable pub after_completed : DocumentTask → ModuleName → M (Unit {0})
after_completed task convert = do
  best_effort (register_convert_artifacts task)
  best_effort (trigger_anonymize task)
  progress_pending_requests task.document_id
after_completed task anonymize = do
  best_effort (register_anonymize_artifacts task)
  progress_pending_requests task.document_id
after_completed task resolve_keys =
    or_fail_owner task "pipeline error after resolve_keys" (on_resolve_keys_completed task)
after_completed task extract =
    or_fail_owner task "pipeline error after extract" (on_extract_completed task)
after_completed task parse_invoice = pure tt
after_completed task (other_module s) = pure tt

-- What follows a failed task: its request, or every open request of its document, fails.
unfoldable pub after_failed : DocumentTask → ModuleName → M (Unit {0})
after_failed task resolve_keys = fail_owner task.extraction_request_id (failure_text task)
after_failed task extract = fail_owner task.extraction_request_id (failure_text task)
after_failed task convert =
    fail_pending_requests task.document_id (text_append (module_text convert) " task failed")
after_failed task anonymize =
    fail_pending_requests task.document_id (text_append (module_text anonymize) " task failed")
after_failed task parse_invoice = pure tt
after_failed task (other_module s) = pure tt

-- The conditions of the source exclude one another: they test the module and the status of one task.
unfoldable pub after_update : DocumentTask → TaskStatus → M (Unit {0})
after_update task TaskStatus.completed = after_completed task task.module_name
after_update task TaskStatus.failed = after_failed task task.module_name
after_update task s = pure tt

abbrev update_error : Error → Error
update_error x =
    if is_no_rows x
    then app_of not_found "task not found" x
    else app_of internal_error "failed to update task" x

abbrev pub update_params : ℕ → StatusUpdate → StatusParams
update_params id upd = record {
  id = id;
  status = upd.status;
  celery_task_id = upd.celery_task_id;
  result_payload = upd.result_payload;
  error_message = upd.error_message;
}

-- `HandleStatusUpdate`.
unfoldable pub handle_status_update : ℕ → StatusUpdate → M DocumentTask
handle_status_update id upd = do
  task ← map_error update_error (update_worker_task_status (update_params id upd))
  after_update task task.status
  pure task
