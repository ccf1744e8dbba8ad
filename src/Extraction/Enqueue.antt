-- ===== src/Extraction/Enqueue.antt =====
-- service_extraction.go: the creation of tasks and the publishing of their messages
-- (`ensureConvertTask`, `ensureAnonymizeTask`, `enqueueResolveKeys`, `enqueueExtract`).
use kpi_tenders_go.Prelude.{ℕ, String, Bool, true, false, Option, none, some, List, [], ◌∷◌}
use kpi_tenders_go.Errs.{Error, wrapped, error_text}
use kpi_tenders_go.Models.{
  Document, DocumentTask, ExtractionRequest, ExtractionKey, RequestStatus, TaskStatus, ModuleName,
  convert, anonymize, resolve_keys, extract,
}
use kpi_tenders_go.Payloads.{
  ProcessRequest, KeyEntry, SchemaEntry, Kwargs, no_kwargs, resolve_kwargs, extract_kwargs,
}
use kpi_tenders_go.Effects.{
  Result, ok, err, M, pure, throw, ◌>>=◌, ◌>>◌, attempt, best_effort, map_error, unless_no_rows,
  decoding, asks, when,
}
use kpi_tenders_go.Repository.Tasks.{
  update_worker_task_status, create_document_task_singleton, create_document_task_for_request,
}
use kpi_tenders_go.Repository.Requests.{set_extraction_request_status}
use kpi_tenders_go.Repository.Keys.{list_extraction_keys_by_org}
use kpi_tenders_go.PythonWorker.{process}

-- `markTaskFailed`: an error is only logged.
unfoldable pub mark_task_failed : ℕ → String → M (Unit {0})
mark_task_failed id msg = best_effort (
    update_worker_task_status (record {
      id = id;
      status = TaskStatus.failed;
      celery_task_id = none;
      result_payload = none;
      error_message = some msg;
    }))

-- `MarkRequestFailed`: an error is only logged.
unfoldable pub mark_request_failed : ℕ → String → M (Unit {0})
mark_request_failed id msg =
    best_effort (set_extraction_request_status id RequestStatus.failed (some msg))

abbrev pub message : DocumentTask → ModuleName → String → Kwargs → ProcessRequest
message task m path kwargs = record {
  task_id = task.id;
  document_id = task.document_id;
  module_name = m;
  storage_path = path;
  kwargs = kwargs;
}

unfoldable pub on_failure : Result (Unit {0}) → (Error → M (Unit {0})) → M (Unit {0})
on_failure (ok x) handler = pure tt
on_failure (err x) handler = handler x

-- With no client there is nothing to publish to.
unfoldable pub publish : ProcessRequest → (Error → M (Unit {0})) → M (Unit {0})
publish p handler = do
  client ← asks (λ e. e.has_python_client)
  when client (do r ← attempt (process p); on_failure r handler)

-- A task that exists already is left alone.
unfoldable pub when_created : Option DocumentTask → (DocumentTask → M (Unit {0})) → M (Unit {0})
when_created none f = pure tt
when_created (some task) f = f task

unfoldable pub fail_task : DocumentTask → String → Error → M (Unit {0})
fail_task task msg x = do mark_task_failed task.id (error_text x); throw (wrapped msg x)

-- `ensureConvertTask`.
unfoldable pub ensure_convert_task : Document → M (Unit {0})
ensure_convert_task doc = do
  created ←
      unless_no_rows "create convert task"
        (create_document_task_singleton doc.id convert doc.storage_path)
  when_created created λ task.
      publish (message task convert doc.storage_path no_kwargs) (fail_task task "publish convert")

-- `ensureAnonymizeTask`.
unfoldable pub ensure_anonymize_task : Document → Document → M (Unit {0})
ensure_anonymize_task doc md = do
  created ←
      unless_no_rows "create anonymize task"
        (create_document_task_singleton doc.id anonymize md.storage_path)
  when_created created λ task.
      publish (message task anonymize md.storage_path no_kwargs)
        (fail_task task "publish anonymize")

unfoldable pub fail_request_task :
    ExtractionRequest → DocumentTask → String → String → Error → M (Unit {0})
fail_request_task req task request_msg msg x = do
  mark_task_failed task.id (error_text x)
  mark_request_failed req.id request_msg
  throw (wrapped msg x)

abbrev pub key_entries : List ExtractionKey → List KeyEntry
key_entries [] = []
key_entries (k ∷ ks) =
    record { key_name = k.key_name; source_query = k.source_query; data_type = k.data_type }
    ∷ key_entries ks

abbrev pub is_pending : RequestStatus → Bool
is_pending RequestStatus.pending = true
is_pending s = false

-- `enqueueResolveKeys`.
unfoldable pub enqueue_resolve_keys : ExtractionRequest → Document → Document → M (Unit {0})
enqueue_resolve_keys req doc target = do
  raw_keys ←
      map_error (wrapped "list extraction keys") (list_extraction_keys_by_org doc.organization_id)
  questions ← decoding "parse questions" (λ e. e.parse_questions) req.questions
  created ←
      unless_no_rows "create resolve_keys task"
        (create_document_task_for_request req.document_id resolve_keys target.storage_path req.id)
  when_created created λ task. do
    when (is_pending req.status)
        (best_effort (set_extraction_request_status req.id RequestStatus.running none))
    publish
        (message task resolve_keys target.storage_path
          (resolve_kwargs questions (key_entries raw_keys)))
        (fail_request_task req task "failed to publish resolve_keys task" "publish resolve_keys")

-- `enqueueExtract`.
unfoldable pub enqueue_extract : ExtractionRequest → Document → List SchemaEntry → M (Unit {0})
enqueue_extract req target schema = do
  created ←
      unless_no_rows "create extract task"
        (create_document_task_for_request req.document_id extract target.storage_path req.id)
  when_created created λ task.
      publish (message task extract target.storage_path (extract_kwargs schema))
        (fail_request_task req task "failed to publish extract task" "publish extract")
