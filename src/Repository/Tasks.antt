-- ===== src/Repository/Tasks.antt =====
-- internal/repository/document_task.sql.go.
use kpi_tenders_go.Prelude.{
  ℕ, suc, ◌+◌, String, Bool, true, false, not, Option, none, some, List, [], ◌∷◌, ◌++◌, ◌&&◌, ◌||◌,
  ◌==◌, ltb, leb, if◌then◌else◌, select, find, exists, update, count, take, sort_by,
}
use kpi_tenders_go.Errs.{
  Error, plain, no_rows, unique_violation, foreign_key_violation, check_violation,
}
use kpi_tenders_go.Models.{
  Document, DocumentTask, ExtractionRequest, ModuleName, convert, anonymize, resolve_keys, extract,
  TaskStatus, module_eq, is_id, is_null,
}
use kpi_tenders_go.Effects.{World, Result, ok, err, Stmt, M, run}
use kpi_tenders_go.Repository.Documents.{is_blank, first, has_id, has_id_org}

abbrev pub has_task_id : ℕ → DocumentTask → Bool
has_task_id id t = t.id == id

-- `module_name IN ('convert', 'anonymize')`, and `IN ('resolve_keys', 'extract')`.
abbrev pub is_singleton_module : ModuleName → Bool
is_singleton_module m = module_eq m convert || module_eq m anonymize

abbrev pub is_request_module : ModuleName → Bool
is_request_module m = module_eq m resolve_keys || module_eq m extract

-- The partial index uq_document_tasks_doc_singleton.
abbrev pub in_singleton : ℕ → ModuleName → DocumentTask → Bool
in_singleton document m t =
    t.document_id == document
    && module_eq t.module_name m
    && is_singleton_module t.module_name
    && is_null t.extraction_request_id

-- The partial index uq_document_tasks_request_module.
abbrev pub in_request : ℕ → ModuleName → DocumentTask → Bool
in_request request m t =
    is_id t.extraction_request_id request
    && module_eq t.module_name m
    && is_request_module t.module_name

-- document_tasks_module_request_chk.
abbrev pub module_request_chk : ModuleName → Option ℕ → Bool
module_request_chk m request =
    is_singleton_module m && is_null request
    || is_request_module m && not (is_null request)
    || not (is_singleton_module m) && not (is_request_module m)

abbrev pub check_status : TaskStatus → Bool
check_status (TaskStatus.other_status s) = false
check_status s = true

-- `status IN ('pending', 'processing')`.
abbrev pub is_unfinished : TaskStatus → Bool
is_unfinished TaskStatus.pending = true
is_unfinished TaskStatus.processing = true
is_unfinished s = false

-- What an insert gives.
pub record TaskParams : Type 0 where
  pub document_id : ℕ
  pub module_name : ModuleName
  pub input_storage_path : String
  pub extraction_request_id : Option ℕ

abbrev pub task_row : TaskParams → ℕ → ℕ → DocumentTask
task_row p id now = record {
  id = id;
  document_id = p.document_id;
  module_name = p.module_name;
  status = TaskStatus.pending;
  celery_task_id = none;
  result_payload = "{}";
  error_message = none;
  retry_count = 0;
  input_storage_path = p.input_storage_path;
  created_at = now;
  updated_at = now;
  extraction_request_id = p.extraction_request_id;
}

-- A row of these two unique indexes that the new row would repeat.
abbrev pub repeats : TaskParams → DocumentTask → Bool
repeats p t =
    is_singleton_module p.module_name
      && is_null p.extraction_request_id
      && in_singleton p.document_id p.module_name t
    || is_request_module p.module_name
      && elim p.extraction_request_id [ none ↦ false | some r ↦ in_request r p.module_name t ]

abbrev has_request : Option ℕ → List ExtractionRequest → Bool
has_request none rs = true
has_request (some id) rs = exists (λ (r : ExtractionRequest). r.id == id) rs

-- What the checks and the foreign keys say of a new row, before the unique indexes and after.
abbrev pub row_checks : TaskParams → Bool
row_checks p =
    not (is_blank p.input_storage_path) && module_request_chk p.module_name p.extraction_request_id

abbrev pub row_references : TaskParams → World → Bool
row_references p w =
    exists (has_id p.document_id) w.documents && has_request p.extraction_request_id w.requests

abbrev pub append_task : TaskParams → ℕ → World → Result DocumentTask × World
append_task p now w =
    let t = task_row p w.next_id now in
    (ok t, record w { tasks = w.tasks ++ t ∷ []; next_id = suc w.next_id })

-- `INSERT INTO document_tasks`; the first argument is what a repeated row answers.
unfoldable pub insert_task : Error → TaskParams → Stmt DocumentTask
insert_task on_conflict p now w =
    if row_checks p
    then if exists (repeats p) w.tasks
      then (err on_conflict, w)
      else if row_references p w
      then append_task p now w
      else (err (foreign_key_violation "document_tasks"), w)
    else (err (check_violation "document_tasks"), w)

-- Of a document of the organization, with its own path as the input.
abbrev pub insert_task_for : Option Document → ModuleName → Stmt DocumentTask
insert_task_for none m now w = (err no_rows, w)
insert_task_for (some d) m now w =
    insert_task (unique_violation "uq_document_tasks_doc_singleton")
      (record {
        document_id = d.id;
        module_name = m;
        input_storage_path = d.storage_path;
        extraction_request_id = none;
      })
      now w

unfoldable pub create_document_task : ℕ → ModuleName → ℕ → M DocumentTask
create_document_task document m org =
    run λ now w. insert_task_for (find (has_id_org document org) w.documents) m now w

-- `ON CONFLICT DO NOTHING` answers no row.
unfoldable pub create_document_task_singleton : ℕ → ModuleName → String → M DocumentTask
create_document_task_singleton document m path = run (
    insert_task no_rows (record {
      document_id = document;
      module_name = m;
      input_storage_path = path;
      extraction_request_id = none;
    }))

unfoldable pub create_document_task_for_request : ℕ → ModuleName → String → ℕ → M DocumentTask
create_document_task_for_request document m path request = run (
    insert_task no_rows (record {
      document_id = document;
      module_name = m;
      input_storage_path = path;
      extraction_request_id = some request;
    }))

-- `UPDATE document_tasks SET f WHERE id = id RETURNING *`.
unfoldable pub update_task : ℕ → (ℕ → DocumentTask → DocumentTask) → Stmt DocumentTask
update_task id f now w =
    let rows = update (has_task_id id) (f now) w.tasks in
    (first (find (has_task_id id) rows), record w { tasks = rows })

abbrev pub coalesce : {A : Type 0} → Option A → A → A
coalesce none old = old
coalesce (some new) old = new

abbrev pub coalesce_null : {A : Type 0} → Option A → Option A → Option A
coalesce_null none old = old
coalesce_null (some new) old = some new

pub record StatusParams : Type 0 where
  pub id : ℕ
  pub status : TaskStatus
  pub celery_task_id : Option String
  pub result_payload : Option String
  pub error_message : Option String

abbrev pub set_status : StatusParams → ℕ → DocumentTask → DocumentTask
set_status p now t = record t {
  status = p.status;
  celery_task_id = coalesce_null p.celery_task_id t.celery_task_id;
  result_payload = coalesce p.result_payload t.result_payload;
  error_message = coalesce_null p.error_message t.error_message;
  updated_at = now;
}

unfoldable pub write_status : StatusParams → Stmt DocumentTask
unfolding update_task
write_status p now w =
    if check_status p.status || not (exists (has_task_id p.id) w.tasks)
    then update_task p.id (set_status p) now w
    else (err (check_violation "document_tasks_status_check"), w)

unfoldable pub update_worker_task_status : StatusParams → M DocumentTask
update_worker_task_status p = run (write_status p)

abbrev pub set_payload : String → ℕ → DocumentTask → DocumentTask
set_payload payload now t = record t { result_payload = payload; updated_at = now }

unfoldable pub update_task_result_payload : ℕ → String → M DocumentTask
update_task_result_payload id payload = run (update_task id (set_payload payload))

abbrev pub is_stale : ℕ → DocumentTask → Bool
is_stale cutoff t = is_unfinished t.status && ltb t.updated_at cutoff

abbrev pub stalest_first : DocumentTask → DocumentTask → Bool
stalest_first s t = leb s.updated_at t.updated_at

-- `ListStaleTasksRow`: the columns that the watchdog reads.
pub record StaleRow : Type 0 where
  pub id : ℕ
  pub document_id : ℕ
  pub module_name : ModuleName
  pub retry_count : ℕ
  pub input_storage_path : String

abbrev pub stale_row : DocumentTask → StaleRow
stale_row t = record {
  id = t.id;
  document_id = t.document_id;
  module_name = t.module_name;
  retry_count = t.retry_count;
  input_storage_path = t.input_storage_path;
}

abbrev pub stale_rows : List DocumentTask → List StaleRow
stale_rows [] = []
stale_rows (t ∷ ts) = stale_row t ∷ stale_rows ts

-- The limit is an int32, by its 32 bits; PostgreSQL refuses one below zero.
abbrev pub is_negative : ℕ → Bool
is_negative n = leb 2147483648 n

unfoldable pub list_stale_tasks : ℕ → ℕ → M (List StaleRow)
list_stale_tasks cutoff batch_size = run λ now w. (
  if is_negative batch_size
      then err (plain "LIMIT must not be negative")
      else ok
          (stale_rows (take batch_size (sort_by stalest_first (select (is_stale cutoff) w.tasks)))),
  w,
)

abbrev pub claims : ℕ → ℕ → DocumentTask → Bool
claims id cutoff t = t.id == id && is_stale cutoff t

-- `UPDATE ... WHERE id = id AND status IN (...) AND updated_at < cutoff`, and the rows it changed.
unfoldable pub claim_task : ℕ → ℕ → (ℕ → DocumentTask → DocumentTask) → Stmt ℕ
claim_task id cutoff f now w = (
  ok (count (claims id cutoff) w.tasks),
  record w { tasks = update (claims id cutoff) (f now) w.tasks },
)

abbrev pub set_failed : String → ℕ → DocumentTask → DocumentTask
set_failed msg now t = record t {
  status = TaskStatus.failed;
  error_message = some msg;
  updated_at = now;
}

unfoldable pub mark_stale_task_failed : ℕ → String → ℕ → M ℕ
mark_stale_task_failed id msg cutoff = run (claim_task id cutoff (set_failed msg))

abbrev pub set_requeued : ℕ → DocumentTask → DocumentTask
set_requeued now t = record t {
  status = TaskStatus.pending;
  retry_count = t.retry_count + 1;
  celery_task_id = none;
  error_message = none;
  updated_at = now;
}

unfoldable pub mark_stale_task_pending : ℕ → ℕ → M ℕ
mark_stale_task_pending id cutoff = run (claim_task id cutoff set_requeued)
