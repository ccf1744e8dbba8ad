-- ===== src/Frame/Calls.antt =====
-- The interface between the statements and the services: a relation on worlds that every writing
-- statement keeps, and the calls of the repository under it.
use kpi_tenders_go.Prelude.{ℕ, String, Bool, Option, none, some, List, [], ◌∷◌, ◌++◌}
use kpi_tenders_go.Errs.{Error, no_rows}
use kpi_tenders_go.Models.{ModuleName, RequestStatus}
use kpi_tenders_go.Payloads.{ProcessRequest, KeyEntry}
use kpi_tenders_go.Effects.{World, ok, Stmt}
use kpi_tenders_go.Effects.Evolves.{
  Closed, Keeps, Evolves, Evolves-run, Evolves-query, Evolves-throw,
}
use kpi_tenders_go.Repository.Documents.{
  ArtifactParams, upsert_artifact, create_artifact_document, get_document, get_document_by_id,
  list_documents_by_parent,
}
use kpi_tenders_go.Repository.Tasks.{
  TaskParams, StatusParams, insert_task, write_status, update_task, set_payload, claim_task,
  set_failed, set_requeued, create_document_task_singleton, create_document_task_for_request,
  update_worker_task_status, update_task_result_payload, list_stale_tasks, mark_stale_task_failed,
  mark_stale_task_pending,
}
use kpi_tenders_go.Repository.Requests.{
  insert_request, update_request, set_request_status, set_schema, create_extraction_request,
  get_extraction_request_by_id, list_pending_extraction_requests_by_document,
  set_extraction_request_status, set_extraction_request_resolved_schema,
}
use kpi_tenders_go.Repository.Keys.{
  upsert_key, batch_upsert, upsert_extraction_key, list_extraction_keys_by_org,
  get_extraction_keys_by_names, batch_upsert_extracted_data,
}
use kpi_tenders_go.PythonWorker.{Queue, resolve_module, push, process}

-- LPUSH of a message.
abbrev pub deliver : ProcessRequest → Stmt (Unit {0})
deliver p now w = (ok tt, record w { published = w.published ++ p ∷ [] })

-- The statements that the ExtractionService writes by; of messages, those that `P` allows.
pub record Steady (P : ProcessRequest → Type 0) (R : World → World → Type 0) : Type 0 where
  pub closed : Closed R
  pub inserts_task : (x : Error) (p : TaskParams) → Keeps R (insert_task x p)
  pub inserts_request :
      (document org : ℕ) (questions : String) (anonymize : Bool)
      → Keeps R (insert_request document org questions anonymize)
  pub writes_status : (p : StatusParams) → Keeps R (write_status p)
  pub writes_request_status :
      (id : ℕ) (s : RequestStatus) (msg : Option String)
      → Keeps R (update_request id (set_request_status s msg))
  pub writes_schema : (id : ℕ) (text : String) → Keeps R (update_request id (set_schema text))
  pub upserts_key : (org : ℕ) (p : KeyEntry) → Keeps R (upsert_key org p)
  pub upserts_data :
      (org document : ℕ) (pairs : List (ℕ × String)) → Keeps R (batch_upsert org document pairs)
  pub delivers : (p : ProcessRequest) → P p → Keeps R (deliver p)

-- With those of the WorkerService.
pub record Stable (P : ProcessRequest → Type 0) (R : World → World → Type 0) : Type 0 where
  pub steady : Steady P R
  pub open steady use *
  pub upserts_artifact : (p : ArtifactParams) → Keeps R (upsert_artifact p)
  pub writes_payload : (id : ℕ) (text : String) → Keeps R (update_task id (set_payload text))

-- Those of the watchdog.
pub record Watched (P : ProcessRequest → Type 0) (R : World → World → Type 0) : Type 0 where
  pub closed : Closed R
  pub claims_failed :
      (id : ℕ) (msg : String) (cutoff : ℕ) → Keeps R (claim_task id cutoff (set_failed msg))
  pub claims_pending : (id cutoff : ℕ) → Keeps R (claim_task id cutoff set_requeued)
  pub delivers : (p : ProcessRequest) → P p → Keeps R (deliver p)

-- What publishing needs of both.
record Delivering (P : ProcessRequest → Type 0) (R : World → World → Type 0) : Type 0 where
  closed : Closed R
  delivers : (p : ProcessRequest) → P p → Keeps R (deliver p)

module _ {P : ProcessRequest → Type 0} {R : World → World → Type 0} (s : Delivering P R) where
  deliver-push : (q : Option Queue) (p : ProcessRequest) → P p → Evolves R (push q p)
  deliver-push none p h = Evolves-throw s.closed _
  deliver-push (some q) p h = Evolves-run s.closed _ (s.delivers p h)

  deliver-process : (p : ProcessRequest) → P p → Evolves R (process p)
  unfolding process
  deliver-process p h = deliver-push (resolve_module p.module_name) p h

module _ {P : ProcessRequest → Type 0} {R : World → World → Type 0} (s : Steady P R) where
  pub Evolves-get_document : (id org : ℕ) → Evolves R (get_document id org)
  unfolding get_document
  Evolves-get_document id org = Evolves-query s.closed _

  pub Evolves-get_document_by_id : (id : ℕ) → Evolves R (get_document_by_id id)
  unfolding get_document_by_id
  Evolves-get_document_by_id id = Evolves-query s.closed _

  pub Evolves-list_documents_by_parent :
      (parent org : ℕ) → Evolves R (list_documents_by_parent parent org)
  unfolding list_documents_by_parent
  Evolves-list_documents_by_parent parent org = Evolves-query s.closed _

  pub Evolves-create_document_task_singleton :
      (document : ℕ) (m : ModuleName) (path : String)
      → Evolves R (create_document_task_singleton document m path)
  unfolding create_document_task_singleton
  Evolves-create_document_task_singleton document m path =
      Evolves-run s.closed _ (s.inserts_task no_rows _)

  pub Evolves-create_document_task_for_request :
      (document : ℕ) (m : ModuleName) (path : String) (request : ℕ)
      → Evolves R (create_document_task_for_request document m path request)
  unfolding create_document_task_for_request
  Evolves-create_document_task_for_request document m path request =
      Evolves-run s.closed _ (s.inserts_task no_rows _)

  pub Evolves-update_worker_task_status :
      (p : StatusParams) → Evolves R (update_worker_task_status p)
  unfolding update_worker_task_status
  Evolves-update_worker_task_status p = Evolves-run s.closed _ (s.writes_status p)

  pub Evolves-create_extraction_request :
      (document org : ℕ) (questions : String) (anonymize : Bool)
      → Evolves R (create_extraction_request document org questions anonymize)
  unfolding create_extraction_request
  Evolves-create_extraction_request document org questions anonymize =
      Evolves-run s.closed _ (s.inserts_request document org questions anonymize)

  pub Evolves-get_extraction_request_by_id : (id : ℕ) → Evolves R (get_extraction_request_by_id id)
  unfolding get_extraction_request_by_id
  Evolves-get_extraction_request_by_id id = Evolves-query s.closed _

  pub Evolves-list_pending_extraction_requests_by_document :
      (document : ℕ) → Evolves R (list_pending_extraction_requests_by_document document)
  unfolding list_pending_extraction_requests_by_document
  Evolves-list_pending_extraction_requests_by_document document = Evolves-query s.closed _

  pub Evolves-set_extraction_request_status :
      (id : ℕ) (status : RequestStatus) (msg : Option String)
      → Evolves R (set_extraction_request_status id status msg)
  unfolding set_extraction_request_status
  Evolves-set_extraction_request_status id status msg =
      Evolves-run s.closed _ (s.writes_request_status id status msg)

  pub Evolves-set_extraction_request_resolved_schema :
      (id : ℕ) (text : String) → Evolves R (set_extraction_request_resolved_schema id text)
  unfolding set_extraction_request_resolved_schema
  Evolves-set_extraction_request_resolved_schema id text =
      Evolves-run s.closed _ (s.writes_schema id text)

  pub Evolves-upsert_extraction_key :
      (org : ℕ) (p : KeyEntry) → Evolves R (upsert_extraction_key org p)
  unfolding upsert_extraction_key
  Evolves-upsert_extraction_key org p = Evolves-run s.closed _ (s.upserts_key org p)

  pub Evolves-list_extraction_keys_by_org : (org : ℕ) → Evolves R (list_extraction_keys_by_org org)
  unfolding list_extraction_keys_by_org
  Evolves-list_extraction_keys_by_org org = record { at = λ e w. (Evolves-query s.closed _).at e w }

  pub Evolves-get_extraction_keys_by_names :
      (names : List String) (org : ℕ) → Evolves R (get_extraction_keys_by_names names org)
  unfolding get_extraction_keys_by_names
  Evolves-get_extraction_keys_by_names names org = Evolves-query s.closed _

  pub Evolves-batch_upsert_extracted_data :
      (org document : ℕ) (pairs : List (ℕ × String))
      → Evolves R (batch_upsert_extracted_data org document pairs)
  unfolding batch_upsert_extracted_data
  Evolves-batch_upsert_extracted_data org document pairs =
      Evolves-run s.closed _ (s.upserts_data org document pairs)

  pub Evolves-process : (p : ProcessRequest) → P p → Evolves R (process p)
  Evolves-process p h = deliver-process (record { closed = s.closed; delivers = s.delivers }) p h

module _ {P : ProcessRequest → Type 0} {R : World → World → Type 0} (s : Stable P R) where
  pub Evolves-create_artifact_document :
      (p : ArtifactParams) → Evolves R (create_artifact_document p)
  unfolding create_artifact_document
  Evolves-create_artifact_document p = Evolves-run s.closed _ (s.upserts_artifact p)

  pub Evolves-update_task_result_payload :
      (id : ℕ) (text : String) → Evolves R (update_task_result_payload id text)
  unfolding update_task_result_payload
  Evolves-update_task_result_payload id text = Evolves-run s.closed _ (s.writes_payload id text)

module _ {P : ProcessRequest → Type 0} {R : World → World → Type 0} (s : Watched P R) where
  pub Evolves-list_stale_tasks : (cutoff n : ℕ) → Evolves R (list_stale_tasks cutoff n)
  unfolding list_stale_tasks
  Evolves-list_stale_tasks cutoff n = Evolves-query s.closed _

  pub Evolves-mark_stale_task_failed :
      (id : ℕ) (msg : String) (cutoff : ℕ) → Evolves R (mark_stale_task_failed id msg cutoff)
  unfolding mark_stale_task_failed
  Evolves-mark_stale_task_failed id msg cutoff =
      Evolves-run s.closed _ (s.claims_failed id msg cutoff)

  pub Evolves-mark_stale_task_pending :
      (id cutoff : ℕ) → Evolves R (mark_stale_task_pending id cutoff)
  unfolding mark_stale_task_pending
  Evolves-mark_stale_task_pending id cutoff = Evolves-run s.closed _ (s.claims_pending id cutoff)

  pub Evolves-process_watched : (p : ProcessRequest) → P p → Evolves R (process p)
  Evolves-process_watched p h =
      deliver-process (record { closed = s.closed; delivers = s.delivers }) p h

pub ruleset call_rules = (
  Evolves-get_document, Evolves-get_document_by_id, Evolves-list_documents_by_parent,
  Evolves-create_document_task_singleton, Evolves-create_document_task_for_request,
  Evolves-update_worker_task_status, Evolves-create_extraction_request,
  Evolves-get_extraction_request_by_id, Evolves-list_pending_extraction_requests_by_document,
  Evolves-set_extraction_request_status, Evolves-set_extraction_request_resolved_schema,
  Evolves-upsert_extraction_key, Evolves-list_extraction_keys_by_org,
  Evolves-get_extraction_keys_by_names, Evolves-batch_upsert_extracted_data, Evolves-process,
)

pub ruleset worker_rules =
    (call_rules, Evolves-create_artifact_document, Evolves-update_task_result_payload)

pub ruleset watchdog_rules =
    (Evolves-list_stale_tasks, Evolves-mark_stale_task_failed, Evolves-mark_stale_task_pending)
