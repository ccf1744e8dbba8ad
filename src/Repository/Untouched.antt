-- ===== src/Repository/Untouched.antt =====
-- What each writing statement leaves alone.
use kpi_tenders_go.Prelude.{ℕ, String, Bool, List, [], ◌∷◌, ◌≡◌, arith}
use kpi_tenders_go.Errs.{Error}
use kpi_tenders_go.Models.{DocumentTask, ExtractionRequest}
use kpi_tenders_go.Payloads.{KeyEntry}
use kpi_tenders_go.Effects.{World}
use kpi_tenders_go.Repository.Documents.{ArtifactParams, upsert_artifact}
use kpi_tenders_go.Repository.Tasks.{
  TaskParams, StatusParams, insert_task, write_status, update_task, claim_task,
}
use kpi_tenders_go.Repository.Requests.{insert_request, update_request}
use kpi_tenders_go.Repository.Keys.{upsert_key, batch_upsert, upsert_datum, upsert_data}

-- The tables other than the one written, and the messages.
pub record TasksOnly (w v : World) : Type 0 where
  pub documents_eq : v.documents ≡ w.documents
  pub requests_eq : v.requests ≡ w.requests
  pub keys_eq : v.keys ≡ w.keys
  pub extracted_eq : v.extracted ≡ w.extracted
  pub published_eq : v.published ≡ w.published

pub insert_task-TasksOnly :
    (x : Error) (p : TaskParams) (now : ℕ) (w : World) → TasksOnly w (insert_task x p now w).1
unfolding insert_task
insert_task-TasksOnly x p now w = ground arith

pub update_task-TasksOnly :
    (id : ℕ) (f : ℕ → DocumentTask → DocumentTask) (now : ℕ) (w : World)
    → TasksOnly w (update_task id f now w).1
unfolding update_task
update_task-TasksOnly id f now w = ground arith

pub write_status-TasksOnly :
    (p : StatusParams) (now : ℕ) (w : World) → TasksOnly w (write_status p now w).1
unfolding write_status
write_status-TasksOnly p now w = ground arith

pub claim_task-TasksOnly :
    (id cutoff : ℕ) (f : ℕ → DocumentTask → DocumentTask) (now : ℕ) (w : World)
    → TasksOnly w (claim_task id cutoff f now w).1
unfolding claim_task
claim_task-TasksOnly id cutoff f now w = ground arith

pub record RequestsOnly (w v : World) : Type 0 where
  pub documents_eq : v.documents ≡ w.documents
  pub tasks_eq : v.tasks ≡ w.tasks
  pub keys_eq : v.keys ≡ w.keys
  pub extracted_eq : v.extracted ≡ w.extracted
  pub published_eq : v.published ≡ w.published

pub insert_request-RequestsOnly :
    (document org : ℕ) (questions : String) (anonymize : Bool) (now : ℕ) (w : World)
    → RequestsOnly w (insert_request document org questions anonymize now w).1
unfolding insert_request
insert_request-RequestsOnly document org questions anonymize now w = ground arith

pub update_request-RequestsOnly :
    (id : ℕ) (f : ℕ → ExtractionRequest → ExtractionRequest) (now : ℕ) (w : World)
    → RequestsOnly w (update_request id f now w).1
unfolding update_request
update_request-RequestsOnly id f now w = ground arith

pub record KeysOnly (w v : World) : Type 0 where
  pub documents_eq : v.documents ≡ w.documents
  pub tasks_eq : v.tasks ≡ w.tasks
  pub requests_eq : v.requests ≡ w.requests
  pub extracted_eq : v.extracted ≡ w.extracted
  pub published_eq : v.published ≡ w.published

pub upsert_key-KeysOnly :
    (org : ℕ) (p : KeyEntry) (now : ℕ) (w : World) → KeysOnly w (upsert_key org p now w).1
unfolding upsert_key
upsert_key-KeysOnly org p now w = ground arith

pub record DataOnly (w v : World) : Type 0 where
  pub documents_eq : v.documents ≡ w.documents
  pub tasks_eq : v.tasks ≡ w.tasks
  pub requests_eq : v.requests ≡ w.requests
  pub keys_eq : v.keys ≡ w.keys
  pub published_eq : v.published ≡ w.published

upsert_datum-DataOnly :
    (org document : ℕ) (p : ℕ × String) (w : World) → DataOnly w (upsert_datum org document p w)
upsert_datum-DataOnly org document (key, value) w = ground arith

upsert_data-DataOnly :
    (org document : ℕ) (ps : List (ℕ × String)) (w : World)
    → DataOnly w (upsert_data org document ps w)
upsert_data-DataOnly org document [] w = ground arith
upsert_data-DataOnly org document (p ∷ ps) w = ground (
  arith,
  upsert_datum-DataOnly org document p w,
  upsert_data-DataOnly org document ps (upsert_datum org document p w),
)

pub batch_upsert-DataOnly :
    (org document : ℕ) (ps : List (ℕ × String)) (now : ℕ) (w : World)
    → DataOnly w (batch_upsert org document ps now w).1
unfolding batch_upsert
batch_upsert-DataOnly org document ps now w = ground (arith, upsert_data-DataOnly org document ps w)

pub record DocumentsOnly (w v : World) : Type 0 where
  pub tasks_eq : v.tasks ≡ w.tasks
  pub requests_eq : v.requests ≡ w.requests
  pub keys_eq : v.keys ≡ w.keys
  pub extracted_eq : v.extracted ≡ w.extracted
  pub published_eq : v.published ≡ w.published

pub upsert_artifact-DocumentsOnly :
    (p : ArtifactParams) (now : ℕ) (w : World) → DocumentsOnly w (upsert_artifact p now w).1
unfolding upsert_artifact
upsert_artifact-DocumentsOnly p now w = ground arith
