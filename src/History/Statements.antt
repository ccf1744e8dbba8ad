-- ===== src/History/Statements.antt =====
-- Every statement of the services extends the history.
use kpi_tenders_go.Prelude.{
  ℕ, String, Bool, true, false, List, [], ◌∷◌, arith, ◌++◌, update, exists, if◌then◌else◌,
}
use kpi_tenders_go.Models.{Document, DocumentTask, ExtractionRequest}
use kpi_tenders_go.Payloads.{ProcessRequest, KeyEntry}
use kpi_tenders_go.Errs.{Error}
use kpi_tenders_go.Effects.{World, Result}
use kpi_tenders_go.Effects.Evolves.{Keeps}
use kpi_tenders_go.Repository.Documents.{
  ArtifactParams, upsert_artifact, refresh_artifact, is_artifact,
}
use kpi_tenders_go.Repository.Tasks.{
  TaskParams, StatusParams, insert_task, write_status, update_task, claim_task, set_status,
  has_task_id, claims, row_checks, repeats, row_references,
}
use kpi_tenders_go.Repository.Requests.{insert_request, update_request, has_request_id}
use kpi_tenders_go.Repository.Keys.{
  upsert_key, refresh_key, has_org_name, batch_upsert, upsert_data, upsert_datum, set_value,
  is_datum,
}
use kpi_tenders_go.Frame.Calls.{Stable, Watched, deliver}
use kpi_tenders_go.History.Grows.{Grows-refl, Grows-append, Grows-update}
use kpi_tenders_go.History.Extends.{
  SameTask, SameRequest, Extends, Extends-Closed, document_order, task_order, request_order,
  kept_key_order, datum_order, message_order, documents-Extends, tasks-Extends, requests-Extends,
  keys-Extends, extracted-Extends,
}

same : (w : World) → Extends w w
same = Extends-Closed.same

result_if :
    {A : Type 0} (b : Bool) (w : World) (x y : Result A × World)
    → Extends w x.1
    → Extends w y.1
    → Extends w (if b then x else y).1
result_if true w x y hx hy = hx
result_if false w x y hx hy = hy

world_if : (b : Bool) (w x y : World) → Extends w x → Extends w y → Extends w (if b then x else y)
world_if true w x y hx hy = hx
world_if false w x y hx hy = hy

insert_task-Keeps : (x : Error) (p : TaskParams) → Keeps Extends (insert_task x p)
unfolding insert_task
insert_task-Keeps x p = record {
  at = λ now w.
      result_if (row_checks p) w _ _
        (result_if (exists (repeats p) w.tasks) w _ _ (same w) (
          result_if (row_references p w) w _ _
            (tasks-Extends w _ _ (Grows-append task_order w.tasks _)) (same w)))
        (same w);
}

update_task-Keeps :
    (id : ℕ) (f : ℕ → DocumentTask → DocumentTask)
    → ((now : ℕ) (t : DocumentTask) → SameTask t (f now t))
    → Keeps Extends (update_task id f)
unfolding update_task
update_task-Keeps id f h = record {
  at = λ now w.
      tasks-Extends w _ _
        (Grows-update task_order (has_task_id id) (f now) w.tasks (λ t k. h now t));
}

write_status-Keeps : (p : StatusParams) → Keeps Extends (write_status p)
unfolding write_status
write_status-Keeps p = record {
  at = λ now w.
      result_if _ w _ _ ((update_task-Keeps p.id (set_status p) (λ now t. ground arith)).at now w)
        (same w);
}

claim_task-Keeps :
    (id cutoff : ℕ) (f : ℕ → DocumentTask → DocumentTask)
    → ((now : ℕ) (t : DocumentTask) → SameTask t (f now t))
    → Keeps Extends (claim_task id cutoff f)
unfolding claim_task
claim_task-Keeps id cutoff f h = record {
  at = λ now w.
      tasks-Extends w _ _
        (Grows-update task_order (claims id cutoff) (f now) w.tasks (λ t k. h now t));
}

insert_request-Keeps :
    (document org : ℕ) (questions : String) (anonymize : Bool)
    → Keeps Extends (insert_request document org questions anonymize)
unfolding insert_request
insert_request-Keeps document org questions anonymize = record {
  at = λ now w.
      result_if _ w _ _ (requests-Extends w _ _ (Grows-append request_order w.requests _)) (same w);
}

update_request-Keeps :
    (id : ℕ) (f : ℕ → ExtractionRequest → ExtractionRequest)
    → ((now : ℕ) (r : ExtractionRequest) → SameRequest r (f now r))
    → Keeps Extends (update_request id f)
unfolding update_request
update_request-Keeps id f h = record {
  at = λ now w.
      requests-Extends w _ _
        (Grows-update request_order (has_request_id id) (f now) w.requests (λ r k. h now r));
}

upsert_key-Keeps : (org : ℕ) (p : KeyEntry) → Keeps Extends (upsert_key org p)
unfolding upsert_key
upsert_key-Keeps org p = record {
  at = λ now w.
      result_if _ w _ _
        (keys-Extends w _ _ (
          Grows-update kept_key_order (has_org_name org p.key_name) (refresh_key p) w.keys
            (λ k h. ground arith)))
        (keys-Extends w _ _ (Grows-append kept_key_order w.keys _));
}

upsert_data-Extends :
    (org document : ℕ) (ps : List (ℕ × String)) (w : World)
    → Extends w (upsert_data org document ps w)
upsert_data-Extends org document [] w = same w
upsert_data-Extends org document ((key, value) ∷ ps) w =
    Extends-Closed.chain w (upsert_datum org document (key, value) w) _
      (world_if _ w _ _
        (extracted-Extends w _ _ (
          Grows-update datum_order (is_datum org document key) (set_value value) w.extracted
            (λ x h. ground arith)))
        (extracted-Extends w _ _ (Grows-append datum_order w.extracted _)))
      (upsert_data-Extends org document ps (upsert_datum org document (key, value) w))

batch_upsert-Keeps :
    (org document : ℕ) (ps : List (ℕ × String)) → Keeps Extends (batch_upsert org document ps)
unfolding batch_upsert
batch_upsert-Keeps org document ps = record {
  at = λ now w. search (result_if, same, upsert_data-Extends);
}

upsert_artifact-Keeps : (p : ArtifactParams) → Keeps Extends (upsert_artifact p)
unfolding upsert_artifact
upsert_artifact-Keeps p = record {
  at = λ now w. search (result_if, same, refreshed p now w, added w);
}
  where
    refreshed :
        (p : ArtifactParams) (now : ℕ) (w : World)
        → Extends w (record w {
          documents =
              update (is_artifact p.parent_id p.artifact_kind) (refresh_artifact p now) w.documents;
        })
    refreshed p now w = documents-Extends w _ _ (
        Grows-update document_order (is_artifact p.parent_id p.artifact_kind)
          (refresh_artifact p now) w.documents (λ d h. ground arith))

    added :
        (w : World) (d : Document) (n : ℕ)
        → Extends w (record w { documents = w.documents ++ d ∷ []; next_id = n })
    added w d n = documents-Extends w _ _ (Grows-append document_order w.documents _)

deliver-Keeps : (p : ProcessRequest) → Keeps Extends (deliver p)
deliver-Keeps p = record {
  at = λ now w. record {
    documents = Grows-refl document_order w.documents;
    tasks = Grows-refl task_order w.tasks;
    requests = Grows-refl request_order w.requests;
    keys = Grows-refl kept_key_order w.keys;
    extracted = Grows-refl datum_order w.extracted;
    published = Grows-append message_order w.published _;
  };
}

module _ {P : ProcessRequest → Type 0} where
  pub Extends-Stable : Stable P Extends
  Extends-Stable = record {
    steady = record {
      closed = Extends-Closed;
      inserts_task = insert_task-Keeps;
      inserts_request = insert_request-Keeps;
      writes_status = write_status-Keeps;
      writes_request_status = λ id s msg. update_request-Keeps id _ (λ now r. ground arith);
      writes_schema = λ id text. update_request-Keeps id _ (λ now r. ground arith);
      upserts_key = upsert_key-Keeps;
      upserts_data = batch_upsert-Keeps;
      delivers = λ p h. deliver-Keeps p;
    };
    upserts_artifact = upsert_artifact-Keeps;
    writes_payload = λ id text. update_task-Keeps id _ (λ now t. ground arith);
  }

  pub Extends-Watched : Watched P Extends
  Extends-Watched = record {
    closed = Extends-Closed;
    claims_failed = λ id msg cutoff. claim_task-Keeps id cutoff _ (λ now t. ground arith);
    claims_pending = λ id cutoff. claim_task-Keeps id cutoff _ (λ now t. ground arith);
    delivers = λ p h. deliver-Keeps p;
  }
