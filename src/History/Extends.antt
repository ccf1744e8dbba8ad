-- ===== src/History/Extends.antt =====
-- What no call of the services may change in a row, and that none does.
use kpi_tenders_go.Prelude.{ℕ, ◌≤◌, List, ◌≡◌, refl, arith, ◌∙◌}
use kpi_tenders_go.Models.{Document, DocumentTask, ExtractionRequest, ExtractionKey, ExtractedDatum}
use kpi_tenders_go.Payloads.{ProcessRequest}
use kpi_tenders_go.Effects.{World}
use kpi_tenders_go.Effects.Evolves.{Closed}
use kpi_tenders_go.History.Grows.{Grows, Order, Grows-refl, Grows-trans, Grows-eq}

-- A document keeps its organization, its parent and the kind of artifact that it is.
pub record SameDocument (x y : Document) : Type 0 where
  pub id_eq : y.id ≡ x.id
  pub organization_eq : y.organization_id ≡ x.organization_id
  pub parent_eq : y.parent_id ≡ x.parent_id
  pub kind_eq : y.artifact_kind ≡ x.artifact_kind
  pub uploaded_by_eq : y.uploaded_by ≡ x.uploaded_by
  pub created_eq : y.created_at ≡ x.created_at

-- A task keeps its document, module, input and request; its retries do not fall.
pub record SameTask (x y : DocumentTask) : Type 0 where
  pub id_eq : y.id ≡ x.id
  pub document_eq : y.document_id ≡ x.document_id
  pub module_eq : y.module_name ≡ x.module_name
  pub input_eq : y.input_storage_path ≡ x.input_storage_path
  pub request_eq : y.extraction_request_id ≡ x.extraction_request_id
  pub created_eq : y.created_at ≡ x.created_at
  pub retries_le : x.retry_count ≤ y.retry_count

-- A request keeps its document, organization, questions and its choice of anonymization.
pub record SameRequest (x y : ExtractionRequest) : Type 0 where
  pub id_eq : y.id ≡ x.id
  pub document_eq : y.document_id ≡ x.document_id
  pub organization_eq : y.organization_id ≡ x.organization_id
  pub questions_eq : y.questions ≡ x.questions
  pub anonymize_eq : y.anonymize ≡ x.anonymize
  pub created_eq : y.created_at ≡ x.created_at

pub record SameKey (x y : ExtractionKey) : Type 0 where
  pub id_eq : y.id ≡ x.id
  pub organization_eq : y.organization_id ≡ x.organization_id
  pub name_eq : y.key_name ≡ x.key_name

pub record SameDatum (x y : ExtractedDatum) : Type 0 where
  pub id_eq : y.id ≡ x.id
  pub organization_eq : y.organization_id ≡ x.organization_id
  pub document_eq : y.document_id ≡ x.document_id
  pub key_eq : y.key_id ≡ x.key_id

pub document_order : Order SameDocument
document_order = record { same = λ x. ground arith; chain = λ x y z h k. ground arith }

pub task_order : Order SameTask
task_order = record { same = λ x. ground arith; chain = λ x y z h k. ground arith }

pub request_order : Order SameRequest
request_order = record { same = λ x. ground arith; chain = λ x y z h k. ground arith }

pub kept_key_order : Order SameKey
kept_key_order = record { same = λ x. ground arith; chain = λ x y z h k. ground arith }

pub datum_order : Order SameDatum
datum_order = record { same = λ x. ground arith; chain = λ x y z h k. ground arith }

pub message_order : Order (λ (x y : ProcessRequest). y ≡ x)
message_order = record { same = λ x. refl; chain = λ x y z h k. k ∙ h }

-- Every row of every table is still there, about the same thing, and every message sent is still
-- in the queues' history, in its place.
pub record Extends (w v : World) : Type 0 where
  pub documents : Grows SameDocument w.documents v.documents
  pub tasks : Grows SameTask w.tasks v.tasks
  pub requests : Grows SameRequest w.requests v.requests
  pub keys : Grows SameKey w.keys v.keys
  pub extracted : Grows SameDatum w.extracted v.extracted
  pub published : Grows (λ x y. y ≡ x) w.published v.published

-- Worlds with the same tables and messages.
pub Extends-eq :
    (w v : World)
    → v.documents ≡ w.documents
    → v.tasks ≡ w.tasks
    → v.requests ≡ w.requests
    → v.keys ≡ w.keys
    → v.extracted ≡ w.extracted
    → v.published ≡ w.published
    → Extends w v
Extends-eq w v hd ht hr hk hx hp = record {
  documents = Grows-eq document_order _ _ hd;
  tasks = Grows-eq task_order _ _ ht;
  requests = Grows-eq request_order _ _ hr;
  keys = Grows-eq kept_key_order _ _ hk;
  extracted = Grows-eq datum_order _ _ hx;
  published = Grows-eq message_order _ _ hp;
}

pub Extends-Closed : Closed Extends
Extends-Closed = record {
  same = λ w. Extends-eq w w refl refl refl refl refl refl;
  chain = λ u v w h k. record {
    documents = Grows-trans document_order _ _ _ h.documents k.documents;
    tasks = Grows-trans task_order _ _ _ h.tasks k.tasks;
    requests = Grows-trans request_order _ _ _ h.requests k.requests;
    keys = Grows-trans kept_key_order _ _ _ h.keys k.keys;
    extracted = Grows-trans datum_order _ _ _ h.extracted k.extracted;
    published = Grows-trans message_order _ _ _ h.published k.published;
  };
  tick = λ w. Extends-eq w _ refl refl refl refl refl refl;
}

-- The changes of one table, with what its rows have become.
pub documents-Extends :
    (w : World) (rows : List Document) (n : ℕ)
    → Grows SameDocument w.documents rows
    → Extends w (record w { documents = rows; next_id = n })
documents-Extends w rows n h = record {
  documents = h;
  tasks = Grows-refl task_order w.tasks;
  requests = Grows-refl request_order w.requests;
  keys = Grows-refl kept_key_order w.keys;
  extracted = Grows-refl datum_order w.extracted;
  published = Grows-refl message_order w.published;
}

pub tasks-Extends :
    (w : World) (rows : List DocumentTask) (n : ℕ)
    → Grows SameTask w.tasks rows
    → Extends w (record w { tasks = rows; next_id = n })
tasks-Extends w rows n h = record {
  documents = Grows-refl document_order w.documents;
  tasks = h;
  requests = Grows-refl request_order w.requests;
  keys = Grows-refl kept_key_order w.keys;
  extracted = Grows-refl datum_order w.extracted;
  published = Grows-refl message_order w.published;
}

pub requests-Extends :
    (w : World) (rows : List ExtractionRequest) (n : ℕ)
    → Grows SameRequest w.requests rows
    → Extends w (record w { requests = rows; next_id = n })
requests-Extends w rows n h = record {
  documents = Grows-refl document_order w.documents;
  tasks = Grows-refl task_order w.tasks;
  requests = h;
  keys = Grows-refl kept_key_order w.keys;
  extracted = Grows-refl datum_order w.extracted;
  published = Grows-refl message_order w.published;
}

pub keys-Extends :
    (w : World) (rows : List ExtractionKey) (n : ℕ)
    → Grows SameKey w.keys rows
    → Extends w (record w { keys = rows; next_id = n })
keys-Extends w rows n h = record {
  documents = Grows-refl document_order w.documents;
  tasks = Grows-refl task_order w.tasks;
  requests = Grows-refl request_order w.requests;
  keys = h;
  extracted = Grows-refl datum_order w.extracted;
  published = Grows-refl message_order w.published;
}

pub extracted-Extends :
    (w : World) (rows : List ExtractedDatum) (n : ℕ)
    → Grows SameDatum w.extracted rows
    → Extends w (record w { extracted = rows; next_id = n })
extracted-Extends w rows n h = record {
  documents = Grows-refl document_order w.documents;
  tasks = Grows-refl task_order w.tasks;
  requests = Grows-refl request_order w.requests;
  keys = Grows-refl kept_key_order w.keys;
  extracted = h;
  published = Grows-refl message_order w.published;
}
