-- ===== src/Scans/Tables.antt =====
-- The tables under the scans.
use kpi_tenders_go.Prelude.{
  ℕ, ◌≤◌, String, Bool, true, false, List, [], ◌∷◌, ◌≡◌, refl, arith, ◌∙◌, ◌⊎◌, inl, inr, length,
  update,
}
use kpi_tenders_go.Models.{DocumentTask, TaskStatus}
use kpi_tenders_go.Effects.{Env, World}
use kpi_tenders_go.Effects.Evolves.{Closed, Keeps}
use kpi_tenders_go.Repository.Tasks.{is_unfinished, claims, claim_task, set_failed, set_requeued}
use kpi_tenders_go.Watchdog.{Config, start}
use kpi_tenders_go.Frame.Calls.{Watched}
use kpi_tenders_go.Frame.Watchdog.{Evolves-start}
use kpi_tenders_go.History.Grows.{Grows, Order, Grows-refl, Grows-trans, Grows-update}

-- The statuses that a scan leaves.
abbrev pub is_given_back : TaskStatus → Bool
is_given_back TaskStatus.pending = true
is_given_back TaskStatus.failed = true
is_given_back s = false

-- A task before and after.
pub record Scanned (t u : DocumentTask) : Type 0 where
  pub finished : is_unfinished t.status ≡ false → u ≡ t
  pub outcome : (u ≡ t) ⊎ (is_given_back u.status ≡ true)
  pub id_eq : u.id ≡ t.id
  pub document_eq : u.document_id ≡ t.document_id
  pub module_eq : u.module_name ≡ t.module_name
  pub input_eq : u.input_storage_path ≡ t.input_storage_path
  pub payload_eq : u.result_payload ≡ t.result_payload
  pub request_eq : u.extraction_request_id ≡ t.extraction_request_id
  pub retries_le : t.retry_count ≤ u.retry_count

scanned_outcome :
    (t u v : DocumentTask)
    → (u ≡ t) ⊎ (is_given_back u.status ≡ true)
    → (v ≡ u) ⊎ (is_given_back v.status ≡ true)
    → (v ≡ t) ⊎ (is_given_back v.status ≡ true)
scanned_outcome t u v (inl h) (inl k) = inl (k ∙ h)
scanned_outcome t u v (inr h) (inl k) = inr (rw k h)
scanned_outcome t u v h (inr k) = inr k

Scanned-order : Order Scanned
Scanned-order = record {
  same = λ t. record {
    finished = λ h. refl;
    outcome = inl refl;
    id_eq = refl;
    document_eq = refl;
    module_eq = refl;
    input_eq = refl;
    payload_eq = refl;
    request_eq = refl;
    retries_le = omega arith;
  };
  chain = λ t u v h k. record {
    finished = λ done. let same = h.finished done in k.finished (rw same done) ∙ same;
    outcome = scanned_outcome t u v h.outcome k.outcome;
    id_eq = k.id_eq ∙ h.id_eq;
    document_eq = k.document_eq ∙ h.document_eq;
    module_eq = k.module_eq ∙ h.module_eq;
    input_eq = k.input_eq ∙ h.input_eq;
    payload_eq = k.payload_eq ∙ h.payload_eq;
    request_eq = k.request_eq ∙ h.request_eq;
    retries_le = ground (arith, h.retries_le, k.retries_le);
  };
}

-- Of the tables only the tasks change, each task in its place, and none is added.
pub record ScanOnly (w v : World) : Type 0 where
  pub documents_eq : v.documents ≡ w.documents
  pub requests_eq : v.requests ≡ w.requests
  pub keys_eq : v.keys ≡ w.keys
  pub extracted_eq : v.extracted ≡ w.extracted
  pub count_eq : length v.tasks ≡ length w.tasks
  pub tasks : Grows Scanned w.tasks v.tasks

tasks_kept :
    (w v : World)
    → v.documents ≡ w.documents
    → v.requests ≡ w.requests
    → v.keys ≡ w.keys
    → v.extracted ≡ w.extracted
    → v.tasks ≡ w.tasks
    → ScanOnly w v
tasks_kept w v hd hr hk hx ht = record {
  documents_eq = hd;
  requests_eq = hr;
  keys_eq = hk;
  extracted_eq = hx;
  count_eq = rw ht refl;
  tasks = rw ht (Grows-refl Scanned-order w.tasks);
}

ScanOnly-Closed : Closed ScanOnly
ScanOnly-Closed = record {
  same = λ w. tasks_kept w w refl refl refl refl refl;
  chain = λ u v w h k. record {
    documents_eq = k.documents_eq ∙ h.documents_eq;
    requests_eq = k.requests_eq ∙ h.requests_eq;
    keys_eq = k.keys_eq ∙ h.keys_eq;
    extracted_eq = k.extracted_eq ∙ h.extracted_eq;
    count_eq = k.count_eq ∙ h.count_eq;
    tasks = Grows-trans Scanned-order _ _ _ h.tasks k.tasks;
  };
  tick = λ w. tasks_kept w _ refl refl refl refl refl;
}

length-update :
    (p : DocumentTask → Bool) (f : DocumentTask → DocumentTask) (ts : List DocumentTask)
    → length (update p f ts) ≡ length ts
length-update p f [] = refl
length-update p f (t ∷ ts) = ground (arith, length-update p f ts)

claimed_failed :
    (id cutoff now : ℕ) (msg : String) (t : DocumentTask)
    → claims id cutoff t ≡ true
    → Scanned t (set_failed msg now t)
claimed_failed id cutoff now msg t h = record {
  finished = λ done. ground arith;
  outcome = inr refl;
  id_eq = refl;
  document_eq = refl;
  module_eq = refl;
  input_eq = refl;
  payload_eq = refl;
  request_eq = refl;
  retries_le = omega arith;
}

claimed_pending :
    (id cutoff now : ℕ) (t : DocumentTask)
    → claims id cutoff t ≡ true
    → Scanned t (set_requeued now t)
claimed_pending id cutoff now t h = record {
  finished = λ done. ground arith;
  outcome = inr refl;
  id_eq = refl;
  document_eq = refl;
  module_eq = refl;
  input_eq = refl;
  payload_eq = refl;
  request_eq = refl;
  retries_le = omega arith;
}

claim-Keeps :
    (id cutoff : ℕ) (f : ℕ → DocumentTask → DocumentTask)
    → ((now : ℕ) (t : DocumentTask) → claims id cutoff t ≡ true → Scanned t (f now t))
    → Keeps ScanOnly (claim_task id cutoff f)
unfolding claim_task
claim-Keeps id cutoff f h = record {
  at = λ now w. record {
    documents_eq = refl;
    requests_eq = refl;
    keys_eq = refl;
    extracted_eq = refl;
    count_eq = length-update (claims id cutoff) (f now) w.tasks;
    tasks = Grows-update Scanned-order (claims id cutoff) (f now) w.tasks (h now);
  };
}

ScanOnly-Watched : Watched (λ p. Unit) ScanOnly
ScanOnly-Watched = record {
  closed = ScanOnly-Closed;
  claims_failed = λ id msg cutoff.
      claim-Keeps id cutoff (set_failed msg) (λ now t h. claimed_failed id cutoff now msg t h);
  claims_pending = λ id cutoff.
      claim-Keeps id cutoff set_requeued (λ now t h. claimed_pending id cutoff now t h);
  delivers = λ p h. record { at = λ now w. tasks_kept w _ refl refl refl refl refl };
}

-- However long the watchdog runs and whatever the outside answers, it changes no document,
-- extraction request, key or value and adds no task. A completed or failed task stays as it is; any
-- other stays as it is or ends pending or failed, with its module, document, input, request and
-- result, and with no fewer retries.
pub start-ScanOnly :
    (cfg : Config) (ticks : ℕ) (e : Env) (w : World) → ScanOnly w (start cfg ticks e w).1
start-ScanOnly cfg ticks e w = (Evolves-start ScanOnly-Watched (λ row. tt) cfg ticks).at e w
