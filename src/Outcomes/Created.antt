-- ===== src/Outcomes/Created.antt =====
-- internal/service/service_document_task.go: what the public creation of a task takes.
use kpi_tenders_go.Prelude.{ℕ, String, false, Option, none, some, ◌≡◌, refl, ap, subst, arith, find}
use kpi_tenders_go.Errs.{Error, validation_failed, unique_violation, app_error}
use kpi_tenders_go.Models.{Document, DocumentTask, ModuleName, TaskStatus, convert, module_eq}
use kpi_tenders_go.Effects.{
  Env, World, Result, ok, err, M, counted, map_error, ◌>>=◌, asks, pure, throw,
}
use kpi_tenders_go.Effects.Queries.{bind-ok, run-ok, map_error-ok}
use kpi_tenders_go.PythonWorker.{validate_module}
use kpi_tenders_go.Repository.Documents.{has_id_org}
use kpi_tenders_go.Repository.Tasks.{TaskParams, insert_task, insert_task_for, create_document_task}
use kpi_tenders_go.DocumentTaskService
use kpi_tenders_go.DocumentTaskService.{accepted, not_created, trigger}
use kpi_tenders_go.Server.Errors.{answer, failure, error_response, respond_with_error}

-- The answer is a validation error.
abbrev pub IsInvalid : {A : Type 0} → Result A → Type 0
IsInvalid r = (msg : String) × (answer r ≡ failure (error_response validation_failed msg))

accepted-refuses :
    (m : ModuleName) (r : Result (Unit {0})) (f : Unit {0} → M DocumentTask) (e : Env) (w : World)
    → module_eq m convert ≡ false
    → (((accepted m r >>= f) e w).1 ≡ w) × IsInvalid ((accepted m r >>= f) e w).0
unfolding ◌>>=◌ asks throw answer respond_with_error app_error
accepted-refuses m (err x) f e w other = (refl, (_, refl))
accepted-refuses m (ok u) f e w other = rw other (refl, (_, refl))

-- A task of any module but convert is refused with a validation error (400); nothing is written and
-- nothing is published.
pub create-refuses :
    (document : ℕ) (m : ModuleName) (org : ℕ) (e : Env) (w : World)
    → module_eq m convert ≡ false
    → ((DocumentTaskService.create document m org e w).1 ≡ w)
      × IsInvalid (DocumentTaskService.create document m org e w).0
unfolding DocumentTaskService.create
create-refuses document m org e w other = accepted-refuses m (validate_module m) _ e w other

-- A new task waits, for the module, on a document of the organization, whose path is its input.
pub record IsNewTask (document org : ℕ) (w : World) (t : DocumentTask) : Type 0 where
  pub source : Document
  pub stored : find (has_id_org document org) w.documents ≡ some source
  pub on_document : t.document_id ≡ source.id
  pub input : t.input_storage_path ≡ source.storage_path
  pub status : t.status ≡ TaskStatus.pending

insert_task-row :
    (x : Error) (p : TaskParams) (now : ℕ) (w : World) (t : DocumentTask)
    → (insert_task x p now w).0 ≡ ok t
    → (t.document_id ≡ p.document_id)
      × (t.input_storage_path ≡ p.input_storage_path)
      × (t.status ≡ TaskStatus.pending)
unfolding insert_task
insert_task-row x p now w t h = ground (arith, h)

inserted :
    (document org : ℕ) (m : ModuleName) (now : ℕ) (w : World) (t : DocumentTask)
    (o : Option Document)
    → find (has_id_org document org) w.documents ≡ o
    → (insert_task_for o m now w).0 ≡ ok t
    → IsNewTask document org w t
inserted document org m now w t none found h = ground (arith, h)
inserted document org m now w t (some d) found h =
    let row = insert_task-row (unique_violation "uq_document_tasks_doc_singleton") _ now w t h in
    record { source = d; stored = found; on_document = row.0; input = row.1; status = row.2 }

accepted-world :
    (m : ModuleName) (r : Result (Unit {0})) (e : Env) (w : World) → (accepted m r e w).1 ≡ w
unfolding ◌>>=◌ asks throw pure
accepted-world m (err x) e w = refl
accepted-world m (ok u) e w = ground arith

created :
    (document org : ℕ) (m : ModuleName) (e : Env) (w : World) (t : DocumentTask)
    → (map_error not_created (create_document_task document m org) e w).0 ≡ ok t
    → IsNewTask document org w t
unfolding create_document_task
created document org m e w t h =
    let (answered, left) =
      run-ok (λ now v. insert_task_for (find (has_id_org document org) v.documents) m now v) e w
        (map_error-ok not_created (create_document_task document m org) e w h) in
    let new = inserted document org m _ (counted w) t _ refl answered in
    record {
      source = new.source;
      stored = new.stored;
      on_document = new.on_document;
      input = new.input;
      status = new.status;
    }

returned_task :
    (t u : DocumentTask) (e : Env) (w : World) → ((trigger t >>= λ _. pure t) e w).0 ≡ ok u → t ≡ u
unfolding pure
returned_task t u e w h =
    let (done, (triggered, last)) = bind-ok (trigger t) (λ _. pure t) e w h in
    ap (λ r. elim r [ ok x ↦ x | err z ↦ t ]) last

-- A task that the public creation answers with is pending, on a document of the caller's
-- organization, and that document's own file is its input.
pub create-IsNewTask :
    (document : ℕ) (m : ModuleName) (org : ℕ) (e : Env) (w : World) (t : DocumentTask)
    → (DocumentTaskService.create document m org e w).0 ≡ ok t
    → IsNewTask document org w t
unfolding DocumentTaskService.create
create-IsNewTask document m org e w t h =
    let (u, (valid, rest)) = bind-ok _ _ e w h in
    let (made, (inserted_ok, last)) = bind-ok _ _ e _ rest in
    subst (IsNewTask document org w) (returned_task made t e _ last) (
      created document org m e w made (
        subst (λ v. (map_error not_created (create_document_task document m org) e v).0 ≡ ok made)
          (accepted-world m (validate_module m) e w) inserted_ok))
