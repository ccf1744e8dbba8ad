-- ===== src/Outcomes/Settling.antt =====
-- The request of an extract task, once the worker reports the task's end.
use kpi_tenders_go.Prelude.{
  ℕ, String, Bool, true, false, Option, some, List, [], ◌∷◌, ◌≡◌, refl, arith, ◌==◌, find, update,
  All, All-map_weaken, sym, subst, if◌then◌else◌,
}
use kpi_tenders_go.Models.{DocumentTask, ExtractionRequest, RequestStatus, TaskStatus, extract}
use kpi_tenders_go.Effects.{Env, World, Fate, Result, ok, err, ◌>>=◌, attempt, pure}
use kpi_tenders_go.Repository.Tasks.{has_task_id, check_status}
use kpi_tenders_go.Repository.Requests.{has_request_id, set_request_status}
use kpi_tenders_go.Extraction.Enqueue.{on_failure, mark_request_failed}
use kpi_tenders_go.Extraction.Callbacks.{on_extract_completed}
use kpi_tenders_go.Worker.Status.{
  StatusUpdate, fail_owner, or_fail_owner, after_completed, after_failed, after_update,
  handle_status_update,
}
use kpi_tenders_go.Outcomes.Failure.{mark_request_failed-answered}
use kpi_tenders_go.Outcomes.Closing.{is_settled, handle_status_update-stored, written, updated}
use kpi_tenders_go.Outcomes.Requests.{Completed, on_extract_completed-Completed}

-- Every row with the id is completed or failed.
abbrev pub Settled : ℕ → List ExtractionRequest → Type 0
Settled id rs = All (λ r. (r.id == id) ≡ true → is_settled r.status ≡ true) rs

failed_row :
    (b : Bool) (id now : ℕ) (msg : Option String) (r : ExtractionRequest)
    → has_request_id id r ≡ b
    → ((if b then set_request_status RequestStatus.failed msg now r else r).id == id) ≡ true
    → is_settled (if b then set_request_status RequestStatus.failed msg now r else r).status ≡ true
failed_row true id now msg r h k = refl
failed_row false id now msg r h k = ground arith

failed_rows :
    (id now : ℕ) (msg : Option String) (rs : List ExtractionRequest)
    → Settled id (update (has_request_id id) (set_request_status RequestStatus.failed msg now) rs)
failed_rows id now msg [] = tt
failed_rows id now msg (r ∷ rs) =
    (failed_row (has_request_id id r) id now msg r refl, failed_rows id now msg rs)

mark_request_failed-Settled :
    (id : ℕ) (msg : String) (e : Env) (w : World)
    → ((call : ℕ) → e.fate call ≡ Fate.answered)
    → Settled id (mark_request_failed id msg e w).1.requests
mark_request_failed-Settled id msg e w answers =
    rw (mark_request_failed-answered id msg e w (answers w.calls))
      (failed_rows id (e.clock w.calls) (some msg) w.requests)

Completed-Settled : (id : ℕ) (rs : List ExtractionRequest) → Completed id rs → Settled id rs
Completed-Settled id rs h = All-map_weaken _ _ rs (λ r done here. rw (done here) refl) h

-- After a callback: the request was completed, or it is failed.
on_failure-Settled :
    (o : Option ℕ) (id : ℕ) (msg : String) (r : Result (Unit {0})) (e : Env) (v : World)
    → o ≡ some id
    → (r ≡ ok tt → Settled id v.requests)
    → ((call : ℕ) → e.fate call ≡ Fate.answered)
    → Settled id (on_failure r (λ x. fail_owner o msg) e v).1.requests
unfolding on_failure fail_owner pure
on_failure-Settled o id msg (ok x) e v owner done answers = done refl
on_failure-Settled o id msg (err x) e v owner done answers =
    rw owner (mark_request_failed-Settled id msg e v answers)

after_extract-Settled :
    (task : DocumentTask) (id : ℕ) (e : Env) (w : World)
    → task.extraction_request_id ≡ some id
    → ((call : ℕ) → e.fate call ≡ Fate.answered)
    → Settled id (after_completed task extract e w).1.requests
unfolding after_completed or_fail_owner attempt ◌>>=◌
after_extract-Settled task id e w owner answers =
    on_failure-Settled task.extraction_request_id id _ (on_extract_completed task e w).0 e
      (on_extract_completed task e w).1 owner
      (λ done. Completed-Settled id _ (on_extract_completed-Completed task id e w owner done))
      answers

after_failed_extract-Settled :
    (task : DocumentTask) (id : ℕ) (e : Env) (w : World)
    → task.extraction_request_id ≡ some id
    → ((call : ℕ) → e.fate call ≡ Fate.answered)
    → Settled id (after_failed task extract e w).1.requests
unfolding after_failed fail_owner
after_failed_extract-Settled task id e w owner answers =
    rw owner (mark_request_failed-Settled id _ e w answers)

-- The ends of a task that a worker reports.
abbrev pub is_final : TaskStatus → Bool
is_final TaskStatus.completed = true
is_final TaskStatus.failed = true
is_final s = false

after_update-Settled :
    (task : DocumentTask) (s : TaskStatus) (id : ℕ) (e : Env) (w : World)
    → is_final s ≡ true
    → task.module_name ≡ extract
    → task.extraction_request_id ≡ some id
    → ((call : ℕ) → e.fate call ≡ Fate.answered)
    → Settled id (after_update task s e w).1.requests
unfolding after_update
after_update-Settled task TaskStatus.completed id e w h extracts owner answers =
    subst (λ m. Settled id (after_completed task m e w).1.requests) (sym extracts)
      (after_extract-Settled task id e w owner answers)
after_update-Settled task TaskStatus.failed id e w h extracts owner answers =
    subst (λ m. Settled id (after_failed task m e w).1.requests) (sym extracts)
      (after_failed_extract-Settled task id e w owner answers)
after_update-Settled task TaskStatus.pending id e w h extracts owner answers = ground arith
after_update-Settled task TaskStatus.processing id e w h extracts owner answers = ground arith
after_update-Settled task (TaskStatus.other_status x) id e w h extracts owner answers = ground arith

final_known : (s : TaskStatus) → is_final s ≡ true → check_status s ≡ true
final_known s h = ground arith

-- No request is left open by its extract task: when a worker reports that the stored extract task of
-- a request has completed or failed, each row with the request's id ends completed or failed,
-- whatever the payload says and also when the constraints refuse its values. Every call is answered.
pub handle_status_update-Settled :
    (id : ℕ) (upd : StatusUpdate) (t : DocumentTask) (request : ℕ) (e : Env) (w : World)
    → ((call : ℕ) → e.fate call ≡ Fate.answered)
    → find (has_task_id id) w.tasks ≡ some t
    → t.module_name ≡ extract
    → t.extraction_request_id ≡ some request
    → is_final upd.status ≡ true
    → Settled request (handle_status_update id upd e w).1.requests
handle_status_update-Settled id upd t request e w answers stored extracts owner final =
    rw
      (handle_status_update-stored id upd t e w (answers w.calls) stored
        (final_known upd.status final))
      (after_update-Settled (updated id upd t e w) upd.status request e (written id upd e w) final
        extracts owner answers)
