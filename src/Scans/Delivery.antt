-- ===== src/Scans/Delivery.antt =====
-- What the requeueing of a stale task ends in when every call is answered (internal/watchdog/watchdog.go,
-- processTask, and the query MarkStaleTaskPending).
use kpi_tenders_go.Prelude.{
  ℕ, suc, ◌+◌, Bool, true, false, none, some, List, [], ◌∷◌, ◌++◌, ◌≡◌, refl, arith, update, count,
  exists, ◌==◌, ◌&&◌, ltb, if◌then◌else◌,
}
use kpi_tenders_go.Models.{DocumentTask, TaskStatus}
use kpi_tenders_go.Payloads.{ProcessRequest, no_kwargs}
use kpi_tenders_go.Effects.{Env, World, Fate, pure, ◌>>=◌, attempt, is_cancelled, run}
use kpi_tenders_go.PythonWorker.{Queue, resolve_module, process}
use kpi_tenders_go.Repository.Tasks.{
  StaleRow, is_unfinished, claims, set_requeued, claim_task, mark_stale_task_pending,
}
use kpi_tenders_go.Watchdog.{
  unless_cancelled, after_attempt, publish_attempts, when_claimed, requeue, requeue_message,
}

abbrev pub is_waiting : TaskStatus → Bool
is_waiting TaskStatus.pending = true
is_waiting TaskStatus.processing = true
is_waiting TaskStatus.completed = false
is_waiting TaskStatus.failed = false
is_waiting (TaskStatus.other_status s) = false

-- The row of the task, pending or processing, and not written since the cutoff.
abbrev pub is_overdue : ℕ → ℕ → DocumentTask → Bool
is_overdue id cutoff t = t.id == id && is_waiting t.status && ltb t.updated_at cutoff

-- Pending, with one retry more, neither worker nor error, and written now; the rest as it was.
pub record IsRequeued (now : ℕ) (t u : DocumentTask) : Type 0 where
  pub status : u.status ≡ TaskStatus.pending
  pub retries : u.retry_count ≡ t.retry_count + 1
  pub worker : u.celery_task_id ≡ none
  pub error : u.error_message ≡ none
  pub written : u.updated_at ≡ now
  pub id : u.id ≡ t.id
  pub document : u.document_id ≡ t.document_id
  pub module_name : u.module_name ≡ t.module_name
  pub input : u.input_storage_path ≡ t.input_storage_path
  pub payload : u.result_payload ≡ t.result_payload
  pub created : u.created_at ≡ t.created_at
  pub request : u.extraction_request_id ≡ t.extraction_request_id

abbrev pub RowAfter : Bool → ℕ → DocumentTask → DocumentTask → Type 0
RowAfter true now t u = IsRequeued now t u
RowAfter false now t u = u ≡ t

-- Row by row: the overdue row of the task is requeued, every other is as it was.
abbrev pub RowsAfter : ℕ → ℕ → ℕ → List DocumentTask → List DocumentTask → Type 0
RowsAfter id cutoff now [] [] = Unit
RowsAfter id cutoff now (t ∷ ts) (u ∷ us) =
    RowAfter (is_overdue id cutoff t) now t u × RowsAfter id cutoff now ts us
RowsAfter id cutoff now ts us = ⊥

unfinished-waiting : (s : TaskStatus) → is_unfinished s ≡ is_waiting s
unfinished-waiting TaskStatus.pending = refl
unfinished-waiting TaskStatus.processing = refl
unfinished-waiting TaskStatus.completed = refl
unfinished-waiting TaskStatus.failed = refl
unfinished-waiting (TaskStatus.other_status s) = refl

waiting-claims : (id cutoff : ℕ) (t : DocumentTask) → claims id cutoff t ≡ is_overdue id cutoff t
waiting-claims id cutoff t = rw (unfinished-waiting t.status) (ground arith)

row_after :
    (b : Bool) (now : ℕ) (t : DocumentTask) → RowAfter b now t (if b then set_requeued now t else t)
row_after false now t = refl
row_after true now t = record {
  status = refl;
  retries = refl;
  worker = refl;
  error = refl;
  written = refl;
  id = refl;
  document = refl;
  module_name = refl;
  input = refl;
  payload = refl;
  created = refl;
  request = refl;
}

update-RowsAfter :
    (id cutoff now : ℕ) (ts : List DocumentTask)
    → RowsAfter id cutoff now ts (update (claims id cutoff) (set_requeued now) ts)
update-RowsAfter id cutoff now [] = tt
update-RowsAfter id cutoff now (t ∷ ts) = (
  rw (waiting-claims id cutoff t) (row_after (is_overdue id cutoff t) now t),
  update-RowsAfter id cutoff now ts,
)

claimed :
    (id cutoff : ℕ) (ts : List DocumentTask)
    → exists (is_overdue id cutoff) ts ≡ true
    → (count (claims id cutoff) ts == 0) ≡ false
claimed id cutoff [] h = ground arith
claimed id cutoff (t ∷ ts) h = ground (arith, h, waiting-claims id cutoff t, claimed id cutoff ts)

first_attempt-delivers :
    (left : ℕ) (p : ProcessRequest) (q : Queue) (e : Env) (w : World)
    → ((call : ℕ) → e.fate call ≡ Fate.answered)
    → ((call : ℕ) → e.cancelled call ≡ false)
    → resolve_module p.module_name ≡ some q
    → ((publish_attempts (suc left) p e w).1.published ≡ w.published ++ p ∷ [])
      × ((publish_attempts (suc left) p e w).1.tasks ≡ w.tasks)
unfolding publish_attempts unless_cancelled is_cancelled process attempt after_attempt pure run
    ◌>>=◌
first_attempt-delivers left p q e w answers goes_on known =
    rw (goes_on w.calls, known, answers (suc w.calls)) (refl, refl)

-- Where every call is answered and the context is not cancelled, the requeueing of a task of a known
-- module, of which the table holds a row that is pending or processing and has not been written since
-- the cutoff, publishes one message, with the id, document, module and path of the task and no kwargs;
-- that row becomes pending with one retry more, without a worker's id or an error, and every other
-- row stays as it is.
pub requeue-delivers :
    (task : StaleRow) (cutoff : ℕ) (q : Queue) (e : Env) (w : World)
    → ((call : ℕ) → e.fate call ≡ Fate.answered)
    → ((call : ℕ) → e.cancelled call ≡ false)
    → exists (is_overdue task.id cutoff) w.tasks ≡ true
    → resolve_module task.module_name ≡ some q
    → ((requeue task cutoff e w).1.published
        ≡ w.published
          ++ record {
            task_id = task.id;
            document_id = task.document_id;
            module_name = task.module_name;
            storage_path = task.input_storage_path;
            kwargs = no_kwargs;
          }
            ∷ [])
      × RowsAfter task.id cutoff (e.clock w.calls) w.tasks (requeue task cutoff e w).1.tasks
unfolding requeue mark_stale_task_pending run claim_task attempt ◌>>=◌ when_claimed
requeue-delivers task cutoff q e w answers goes_on mine known =
    let sent =
      first_attempt-delivers 2 (requeue_message task) q e
        (mark_stale_task_pending task.id cutoff e w).1 answers goes_on known in
    rw (answers w.calls, claimed task.id cutoff w.tasks mine)
      (
        rw (answers w.calls) at sent.0,
        rw (rw (answers w.calls) at sent.1)
            (update-RowsAfter task.id cutoff (e.clock w.calls) w.tasks),
      )
