-- ===== src/Outcomes/Closing.antt =====
-- The callback of a preparation task that has failed.
use kpi_tenders_go.Prelude.{
  not, ◌&&◌, ◌==◌, ℕ, String, Bool, true, false, some, List, [], ◌∷◌, ◌≡◌, refl, ◌∙◌, arith, length,
  find, exists, update, All-Member,
}
use kpi_tenders_go.Models.{
  DocumentTask, ExtractionRequest, ModuleName, convert, anonymize, resolve_keys, extract,
  parse_invoice, other_module, TaskStatus, RequestStatus,
}
use kpi_tenders_go.Effects.{
  Env, World, Fate, Result, ok, err, continue, for_each, ◌>>=◌, attempt, map_error, run, counted,
  pure,
}
use kpi_tenders_go.Effects.Queries.{run-answered}
use kpi_tenders_go.Repository.Tasks.{
  check_status, has_task_id, set_status, write_status, update_task, update_worker_task_status,
}
use kpi_tenders_go.Repository.Requests.{
  is_pending_on, has_request_id, set_request_status, list_pending_extraction_requests_by_document,
}
use kpi_tenders_go.Extraction.Enqueue.{mark_request_failed}
use kpi_tenders_go.Worker.Status.{
  StatusUpdate, update_params, each_listed, fail_pending_requests, after_failed, after_update,
  handle_status_update,
}
use kpi_tenders_go.History.Grows.{Grows}
use kpi_tenders_go.Outcomes.Failure.{
  Failed, listed, fails_each, closed_rows, mark_request_failed-answered,
}

abbrev pub is_settled : RequestStatus → Bool
is_settled RequestStatus.completed = true
is_settled RequestStatus.failed = true
is_settled s = false

-- A request on the document that is neither completed nor failed.
abbrev pub is_unsettled_on : ℕ → ExtractionRequest → Bool
is_unsettled_on document r = r.document_id == document && not (is_settled r.status)

settled_rows :
    (document : ℕ) (rs : List ExtractionRequest)
    → exists (is_pending_on document) rs ≡ false
    → exists (is_unsettled_on document) rs ≡ false
settled_rows document [] h = refl
settled_rows document (r ∷ rs) h = ground (arith, settled_rows document rs)

-- The requests after those of a document that were open have been failed.
pub record IsClosedOff (document : ℕ) (xs zs : List ExtractionRequest) : Type 0 where
  pub closed : exists (is_unsettled_on document) zs ≡ false
  pub rows : Grows (Failed (listed document xs)) xs zs

length-updated :
    (p : ExtractionRequest → Bool) (f : ExtractionRequest → ExtractionRequest)
    (xs : List ExtractionRequest)
    → length (update p f xs) ≡ length xs
length-updated p f [] = refl
length-updated p f (x ∷ xs) = ground (arith, length-updated p f xs)

fails_each-length :
    (rs : List ExtractionRequest) (msg : String) (e : Env) (w : World)
    → ((call : ℕ) → e.fate call ≡ Fate.answered)
    → length (for_each rs (λ req. mark_request_failed req.id msg) e w).1.requests
      ≡ length w.requests
unfolding for_each ◌>>=◌ pure
fails_each-length [] msg e w answers = refl
fails_each-length (r ∷ rs) msg e w answers =
    rw (mark_request_failed-answered r.id msg e w (answers w.calls)) (
      fails_each-length rs msg e _ answers
      ∙ length-updated (has_request_id r.id)
          (set_request_status RequestStatus.failed (some msg) (e.clock w.calls)) w.requests)

fail_pending_requests-closes :
    (document : ℕ) (reason : String) (e : Env) (w : World)
    → ((call : ℕ) → e.fate call ≡ Fate.answered)
    → IsClosedOff document w.requests (fail_pending_requests document reason e w).1.requests
unfolding fail_pending_requests list_pending_extraction_requests_by_document attempt ◌>>=◌ run
    each_listed
fail_pending_requests-closes document reason e w answers = rw (answers w.calls) (
    let rows = fails_each (listed document w.requests) reason e (counted w) answers in
    record {
      closed = settled_rows document _ (
          closed_rows document w.requests w.requests _ (All-Member w.requests)
            (fails_each-length (listed document w.requests) reason e (counted w) answers) rows);
      rows = rows;
    })

find-update :
    (id : ℕ) (f : DocumentTask → DocumentTask) (ts : List DocumentTask) (t : DocumentTask)
    → ((x : DocumentTask) → (f x).id ≡ x.id)
    → find (has_task_id id) ts ≡ some t
    → find (has_task_id id) (update (has_task_id id) f ts) ≡ some (f t)
find-update id f [] t same h = ground arith
find-update id f (x ∷ xs) t same h = ground (arith, same x, find-update id f xs t same)

-- Converting and anonymizing.
abbrev pub is_preparation : ModuleName → Bool
is_preparation convert = true
is_preparation anonymize = true
is_preparation m = false

after_failed-closes :
    (task : DocumentTask) (m : ModuleName) (e : Env) (w : World)
    → is_preparation m ≡ true
    → ((call : ℕ) → e.fate call ≡ Fate.answered)
    → IsClosedOff task.document_id w.requests (after_failed task m e w).1.requests
unfolding after_failed
after_failed-closes task convert e w h answers =
    fail_pending_requests-closes task.document_id _ e w answers
after_failed-closes task anonymize e w h answers =
    fail_pending_requests-closes task.document_id _ e w answers
after_failed-closes task resolve_keys e w h answers = ground arith
after_failed-closes task extract e w h answers = ground arith
after_failed-closes task parse_invoice e w h answers = ground arith
after_failed-closes task (other_module s) e w h answers = ground arith

-- The update of a stored task.
write_stored :
    (id : ℕ) (upd : StatusUpdate) (t : DocumentTask) (now : ℕ) (w : World)
    → check_status upd.status ≡ true
    → find (has_task_id id) w.tasks ≡ some t
    → write_status (update_params id upd) now w ≡ (
      ok (set_status (update_params id upd) now t),
      record w { tasks = update (has_task_id id) (set_status (update_params id upd) now) w.tasks },
    )
unfolding write_status update_task
write_stored id upd t now w known stored =
    rw (known, find-update id (set_status (update_params id upd) now) w.tasks t (λ x. refl) stored)
      refl

-- What a call answers at its end does not touch the tables.
answer_last :
    {A : Type 0} (r : Result (Unit {0})) (a : A) (e : Env) (v : World)
    → (continue r (λ _. pure a) e v).1 ≡ v
unfolding pure
answer_last (ok x) a e v = refl
answer_last (err x) a e v = refl

answer_after :
    {A : Type 0} (m : Env → World → Result (Unit {0}) × World) (a : A) (e : Env) (v : World)
    → ((m >>= λ _. pure a) e v).1 ≡ (m e v).1
unfolding ◌>>=◌
answer_after m a e v = answer_last (m e v).0 a e (m e v).1

abbrev pub written : ℕ → StatusUpdate → Env → World → World
written id upd e w = record (counted w) {
  tasks = update (has_task_id id) (set_status (update_params id upd) (e.clock w.calls)) w.tasks;
}

abbrev pub updated : ℕ → StatusUpdate → DocumentTask → Env → World → DocumentTask
updated id upd t e w = set_status (update_params id upd) (e.clock w.calls) t

-- Once a stored task is updated, the world is the one that the consequences leave.
pub handle_status_update-stored :
    (id : ℕ) (upd : StatusUpdate) (t : DocumentTask) (e : Env) (w : World)
    → e.fate w.calls ≡ Fate.answered
    → find (has_task_id id) w.tasks ≡ some t
    → check_status upd.status ≡ true
    → (handle_status_update id upd e w).1
      ≡ (after_update (updated id upd t e w) upd.status e (written id upd e w)).1
unfolding handle_status_update ◌>>=◌ map_error update_worker_task_status
handle_status_update-stored id upd t e w answers stored known =
    rw
      (
        run-answered (write_status (update_params id upd)) e w answers,
        write_stored id upd t (e.clock w.calls) (counted w) known stored,
      )
      (answer_after (after_update (updated id upd t e w) upd.status) (updated id upd t e w) e
        (written id upd e w))

after_update-closes :
    (task : DocumentTask) (s : TaskStatus) (e : Env) (w : World)
    → is_preparation task.module_name ≡ true
    → s ≡ TaskStatus.failed
    → ((call : ℕ) → e.fate call ≡ Fate.answered)
    → IsClosedOff task.document_id w.requests (after_update task s e w).1.requests
unfolding after_update
after_update-closes task s e w prepares failing answers =
    rw failing (after_failed-closes task task.module_name e w prepares answers)

-- A worker that reports the failure of a stored convert or anonymize task closes every open request
-- of the task's document: where every call is answered, each request that was pending or running on
-- the document is failed, and the requests with other ids stay as they are.
pub handle_status_update-closes :
    (id : ℕ) (upd : StatusUpdate) (t : DocumentTask) (e : Env) (w : World)
    → ((call : ℕ) → e.fate call ≡ Fate.answered)
    → find (has_task_id id) w.tasks ≡ some t
    → is_preparation t.module_name ≡ true
    → upd.status ≡ TaskStatus.failed
    → IsClosedOff t.document_id w.requests (handle_status_update id upd e w).1.requests
handle_status_update-closes id upd t e w answers stored prepares failing =
    rw (handle_status_update-stored id upd t e w (answers w.calls) stored (rw failing refl)) (
      after_update-closes (updated id upd t e w) upd.status e (written id upd e w) prepares failing
        answers)
