-- ===== src/Watchdog.antt =====
-- internal/watchdog/watchdog.go: the scan for tasks that no worker finishes.
use Prim.Native.String.{◌++◌ as text_append}
use kpi_tenders_go.Prelude.{ℕ, zero, suc, ◌-◌, ◌%◌, String, List, leb, ◌==◌, if◌then◌else◌}
use kpi_tenders_go.Payloads.{ProcessRequest, no_kwargs}
use kpi_tenders_go.Effects.{
  Result, ok, err, M, pure, ◌>>=◌, ◌>>◌, attempt, best_effort, asks, current_time, is_cancelled,
  for_each,
}
use kpi_tenders_go.Repository.Tasks.{
  StaleRow, list_stale_tasks, mark_stale_task_failed, mark_stale_task_pending,
}
use kpi_tenders_go.PythonWorker.{process}

-- The fields of `config.Config` that the watchdog reads.
pub record Config : Type 0 where
  pub threshold : ℕ
  pub max_retries : ℕ
  pub batch_size : ℕ

-- The message has no kwargs.
abbrev pub requeue_message : StaleRow → ProcessRequest
requeue_message task = record {
  task_id = task.id;
  document_id = task.document_id;
  module_name = task.module_name;
  storage_path = task.input_storage_path;
  kwargs = no_kwargs;
}

unfoldable pub unless_cancelled : M (Unit {0}) → M (Unit {0})
unless_cancelled m = do gone ← is_cancelled; if gone then pure tt else m

-- After an attempt: done, out of attempts, or once more after the delay.
unfoldable pub after_attempt : Result (Unit {0}) → ℕ → M (Unit {0}) → M (Unit {0})
after_attempt (ok x) left again = pure tt
after_attempt (err x) zero again = pure tt
after_attempt (err x) (suc left) again = unless_cancelled again

-- The publish loop, on the attempts that are left.
unfoldable pub publish_attempts : ℕ → ProcessRequest → M (Unit {0})
publish_attempts zero p = pure tt
publish_attempts (suc left) p =
    unless_cancelled (do r ← attempt (process p); after_attempt r left (publish_attempts left p))

abbrev pub max_publish_attempts : ℕ
max_publish_attempts = 3

unfoldable pub exhausted_text : StaleRow → Config → M String
exhausted_text task cfg = asks λ e. text_append "stale task: exceeded max retry attempts (" (
    text_append (e.decimal task.retry_count)
      (text_append "/" (text_append (e.decimal cfg.max_retries) ")")))

-- The claim: `none` of the rows changed means that another instance was first.
unfoldable pub when_claimed : Result ℕ → M (Unit {0}) → M (Unit {0})
when_claimed (ok rows) m = if rows == 0 then pure tt else m
when_claimed (err x) m = pure tt

unfoldable pub give_up : Config → StaleRow → ℕ → M (Unit {0})
give_up cfg task cutoff = do
  msg ← exhausted_text task cfg
  best_effort (mark_stale_task_failed task.id msg cutoff)

unfoldable pub requeue : StaleRow → ℕ → M (Unit {0})
requeue task cutoff = do
  rows ← attempt (mark_stale_task_pending task.id cutoff)
  when_claimed rows (publish_attempts max_publish_attempts (requeue_message task))

-- `processTask`.
unfoldable pub process_task : Config → ℕ → StaleRow → M (Unit {0})
process_task cfg cutoff task =
    if leb cfg.max_retries task.retry_count then give_up cfg task cutoff else requeue task cutoff

unfoldable pub process_listed : Config → ℕ → Result (List StaleRow) → M (Unit {0})
process_listed cfg cutoff (ok tasks) = for_each tasks (process_task cfg cutoff)
process_listed cfg cutoff (err x) = pure tt

-- `int32(n)`, by its 32 bits.
abbrev pub int32 : ℕ → ℕ
int32 n = n % 4294967296

-- `runOnce`.
unfoldable pub run_once : Config → M (Unit {0})
run_once cfg = do
  now ← current_time
  listed ← attempt (list_stale_tasks (now - cfg.threshold) (int32 cfg.batch_size))
  process_listed cfg (now - cfg.threshold) listed

-- `Start`: a scan at once, and one at each tick until the context is cancelled; the argument is the
-- number of ticks that come before that.
unfoldable pub start : Config → ℕ → M (Unit {0})
start cfg zero = run_once cfg
start cfg (suc ticks) = start cfg ticks >> run_once cfg
