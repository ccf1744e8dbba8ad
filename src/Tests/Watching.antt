-- ===== src/Tests/Watching.antt =====
-- The properties of the watchdog.
use kpi_tenders_go.Prelude.{◌+◌, ◌≤◌, [], ◌∷◌, ◌≡◌, refl, arith, length}
use kpi_tenders_go.Repository.Tasks.{stale_row, mark_stale_task_pending, claim_task}
use kpi_tenders_go.Effects.{run}
use kpi_tenders_go.PythonWorker.{llm, resolve_module}
use kpi_tenders_go.Watchdog.{requeue, requeue_message, process_task, run_once, start}
use kpi_tenders_go.Privacy.Sends.{Sends}
use kpi_tenders_go.Scans.Messages.{IsRequeue, run_once-Sends}
use kpi_tenders_go.Scans.Tables.{ScanOnly, start-ScanOnly}
use kpi_tenders_go.Scans.Exclusive.{requeue-exclusive}
use kpi_tenders_go.Scans.Attempts.{process_task-AtMost}
use kpi_tenders_go.Scans.Delivery.{RowsAfter, requeue-delivers}
use kpi_tenders_go.Tests.Data.{resolving, waiting, outside, config}

run_once-Sends_example :
    Sends (IsRequeue config 50 waiting.tasks) waiting (run_once config outside waiting).1
run_once-Sends_example = run_once-Sends config outside waiting

start-ScanOnly_example : ScanOnly waiting (start config 2 outside waiting).1
start-ScanOnly_example = start-ScanOnly config 2 outside waiting

requeue-exclusive_example :
    ((requeue
        (stale_row resolving)
        60
        outside
        (mark_stale_task_pending 11 50 outside waiting).1).1.tasks
      ≡ (mark_stale_task_pending 11 50 outside waiting).1.tasks)
    × ((requeue
          (stale_row resolving)
          60
          outside
          (mark_stale_task_pending 11 50 outside waiting).1).1.published
        ≡ (mark_stale_task_pending 11 50 outside waiting).1.published)
unfolding mark_stale_task_pending run claim_task
requeue-exclusive_example =
    requeue-exclusive (stale_row resolving) 50 60 outside outside waiting 0 (omega arith) refl
      (omega arith)

process_task-AtMost_example :
    (length (process_task config 50 (stale_row resolving) outside waiting).1.published
      ≤ length waiting.published + 3)
    × (3 ≤ 0 → (process_task config 50 (stale_row resolving) outside waiting).1.published ≡ [])
process_task-AtMost_example = process_task-AtMost config 50 (stale_row resolving) outside waiting

requeue-delivers_example :
    ((requeue (stale_row resolving) 50 outside waiting).1.published
      ≡ requeue_message (stale_row resolving) ∷ [])
    × RowsAfter 11 50 100 waiting.tasks (requeue (stale_row resolving) 50 outside waiting).1.tasks
unfolding resolve_module
requeue-delivers_example =
    requeue-delivers (stale_row resolving) 50 llm outside waiting (λ call. refl) (λ call. refl) refl
      refl
