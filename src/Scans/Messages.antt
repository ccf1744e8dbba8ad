-- ===== src/Scans/Messages.antt =====
-- The messages of a scan.
use kpi_tenders_go.Prelude.{
  if◌then◌else◌, ℕ, ◌-◌, Bool, true, false, List, [], ◌∷◌, ◌≡◌, refl, sym, ◌∙◌, arith, leb, ltb,
  ◌&&◌, ◌==◌, str_eq, ==_refl, str_eq_refl, exists, select, take, sort_by, All, All-select,
  All-take, All-sort_by, Member, All-Member,
}
use kpi_tenders_go.Models.{
  DocumentTask, module_eq, ModuleName, convert, anonymize, resolve_keys, extract, parse_invoice,
  other_module,
}
use kpi_tenders_go.Errs.{plain}
use kpi_tenders_go.Payloads.{ProcessRequest, no_kwargs}
use kpi_tenders_go.Effects.{Env, World, Result, ok, err, ◌>>=◌, attempt, current_time}
use kpi_tenders_go.Effects.Evolves.{then_at, Evolves-attempt}
use kpi_tenders_go.Effects.Queries.{query-ok}
use kpi_tenders_go.Repository.Tasks.{
  StaleRow, stale_row, stale_rows, is_stale, stalest_first, list_stale_tasks, is_negative,
}
use kpi_tenders_go.Watchdog.{Config, int32, requeue_message, process_listed, run_once}
use kpi_tenders_go.Frame.Calls.{Evolves-list_stale_tasks}
use kpi_tenders_go.Frame.Watchdog.{Evolves-process_listed}
use kpi_tenders_go.Privacy.Sends.{Sends, Sends-none, Sends-Closed, Sends-Watched}

-- The message repeats the task, which is stale and below its limit of retries.
abbrev pub repeats_task : Config → ℕ → ProcessRequest → DocumentTask → Bool
repeats_task cfg cutoff p t =
    is_stale cutoff t
    && ltb t.retry_count cfg.max_retries
    && t.id == p.task_id
    && t.document_id == p.document_id
    && module_eq t.module_name p.module_name
    && str_eq t.input_storage_path p.storage_path

abbrev pub IsRequeue : Config → ℕ → List DocumentTask → ProcessRequest → Type 0
IsRequeue cfg cutoff tasks p =
    (exists (repeats_task cfg cutoff p) tasks ≡ true) × (p.kwargs ≡ no_kwargs)

module_eq_refl : (m : ModuleName) → module_eq m m ≡ true
module_eq_refl convert = refl
module_eq_refl anonymize = refl
module_eq_refl resolve_keys = refl
module_eq_refl extract = refl
module_eq_refl parse_invoice = refl
module_eq_refl (other_module s) = str_eq_refl s

row-IsRequeue :
    (cfg : Config) (cutoff : ℕ) (tasks : List DocumentTask) (t : DocumentTask)
    → is_stale cutoff t ≡ true
    → Member tasks t
    → leb cfg.max_retries t.retry_count ≡ false
    → IsRequeue cfg cutoff tasks (requeue_message (stale_row t))
row-IsRequeue cfg cutoff tasks t stale member below = (
  member (repeats_task cfg cutoff (requeue_message (stale_row t))) (
      ground (
        arith,
        ==_refl t.id,
        ==_refl t.document_id,
        module_eq_refl t.module_name,
        str_eq_refl t.input_storage_path,
      )),
  refl,
)

All-stale_rows :
    (P : StaleRow → Type 0) (ts : List DocumentTask)
    → All (λ t. P (stale_row t)) ts
    → All P (stale_rows ts)
All-stale_rows P [] h = tt
All-stale_rows P (t ∷ ts) h = (h.0, All-stale_rows P ts h.1)

listed-IsRequeue :
    (cfg : Config) (cutoff n : ℕ) (tasks : List DocumentTask)
    → All
        (λ (row : StaleRow).
          leb cfg.max_retries row.retry_count ≡ false
          → IsRequeue cfg cutoff tasks (requeue_message row))
        (stale_rows (take n (sort_by stalest_first (select (is_stale cutoff) tasks))))
listed-IsRequeue cfg cutoff n tasks = All-stale_rows _ _ (
    All-take _ n _ (
      All-sort_by _ stalest_first _ (
        All-select _ (Member tasks) (is_stale cutoff) tasks
          (λ t stale member. row-IsRequeue cfg cutoff tasks t stale member) (All-Member tasks))))

list_stale_tasks-eq :
    (cutoff n : ℕ) (e : Env) (w : World) (rows : List StaleRow)
    → (list_stale_tasks cutoff n e w).0 ≡ ok rows
    → rows ≡ stale_rows (take n (sort_by stalest_first (select (is_stale cutoff) w.tasks)))
unfolding list_stale_tasks
list_stale_tasks-eq cutoff n e w rows h = ground (
  arith,
  query-ok
      (λ now v.
        if is_negative n
        then err (plain "LIMIT must not be negative")
        else ok (stale_rows (take n (sort_by stalest_first (select (is_stale cutoff) v.tasks)))))
      e w h,
)

attempt-eq :
    {A : Type 0} (m : Env → World → Result A × World) (e : Env) (w : World) (r : Result A)
    → (attempt m e w).0 ≡ ok r
    → r ≡ (m e w).0
unfolding attempt
attempt-eq m e w r h = ground arith

scan-Sends :
    (cfg : Config) (cutoff : ℕ) (e : Env) (w : World)
    → Sends
        (IsRequeue cfg cutoff w.tasks)
        w
        ((attempt (list_stale_tasks cutoff (int32 cfg.batch_size)) >>= process_listed cfg cutoff) e
          w).1
scan-Sends cfg cutoff e w =
    then_at Sends-Closed _ _ e w w (Sends-none w w refl refl)
      (Evolves-attempt Sends-Closed _
        (Evolves-list_stale_tasks Sends-Watched cutoff (int32 cfg.batch_size)))
      λ listed got after. Sends-Closed.chain _ _ _ after (
        (Evolves-process_listed Sends-Watched cfg cutoff listed λ rows is_ok.
            rw
              (list_stale_tasks-eq cutoff (int32 cfg.batch_size) e w rows
                (sym (attempt-eq _ e w listed got) ∙ is_ok))
              (listed-IsRequeue cfg cutoff (int32 cfg.batch_size) w.tasks)).at
          e _)

-- Whatever the outside answers, every message of a scan repeats the id, document, module and path
-- of a task that the table held when the scan began, unfinished, not touched since the threshold
-- and below the limit of retries. It carries no kwargs.
pub run_once-Sends :
    (cfg : Config) (e : Env) (w : World)
    → Sends (IsRequeue cfg (e.clock w.calls - cfg.threshold) w.tasks) w (run_once cfg e w).1
unfolding run_once current_time ◌>>=◌
run_once-Sends cfg e w = scan-Sends cfg (e.clock w.calls - cfg.threshold) e w
