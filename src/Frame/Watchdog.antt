-- ===== src/Frame/Watchdog.antt =====
-- The scans of the watchdog under a relation that the statements keep.
use kpi_tenders_go.Prelude.{
  ℕ, zero, suc, List, false, ◌≡◌, refl, leb, All, All-every, Bool-cases, inl, inr,
}
use kpi_tenders_go.Payloads.{ProcessRequest}
use kpi_tenders_go.Effects.{World, Result, ok, err, M}
use kpi_tenders_go.Effects.Evolves.{
  Evolves, build_rules, Evolves-pure, Evolves-bind, Evolves-attempt, Evolves-for_each-All,
}
use kpi_tenders_go.Repository.Tasks.{StaleRow}
use kpi_tenders_go.Frame.Calls.{Watched, watchdog_rules, Evolves-process_watched}
use kpi_tenders_go.Watchdog.{
  Config, requeue_message, unless_cancelled, after_attempt, publish_attempts, exhausted_text,
  when_claimed, give_up, requeue, process_task, process_listed, run_once, start,
}

module _ {P : ProcessRequest → Type 0} {R : World → World → Type 0} (s : Watched P R) where
  Evolves-unless_cancelled : (m : M (Unit {0})) → Evolves R m → Evolves R (unless_cancelled m)
  unfolding unless_cancelled
  Evolves-unless_cancelled m h = search (s.closed, build_rules)

  Evolves-after_attempt :
      (r : Result (Unit {0})) (left : ℕ) (again : M (Unit {0}))
      → Evolves R again
      → Evolves R (after_attempt r left again)
  unfolding after_attempt
  Evolves-after_attempt (ok x) left again h = Evolves-pure s.closed tt
  Evolves-after_attempt (err x) zero again h = Evolves-pure s.closed tt
  Evolves-after_attempt (err x) (suc left) again h = Evolves-unless_cancelled again h

  Evolves-publish_attempts :
      (left : ℕ) (p : ProcessRequest) → P p → Evolves R (publish_attempts left p)
  unfolding publish_attempts
  Evolves-publish_attempts zero p allowed = Evolves-pure s.closed tt
  Evolves-publish_attempts (suc left) p allowed = Evolves-unless_cancelled _ (
      Evolves-bind s.closed _ _ (Evolves-attempt s.closed _ (Evolves-process_watched s p allowed))
        (λ r. Evolves-after_attempt r left _ (Evolves-publish_attempts left p allowed)))

  Evolves-exhausted_text : (task : StaleRow) (cfg : Config) → Evolves R (exhausted_text task cfg)
  unfolding exhausted_text
  Evolves-exhausted_text task cfg = search (s.closed, build_rules)

  Evolves-when_claimed :
      (r : Result ℕ) (m : M (Unit {0})) → Evolves R m → Evolves R (when_claimed r m)
  unfolding when_claimed
  Evolves-when_claimed (ok rows) m h = search (s.closed, build_rules)
  Evolves-when_claimed (err x) m h = Evolves-pure s.closed tt

  Evolves-give_up :
      (cfg : Config) (task : StaleRow) (cutoff : ℕ) → Evolves R (give_up cfg task cutoff)
  unfolding give_up
  Evolves-give_up cfg task cutoff =
      search (s.closed, build_rules, watchdog_rules, Evolves-exhausted_text)

  Evolves-requeue :
      (task : StaleRow) (cutoff : ℕ) → P (requeue_message task) → Evolves R (requeue task cutoff)
  unfolding requeue
  Evolves-requeue task cutoff allowed =
      search (s.closed, build_rules, watchdog_rules, Evolves-when_claimed, Evolves-publish_attempts)

  -- A task at its limit of retries is not published.
  pub Evolves-process_task :
      (cfg : Config) (cutoff : ℕ) (task : StaleRow)
      → (leb cfg.max_retries task.retry_count ≡ false → P (requeue_message task))
      → Evolves R (process_task cfg cutoff task)
  unfolding process_task
  Evolves-process_task cfg cutoff task allowed =
      elim (Bool-cases (leb cfg.max_retries task.retry_count)) [
        | inl exhausted ↦ rw exhausted (Evolves-give_up cfg task cutoff)
        | inr below ↦ rw below (Evolves-requeue task cutoff (allowed below))
      ]

  pub Evolves-process_listed :
      (cfg : Config) (cutoff : ℕ) (r : Result (List StaleRow))
      → ((rows : List StaleRow)
          → r ≡ ok rows
          → All
              (λ (row : StaleRow).
                leb cfg.max_retries row.retry_count ≡ false → P (requeue_message row))
              rows)
      → Evolves R (process_listed cfg cutoff r)
  unfolding process_listed
  Evolves-process_listed cfg cutoff (ok tasks) allowed =
      Evolves-for_each-All s.closed _ tasks (process_task cfg cutoff)
        (λ row h. Evolves-process_task cfg cutoff row h) (allowed tasks refl)
  Evolves-process_listed cfg cutoff (err x) allowed = Evolves-pure s.closed tt

  module _ (requeued : (row : StaleRow) → P (requeue_message row)) where
    pub Evolves-run_once : (cfg : Config) → Evolves R (run_once cfg)
    unfolding run_once
    Evolves-run_once cfg = search (s.closed, build_rules, watchdog_rules, every cfg)
      where
        every :
            (cfg : Config) (cutoff : ℕ) (r : Result (List StaleRow))
            → Evolves R (process_listed cfg cutoff r)
        every cfg cutoff r =
            Evolves-process_listed cfg cutoff r
              (λ rows h. All-every _ rows (λ row below. requeued row))

    pub Evolves-start : (cfg : Config) (ticks : ℕ) → Evolves R (start cfg ticks)
    unfolding start
    Evolves-start cfg zero = Evolves-run_once cfg
    Evolves-start cfg (suc ticks) =
        Evolves-bind s.closed _ _ (Evolves-start cfg ticks) (λ _. Evolves-run_once cfg)
