-- ===== src/Scans/Attempts.antt =====
-- The publish loop of the watchdog.
use kpi_tenders_go.Prelude.{
  ℕ, String, zero, suc, ◌+◌, ◌≤◌, Option, none, some, List, [], ◌∷◌, ◌++◌, ◌≡◌, refl, arith, length,
  count, ◌==◌, leb, Bool-cases, inl, inr,
}
use kpi_tenders_go.Payloads.{ProcessRequest}
use kpi_tenders_go.Effects.{
  Env, World, continue, Fate, Result, ok, err, M, pure, ◌>>=◌, attempt, best_effort, is_cancelled,
  run, settle, counted, throw, asks,
}
use kpi_tenders_go.PythonWorker.{Queue, resolve_module, push, process}
use kpi_tenders_go.Repository.Tasks.{
  StaleRow, claims, claim_task, mark_stale_task_pending, mark_stale_task_failed,
}
use kpi_tenders_go.Watchdog.{
  Config, requeue_message, unless_cancelled, after_attempt, publish_attempts, max_publish_attempts,
  when_claimed, give_up, requeue, process_task, exhausted_text,
}

-- A call that adds at most `n` messages.
abbrev AtMost : ℕ → M (Unit {0}) → Type 0
AtMost n m = (e : Env) (w : World) → length (m e w).1.published ≤ length w.published + n

length-snoc :
    (ps : List ProcessRequest) (p : ProcessRequest) → length (ps ++ p ∷ []) ≡ length ps + 1
length-snoc [] p = refl
length-snoc (q ∷ ps) p = ground (arith, length-snoc ps p)

push-AtMost : (q : Option Queue) (p : ProcessRequest) → AtMost 1 (push q p)
unfolding throw run
push-AtMost none p e w = omega arith
push-AtMost (some q) p e w = ground (arith, length-snoc w.published p)

process-AtMost : (p : ProcessRequest) → AtMost 1 (process p)
unfolding process
process-AtMost p = push-AtMost (resolve_module p.module_name) p

unless_cancelled-AtMost : (n : ℕ) (m : M (Unit {0})) → AtMost n m → AtMost n (unless_cancelled m)
unfolding unless_cancelled is_cancelled ◌>>=◌ pure
unless_cancelled-AtMost n m h e w = elim (Bool-cases (e.cancelled w.calls)) [
  | inl gone ↦ rw gone (omega arith)
  | inr here ↦ rw here (h e (counted w))
]

after_attempt-AtMost :
    (r : Result (Unit {0})) (left : ℕ) (again : M (Unit {0}))
    → AtMost left again
    → AtMost left (after_attempt r left again)
unfolding after_attempt pure
after_attempt-AtMost (ok x) left again h e w = omega arith
after_attempt-AtMost (err x) zero again h e w = omega arith
after_attempt-AtMost (err x) (suc left) again h e w = unless_cancelled-AtMost (suc left) again h e w

attempt-AtMost :
    (left : ℕ) (m again : M (Unit {0}))
    → AtMost 1 m
    → AtMost left again
    → AtMost (suc left) (attempt m >>= λ r. after_attempt r left again)
unfolding attempt ◌>>=◌
attempt-AtMost left m again hm h e w =
    ground (arith, hm e w, after_attempt-AtMost (m e w).0 left again h e (m e w).1)

attempts-AtMost : (left : ℕ) (p : ProcessRequest) → AtMost left (publish_attempts left p)
unfolding publish_attempts pure
attempts-AtMost zero p = λ e w. omega arith
attempts-AtMost (suc left) p = unless_cancelled-AtMost (suc left) _ (
    attempt-AtMost left (process p) (publish_attempts left p) (process-AtMost p)
      (attempts-AtMost left p))

when_claimed-AtMost :
    (n : ℕ) (r : Result ℕ) (m : M (Unit {0})) → AtMost n m → AtMost n (when_claimed r m)
unfolding when_claimed pure
when_claimed-AtMost n (err x) m h e w = omega arith
when_claimed-AtMost n (ok rows) m h e w = elim (Bool-cases (rows == 0)) [
  | inl unclaimed ↦ rw unclaimed (omega arith)
  | inr mine ↦ rw mine (h e w)
]

claim_published :
    (f : Fate) (n : ℕ) (v u : World)
    → v.published ≡ u.published
    → (settle f (ok n, v) u).1.published ≡ u.published
claim_published Fate.answered n v u h = h
claim_published Fate.refused n v u h = refl
claim_published Fate.reply_lost n v u h = h

-- A call that publishes nothing.
abbrev Quiet : {A : Type 0} → M A → Type 0
Quiet m = (e : Env) (w : World) → (m e w).1.published ≡ w.published

module _ {A : Type 0} where
  continue-AtMost :
      (n : ℕ) (r : Result A) (f : A → M (Unit {0})) (e : Env) (w v : World)
      → v.published ≡ w.published
      → ((a : A) → AtMost n (f a))
      → length (continue r f e v).1.published ≤ length w.published + n
  continue-AtMost n (ok a) f e w v quiet h = ground (arith, h a e v)
  continue-AtMost n (err x) f e w v quiet h = ground arith

  bind-AtMost :
      (n : ℕ) (m : M A) (f : A → M (Unit {0}))
      → Quiet m
      → ((a : A) → AtMost n (f a))
      → AtMost n (m >>= f)
  unfolding ◌>>=◌
  bind-AtMost n m f quiet h e w = continue-AtMost n (m e w).0 f e w (m e w).1 (quiet e w) h

mark_pending-Quiet : (id cutoff : ℕ) → Quiet (attempt (mark_stale_task_pending id cutoff))
unfolding mark_stale_task_pending run claim_task attempt
mark_pending-Quiet id cutoff e w =
    claim_published (e.fate w.calls) (count (claims id cutoff) w.tasks) _ (counted w) refl

mark_failed-Quiet :
    (id : ℕ) (msg : String) (cutoff : ℕ)
    → Quiet (best_effort (mark_stale_task_failed id msg cutoff))
unfolding mark_stale_task_failed run claim_task best_effort
mark_failed-Quiet id msg cutoff e w =
    claim_published (e.fate w.calls) (count (claims id cutoff) w.tasks) _ (counted w) refl

requeue-AtMost : (task : StaleRow) (cutoff : ℕ) → AtMost max_publish_attempts (requeue task cutoff)
unfolding requeue
requeue-AtMost task cutoff =
    bind-AtMost max_publish_attempts _ _ (mark_pending-Quiet task.id cutoff) λ r.
      when_claimed-AtMost max_publish_attempts r _
        (attempts-AtMost max_publish_attempts (requeue_message task))

give_up-Quiet : (cfg : Config) (task : StaleRow) (cutoff : ℕ) → Quiet (give_up cfg task cutoff)
unfolding give_up exhausted_text asks ◌>>=◌
give_up-Quiet cfg task cutoff e w = mark_failed-Quiet task.id _ cutoff e w

-- Whatever the outside answers, the processing of a stale task publishes at most three messages,
-- and none where the task has used up its retries.
pub process_task-AtMost :
    (cfg : Config) (cutoff : ℕ) (task : StaleRow) (e : Env) (w : World)
    → (length (process_task cfg cutoff task e w).1.published ≤ length w.published + 3)
      × (cfg.max_retries ≤ task.retry_count
          → (process_task cfg cutoff task e w).1.published ≡ w.published)
unfolding process_task
process_task-AtMost cfg cutoff task e w = elim (Bool-cases (leb cfg.max_retries task.retry_count)) [
  | inl exhausted ↦
      rw exhausted
        (ground (arith, give_up-Quiet cfg task cutoff e w), λ _. give_up-Quiet cfg task cutoff e w)
  | inr below ↦ rw below (requeue-AtMost task cutoff e w, λ used. ground arith)
]
