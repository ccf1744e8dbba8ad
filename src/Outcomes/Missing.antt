-- ===== src/Outcomes/Missing.antt =====
-- A callback for a task that does not exist.
use kpi_tenders_go.Prelude.{
  ℕ, Bool, true, false, none, List, [], ◌∷◌, ◌≡◌, refl, arith, find, exists, update, ◌||◌,
}
use kpi_tenders_go.Errs.{no_rows, app_of, not_found, is_no_rows}
use kpi_tenders_go.Effects.{Env, World, Fate, err, counted, ◌>>=◌, map_error}
use kpi_tenders_go.Effects.Queries.{run-answered}
use kpi_tenders_go.Repository.Tasks.{
  check_status, has_task_id, StatusParams, set_status, write_status, update_task,
  update_worker_task_status,
}
use kpi_tenders_go.Worker.Status.{StatusUpdate, update_params, handle_status_update}

module _ {A : Type 0} where
  exists-missing : (p : A → Bool) (xs : List A) → find p xs ≡ none → exists p xs ≡ false
  exists-missing p [] h = refl
  exists-missing p (x ∷ xs) h = ground (arith, exists-missing p xs)

  update-missing : (p : A → Bool) (f : A → A) (xs : List A) → find p xs ≡ none → update p f xs ≡ xs
  update-missing p f [] h = refl
  update-missing p f (x ∷ xs) h = ground (arith, update-missing p f xs)

or_true : (b : Bool) → (b || true) ≡ true
or_true b = ground arith

-- A status for an unknown task writes nothing.
write_status-missing :
    (p : StatusParams) (now : ℕ) (w : World)
    → find (has_task_id p.id) w.tasks ≡ none
    → write_status p now w ≡ (err no_rows, w)
unfolding write_status update_task
write_status-missing p now w h =
    rw
      (
        exists-missing (has_task_id p.id) w.tasks h,
        update-missing (has_task_id p.id) (set_status p now) w.tasks h,
        h,
      )
      (rw (or_true (check_status p.status)) refl)

-- The answer to a callback whose task is in no row is 404, and the tables and queues stay as they
-- are, where the database answers the update.
pub handle_status_update-missing :
    (id : ℕ) (upd : StatusUpdate) (e : Env) (w : World)
    → e.fate w.calls ≡ Fate.answered
    → find (has_task_id id) w.tasks ≡ none
    → handle_status_update id upd e w ≡ (err (app_of not_found "task not found" no_rows), counted w)
unfolding handle_status_update ◌>>=◌ map_error update_worker_task_status is_no_rows
handle_status_update-missing id upd e w answers missing =
    rw
      (
        run-answered (write_status (update_params id upd)) e w answers,
        write_status-missing (update_params id upd) (e.clock w.calls) (counted w) missing,
      )
      refl
