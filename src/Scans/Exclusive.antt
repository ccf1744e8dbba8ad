-- ===== src/Scans/Exclusive.antt =====
-- Two instances of the watchdog on one task.
use kpi_tenders_go.Prelude.{ℕ, suc, ◌≤◌, Bool, List, [], ◌∷◌, ◌≡◌, refl, arith, count, update}
use kpi_tenders_go.Models.{DocumentTask}
use kpi_tenders_go.Effects.{◌>>=◌, attempt, pure, M, Env, World, Fate, ok, settle, counted, run}
use kpi_tenders_go.Repository.Tasks.{
  StaleRow, claims, has_task_id, set_requeued, claim_task, mark_stale_task_pending,
}
use kpi_tenders_go.Watchdog.{requeue, when_claimed}

count-none-claimed :
    (id cutoff : ℕ) (ts : List DocumentTask)
    → count (has_task_id id) ts ≡ 0
    → count (claims id cutoff) ts ≡ 0
count-none-claimed id cutoff [] h = refl
count-none-claimed id cutoff (t ∷ ts) h = ground (arith, count-none-claimed id cutoff ts)

others_unclaimed :
    (id cutoff other now : ℕ) (ts : List DocumentTask)
    → count (has_task_id id) ts ≡ 0
    → count (claims id other) (update (claims id cutoff) (set_requeued now) ts) ≡ 0
others_unclaimed id cutoff other now [] h = refl
others_unclaimed id cutoff other now (t ∷ ts) h =
    ground (arith, others_unclaimed id cutoff other now ts)

update-none :
    (p : DocumentTask → Bool) (f : DocumentTask → DocumentTask) (ts : List DocumentTask)
    → count p ts ≡ 0
    → update p f ts ≡ ts
update-none p f [] h = refl
update-none p f (t ∷ ts) h = ground (arith, update-none p f ts)

-- The row that the first claim has touched is not stale for the second.
claimed_once :
    (id cutoff other now : ℕ) (ts : List DocumentTask)
    → count (has_task_id id) ts ≤ 1
    → 1 ≤ count (claims id cutoff) ts
    → other ≤ now
    → count (claims id other) (update (claims id cutoff) (set_requeued now) ts) ≡ 0
claimed_once id cutoff other now [] one some_row later = ground arith
claimed_once id cutoff other now (t ∷ ts) one some_row later = ground (
  arith,
  claimed_once id cutoff other now ts,
  others_unclaimed id cutoff other now ts,
  count-none-claimed id cutoff ts,
)

no_claim :
    (f : Fate) (n : ℕ) (v u : World) (m : M (Unit {0})) (e : Env)
    → n ≡ 0
    → v.tasks ≡ u.tasks
    → v.published ≡ u.published
    → (let r = settle f (ok n, v) u in
        ((when_claimed r.0 m e r.1).1.tasks ≡ u.tasks)
        × ((when_claimed r.0 m e r.1).1.published ≡ u.published))
unfolding when_claimed pure
no_claim Fate.answered n v u m e h kt kp = rw h (kt, kp)
no_claim Fate.refused n v u m e h kt kp = (refl, refl)
no_claim Fate.reply_lost n v u m e h kt kp = (kt, kp)

-- A claim that finds no row to claim leaves the tasks and lets nothing be published.
requeue-none :
    (task : StaleRow) (cutoff : ℕ) (e : Env) (w : World)
    → count (claims task.id cutoff) w.tasks ≡ 0
    → ((requeue task cutoff e w).1.tasks ≡ w.tasks)
      × ((requeue task cutoff e w).1.published ≡ w.published)
unfolding requeue mark_stale_task_pending run claim_task ◌>>=◌ attempt
requeue-none task cutoff e w none_claimed =
    no_claim (e.fate w.calls) (count (claims task.id cutoff) w.tasks) _ (counted w) _ e none_claimed
      (update-none (claims task.id cutoff) (set_requeued (e.clock w.calls)) w.tasks none_claimed)
      refl

claim-claimed :
    (f : Fate) (n : ℕ) (v u : World) (m : ℕ)
    → (settle f (ok n, v) u).0 ≡ ok m
    → (n ≡ m) × ((settle f (ok n, v) u).1 ≡ v)
claim-claimed Fate.answered n v u m h = (ground arith, refl)
claim-claimed Fate.refused n v u m h = ground arith
claim-claimed Fate.reply_lost n v u m h = ground arith

-- Of two instances that requeue one task, the one whose claim comes second leaves the tasks and
-- publishes nothing, whatever the outside answers it: where at most one row has the id, the first
-- was told that it claimed a row, and the second's threshold had not passed again when the first
-- claimed.
pub requeue-exclusive :
    (task : StaleRow) (cutoff other : ℕ) (e d : Env) (w : World) (n : ℕ)
    → count (has_task_id task.id) w.tasks ≤ 1
    → (mark_stale_task_pending task.id cutoff e w).0 ≡ ok (suc n)
    → other ≤ e.clock w.calls
    → (let v = (mark_stale_task_pending task.id cutoff e w).1 in
        ((requeue task other d v).1.tasks ≡ v.tasks)
        × ((requeue task other d v).1.published ≡ v.published))
unfolding mark_stale_task_pending run claim_task
requeue-exclusive task cutoff other e d w n one claimed later =
    let (some_row, world) =
      claim-claimed (e.fate w.calls) (count (claims task.id cutoff) w.tasks) _ (counted w) (suc n)
        claimed in
    rw world (
      requeue-none task other d _ (
        claimed_once task.id cutoff other (e.clock w.calls) w.tasks one (omega (arith, some_row))
          later))
