-- ===== src/Tenants/TaskWrites.antt =====
-- What the statements on one organization's tasks and users leave of another organization's rows.
use kpi_tenders_go.Prelude.{
  ℕ, suc, Bool, true, false, not, Option, some, List, [], ◌∷◌, ◌++◌, ◌≡◌, refl, sym, ◌≤◌, ◌==◌,
  arith, find, exists, select, update, select-append_false, select-keep, select-update_other,
  find-holds, find-exists, Option-cases, inl, inr, and_snd, ◌||◌,
}
use kpi_tenders_go.Models.{DocumentTask, User, ModuleName, TaskStatus, Role, is_id}
use kpi_tenders_go.Effects.{World}
use kpi_tenders_go.Effects.Evolves.{Keeps, branches}
use kpi_tenders_go.Repository.Documents.{has_id_org}
use kpi_tenders_go.Repository.Documents.{is_user_of}
use kpi_tenders_go.Repository.Owned.{
  owns, is_owned, write_owned_status, remove_owned_task, mark_status,
}
use kpi_tenders_go.Repository.Tasks.{
  TaskParams, insert_task, insert_task_for, task_row, row_checks, row_references, repeats,
  check_status,
}
use kpi_tenders_go.Errs.{Error, unique_violation}
use kpi_tenders_go.Tenants.Answers.{keyed-one}
use kpi_tenders_go.Repository.Accounts.{
  CreateUserParams, insert_user, write_user, set_user, checked_user, user_row, role_checks,
  has_email, org_exists,
}
use kpi_tenders_go.Tenants.View.{IsKeyed, user_of}
use kpi_tenders_go.Tenants.Writes.{Spares, Spares-Closed, one_owner}

module _ (other : ℕ) where
  -- Tasks of documents that are not the other organization's come, change and go.
  task_added-Spares :
      (t : DocumentTask) (w : World)
      → owns other w.documents t ≡ false
      → Spares other w (record w { tasks = w.tasks ++ t ∷ []; next_id = suc w.next_id })
  task_added-Spares t w apart k = (
    record {
      documents = refl;
      tasks = sym (select-append_false (owns other w.documents) w.tasks t apart);
      users = refl;
      sites = refl;
      contract_kinds = refl;
      file_roles = refl;
      requests = refl;
      keys = refl;
      extracted = refl;
    },
    λ id. ground (arith, k id),
  )

  tasks-Spares :
      (ts : List DocumentTask) (w : World)
      → select (owns other w.documents) w.tasks ≡ select (owns other w.documents) ts
      → Spares other w (record w { tasks = ts })
  tasks-Spares ts w same k = (
    record {
      documents = refl;
      tasks = same;
      users = refl;
      sites = refl;
      contract_kinds = refl;
      file_roles = refl;
      requests = refl;
      keys = refl;
      extracted = refl;
    },
    k,
  )

  -- What an organization owns, another does not.
  owned_apart :
      (id org : ℕ) (w : World)
      → (org == other) ≡ false
      → IsKeyed w
      → (t : DocumentTask) → is_owned id org w.documents t ≡ true
      → owns other w.documents t ≡ false
  owned_apart id org w apart k t h =
      one_owner t.document_id org other w.documents apart (keyed-one w t.document_id k)
        (and_snd (t.id == id) _ h)

  pub write_owned_status-Spares :
      (id org : ℕ) (status : TaskStatus)
      → (org == other) ≡ false
      → Keeps (Spares other) (write_owned_status id org status)
  unfolding write_owned_status
  write_owned_status-Spares id org status apart = record {
    at = λ now w.
        branches (Spares other)
          (check_status status || not (exists (is_owned id org w.documents) w.tasks)) w _ _
          (λ yes k.
            tasks-Spares (update (is_owned id org w.documents) (mark_status status now) w.tasks) w
              (sym (
                select-update_other (is_owned id org w.documents) (owns other w.documents)
                  (mark_status status now) (λ t. refl) (owned_apart id org w apart k) w.tasks))
              k)
          (λ no. (Spares-Closed other).same w);
  }

  pub remove_owned_task-Spares :
      (id org : ℕ) → (org == other) ≡ false → Keeps (Spares other) (remove_owned_task id org)
  unfolding remove_owned_task
  remove_owned_task-Spares id org apart = record {
    at = λ now w k.
        tasks-Spares _ w
          (sym (
            select-keep (is_owned id org w.documents) (owns other w.documents)
              (owned_apart id org w apart k) w.tasks))
          k;
  }

  insert_task-Spares :
      (x : Error) (p : TaskParams) (now : ℕ) (w : World)
      → (IsKeyed w → exists (has_id_org p.document_id other) w.documents ≡ false)
      → Spares other w (insert_task x p now w).1
  unfolding insert_task
  insert_task-Spares x p now w apart =
      let same = (Spares-Closed other).same w in
      branches (Spares other) (row_checks p) w _ _
        (λ fits.
          branches (Spares other) (exists (repeats p) w.tasks) w _ _ (λ repeated. same)
            (λ new.
              branches (Spares other) (row_references p w) w _ _
                (λ known k. task_added-Spares (task_row p w.next_id now) w (apart k) k)
                (λ unknown. same)))
        (λ unfit. same)

  pub insert_task_for-Spares :
      (document org : ℕ) (m : ModuleName)
      → (org == other) ≡ false
      → Keeps
          (Spares other)
          (λ now w. insert_task_for (find (has_id_org document org) w.documents) m now w)
  insert_task_for-Spares document org m apart = record {
    at = λ now w. elim (Option-cases (find (has_id_org document org) w.documents)) [
      | inl missing ↦ rw missing ((Spares-Closed other).same w)
      | inr (d, found) ↦ rw found (
          insert_task-Spares (unique_violation "uq_document_tasks_doc_singleton") _ now w (λ k.
            one_owner d.id org other w.documents apart (keyed-one w d.id k) (
              find-exists _ (has_id_org d.id org) w.documents d found
                (ground (arith, find-holds _ w.documents d found)))))
    ];
  }

  users-Spares :
      (us : List User) (w : World) (n : ℕ)
      → w.next_id ≤ n
      → select (user_of other) w.users ≡ select (user_of other) us
      → Spares other w (record w { users = us; next_id = n })
  users-Spares us w n later same k = (
    record {
      documents = refl;
      tasks = refl;
      users = same;
      sites = refl;
      contract_kinds = refl;
      file_roles = refl;
      requests = refl;
      keys = refl;
      extracted = refl;
    },
    λ id. ground (arith, k id, later),
  )

  pub insert_user-Spares :
      (p : CreateUserParams) (org : ℕ)
      → p.organization_id ≡ some org
      → (org == other) ≡ false
      → Keeps (Spares other) (insert_user p)
  unfolding insert_user
  insert_user-Spares p org of_org apart = record {
    at = λ now w.
        let same = (Spares-Closed other).same w in
        branches (Spares other) (role_checks p.role p.organization_id) w _ _
          (λ fits.
            branches (Spares other) (exists (has_email p.email) w.users) w _ _ (λ taken. same)
              (λ new.
                branches (Spares other) (org_exists p.organization_id w) w _ _
                  (λ known.
                    users-Spares (w.users ++ user_row p w.next_id now ∷ []) w (suc w.next_id)
                      (omega arith)
                      (sym (
                        select-append_false (user_of other) w.users (user_row p w.next_id now)
                          (rw of_org apart))))
                  (λ unknown. same)))
          (λ unfit. same);
  }

  pub write_user-Spares :
      (id org : ℕ) (role : Option Role) (active : Option Bool)
      → (org == other) ≡ false
      → Keeps (Spares other) (write_user id org role active)
  unfolding write_user
  write_user-Spares id org role active apart = record {
    at = λ now w.
        let rows = update (is_user_of id org) (set_user role active now) w.users in
        branches (Spares other) (checked_user (find (is_user_of id org) rows)) w _ _
          (λ yes. users-Spares rows w w.next_id (omega arith) (
            sym (
              select-update_other (is_user_of id org) (user_of other) (set_user role active now)
                (λ u. refl) (λ u h. user_apart u (and_snd (u.id == id) _ h)) w.users)))
          (λ no. (Spares-Closed other).same w);
  }
    where
      user_apart :
          (u : User) → is_id u.organization_id org ≡ true → is_id u.organization_id other ≡ false
      user_apart u h = ground (arith, h, apart)
