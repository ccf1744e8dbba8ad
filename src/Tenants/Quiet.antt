-- ===== src/Tenants/Quiet.antt =====
-- The services' operations under the relation that spares another organization's rows.
use kpi_tenders_go.Prelude.{ℕ, Bool, false, String, Option, none, some, ◌≡◌, refl, ap, ◌==◌}
use kpi_tenders_go.Models.{DocumentTask, ModuleName, TaskStatus, Role}
use kpi_tenders_go.Payloads.{ProcessRequest}
use kpi_tenders_go.Effects.{Hashed, hashed, too_long, hash_failed, M, Result, ok, err}
use kpi_tenders_go.Effects.Evolves.{
  Closed, Evolves, Evolves-run, Evolves-query, Evolves-throw, Evolves-bind, Evolves-map_error,
  build_rules,
}
use kpi_tenders_go.PythonWorker.{Queue, resolve_module, push, process}
use kpi_tenders_go.Repository.Documents.{get_document_by_id}
use kpi_tenders_go.Repository.Originals.{
  CreateDocumentParams, create_document, MetaParams, update_document_meta, get_contract_kind,
  get_file_role,
}
use kpi_tenders_go.Repository.Tasks.{create_document_task}
use kpi_tenders_go.Repository.Owned.{update_document_task_status, delete_document_task}
use kpi_tenders_go.Repository.Accounts.{CreateUserParams, create_user, update_user}
use kpi_tenders_go.DocumentService
use kpi_tenders_go.DocumentService.{
  find_own, of_organization, check_kind, check_role, check_bundle, of_root, unless_zero,
}
use kpi_tenders_go.DocumentTaskService
use kpi_tenders_go.DocumentTaskService.{accepted, trigger}
use kpi_tenders_go.OrganizationService.{generate_from_password}
use kpi_tenders_go.UserService
use kpi_tenders_go.UserService.{CreateParams, check_new_role, hash_of}
use kpi_tenders_go.Tenants.Writes.{Spares, Spares-Closed, insert_document-Spares, write_meta-Spares}
use kpi_tenders_go.Tenants.TaskWrites.{
  write_owned_status-Spares, remove_owned_task-Spares, insert_task_for-Spares, insert_user-Spares,
  write_user-Spares,
}

module _ (other : ℕ) where
  abbrev pub Quiet : {A : Type 0} → M A → Type 0
  Quiet m = Evolves (Spares other) m

  pub closed : Closed (Spares other)
  closed = Spares-Closed other

  push-Quiet : (q : Option Queue) (p : ProcessRequest) → Quiet (push q p)
  push-Quiet none p = Evolves-throw closed _
  push-Quiet (some q) p = Evolves-run closed _ (record {
    at = λ now w k. (
      record {
        documents = refl;
        tasks = refl;
        users = refl;
        sites = refl;
        contract_kinds = refl;
        file_roles = refl;
        requests = refl;
        keys = refl;
        extracted = refl;
      },
      k,
    );
  })

  process-Quiet : (p : ProcessRequest) → Quiet (process p)
  unfolding process
  process-Quiet p = push-Quiet (resolve_module p.module_name) p

  get_document_by_id-Quiet : (id : ℕ) → Quiet (get_document_by_id id)
  unfolding get_document_by_id
  get_document_by_id-Quiet id = Evolves-query closed _

  get_contract_kind-Quiet : (id org : ℕ) → Quiet (get_contract_kind id org)
  unfolding get_contract_kind
  get_contract_kind-Quiet id org = Evolves-query closed _

  get_file_role-Quiet : (id org : ℕ) → Quiet (get_file_role id org)
  unfolding get_file_role
  get_file_role-Quiet id org = Evolves-query closed _

  find_own-Quiet : (msg : String) (id org : ℕ) → Quiet (find_own msg id org)
  unfolding find_own
  find_own-Quiet msg id org = search (closed, build_rules, get_document_by_id-Quiet)

  check_kind-Quiet : (id : Option ℕ) (org : ℕ) → Quiet (check_kind id org)
  check_kind-Quiet none org = search (closed, build_rules)
  check_kind-Quiet (some id) org = search (closed, build_rules, get_contract_kind-Quiet)

  check_role-Quiet : (id : Option ℕ) (org : ℕ) → Quiet (check_role id org)
  check_role-Quiet none org = search (closed, build_rules)
  check_role-Quiet (some id) org = search (closed, build_rules, get_file_role-Quiet)

  check_bundle-Quiet : (id : Option ℕ) (org : ℕ) → Quiet (check_bundle id org)
  check_bundle-Quiet none org = search (closed, build_rules)
  check_bundle-Quiet (some id) org = search (closed, build_rules, find_own-Quiet)

  module _ (org : ℕ) (apart : (org == other) ≡ false) where
    pub create_document-Quiet :
        (p : CreateDocumentParams) → p.organization_id ≡ org → Quiet (DocumentService.create p)
    unfolding DocumentService.create create_document
    create_document-Quiet p of_org = search (
      closed,
      build_rules,
      Evolves-run closed _ (insert_document-Spares other p (rw of_org apart)),
    )

    update_document_meta-Quiet :
        (p : MetaParams) → p.organization_id ≡ org → Quiet (update_document_meta p)
    unfolding update_document_meta
    update_document_meta-Quiet p of_org =
        Evolves-run closed _
          (record { at = λ now w. write_meta-Spares other p (rw of_org apart) now w _ })

    pub update_meta-Quiet :
        (p : MetaParams) → p.organization_id ≡ org → Quiet (DocumentService.update_meta p)
    unfolding DocumentService.update_meta
    update_meta-Quiet p of_org =
        Evolves-bind closed _ _ (check_kind-Quiet p.contract_kind_id p.organization_id) (λ _.
          Evolves-bind closed _ _ (check_role-Quiet p.file_role_id p.organization_id) (λ _.
            Evolves-bind closed _ _ (check_bundle-Quiet p.bundle_id p.organization_id)
              (λ _. Evolves-map_error closed _ _ (update_document_meta-Quiet p of_org))))

    trigger-Quiet : (t : DocumentTask) → Quiet (trigger t)
    trigger-Quiet t = search (closed, build_rules, process-Quiet)

    unless_zero-Quiet : (msg : String) (rows : ℕ) → Quiet (unless_zero msg rows)
    unless_zero-Quiet msg rows = search (closed, build_rules)

    accepted-Quiet : (m : ModuleName) (r : Result (Unit {0})) → Quiet (accepted m r)
    accepted-Quiet m (ok u) = search (closed, build_rules)
    accepted-Quiet m (err x) = search (closed, build_rules)

    create_document_task-Quiet :
        (document : ℕ) (m : ModuleName) → Quiet (create_document_task document m org)
    unfolding create_document_task
    create_document_task-Quiet document m =
        Evolves-run closed _ (insert_task_for-Spares other document org m apart)

    pub create_task-Quiet :
        (document : ℕ) (m : ModuleName) → Quiet (DocumentTaskService.create document m org)
    unfolding DocumentTaskService.create
    create_task-Quiet document m =
        search (closed, build_rules, accepted-Quiet, create_document_task-Quiet, trigger-Quiet)

    pub update_status-Quiet :
        (id : ℕ) (status : TaskStatus) → Quiet (DocumentTaskService.update_status id org status)
    unfolding DocumentTaskService.update_status update_document_task_status
    update_status-Quiet id status = search (
      closed,
      build_rules,
      Evolves-run closed _ (write_owned_status-Spares other id org status apart),
    )

    delete_document_task-Quiet : (id : ℕ) → Quiet (delete_document_task id org)
    unfolding delete_document_task
    delete_document_task-Quiet id =
        Evolves-run closed _ (remove_owned_task-Spares other id org apart)

    pub delete_task-Quiet : (id : ℕ) → Quiet (DocumentTaskService.delete id org)
    unfolding DocumentTaskService.delete
    delete_task-Quiet id =
        search (closed, build_rules, delete_document_task-Quiet, unless_zero-Quiet)

    generate_from_password-Quiet : (text : String) → Quiet (generate_from_password text)
    unfolding generate_from_password
    generate_from_password-Quiet text = record { at = λ e w. closed.tick w }

    hash_of-Quiet : (h : Hashed) → Quiet (hash_of h)
    hash_of-Quiet (hashed h) = search (closed, build_rules)
    hash_of-Quiet too_long = search (closed, build_rules)
    hash_of-Quiet hash_failed = search (closed, build_rules)

    create_user-Quiet :
        (p : CreateUserParams) → p.organization_id ≡ some org → Quiet (create_user p)
    unfolding create_user
    create_user-Quiet p of_org = Evolves-run closed _ (insert_user-Spares other p org of_org apart)

    pub new_user-Quiet : (p : CreateParams) → p.org_id ≡ org → Quiet (UserService.create p)
    unfolding UserService.create
    new_user-Quiet p of_org = search (
      closed,
      build_rules,
      generate_from_password-Quiet,
      hash_of-Quiet,
      create_user-Quiet,
      ap some of_org,
    )

    check_new_role-Quiet : (role : Option Role) → Quiet (check_new_role role)
    check_new_role-Quiet none = search (closed, build_rules)
    check_new_role-Quiet (some r) = search (closed, build_rules)

    write_user-Quiet :
        (id : ℕ) (role : Option Role) (active : Option Bool)
        → Quiet (update_user id org role active)
    unfolding update_user
    write_user-Quiet id role active =
        Evolves-run closed _ (write_user-Spares other id org role active apart)

    pub update_user-Quiet :
        (id : ℕ) (role : Option Role) (active : Option Bool)
        → Quiet (UserService.update id org role active)
    unfolding UserService.update
    update_user-Quiet id role active =
        search (closed, build_rules, check_new_role-Quiet, write_user-Quiet)

pub ruleset quiet_rules = (
  create_document-Quiet, update_meta-Quiet, create_task-Quiet, update_status-Quiet,
  delete_task-Quiet, new_user-Quiet, update_user-Quiet,
)
