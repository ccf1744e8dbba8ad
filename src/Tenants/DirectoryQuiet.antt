-- ===== src/Tenants/DirectoryQuiet.antt =====
-- The operations on contract kinds and file roles under the relation that spares another
-- organization's rows.
use kpi_tenders_go.Prelude.{ℕ, false, ◌≡◌, ◌==◌}
use kpi_tenders_go.Effects.Evolves.{Evolves-run, build_rules}
use kpi_tenders_go.Repository.Kinds.{KindParams, create_contract_kind, update_contract_kind}
use kpi_tenders_go.Repository.Roles.{FileRoleParams, create_file_role, update_file_role}
use kpi_tenders_go.ContractKindService
use kpi_tenders_go.FileRoleService
use kpi_tenders_go.Tenants.DirectoryWrites.{
  insert_kind-Spares, write_kind-Spares, insert_role-Spares, write_role-Spares,
}
use kpi_tenders_go.Tenants.Quiet.{Quiet, closed}

module _ (other org : ℕ) (apart : (org == other) ≡ false) where
  pub create_kind-Quiet : (p : KindParams) → Quiet other (ContractKindService.create org p)
  unfolding ContractKindService.create create_contract_kind
  create_kind-Quiet p =
      search
        (closed, build_rules, Evolves-run (closed other) _ (insert_kind-Spares other org apart p))

  pub update_kind-Quiet :
      (id : ℕ) (p : KindParams) → Quiet other (ContractKindService.update id org p)
  unfolding ContractKindService.update update_contract_kind
  update_kind-Quiet id p =
      search
        (closed, build_rules, Evolves-run (closed other) _ (write_kind-Spares other org apart id p))

  pub create_role-Quiet : (p : FileRoleParams) → Quiet other (FileRoleService.create org p)
  unfolding FileRoleService.create create_file_role
  create_role-Quiet p =
      search
        (closed, build_rules, Evolves-run (closed other) _ (insert_role-Spares other org apart p))

  pub update_role-Quiet :
      (id : ℕ) (p : FileRoleParams) → Quiet other (FileRoleService.update id org p)
  unfolding FileRoleService.update update_file_role
  update_role-Quiet id p =
      search
        (closed, build_rules, Evolves-run (closed other) _ (write_role-Spares other org apart id p))

pub ruleset directory_quiet_rules =
    (create_kind-Quiet, update_kind-Quiet, create_role-Quiet, update_role-Quiet)
