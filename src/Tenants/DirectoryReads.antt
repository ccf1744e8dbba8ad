-- ===== src/Tenants/DirectoryReads.antt =====
-- The queries of the contract kinds and file roles that an organization sees.
use kpi_tenders_go.Prelude.{ℕ, ap, sort_by, select}
use kpi_tenders_go.Effects.{ok}
use kpi_tenders_go.Repository.Kinds.{kind_order, list_contract_kinds_by_org}
use kpi_tenders_go.Repository.Roles.{role_order, list_file_roles_by_org}
use kpi_tenders_go.Tenants.View.{kind_for, role_for}
use kpi_tenders_go.Tenants.Local.{Exact, Exact-query}

module _ (org : ℕ) where
  pub list_kinds-Exact : Exact org (list_contract_kinds_by_org org)
  unfolding list_contract_kinds_by_org
  list_kinds-Exact = record {
    at = λ e.
        (Exact-query org (λ v. ok (sort_by (kind_order e) (select (kind_for org) v.contract_kinds)))
            (λ v w same. ap (λ ks. ok (sort_by (kind_order e) ks)) same.rows.contract_kinds)).at
          e;
  }

  pub list_roles-Exact : Exact org (list_file_roles_by_org org)
  unfolding list_file_roles_by_org
  list_roles-Exact = record {
    at = λ e.
        (Exact-query org (λ v. ok (sort_by (role_order e) (select (role_for org) v.file_roles)))
            (λ v w same. ap (λ rs. ok (sort_by (role_order e) rs)) same.rows.file_roles)).at
          e;
  }

pub ruleset directory_read_rules = (list_kinds-Exact, list_roles-Exact)
