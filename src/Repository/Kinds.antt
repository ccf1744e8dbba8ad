-- ===== src/Repository/Kinds.antt =====
-- internal/repository/contract_kind.sql.go: the contract kinds of an organization and of the system.
use kpi_tenders_go.Prelude.{
  ℕ, suc, String, Bool, not, none, some, List, [], ◌∷◌, ◌++◌, ◌&&◌, ◌||◌, ◌==◌, str_eq, ltb,
  if◌then◌else◌, map, select, find, exists, update, count, sort_by,
}
use kpi_tenders_go.Errs.{unique_violation}
use kpi_tenders_go.Models.{Document, ContractKind, ComparisonSession, is_id}
use kpi_tenders_go.Effects.{Env, ok, err, Stmt, M, run}
use kpi_tenders_go.Repository.Documents.{first}
use kpi_tenders_go.Repository.Originals.{visible_to}

-- `ORDER BY sort_order ASC, display_name ASC`, with the collation of the database.
abbrev pub kind_order : Env → ContractKind → ContractKind → Bool
kind_order e j k =
    ltb j.sort_order k.sort_order
    || j.sort_order == k.sort_order && e.name_le j.display_name k.display_name

unfoldable pub list_contract_kinds_by_org : ℕ → M (List ContractKind)
list_contract_kinds_by_org org e w =
    run
      (λ now v. (
        ok (
            sort_by (kind_order e)
              (select (λ (k : ContractKind). visible_to k.organization_id org) v.contract_kinds)),
        v,
      ))
      e w

pub record KindParams : Type 0 where
  pub display_name : String
  pub sort_order : ℕ
  pub is_active : Bool

abbrev pub kind_row : ℕ → KindParams → ℕ → ℕ → ContractKind
kind_row org p id now = record {
  id = id;
  organization_id = some org;
  display_name = p.display_name;
  sort_order = p.sort_order;
  is_active = p.is_active;
  created_at = now;
  updated_at = now;
}

abbrev pub is_kind_of : ℕ → ℕ → ContractKind → Bool
is_kind_of id org k = k.id == id && is_id k.organization_id org

-- A row with that name in the organization: uq_contract_kinds_org_name.
abbrev pub has_kind_name : ℕ → String → ContractKind → Bool
has_kind_name org name k = is_id k.organization_id org && str_eq k.display_name name

unfoldable pub insert_kind : ℕ → KindParams → Stmt ContractKind
insert_kind org p now w =
    let k = kind_row org p w.next_id now in
    if exists (has_kind_name org p.display_name) w.contract_kinds
    then (err (unique_violation "uq_contract_kinds_org_name"), w)
    else (ok k, record w { contract_kinds = w.contract_kinds ++ k ∷ []; next_id = suc w.next_id })

unfoldable pub create_contract_kind : ℕ → KindParams → M ContractKind
create_contract_kind org p = run (insert_kind org p)

abbrev pub set_kind : KindParams → ℕ → ContractKind → ContractKind
set_kind p now k = record k {
  display_name = p.display_name;
  sort_order = p.sort_order;
  is_active = p.is_active;
  updated_at = now;
}

-- Another row of the organization that has the name already.
abbrev pub kind_name_taken : ℕ → ℕ → String → ContractKind → Bool
kind_name_taken id org name k = not (k.id == id) && has_kind_name org name k

unfoldable pub write_kind : ℕ → ℕ → KindParams → Stmt ContractKind
write_kind id org p now w =
    let rows = update (is_kind_of id org) (set_kind p now) w.contract_kinds in
    if exists (is_kind_of id org) w.contract_kinds
      && exists (kind_name_taken id org p.display_name) w.contract_kinds
    then (err (unique_violation "uq_contract_kinds_org_name"), w)
    else (first (find (is_kind_of id org) rows), record w { contract_kinds = rows })

unfoldable pub update_contract_kind : ℕ → ℕ → KindParams → M ContractKind
update_contract_kind id org p = run (write_kind id org p)

-- `ON DELETE SET NULL` of comparison_sessions.contract_kind_id and of documents.contract_kind_id.
abbrev pub clear_session_kind : ℕ → ComparisonSession → ComparisonSession
clear_session_kind id s = record s {
  contract_kind_id = if is_id s.contract_kind_id id then none else s.contract_kind_id;
}

abbrev pub clear_kind : ℕ → Document → Document
clear_kind id d = record d {
  contract_kind_id = if is_id d.contract_kind_id id then none else d.contract_kind_id;
}

unfoldable pub remove_kind : ℕ → ℕ → Stmt ℕ
remove_kind id org now w =
    if exists (is_kind_of id org) w.contract_kinds
    then (
      ok (count (is_kind_of id org) w.contract_kinds),
      record w {
        contract_kinds = select (λ (k : ContractKind). not (is_kind_of id org k)) w.contract_kinds;
        documents = map (clear_kind id) w.documents;
        comparison_sessions = map (clear_session_kind id) w.comparison_sessions;
      },
    )
    else (ok 0, w)

unfoldable pub delete_contract_kind : ℕ → ℕ → M ℕ
delete_contract_kind id org = run (remove_kind id org)
