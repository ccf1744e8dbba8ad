-- ===== src/Tenants/DirectoryWrites.antt =====
-- What the statements on one organization's contract kinds and file roles leave of another
-- organization's rows.
use kpi_tenders_go.Prelude.{
  ℕ, suc, true, false, Option, some, none, List, [], ◌∷◌, ◌++◌, ◌≡◌, refl, sym, ◌≤◌, ◌==◌, arith,
  exists, ◌&&◌, update, select, select-append_false, select-update_other, and_snd,
}
use kpi_tenders_go.Models.{ContractKind, FileRole, is_id}
use kpi_tenders_go.Effects.{World}
use kpi_tenders_go.Effects.Evolves.{Keeps, branches}
use kpi_tenders_go.Repository.Originals.{visible_to}
use kpi_tenders_go.Repository.Kinds.{
  KindParams, insert_kind, kind_row, has_kind_name, write_kind, is_kind_of, set_kind,
  kind_name_taken,
}
use kpi_tenders_go.Repository.Roles.{
  FileRoleParams, insert_role, role_row, has_role_name, write_role, is_role_of, set_role,
  role_name_taken,
}
use kpi_tenders_go.Tenants.View.{kind_for, role_for}
use kpi_tenders_go.Tenants.Writes.{Spares, Spares-Closed}

-- A row of one organization is not one that another sees.
owned-unseen :
    (o : Option ℕ) (org other : ℕ)
    → (org == other) ≡ false
    → is_id o org ≡ true
    → visible_to o other ≡ false
owned-unseen none org other apart h = ground (arith, h)
owned-unseen (some i) org other apart h = ground (arith, apart, h)

module _ (other : ℕ) where
  kinds-Spares :
      (ks : List ContractKind) (w : World) (n : ℕ)
      → w.next_id ≤ n
      → select (kind_for other) w.contract_kinds ≡ select (kind_for other) ks
      → Spares other w (record w { contract_kinds = ks; next_id = n })
  kinds-Spares ks w n later same k = (
    record {
      documents = refl;
      tasks = refl;
      users = refl;
      sites = refl;
      contract_kinds = same;
      file_roles = refl;
      requests = refl;
      keys = refl;
      extracted = refl;
    },
    λ id. ground (arith, k id, later),
  )

  roles-Spares :
      (rs : List FileRole) (w : World) (n : ℕ)
      → w.next_id ≤ n
      → select (role_for other) w.file_roles ≡ select (role_for other) rs
      → Spares other w (record w { file_roles = rs; next_id = n })
  roles-Spares rs w n later same k = (
    record {
      documents = refl;
      tasks = refl;
      users = refl;
      sites = refl;
      contract_kinds = refl;
      file_roles = same;
      requests = refl;
      keys = refl;
      extracted = refl;
    },
    λ id. ground (arith, k id, later),
  )

  module _ (org : ℕ) (apart : (org == other) ≡ false) where
    pub insert_kind-Spares : (p : KindParams) → Keeps (Spares other) (insert_kind org p)
    unfolding insert_kind
    insert_kind-Spares p = record {
      at = λ now w.
          branches (Spares other) (exists (has_kind_name org p.display_name) w.contract_kinds) w _ _
            (λ taken. (Spares-Closed other).same w)
            (λ new.
              kinds-Spares (w.contract_kinds ++ kind_row org p w.next_id now ∷ []) w (suc w.next_id)
                (omega arith)
                (sym (
                  select-append_false (kind_for other) w.contract_kinds
                    (kind_row org p w.next_id now) (ground (arith, apart)))));
    }

    pub write_kind-Spares : (id : ℕ) (p : KindParams) → Keeps (Spares other) (write_kind id org p)
    unfolding write_kind
    write_kind-Spares id p = record {
      at = λ now w.
          branches (Spares other)
            (exists (is_kind_of id org) w.contract_kinds
              && exists (kind_name_taken id org p.display_name) w.contract_kinds)
            w _ _ (λ taken. (Spares-Closed other).same w)
            (λ new.
              kinds-Spares (update (is_kind_of id org) (set_kind p now) w.contract_kinds) w
                w.next_id (omega arith)
                (sym (
                  select-update_other (is_kind_of id org) (kind_for other) (set_kind p now)
                    (λ k. refl)
                    (λ k h.
                      owned-unseen k.organization_id org other apart (and_snd (k.id == id) _ h))
                    w.contract_kinds)));
    }

    pub insert_role-Spares : (p : FileRoleParams) → Keeps (Spares other) (insert_role org p)
    unfolding insert_role
    insert_role-Spares p = record {
      at = λ now w.
          branches (Spares other) (exists (has_role_name org p.display_name) w.file_roles) w _ _
            (λ taken. (Spares-Closed other).same w)
            (λ new.
              roles-Spares (w.file_roles ++ role_row org p w.next_id now ∷ []) w (suc w.next_id)
                (omega arith)
                (sym (
                  select-append_false (role_for other) w.file_roles (role_row org p w.next_id now)
                    (ground (arith, apart)))));
    }

    pub write_role-Spares :
        (id : ℕ) (p : FileRoleParams) → Keeps (Spares other) (write_role id org p)
    unfolding write_role
    write_role-Spares id p = record {
      at = λ now w.
          branches (Spares other)
            (exists (is_role_of id org) w.file_roles
              && exists (role_name_taken id org p.display_name) w.file_roles)
            w _ _ (λ taken. (Spares-Closed other).same w)
            (λ new.
              roles-Spares (update (is_role_of id org) (set_role p now) w.file_roles) w w.next_id
                (omega arith)
                (sym (
                  select-update_other (is_role_of id org) (role_for other) (set_role p now)
                    (λ r. refl)
                    (λ r h.
                      owned-unseen r.organization_id org other apart (and_snd (r.id == id) _ h))
                    w.file_roles)));
    }
