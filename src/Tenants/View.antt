-- ===== src/Tenants/View.antt =====
-- What belongs to one organization: its rows, and the rows of the system.
use kpi_tenders_go.Prelude.{
  ℕ, Bool, suc, ◌≡◌, refl, ap, ◌∙◌, ◌==◌, ltb, ◌≤◌, if◌then◌else◌, count, select,
}
use kpi_tenders_go.Models.{
  User, Site, ContractKind, FileRole, ExtractionRequest, ExtractionKey, ExtractedDatum, is_id,
}
use kpi_tenders_go.Effects.{World, counted}
use kpi_tenders_go.Repository.Documents.{has_id}
use kpi_tenders_go.Repository.Originals.{visible_to}
use kpi_tenders_go.Repository.Owned.{owns}
use kpi_tenders_go.Repository.Accounts.{is_document_of}
use kpi_tenders_go.Effects.Evolves.{Closed}

abbrev pub user_of : ℕ → User → Bool
user_of org u = is_id u.organization_id org

abbrev pub site_of : ℕ → Site → Bool
site_of org s = s.organization_id == org

abbrev pub kind_for : ℕ → ContractKind → Bool
kind_for org k = visible_to k.organization_id org

abbrev pub role_for : ℕ → FileRole → Bool
role_for org r = visible_to r.organization_id org

abbrev pub request_of : ℕ → ExtractionRequest → Bool
request_of org r = r.organization_id == org

abbrev pub key_of : ℕ → ExtractionKey → Bool
key_of org k = visible_to k.organization_id org

abbrev pub datum_of : ℕ → ExtractedDatum → Bool
datum_of org x = x.organization_id == org

-- Two worlds hold the same rows for the organization, in the same order (its comparison sessions and
-- invitations aside).
pub record SameRows (org : ℕ) (v w : World) : Type 0 where
  pub documents : select (is_document_of org) v.documents ≡ select (is_document_of org) w.documents
  pub tasks : select (owns org v.documents) v.tasks ≡ select (owns org w.documents) w.tasks
  pub users : select (user_of org) v.users ≡ select (user_of org) w.users
  pub sites : select (site_of org) v.sites ≡ select (site_of org) w.sites
  pub contract_kinds :
      select (kind_for org) v.contract_kinds ≡ select (kind_for org) w.contract_kinds
  pub file_roles : select (role_for org) v.file_roles ≡ select (role_for org) w.file_roles
  pub requests : select (request_of org) v.requests ≡ select (request_of org) w.requests
  pub keys : select (key_of org) v.keys ≡ select (key_of org) w.keys
  pub extracted : select (datum_of org) v.extracted ≡ select (datum_of org) w.extracted

-- The primary key of the documents, and that identifiers are given in order.
abbrev pub IsKeyed : World → Type 0
IsKeyed w = (id : ℕ) → count (has_id id) w.documents ≤ (if ltb id w.next_id then 1 else 0)

-- And they have made the same number of calls.
pub record SameView (org : ℕ) (v w : World) : Type 0 where
  pub left : IsKeyed v
  pub right : IsKeyed w
  pub rows : SameRows org v w
  pub calls : v.calls ≡ w.calls

pub SameRows-Closed : (org : ℕ) → Closed (SameRows org)
SameRows-Closed org = record {
  same = λ w. record {
    documents = refl;
    tasks = refl;
    users = refl;
    sites = refl;
    contract_kinds = refl;
    file_roles = refl;
    requests = refl;
    keys = refl;
    extracted = refl;
  };
  chain = λ u v w a b. record {
    documents = a.documents ∙ b.documents;
    tasks = a.tasks ∙ b.tasks;
    users = a.users ∙ b.users;
    sites = a.sites ∙ b.sites;
    contract_kinds = a.contract_kinds ∙ b.contract_kinds;
    file_roles = a.file_roles ∙ b.file_roles;
    requests = a.requests ∙ b.requests;
    keys = a.keys ∙ b.keys;
    extracted = a.extracted ∙ b.extracted;
  };
  tick = λ w. record {
    documents = refl;
    tasks = refl;
    users = refl;
    sites = refl;
    contract_kinds = refl;
    file_roles = refl;
    requests = refl;
    keys = refl;
    extracted = refl;
  };
}

pub SameView-counted :
    (org : ℕ) (v w : World) → SameView org v w → SameView org (counted v) (counted w)
SameView-counted org v w h = record {
  rows = record {
    documents = h.rows.documents;
    tasks = h.rows.tasks;
    users = h.rows.users;
    sites = h.rows.sites;
    contract_kinds = h.rows.contract_kinds;
    file_roles = h.rows.file_roles;
    requests = h.rows.requests;
    keys = h.rows.keys;
    extracted = h.rows.extracted;
  };
  calls = ap suc h.calls;
  left = h.left;
  right = h.right;
}
