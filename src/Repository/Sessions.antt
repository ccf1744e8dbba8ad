-- ===== src/Repository/Sessions.antt =====
-- internal/repository/comparison_session.sql.go: the comparison sessions of an organization and the
-- documents in them.
use kpi_tenders_go.Prelude.{
  ℕ, suc, String, Bool, true, not, Option, none, some, List, [], ◌∷◌, ◌++◌, ◌&&◌, ◌==◌, leb,
  if◌then◌else◌, select, find, exists, update, count, sort_by,
}
use kpi_tenders_go.Errs.{foreign_key_violation}
use kpi_tenders_go.Models.{ComparisonSession, ComparisonSessionDocument, ContractKind, User}
use kpi_tenders_go.Effects.{World, ok, err, Stmt, M, run}
use kpi_tenders_go.Repository.Documents.{first, has_id_org}
use kpi_tenders_go.Repository.Accounts.{org_exists, is_session_in}

pub record SessionParams : Type 0 where
  pub organization_id : ℕ
  pub created_by : Option ℕ
  pub name : Option String
  pub contract_kind_id : Option ℕ

abbrev pub session_row : SessionParams → ℕ → ℕ → ComparisonSession
session_row p id now = record {
  id = id;
  organization_id = p.organization_id;
  created_by = p.created_by;
  name = p.name;
  contract_kind_id = p.contract_kind_id;
  created_at = now;
}

-- The foreign keys of comparison_sessions on users and document_contract_kinds.
abbrev pub user_exists : Option ℕ → World → Bool
user_exists none w = true
user_exists (some i) w = exists (λ (u : User). u.id == i) w.users

abbrev pub kind_exists : Option ℕ → World → Bool
kind_exists none w = true
kind_exists (some i) w = exists (λ (k : ContractKind). k.id == i) w.contract_kinds

abbrev pub session_references : SessionParams → World → Bool
session_references p w =
    org_exists (some p.organization_id) w
    && user_exists p.created_by w
    && kind_exists p.contract_kind_id w

unfoldable pub insert_session : SessionParams → Stmt ComparisonSession
insert_session p now w =
    let s = session_row p w.next_id now in
    if session_references p w
    then (
      ok s,
      record w { comparison_sessions = w.comparison_sessions ++ s ∷ []; next_id = suc w.next_id },
    )
    else (err (foreign_key_violation "comparison_sessions"), w)

unfoldable pub create_comparison_session : SessionParams → M ComparisonSession
create_comparison_session p = run (insert_session p)

abbrev pub is_session_of : ℕ → ℕ → ComparisonSession → Bool
is_session_of id org s = s.id == id && is_session_in org s

unfoldable pub get_comparison_session : ℕ → ℕ → M ComparisonSession
get_comparison_session id org =
    run (λ now w. (first (find (is_session_of id org) w.comparison_sessions), w))

-- `ORDER BY created_at DESC`.
abbrev pub newest_session_first : ComparisonSession → ComparisonSession → Bool
newest_session_first s t = leb t.created_at s.created_at

unfoldable pub list_comparison_sessions_by_org : ℕ → M (List ComparisonSession)
list_comparison_sessions_by_org org = run (λ now w.
    (ok (sort_by newest_session_first (select (is_session_in org) w.comparison_sessions)), w))

-- The documents of a session go with it.
unfoldable pub remove_session : ℕ → ℕ → Stmt ℕ
remove_session id org now w =
    if exists (is_session_of id org) w.comparison_sessions
    then (
      ok (count (is_session_of id org) w.comparison_sessions),
      record w {
        comparison_sessions = select (λ s. not (is_session_of id org s)) w.comparison_sessions;
        session_documents =
            select (λ (p : ComparisonSessionDocument). not (p.session_id == id))
              w.session_documents;
      },
    )
    else (ok 0, w)

unfoldable pub delete_comparison_session : ℕ → ℕ → M ℕ
delete_comparison_session id org = run (remove_session id org)

-- The primary key of comparison_session_documents.
abbrev pub is_place : ℕ → ℕ → ComparisonSessionDocument → Bool
is_place session document p = p.session_id == session && p.document_id == document

abbrev pub set_position : ℕ → ComparisonSessionDocument → ComparisonSessionDocument
set_position position p = record p { position = position }

abbrev pub place_row : ℕ → ℕ → ℕ → ℕ → ComparisonSessionDocument
place_row session document org position = record {
  session_id = session;
  document_id = document;
  organization_id = org;
  position = position;
}

-- The foreign keys of comparison_session_documents: the one on documents has the organization in it,
-- the one on comparison_sessions has not.
abbrev pub place_references : ℕ → ℕ → ℕ → World → Bool
place_references session document org w =
    exists (λ (s : ComparisonSession). s.id == session) w.comparison_sessions
    && exists (has_id_org document org) w.documents

-- `ON CONFLICT (session_id, document_id) DO UPDATE` writes the position only.
unfoldable pub upsert_place : ℕ → ℕ → ℕ → ℕ → Stmt ComparisonSessionDocument
upsert_place session document org position now w =
    let rows = update (is_place session document) (set_position position) w.session_documents in
    let p = place_row session document org position in
    if exists (is_place session document) w.session_documents
    then (first (find (is_place session document) rows), record w { session_documents = rows })
    else if place_references session document org w
    then (ok p, record w { session_documents = w.session_documents ++ p ∷ [] })
    else (err (foreign_key_violation "comparison_session_documents"), w)

unfoldable pub add_document_to_comparison_session : ℕ → ℕ → ℕ → ℕ → M ComparisonSessionDocument
add_document_to_comparison_session session document org position =
    run (upsert_place session document org position)

abbrev pub is_place_of : ℕ → ℕ → ℕ → ComparisonSessionDocument → Bool
is_place_of session document org p = is_place session document p && p.organization_id == org

unfoldable pub remove_place : ℕ → ℕ → ℕ → Stmt ℕ
remove_place session document org now w = (
  ok (count (is_place_of session document org) w.session_documents),
  record w {
    session_documents = select (λ p. not (is_place_of session document org p)) w.session_documents;
  },
)

unfoldable pub remove_document_from_comparison_session : ℕ → ℕ → ℕ → M ℕ
remove_document_from_comparison_session session document org =
    run (remove_place session document org)

abbrev pub is_place_in : ℕ → ℕ → ComparisonSessionDocument → Bool
is_place_in session org p = p.session_id == session && p.organization_id == org

-- `ORDER BY position ASC`.
abbrev pub by_position : ComparisonSessionDocument → ComparisonSessionDocument → Bool
by_position p q = leb p.position q.position

unfoldable pub list_comparison_session_documents : ℕ → ℕ → M (List ComparisonSessionDocument)
list_comparison_session_documents session org =
    run (λ now w.
      (ok (sort_by by_position (select (is_place_in session org) w.session_documents)), w))
