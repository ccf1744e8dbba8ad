-- ===== src/Repository/Documents.antt =====
-- internal/repository/document.sql.go.
use Prim.Native.Char.{code}
use kpi_tenders_go.Prelude.{
  ℕ, suc, String, Bool, true, false, not, Option, none, some, List, [], ◌∷◌, ◌++◌, ◌&&◌, ◌||◌, ◌==◌,
  leb, if◌then◌else◌, select, find, exists, update, sort_by,
}
use kpi_tenders_go.Errs.{no_rows, plain, check_violation}
use kpi_tenders_go.Models.{Document, ArtifactKind, User, Site, is_id, is_kind, is_null}
use kpi_tenders_go.Effects.{World, Result, ok, err, Stmt, M, run}

-- What a query of one row answers.
abbrev pub first : {A : Type 0} → Option A → Result A
first none = err no_rows
first (some a) = ok a

abbrev pub has_id : ℕ → Document → Bool
has_id id d = d.id == id

abbrev pub has_id_org : ℕ → ℕ → Document → Bool
has_id_org id org d = d.id == id && d.organization_id == org

abbrev pub is_child : ℕ → ℕ → Document → Bool
is_child parent org d = is_id d.parent_id parent && d.organization_id == org

abbrev pub oldest_first : Document → Document → Bool
oldest_first c d = leb c.created_at d.created_at

unfoldable pub get_document : ℕ → ℕ → M Document
get_document id org = run λ now w. (first (find (has_id_org id org) w.documents), w)

unfoldable pub get_document_by_id : ℕ → M Document
get_document_by_id id = run λ now w. (first (find (has_id id) w.documents), w)

unfoldable pub list_documents_by_parent : ℕ → ℕ → M (List Document)
list_documents_by_parent parent org =
    run λ now w. (ok (sort_by oldest_first (select (is_child parent org) w.documents)), w)

pub record ArtifactParams : Type 0 where
  pub organization_id : ℕ
  pub site_id : Option ℕ
  pub uploaded_by : ℕ
  pub parent_id : ℕ
  pub file_name : String
  pub storage_path : String
  pub mime_type : Option String
  pub file_size_bytes : Option ℕ
  pub artifact_kind : ArtifactKind

-- `btrim(text) = ''`.
unfoldable pub is_blank : String → Bool
is_blank String.[] = true
is_blank (String.◌∷◌ c s) = code c == b' ' && is_blank s

-- The trigger check_document_org_isolation: the uploader, the site and the parent are of the
-- document's organization.
abbrev pub is_user_of : ℕ → ℕ → User → Bool
is_user_of id org u = u.id == id && is_id u.organization_id org

abbrev pub is_site_of : ℕ → ℕ → Site → Bool
is_site_of id org s = s.id == id && s.organization_id == org

abbrev pub site_in : Option ℕ → ℕ → World → Bool
site_in none org w = true
site_in (some id) org w = exists (is_site_of id org) w.sites

abbrev pub document_in : Option ℕ → ℕ → World → Bool
document_in none org w = true
document_in (some id) org w = exists (has_id_org id org) w.documents

abbrev pub isolated : Document → World → Bool
isolated d w =
    exists (is_user_of d.uploaded_by d.organization_id) w.users
    && site_in d.site_id d.organization_id w
    && document_in d.parent_id d.organization_id w

abbrev pub is_named_kind : Option ArtifactKind → Bool
is_named_kind (some (ArtifactKind.other_kind s)) = not (is_blank s)
is_named_kind (some k) = true
is_named_kind none = false

-- documents_parent_artifact_kind_chk.
abbrev pub parent_kind_chk : Document → Bool
parent_kind_chk d =
    is_null d.parent_id && is_null d.artifact_kind
    || not (is_null d.parent_id) && is_named_kind d.artifact_kind

-- The unique index on (parent_id, artifact_kind).
abbrev pub is_artifact : ℕ → ArtifactKind → Document → Bool
is_artifact parent kind d = is_id d.parent_id parent && is_kind d.artifact_kind kind

abbrev pub artifact_row : ArtifactParams → ℕ → ℕ → Document
artifact_row p id now = record {
  id = id;
  organization_id = p.organization_id;
  site_id = p.site_id;
  uploaded_by = p.uploaded_by;
  parent_id = some p.parent_id;
  file_name = p.file_name;
  storage_path = p.storage_path;
  mime_type = p.mime_type;
  file_size_bytes = p.file_size_bytes;
  artifact_kind = some p.artifact_kind;
  created_at = now;
  updated_at = now;
  contract_kind_id = none;
  file_role_id = none;
  bundle_id = none;
}

-- `DO UPDATE SET ...`.
abbrev pub refresh_artifact : ArtifactParams → ℕ → Document → Document
refresh_artifact p now d = record d {
  file_name = p.file_name;
  storage_path = p.storage_path;
  mime_type = p.mime_type;
  file_size_bytes = p.file_size_bytes;
  updated_at = now;
}

abbrev insert_artifact : ArtifactParams → ℕ → World → Result Document × World
insert_artifact p now w =
    let d = artifact_row p w.next_id now in
    (ok d, record w { documents = w.documents ++ d ∷ []; next_id = suc w.next_id })

-- The trigger looks at the row that the update writes, too.
abbrev update_artifact : ArtifactParams → ℕ → World → Result Document × World
update_artifact p now w =
    let same = is_artifact p.parent_id p.artifact_kind in
    let rows = update same (refresh_artifact p now) w.documents in
    if exists (λ (d : Document). same d && not (isolated d w)) w.documents
    then (err (plain "uploaded_by, site_id or parent_id does not belong to organization"), w)
    else (first (find same rows), record w { documents = rows })

-- The trigger looks at the row to insert before a conflict is found; then the row is inserted, or the
-- artifact of this parent and kind is refreshed.
unfoldable pub upsert_artifact : ArtifactParams → Stmt Document
upsert_artifact p now w =
    let d = artifact_row p w.next_id now in
    if isolated d w
    then if parent_kind_chk d
      then if exists (is_artifact p.parent_id p.artifact_kind) w.documents
        then update_artifact p now w
        else insert_artifact p now w
      else (err (check_violation "documents_parent_artifact_kind_chk"), w)
    else (err (plain "uploaded_by, site_id or parent_id does not belong to organization"), w)

unfoldable pub create_artifact_document : ArtifactParams → M Document
create_artifact_document p = run (upsert_artifact p)
