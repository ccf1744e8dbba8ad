-- ===== src/Repository/Originals.antt =====
-- internal/repository/document.sql.go, the queries of the document service: the documents that a user
-- uploads, their lists, their classification and their deletion.
use kpi_tenders_go.Prelude.{
  ℕ, suc, String, Bool, true, false, not, Option, none, some, List, [], ◌∷◌, ◌++◌, ◌&&◌, ◌||◌, ◌==◌,
  leb, if◌then◌else◌, map, select, find, exists, update, count, sort_by,
}
use kpi_tenders_go.Errs.{no_rows, plain, check_violation, unique_violation}
use kpi_tenders_go.Models.{
  Document, DocumentTask, ExtractionRequest, ExtractedDatum, ContractKind, FileRole,
  ComparisonSessionDocument, ArtifactKind, is_id, is_null,
}
use kpi_tenders_go.Effects.{World, Result, ok, err, Stmt, M, run}
use kpi_tenders_go.Repository.Documents.{
  isolated, parent_kind_chk, document_in, first, has_id_org, is_artifact,
}
use kpi_tenders_go.Repository.Tasks.{coalesce_null}

pub record CreateDocumentParams : Type 0 where
  pub organization_id : ℕ
  pub site_id : Option ℕ
  pub uploaded_by : ℕ
  pub parent_id : Option ℕ
  pub file_name : String
  pub storage_path : String
  pub mime_type : Option String
  pub file_size_bytes : Option ℕ
  pub artifact_kind : Option ArtifactKind

abbrev pub document_row : CreateDocumentParams → ℕ → ℕ → Document
document_row p id now = record {
  id = id;
  organization_id = p.organization_id;
  site_id = p.site_id;
  uploaded_by = p.uploaded_by;
  parent_id = p.parent_id;
  file_name = p.file_name;
  storage_path = p.storage_path;
  mime_type = p.mime_type;
  file_size_bytes = p.file_size_bytes;
  artifact_kind = p.artifact_kind;
  created_at = now;
  updated_at = now;
  contract_kind_id = none;
  file_role_id = none;
  bundle_id = none;
}

-- The unique index on (parent_id, artifact_kind).
abbrev pub repeats_artifact : Document → Document → Bool
repeats_artifact d c = elim d.parent_id [
  | none ↦ false
  | some parent ↦ elim d.artifact_kind [ none ↦ false | some kind ↦ is_artifact parent kind c ]
]

unfoldable pub insert_document : CreateDocumentParams → Stmt Document
insert_document p now w =
    let d = document_row p w.next_id now in
    if isolated d w
    then if parent_kind_chk d
      then if exists (repeats_artifact d) w.documents
        then (err (unique_violation "idx_documents_artifact_kind"), w)
        else (ok d, record w { documents = w.documents ++ d ∷ []; next_id = suc w.next_id })
      else (err (check_violation "documents_parent_artifact_kind_chk"), w)
    else (err (plain "uploaded_by, site_id or parent_id does not belong to organization"), w)

unfoldable pub create_document : CreateDocumentParams → M Document
create_document p = run (insert_document p)

abbrev pub is_root_of : ℕ → Document → Bool
is_root_of org d = d.organization_id == org && is_null d.parent_id

abbrev pub is_root_at : ℕ → ℕ → Document → Bool
is_root_at org site d = d.organization_id == org && is_id d.site_id site && is_null d.parent_id

abbrev pub newest_first : Document → Document → Bool
newest_first c d = leb d.created_at c.created_at

unfoldable pub list_root_documents_by_organization : ℕ → M (List Document)
list_root_documents_by_organization org =
    run λ now w. (ok (sort_by newest_first (select (is_root_of org) w.documents)), w)

unfoldable pub list_root_documents_by_site : ℕ → ℕ → M (List Document)
list_root_documents_by_site org site =
    run λ now w. (ok (sort_by newest_first (select (is_root_at org site) w.documents)), w)

pub record MetaParams : Type 0 where
  pub id : ℕ
  pub organization_id : ℕ
  pub contract_kind_id : Option ℕ
  pub file_role_id : Option ℕ
  pub bundle_id : Option ℕ

-- `WHERE id = $1 AND organization_id = $2 AND parent_id IS NULL`.
abbrev pub is_meta_target : MetaParams → Document → Bool
is_meta_target p d = d.id == p.id && d.organization_id == p.organization_id && is_null d.parent_id

abbrev pub set_meta : MetaParams → ℕ → Document → Document
set_meta p now d = record d {
  contract_kind_id = coalesce_null p.contract_kind_id d.contract_kind_id;
  file_role_id = coalesce_null p.file_role_id d.file_role_id;
  bundle_id = coalesce_null p.bundle_id d.bundle_id;
  updated_at = now;
}

-- `organization_id = org OR organization_id IS NULL`.
abbrev pub visible_to : Option ℕ → ℕ → Bool
visible_to owner org = is_id owner org || is_null owner

abbrev pub is_kind_for : ℕ → ℕ → ContractKind → Bool
is_kind_for id org k = k.id == id && visible_to k.organization_id org

abbrev pub is_role_for : ℕ → ℕ → FileRole → Bool
is_role_for id org r = r.id == id && visible_to r.organization_id org

unfoldable pub get_contract_kind : ℕ → ℕ → M ContractKind
get_contract_kind id org = run λ now w. (first (find (is_kind_for id org) w.contract_kinds), w)

unfoldable pub get_file_role : ℕ → ℕ → M FileRole
get_file_role id org = run λ now w. (first (find (is_role_for id org) w.file_roles), w)

abbrev kind_in : Option ℕ → ℕ → World → Bool
kind_in none org w = true
kind_in (some id) org w = exists (is_kind_for id org) w.contract_kinds

abbrev role_in : Option ℕ → ℕ → World → Bool
role_in none org w = true
role_in (some id) org w = exists (is_role_for id org) w.file_roles

-- The trigger check_document_kind_role_org.
abbrev pub classified : Document → World → Bool
classified d w =
    kind_in d.contract_kind_id d.organization_id w
    && role_in d.file_role_id d.organization_id w
    && document_in d.bundle_id d.organization_id w

abbrev pub write_meta : MetaParams → ℕ → World → Option Document → Result Document × World
write_meta p now w none = (err no_rows, w)
write_meta p now w (some d) =
    let d' = set_meta p now d in
    if isolated d' w && classified d' w
    then if is_id d'.bundle_id d'.id
      then (err (check_violation "documents_bundle_self_ref_chk"), w)
      else (ok d', record w { documents = update (is_meta_target p) (set_meta p now) w.documents })
    else (err (plain "a classification does not belong to organization"), w)

unfoldable pub update_document_meta : MetaParams → M Document
update_document_meta p = run λ now w. write_meta p now w (find (is_meta_target p) w.documents)

abbrev pub among : List ℕ → ℕ → Bool
among ids i = exists (λ j. j == i) ids

abbrev pub has_parent_among : List ℕ → Document → Bool
has_parent_among ids d = elim d.parent_id [ none ↦ false | some i ↦ among ids i ]

-- `ON DELETE CASCADE` along parent_id: the documents with one of the ids above them. A document
-- is inserted after its parent, so that one pass finds them all.
abbrev pub descendants : List ℕ → List Document → List ℕ
descendants ids [] = ids
descendants ids (d ∷ ds) = descendants (if has_parent_among ids d then d.id ∷ ids else ids) ds

-- `ON DELETE SET NULL` of bundle_id.
abbrev pub clear_bundle : List ℕ → Document → Document
clear_bundle ids d = record d {
  bundle_id = elim d.bundle_id [ none ↦ none | some i ↦ if among ids i then none else some i ];
}

abbrev pub in_gone_request : List ℕ → World → DocumentTask → Bool
in_gone_request ids w t =
    exists
      (λ (r : ExtractionRequest). among ids r.document_id && is_id t.extraction_request_id r.id)
      w.requests

-- The rows that go with the documents: tasks, requests, extracted values and
-- their places in comparison sessions.
abbrev pub without_documents : List ℕ → World → World
without_documents ids w = record w {
  documents = map (clear_bundle ids) (select (λ (d : Document). not (among ids d.id)) w.documents);
  tasks =
      select (λ (t : DocumentTask). not (among ids t.document_id || in_gone_request ids w t))
        w.tasks;
  requests = select (λ (r : ExtractionRequest). not (among ids r.document_id)) w.requests;
  extracted = select (λ (x : ExtractedDatum). not (among ids x.document_id)) w.extracted;
  session_documents =
      select (λ (p : ComparisonSessionDocument). not (among ids p.document_id)) w.session_documents;
}

-- `DELETE FROM documents WHERE id = $1 AND organization_id = $2`, and the number of rows.
unfoldable pub remove_document : ℕ → ℕ → Stmt ℕ
remove_document id org now w =
    if exists (has_id_org id org) w.documents
    then (
      ok (count (has_id_org id org) w.documents),
      without_documents (descendants (id ∷ []) w.documents) w,
    )
    else (ok 0, w)

unfoldable pub delete_document : ℕ → ℕ → M ℕ
delete_document id org = run (remove_document id org)
