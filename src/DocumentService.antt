-- ===== src/DocumentService.antt =====
-- internal/service/service_document.go: the documents of an organization.
use Prim.Native.Char.{code}
use Prim.Native.String.{◌++◌ as text_append}
use kpi_tenders_go.Prelude.{ℕ, String, Bool, Option, none, some, List, ◌||◌, ◌==◌, if◌then◌else◌}
use kpi_tenders_go.Errs.{
  Error, app, app_of, not_found, internal_error, validation_failed, is_no_rows, internal,
  missing_as,
}
use kpi_tenders_go.Models.{Document, is_null}
use kpi_tenders_go.Effects.{Env, M, pure, throw, ◌>>=◌, ◌>>◌, map_error, asks}
use kpi_tenders_go.Repository.Documents.{get_document, get_document_by_id, list_documents_by_parent}
use kpi_tenders_go.Repository.Originals.{
  CreateDocumentParams, create_document, list_root_documents_by_organization,
  list_root_documents_by_site, MetaParams, get_contract_kind, get_file_role, update_document_meta,
  delete_document,
}

unfoldable pub create : CreateDocumentParams → M Document
create p = map_error internal (create_document p)

unfoldable pub get : ℕ → ℕ → M Document
get id org = map_error (missing_as "document not found") (get_document id org)

unfoldable pub list_by_organization : ℕ → M (List Document)
list_by_organization org = map_error internal (list_root_documents_by_organization org)

unfoldable pub list_by_site : ℕ → ℕ → M (List Document)
list_by_site org site = map_error internal (list_root_documents_by_site org site)

unfoldable pub list_by_parent : ℕ → ℕ → M (List Document)
list_by_parent parent org = map_error internal (list_documents_by_parent parent org)

-- `if rows == 0 { 404 }`.
abbrev pub unless_zero : String → ℕ → M (Unit {0})
unless_zero msg rows = if rows == 0 then throw (app not_found msg) else pure tt

unfoldable pub delete : ℕ → ℕ → M (Unit {0})
delete id org = map_error internal (delete_document id org) >>= unless_zero "document not found"

abbrev pub is_unsafe : ℕ → Bool
is_unsafe c = c == b'"' || c == 13 || c == 10

-- strings.NewReplacer(`"`, "", "\r", "", "\n", "").Replace.
unfoldable pub safe_name : String → String
safe_name String.[] = String.[]
safe_name (String.◌∷◌ c s) =
    let rest = safe_name s in if is_unsafe (code c) then rest else String.◌∷◌ c rest

unfoldable pub disposition : String → String
unfolding safe_name
disposition name = text_append "attachment; filename=\"" (text_append (safe_name name) "\"")

abbrev pub presigned_url_ttl : ℕ
presigned_url_ttl = 900

-- A document of another organization is answered as one that is missing.
abbrev pub of_organization : String → ℕ → Document → M Document
of_organization msg org d = if d.organization_id == org then pure d else throw (app not_found msg)

abbrev pub presigned : Option String → M String
presigned none = throw (app internal_error "storage error")
presigned (some url) = pure url

abbrev pub wanted_disposition : Bool → Document → Option String
wanted_disposition download d = if download then some (disposition d.file_name) else none

abbrev pub sign_url : Bool → Document → M String
sign_url download d =
    asks (λ (e : Env). e.presign d.storage_path presigned_url_ttl (wanted_disposition download d))
    >>= presigned

-- A document looked up by its id alone, then held against the caller's organization.
unfoldable pub find_own : String → ℕ → ℕ → M Document
find_own msg id org = map_error (missing_as msg) (get_document_by_id id) >>= of_organization msg org

unfoldable pub get_presigned_url : ℕ → ℕ → Bool → M String
get_presigned_url id org download = do
  stored ← asks (λ (e : Env). e.has_storage)
  if stored
      then find_own "document not found" id org >>= sign_url download
      else throw (app internal_error "storage unavailable")

-- `if errors.Is(err, pgx.ErrNoRows) { 400 } else { 500 }`.
abbrev pub invalid_as : String → Error → Error
invalid_as msg x = if is_no_rows x then app_of validation_failed msg x else internal x

abbrev pub check_kind : Option ℕ → ℕ → M (Unit {0})
check_kind none org = pure tt
check_kind (some id) org =
    map_error (invalid_as "contract kind not found or does not belong to your organization")
      (get_contract_kind id org)
    >> pure tt

abbrev pub check_role : Option ℕ → ℕ → M (Unit {0})
check_role none org = pure tt
check_role (some id) org =
    map_error (invalid_as "file role not found or does not belong to your organization")
      (get_file_role id org)
    >> pure tt

abbrev pub of_root : Document → M (Unit {0})
of_root d =
    if is_null d.parent_id
    then pure tt
    else throw (app validation_failed "bundle_id must reference a root document")

abbrev pub check_bundle : Option ℕ → ℕ → M (Unit {0})
check_bundle none org = pure tt
check_bundle (some id) org = find_own "bundle document not found" id org >>= of_root

unfoldable pub update_meta : MetaParams → M Document
update_meta p = do
  check_kind p.contract_kind_id p.organization_id
  check_role p.file_role_id p.organization_id
  check_bundle p.bundle_id p.organization_id
  map_error (missing_as "document not found") (update_document_meta p)
