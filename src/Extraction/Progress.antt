-- ===== src/Extraction/Progress.antt =====
-- service_extraction.go: `Initiate`, `Progress`, `GetRequest`, `findArtifact`.
use kpi_tenders_go.Prelude.{
  ℕ, String, Bool, true, false, Option, none, some, List, [], ◌∷◌, find, if◌then◌else◌,
}
use kpi_tenders_go.Errs.{missing_as, wrapped, app, app_of, internal_error, validation_failed}
use kpi_tenders_go.Models.{
  Document, ExtractionRequest, RequestStatus, ArtifactKind, convert_md, anonymize_doc, is_kind,
}
use kpi_tenders_go.Effects.{M, pure, throw, ◌>>=◌, ◌>>◌, best_effort, map_error, asks}
use kpi_tenders_go.Repository.Documents.{get_document, get_document_by_id, list_documents_by_parent}
use kpi_tenders_go.Repository.Requests.{create_extraction_request, get_extraction_request}
use kpi_tenders_go.Extraction.Enqueue.{
  enqueue_resolve_keys, ensure_convert_task, ensure_anonymize_task,
}

unfoldable pub find_artifact : List Document → ArtifactKind → Option Document
find_artifact docs kind = find (λ (d : Document). is_kind d.artifact_kind kind) docs

-- The artifact that a request's questions are put to.
abbrev pub target_kind : ExtractionRequest → ArtifactKind
target_kind req = if req.anonymize then anonymize_doc else convert_md

-- The `switch` for a missing artifact.
unfoldable pub prepare : Bool → Document → Option Document → M (Unit {0})
prepare true doc (some md) = ensure_anonymize_task doc md
prepare true doc none = ensure_convert_task doc
prepare false doc md = ensure_convert_task doc

unfoldable pub proceed :
    ExtractionRequest → Document → Option Document → Option Document → M (Unit {0})
proceed req doc md (some target) = enqueue_resolve_keys req doc target
proceed req doc md none = prepare req.anonymize doc md

unfoldable pub progress_open : ExtractionRequest → M (Unit {0})
progress_open req = do
  doc ← map_error (wrapped "get document") (get_document_by_id req.document_id)
  artifacts ←
      map_error (wrapped "list artifacts") (list_documents_by_parent doc.id doc.organization_id)
  proceed req doc (find_artifact artifacts convert_md) (find_artifact artifacts (target_kind req))

abbrev pub is_closed : RequestStatus → Bool
is_closed RequestStatus.completed = true
is_closed RequestStatus.failed = true
is_closed s = false

-- `Progress`.
unfoldable pub progress : ExtractionRequest → M (Unit {0})
progress req = if is_closed req.status then pure tt else progress_open req

abbrev has_no_questions : List String → Bool
has_no_questions [] = true
has_no_questions (q ∷ qs) = false

unfoldable pub start_request : ℕ → ℕ → List String → Bool → M ExtractionRequest
start_request document org questions anonymize = do
  map_error (missing_as "document not found") (get_document document org)
  encoded ← asks (λ e. e.marshal_questions questions)
  req ←
      map_error (app_of internal_error "failed to create extraction request")
        (create_extraction_request document org encoded anonymize)
  best_effort (progress req)
  pure req

-- `Initiate`.
unfoldable pub initiate : ℕ → ℕ → List String → Bool → M ExtractionRequest
initiate document org questions anonymize =
    if has_no_questions questions
    then throw (app validation_failed "questions must not be empty")
    else start_request document org questions anonymize

-- `GetRequest`.
unfoldable pub get_request : ℕ → ℕ → M ExtractionRequest
get_request id org =
    map_error (missing_as "extraction request not found") (get_extraction_request id org)
