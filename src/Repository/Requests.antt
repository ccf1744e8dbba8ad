-- ===== src/Repository/Requests.antt =====
-- internal/repository/extraction_request.sql.go.
use kpi_tenders_go.Prelude.{
  ℕ, suc, String, Bool, true, false, Option, none, some, List, [], ◌∷◌, ◌++◌, ◌&&◌, ◌==◌, leb,
  if◌then◌else◌, select, find, exists, update, sort_by,
}
use kpi_tenders_go.Errs.{foreign_key_violation}
use kpi_tenders_go.Models.{ExtractionRequest, RequestStatus}
use kpi_tenders_go.Effects.{ok, err, Stmt, M, run}
use kpi_tenders_go.Repository.Documents.{first, has_id_org}

abbrev pub has_request_id : ℕ → ExtractionRequest → Bool
has_request_id id r = r.id == id

abbrev pub has_request_id_org : ℕ → ℕ → ExtractionRequest → Bool
has_request_id_org id org r = r.id == id && r.organization_id == org

-- `status IN ('pending', 'running')`.
abbrev pub is_open : RequestStatus → Bool
is_open RequestStatus.pending = true
is_open RequestStatus.running = true
is_open s = false

abbrev pub is_pending_on : ℕ → ExtractionRequest → Bool
is_pending_on document r = r.document_id == document && is_open r.status

abbrev pub request_row : ℕ → ℕ → String → Bool → ℕ → ℕ → ExtractionRequest
request_row document org questions anonymize id now = record {
  id = id;
  document_id = document;
  organization_id = org;
  questions = questions;
  anonymize = anonymize;
  status = RequestStatus.pending;
  resolved_schema = none;
  error_message = none;
  created_at = now;
  updated_at = now;
}

-- The composite foreign key: the document is one of the organization.
unfoldable pub insert_request : ℕ → ℕ → String → Bool → Stmt ExtractionRequest
insert_request document org questions anonymize now w =
    let r = request_row document org questions anonymize w.next_id now in
    if exists (has_id_org document org) w.documents
    then (ok r, record w { requests = w.requests ++ r ∷ []; next_id = suc w.next_id })
    else (err (foreign_key_violation "fk_extraction_requests_doc_org"), w)

unfoldable pub create_extraction_request : ℕ → ℕ → String → Bool → M ExtractionRequest
create_extraction_request document org questions anonymize =
    run (insert_request document org questions anonymize)

unfoldable pub get_extraction_request : ℕ → ℕ → M ExtractionRequest
get_extraction_request id org =
    run λ now w. (first (find (has_request_id_org id org) w.requests), w)

unfoldable pub get_extraction_request_by_id : ℕ → M ExtractionRequest
get_extraction_request_by_id id = run λ now w. (first (find (has_request_id id) w.requests), w)

abbrev pub earliest_first : ExtractionRequest → ExtractionRequest → Bool
earliest_first q r = leb q.created_at r.created_at

unfoldable pub list_pending_extraction_requests_by_document : ℕ → M (List ExtractionRequest)
list_pending_extraction_requests_by_document document =
    run λ now w. (ok (sort_by earliest_first (select (is_pending_on document) w.requests)), w)

unfoldable pub update_request :
    ℕ → (ℕ → ExtractionRequest → ExtractionRequest) → Stmt ExtractionRequest
update_request id f now w =
    let rows = update (has_request_id id) (f now) w.requests in
    (first (find (has_request_id id) rows), record w { requests = rows })

abbrev pub set_request_status :
    RequestStatus → Option String → ℕ → ExtractionRequest → ExtractionRequest
set_request_status s msg now r = record r { status = s; error_message = msg; updated_at = now }

unfoldable pub set_extraction_request_status :
    ℕ → RequestStatus → Option String → M ExtractionRequest
set_extraction_request_status id s msg = run (update_request id (set_request_status s msg))

abbrev pub set_schema : String → ℕ → ExtractionRequest → ExtractionRequest
set_schema schema now r = record r { resolved_schema = some schema; updated_at = now }

unfoldable pub set_extraction_request_resolved_schema : ℕ → String → M ExtractionRequest
set_extraction_request_resolved_schema id schema = run (update_request id (set_schema schema))
