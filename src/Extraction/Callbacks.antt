-- ===== src/Extraction/Callbacks.antt =====
-- service_extraction.go: `OnResolveKeysCompleted`, `OnExtractCompleted`, `persistExtractedData`,
-- `GetAnswers`.
use kpi_tenders_go.Prelude.{ℕ, String, Option, none, some, List, [], ◌∷◌, str_eq, if◌then◌else◌}
use kpi_tenders_go.Errs.{plain, wrapped, app_of, internal_error}
use kpi_tenders_go.Models.{Document, DocumentTask, ExtractionRequest, ExtractionKey, RequestStatus}
use kpi_tenders_go.Payloads.{KeyEntry, SchemaEntry}
use kpi_tenders_go.Effects.{
  M, pure, throw, ◌>>=◌, ◌>>◌, best_effort, map_error, decoding, asks, for_each,
}
use kpi_tenders_go.Repository.Documents.{get_document_by_id, list_documents_by_parent}
use kpi_tenders_go.Repository.Requests.{
  get_extraction_request_by_id, set_extraction_request_status,
  set_extraction_request_resolved_schema,
}
use kpi_tenders_go.Repository.Keys.{
  upsert_extraction_key, get_extraction_keys_by_names, batch_upsert_extracted_data, Answer,
  list_extracted_data_for_keys,
}
use kpi_tenders_go.Extraction.Enqueue.{enqueue_extract}
use kpi_tenders_go.Extraction.Progress.{find_artifact, target_kind}

-- `if !task.ExtractionRequestID.Valid { return error }`.
unfoldable pub with_request : Option ℕ → (ℕ → M (Unit {0})) → M (Unit {0})
with_request none f = throw (plain "task has no extraction_request_id")
with_request (some id) f = f id

unfoldable pub when_target : ExtractionRequest → Option Document → List SchemaEntry → M (Unit {0})
when_target req none schema = throw (plain "target artifact missing for extraction_request")
when_target req (some target) schema = enqueue_extract req target schema

-- From the lookup of the target artifact on.
unfoldable pub extract_from_target : ExtractionRequest → List SchemaEntry → M (Unit {0})
extract_from_target req schema = do
  doc ← map_error (wrapped "get document") (get_document_by_id req.document_id)
  artifacts ←
      map_error (wrapped "list artifacts") (list_documents_by_parent doc.id doc.organization_id)
  when_target req (find_artifact artifacts (target_kind req)) schema

-- The new keys are stored one by one, at best, then the schema.
unfoldable pub store_schema_of :
    ExtractionRequest → ℕ → List KeyEntry → List SchemaEntry → M (Unit {0})
store_schema_of req request_id new_keys schema = do
  for_each new_keys λ k. best_effort (upsert_extraction_key req.organization_id k)
  encoded ← asks (λ e. e.marshal_schema schema)
  map_error (wrapped "save resolved_schema")
      (set_extraction_request_resolved_schema request_id encoded)
  extract_from_target req schema

-- From the reading of the request on.
unfoldable pub store_schema : ℕ → List KeyEntry → List SchemaEntry → M (Unit {0})
store_schema request_id new_keys schema = do
  req ← map_error (wrapped "get extraction request") (get_extraction_request_by_id request_id)
  store_schema_of req request_id new_keys schema

unfoldable pub when_resolved : ℕ → List KeyEntry → List SchemaEntry → M (Unit {0})
when_resolved request_id new_keys [] =
    throw (plain "resolved_schema is empty in resolve_keys result_payload")
when_resolved request_id new_keys (s ∷ ss) = store_schema request_id new_keys (s ∷ ss)

-- `OnResolveKeysCompleted`.
unfoldable pub on_resolve_keys_completed : DocumentTask → M (Unit {0})
on_resolve_keys_completed task = with_request task.extraction_request_id λ request_id. do
  payload ← decoding "parse resolve_keys payload" (λ e. e.parse_resolve_keys) task.result_payload
  when_resolved request_id payload.new_keys payload.resolved_schema

-- `keyIDByName[name]`: the last row of that name.
abbrev pub last_of : Option ℕ → ExtractionKey → String → Option ℕ
last_of none k name = if str_eq k.key_name name then some k.id else none
last_of (some id) k name = some id

abbrev pub key_id_by_name : List ExtractionKey → String → Option ℕ
key_id_by_name [] name = none
key_id_by_name (k ∷ ks) name = last_of (key_id_by_name ks name) k name

abbrev pub add_pair : Option ℕ → Option String → List (ℕ × String) → List (ℕ × String)
add_pair (some id) (some v) rest = (id, v) ∷ rest
add_pair _ _ rest = rest

-- The loop over the extracted values: null values and unknown keys are skipped.
unfoldable pub value_pairs : List ExtractionKey → List (String × Option String) → List (ℕ × String)
value_pairs keys [] = []
value_pairs keys ((name, v) ∷ rest) = add_pair (key_id_by_name keys name) v (value_pairs keys rest)

abbrev pub names_of : List (String × Option String) → List String
names_of [] = []
names_of ((name, v) ∷ rest) = name ∷ names_of rest

unfoldable pub store_pairs : ExtractionRequest → List (ℕ × String) → M (Unit {0})
store_pairs req [] = pure tt
store_pairs req (p ∷ ps) = batch_upsert_extracted_data req.organization_id req.document_id (p ∷ ps)

-- `persistExtractedData`.
unfoldable pub persist_extracted_data :
    ExtractionRequest → List (String × Option String) → M (Unit {0})
persist_extracted_data req extracted = do
  keys ←
      map_error (wrapped "get keys by names")
        (get_extraction_keys_by_names (names_of extracted) req.organization_id)
  store_pairs req (value_pairs keys extracted)

unfoldable pub persist_values : ExtractionRequest → List (String × Option String) → M (Unit {0})
persist_values req [] = pure tt
persist_values req (x ∷ xs) =
    map_error (wrapped "persist extracted data") (persist_extracted_data req (x ∷ xs))

-- `OnExtractCompleted`.
unfoldable pub on_extract_completed : DocumentTask → M (Unit {0})
on_extract_completed task = with_request task.extraction_request_id λ request_id. do
  extracted ← decoding "parse extract payload" (λ e. e.parse_extracted) task.result_payload
  req ← map_error (wrapped "get extraction request") (get_extraction_request_by_id request_id)
  persist_values req extracted
  map_error (wrapped "mark request completed")
      (set_extraction_request_status request_id RequestStatus.completed none)
  pure tt

abbrev pub schema_names : List SchemaEntry → List String
schema_names [] = []
schema_names (s ∷ ss) = s.key_name ∷ schema_names ss

unfoldable pub answers_for : ExtractionRequest → List SchemaEntry → M (List Answer)
answers_for req [] = pure []
answers_for req (s ∷ ss) =
    map_error (app_of internal_error "list extracted data")
      (list_extracted_data_for_keys req.document_id req.organization_id (schema_names (s ∷ ss)))

unfoldable pub answers_of_schema : ExtractionRequest → Option String → M (List Answer)
answers_of_schema req none = pure []
answers_of_schema req (some text) = do
  schema ←
      map_error (app_of internal_error "parse resolved_schema")
        (decoding "json" (λ e. e.parse_schema) text)
  answers_for req schema

-- `GetAnswers`; a `NULL` schema is an empty one.
unfoldable pub get_answers : ExtractionRequest → M (List Answer)
get_answers req = answers_of_schema req req.resolved_schema
