-- ===== src/Worker/Artifacts.antt =====
-- service_worker.go: `registerConvertArtifacts`, `registerAnonymizeArtifacts`, `triggerAnonymize`.
use kpi_tenders_go.Prelude.{ℕ, String, Bool, not, Option, none, some, ◌&&◌, str_eq}
use kpi_tenders_go.Errs.{plain, wrapped}
use kpi_tenders_go.Models.{
  Document, DocumentTask, ArtifactKind, anonymize, convert_md, anonymize_doc, anonymize_entities,
  is_null,
}
use kpi_tenders_go.Payloads.{ConvertPayload, no_kwargs}
use kpi_tenders_go.Effects.{
  M, pure, throw, ◌>>=◌, ◌>>◌, attempt, map_error, unless_no_rows, decoding, asks, when,
}
use kpi_tenders_go.Repository.Documents.{get_document_by_id, create_artifact_document}
use kpi_tenders_go.Repository.Tasks.{create_document_task_singleton, update_task_result_payload}
use kpi_tenders_go.PythonWorker.{process}
use kpi_tenders_go.Extraction.Enqueue.{message, on_failure, when_created, fail_task}

-- `fileNameFromPath`.
unfoldable pub file_name_from_path : String → M String
file_name_from_path String.[] = pure ""
file_name_from_path path = asks (λ e. e.base_name path)

-- `registerArtifact`; every caller gives a MIME type.
unfoldable pub register_artifact : Document → String → String → ArtifactKind → M Document
register_artifact parent path mime kind = do
  name ← file_name_from_path path
  create_artifact_document (record {
    organization_id = parent.organization_id;
    site_id = parent.site_id;
    uploaded_by = parent.uploaded_by;
    parent_id = parent.id;
    file_name = name;
    storage_path = path;
    mime_type = some mime;
    file_size_bytes = none;
    artifact_kind = kind;
  })

abbrev pub is_empty : String → Bool
is_empty s = str_eq s ""

unfoldable pub store_convert_artifact : DocumentTask → ConvertPayload → M (Unit {0})
store_convert_artifact task payload = do
  parent ← map_error (wrapped "get parent document") (get_document_by_id task.document_id)
  artifact ←
      map_error (wrapped "create convert artifact document")
        (register_artifact parent payload.md_storage_path "text/markdown" convert_md)
  raw ← asks λ e. e.marshal_convert_result (record {
    md_document_id = artifact.id;
    char_count = payload.char_count;
    section_count = payload.section_count;
  })
  update_task_result_payload task.id raw
  pure tt

-- `registerConvertArtifacts`: with no path there is nothing to register.
unfoldable pub register_convert_artifacts : DocumentTask → M (Unit {0})
register_convert_artifacts task = do
  payload ← decoding "parse convert payload" (λ e. e.parse_convert) task.result_payload
  when (not (is_empty payload.md_storage_path)) (store_convert_artifact task payload)

-- The identifier of the artifact at a path, or `none` where the path is empty.
unfoldable pub register_at : Document → String → String → ArtifactKind → String → M (Option ℕ)
register_at parent String.[] mime kind msg = pure none
register_at parent path mime kind msg = do
  doc ← map_error (wrapped msg) (register_artifact parent path mime kind)
  pure (some doc.id)

-- `registerAnonymizeArtifacts`.
unfoldable pub register_anonymize_artifacts : DocumentTask → M (Unit {0})
register_anonymize_artifacts task = do
  payload ← decoding "parse anonymize payload" (λ e. e.parse_anonymize) task.result_payload
  parent ← map_error (wrapped "get parent document") (get_document_by_id task.document_id)
  anon_id ←
      register_at parent payload.anonymized_storage_path "text/markdown" anonymize_doc
        "create anonymized artifact"
  entities_id ←
      register_at parent payload.entities_map_storage_path "application/json" anonymize_entities
        "create entities map artifact"
  when (not (is_null anon_id && is_null entities_id)) (do
    raw ← asks λ e. e.marshal_anonymize_result (record {
      anonymized_document_id = anon_id;
      entities_map_document_id = entities_id;
      entity_count = payload.entity_count;
    })
    update_task_result_payload task.id raw
    pure tt)

-- The WorkerService always has a client.
unfoldable pub start_anonymize : DocumentTask → String → M (Unit {0})
start_anonymize task path = do
  created ←
      unless_no_rows "create anonymize task"
        (create_document_task_singleton task.document_id anonymize path)
  when_created created λ anon. do
    r ← attempt (process (message anon anonymize path no_kwargs))
    on_failure r (fail_task anon "trigger anonymize")

unfoldable pub require_path : String → (String → M (Unit {0})) → M (Unit {0})
require_path String.[] f = throw (plain "md_storage_path is empty in convert result_payload")
require_path path f = f path

-- `triggerAnonymize`.
unfoldable pub trigger_anonymize : DocumentTask → M (Unit {0})
trigger_anonymize task = do
  payload ← decoding "parse convert payload" (λ e. e.parse_convert) task.result_payload
  require_path payload.md_storage_path (start_anonymize task)
