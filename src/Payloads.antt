-- ===== src/Payloads.antt =====
-- What travels between the service and its Python workers: the task messages of
-- internal/pythonworker/client.go and the result payloads of internal/service.
use kpi_tenders_go.Prelude.{ℕ, String, Option, List}
use kpi_tenders_go.Models.{Role, ModuleName}

-- service_worker.go: `convertPayload`, `anonymizePayload` and what replaces them.
pub record ConvertPayload : Type 0 where
  pub md_storage_path : String
  pub char_count : ℕ
  pub section_count : ℕ

pub record AnonymizePayload : Type 0 where
  pub anonymized_storage_path : String
  pub entities_map_storage_path : String
  pub entity_count : ℕ

pub record ConvertResultFinal : Type 0 where
  pub md_document_id : ℕ
  pub char_count : ℕ
  pub section_count : ℕ

-- An identifier that the source leaves as "" is `none`.
pub record AnonymizeResultFinal : Type 0 where
  pub anonymized_document_id : Option ℕ
  pub entities_map_document_id : Option ℕ
  pub entity_count : ℕ

-- service_extraction.go: `existingKeyEntry` and `resolveKeysNewKey`, then `extractionSchemaEntry`.
pub record KeyEntry : Type 0 where
  pub key_name : String
  pub source_query : String
  pub data_type : String

pub record SchemaEntry : Type 0 where
  pub key_name : String
  pub data_type : String

pub record ResolveKeysPayload : Type 0 where
  pub new_keys : List KeyEntry
  pub resolved_schema : List SchemaEntry

-- `ProcessRequest.Kwargs`, by the keys that the services put there.
pub data Kwargs : Type 0 where
  no_kwargs : Kwargs
  resolve_kwargs : List String → List KeyEntry → Kwargs
  extract_kwargs : List SchemaEntry → Kwargs

pub record ProcessRequest : Type 0 where
  pub task_id : ℕ
  pub document_id : ℕ
  pub module_name : ModuleName
  pub storage_path : String
  pub kwargs : Kwargs

-- `Claims` of an access token: `org_id` is 0, uuid.Nil, for an owner.
pub record Claims : Type 0 where
  pub user_id : ℕ
  pub org_id : ℕ
  pub role : Role
  pub issued_at : ℕ
  pub expires_at : ℕ

-- `RefreshClaims`.
pub record RefreshClaims : Type 0 where
  pub user_id : ℕ
  pub issued_at : ℕ
  pub expires_at : ℕ
