-- ===== src/Models.antt =====
-- internal/repository/models.go: the rows of the tables. A UUID is a number, a
-- `pgtype.Text` or `pgtype.UUID` an `Option`, a `time.Time` a number, and raw JSON its text.
-- Status and module columns are data types; a text outside the known set is `other`.
use kpi_tenders_go.Prelude.{ℕ, Bool, true, false, String, str_eq, Option, none, some, ◌==◌}

pub data ModuleName : Type 0 where
  convert anonymize resolve_keys extract parse_invoice : ModuleName
  other_module : String → ModuleName

pub data TaskStatus : Type 0 where
  pending processing completed failed : TaskStatus
  other_status : String → TaskStatus

pub data RequestStatus : Type 0 where
  pending running completed failed : RequestStatus

pub data ArtifactKind : Type 0 where
  convert_md anonymize_doc anonymize_entities : ArtifactKind
  other_kind : String → ArtifactKind

-- `users.role`.
pub data Role : Type 0 where
  admin member owner : Role
  other_role : String → Role

abbrev pub is_admin : Role → Bool
is_admin Role.admin = true
is_admin r = false

abbrev pub is_member : Role → Bool
is_member Role.member = true
is_member r = false

abbrev pub is_owner : Role → Bool
is_owner Role.owner = true
is_owner r = false

abbrev pub module_eq : ModuleName → ModuleName → Bool
module_eq convert convert = true
module_eq anonymize anonymize = true
module_eq resolve_keys resolve_keys = true
module_eq extract extract = true
module_eq parse_invoice parse_invoice = true
module_eq (other_module s) (other_module t) = str_eq s t
module_eq _ _ = false

-- The column's text.
abbrev pub module_text : ModuleName → String
module_text convert = "convert"
module_text anonymize = "anonymize"
module_text resolve_keys = "resolve_keys"
module_text extract = "extract"
module_text parse_invoice = "parse_invoice"
module_text (other_module s) = s

abbrev pub kind_eq : ArtifactKind → ArtifactKind → Bool
kind_eq convert_md convert_md = true
kind_eq anonymize_doc anonymize_doc = true
kind_eq anonymize_entities anonymize_entities = true
kind_eq (other_kind s) (other_kind t) = str_eq s t
kind_eq _ _ = false

-- A nullable column compared with a value: `NULL = x` is not true.
abbrev pub is_id : Option ℕ → ℕ → Bool
is_id none i = false
is_id (some j) i = j == i

abbrev pub is_kind : Option ArtifactKind → ArtifactKind → Bool
is_kind none k = false
is_kind (some j) k = kind_eq j k

abbrev pub is_null {ℓ} : {A : Type ℓ} → Option A → Bool
is_null none = true
is_null (some x) = false

pub record Document : Type 0 where
  pub id : ℕ
  pub organization_id : ℕ
  pub site_id : Option ℕ
  pub uploaded_by : ℕ
  pub parent_id : Option ℕ
  pub file_name : String
  pub storage_path : String
  pub mime_type : Option String
  pub file_size_bytes : Option ℕ
  pub artifact_kind : Option ArtifactKind
  pub created_at : ℕ
  pub updated_at : ℕ
  pub contract_kind_id : Option ℕ
  pub file_role_id : Option ℕ
  pub bundle_id : Option ℕ

pub record DocumentTask : Type 0 where
  pub id : ℕ
  pub document_id : ℕ
  pub module_name : ModuleName
  pub status : TaskStatus
  pub celery_task_id : Option String
  pub result_payload : String
  pub error_message : Option String
  pub retry_count : ℕ
  pub input_storage_path : String
  pub created_at : ℕ
  pub updated_at : ℕ
  pub extraction_request_id : Option ℕ

pub record ExtractionRequest : Type 0 where
  pub id : ℕ
  pub document_id : ℕ
  pub organization_id : ℕ
  pub questions : String
  pub anonymize : Bool
  pub status : RequestStatus
  pub resolved_schema : Option String
  pub error_message : Option String
  pub created_at : ℕ
  pub updated_at : ℕ

pub record ExtractionKey : Type 0 where
  pub id : ℕ
  pub organization_id : Option ℕ
  pub key_name : String
  pub source_query : String
  pub data_type : String
  pub created_at : ℕ

pub record ExtractedDatum : Type 0 where
  pub id : ℕ
  pub organization_id : ℕ
  pub document_id : ℕ
  pub key_id : ℕ
  pub extracted_value : Option String

pub record Organization : Type 0 where
  pub id : ℕ
  pub name : String
  pub inn : Option String
  pub settings : String
  pub is_active : Bool
  pub created_at : ℕ
  pub updated_at : ℕ

pub record User : Type 0 where
  pub id : ℕ
  pub organization_id : Option ℕ
  pub email : String
  pub password_hash : String
  pub full_name : String
  pub role : Role
  pub is_active : Bool
  pub created_at : ℕ
  pub updated_at : ℕ

-- `ConstructionSite`, of which the documents read whose it is.
pub record Site : Type 0 where
  pub id : ℕ
  pub organization_id : ℕ
  pub parent_id : Option ℕ
  pub name : String

-- `DocumentContractKind`, without an organization a record of the system. The 16-bit sort order
-- stands as its distance from the least one.
pub record ContractKind : Type 0 where
  pub id : ℕ
  pub organization_id : Option ℕ
  pub display_name : String
  pub sort_order : ℕ
  pub is_active : Bool
  pub created_at : ℕ
  pub updated_at : ℕ

-- `DocumentFileRole`.
pub record FileRole : Type 0 where
  pub id : ℕ
  pub organization_id : Option ℕ
  pub display_name : String
  pub sort_order : ℕ
  pub is_active : Bool
  pub created_at : ℕ
  pub updated_at : ℕ

pub record ComparisonSession : Type 0 where
  pub id : ℕ
  pub organization_id : ℕ
  pub created_by : Option ℕ
  pub name : Option String
  pub contract_kind_id : Option ℕ
  pub created_at : ℕ

pub record ComparisonSessionDocument : Type 0 where
  pub session_id : ℕ
  pub document_id : ℕ
  pub organization_id : ℕ
  pub position : ℕ

pub record UserInvitation : Type 0 where
  pub id : ℕ
  pub organization_id : ℕ
  pub email : String
  pub role : Role
  pub invited_by : Option ℕ
  pub token_hash : String
  pub expires_at : ℕ
  pub accepted_at : Option ℕ
  pub created_at : ℕ
