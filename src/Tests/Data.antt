-- ===== src/Tests/Data.antt =====
-- One tender of organization 7 with its two texts, a finished conversion, an extraction request with
-- its resolve_keys task, and one key; and outsides that answer every call.
use kpi_tenders_go.Prelude.{ℕ, ◌+◌, String, Bool, true, false, Option, none, some, [], ◌∷◌, str_eq}
use kpi_tenders_go.Models.{
  Document, DocumentTask, ExtractionRequest, ExtractionKey, ArtifactKind, convert_md, anonymize_doc,
  ModuleName, convert, resolve_keys, TaskStatus, RequestStatus, Role, User,
}
use kpi_tenders_go.Effects.{Fate, Env, World, hashed}
use kpi_tenders_go.Watchdog.{Config}

abbrev pub document : ℕ → Option ℕ → Option ArtifactKind → String → Document
document id parent kind path = record {
  id = id;
  organization_id = 7;
  site_id = none;
  uploaded_by = 3;
  parent_id = parent;
  file_name = path;
  storage_path = path;
  mime_type = none;
  file_size_bytes = none;
  artifact_kind = kind;
  created_at = 0;
  updated_at = 0;
  contract_kind_id = none;
  file_role_id = none;
  bundle_id = none;
}

abbrev pub task : ℕ → ModuleName → TaskStatus → Option ℕ → String → DocumentTask
task id m status request path = record {
  id = id;
  document_id = 1;
  module_name = m;
  status = status;
  celery_task_id = none;
  result_payload = "{}";
  error_message = none;
  retry_count = 0;
  input_storage_path = path;
  created_at = 0;
  updated_at = 0;
  extraction_request_id = request;
}

abbrev pub request : Bool → ExtractionRequest
request hidden = record {
  id = 20;
  document_id = 1;
  organization_id = 7;
  questions = "[budget?]";
  anonymize = hidden;
  status = RequestStatus.pending;
  resolved_schema = none;
  error_message = none;
  created_at = 0;
  updated_at = 0;
}

abbrev pub key : ExtractionKey
key = record {
  id = 30;
  organization_id = some 7;
  key_name = "budget";
  source_query = "budget?";
  data_type = "string";
  created_at = 0;
}

abbrev pub tender : Document
tender = document 1 none none "tender.pdf"

abbrev pub user : User
user = record {
  id = 3;
  organization_id = some 7;
  email = "a@b.ru";
  password_hash = "hash";
  full_name = "A B";
  role = Role.admin;
  is_active = true;
  created_at = 0;
  updated_at = 0;
}

-- Only the tender.
abbrev pub fresh : World
fresh = record {
  documents = tender ∷ [];
  tasks = [];
  requests = [];
  keys = [];
  extracted = [];
  organizations =
      record {
        id = 7;
        name = "Builders";
        inn = none;
        settings = "{}";
        is_active = true;
        created_at = 0;
        updated_at = 0;
      }
      ∷ [];
  users = user ∷ [];
  sites = [];
  contract_kinds = [];
  file_roles = [];
  comparison_sessions = [];
  session_documents = [];
  user_invitations = [];
  next_id = 100;
  calls = 0;
  published = [];
}

-- The tender with its texts, and a request that wants the anonymized one.
abbrev pub ready : World
ready = record fresh {
  documents =
      tender
      ∷ document 2 (some 1) (some convert_md) "tender.md"
      ∷ document 3 (some 1) (some anonymize_doc) "tender.anon.md"
      ∷ [];
  requests = request true ∷ [];
  keys = key ∷ [];
}

-- A resolve_keys task of the request, unfinished since time 0.
abbrev pub resolving : DocumentTask
resolving = task 11 resolve_keys TaskStatus.processing (some 20) "tender.anon.md"

abbrev pub waiting : World
waiting = record ready { tasks = resolving ∷ [] }

-- An unfinished conversion.
abbrev pub converting : World
converting = record fresh {
  tasks = task 10 convert TaskStatus.processing none "tender.pdf" ∷ [];
  requests = request false ∷ [];
}

-- Every call is answered, at time 100 or later.
abbrev pub outside : Env
outside = record {
  fate = λ call. Fate.answered;
  clock = λ call. 100 + call;
  cancelled = λ call. false;
  has_python_client = true;
  parse_convert =
      λ text. some (record { md_storage_path = "tender.md"; char_count = 10; section_count = 1 });
  parse_anonymize = λ text. none;
  parse_resolve_keys = λ text. some (record {
    new_keys = record { key_name = "term"; source_query = "term?"; data_type = "date" } ∷ [];
    resolved_schema = record { key_name = "budget"; data_type = "string" } ∷ [];
  });
  parse_extracted = λ text. some (("budget", some "10") ∷ ("term", none) ∷ []);
  parse_questions = λ text. some ("budget?" ∷ []);
  parse_schema = λ text. some (record { key_name = "budget"; data_type = "string" } ∷ []);
  marshal_questions = λ questions. "[budget?]";
  marshal_convert_result = λ result. "{md}";
  marshal_anonymize_result = λ result. "{anon}";
  marshal_schema = λ schema. "{schema}";
  base_name = λ path. path;
  decimal = λ n. "0";
  quoted = λ s. s;
  name_le = λ a b. true;
  hash_password = λ call password. hashed "hash";
  password_matches = λ hash password. str_eq password "secret";
  sign_access = λ claims. some "access";
  parse_access = λ now token.
      some
        (record { user_id = 3; org_id = 7; role = Role.admin; issued_at = 100; expires_at = 1000 });
  sign_refresh = λ claims. some "refresh";
  parse_refresh = λ now token. some (record { user_id = 3; issued_at = 100; expires_at = 9000 });
  has_storage = true;
  presign = λ path seconds disposition. some path;
}

abbrev pub config : Config
config = record { threshold = 50; max_retries = 3; batch_size = 10 }
