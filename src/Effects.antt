-- ===== src/Effects.antt =====
-- What a service call acts on: the tables of the database and the worker queues (the world), and
-- what answers it from outside (the environment). A call takes both and returns the world it
-- leaves behind, also when it fails.
pub mod Evolves
pub mod Queries
use kpi_tenders_go.Prelude.{
  ℕ, suc, String, Bool, Option, none, some, List, [], ◌∷◌, ◌++◌, if◌then◌else◌,
}
use kpi_tenders_go.Errs.{Error, plain, wrapped, is_no_rows}
use kpi_tenders_go.Models.{
  Document, DocumentTask, ExtractionRequest, ExtractionKey, ExtractedDatum, Organization, User,
  Site, ContractKind, FileRole, ComparisonSession, ComparisonSessionDocument, UserInvitation,
}
use kpi_tenders_go.Payloads.{
  ConvertPayload, AnonymizePayload, ConvertResultFinal, AnonymizeResultFinal, SchemaEntry,
  ResolveKeysPayload, ProcessRequest, Claims, RefreshClaims,
}

-- How the outside answers one statement or one publish: it runs it and answers, it does not run it
-- and reports an error, or it runs it and the answer is lost (the caller sees an error).
pub data Fate : Type 0 where
  answered refused reply_lost : Fate

-- `bcrypt.GenerateFromPassword`.
pub data Hashed : Type 0 where
  hashed : String → Hashed
  too_long hash_failed : Hashed

-- What the service relies on and does not implement. Calls are numbered; `fate`, `clock` and
-- `cancelled` are asked with the number of the call. JSON decoding and encoding, `path.Base`,
-- the `%d` and `%q` of fmt and the collation of the database are functions.
pub record Env : Type 0 where
  pub fate : ℕ → Fate
  pub clock : ℕ → ℕ
  pub cancelled : ℕ → Bool
  -- the ExtractionService was built with a Python client
  pub has_python_client : Bool
  pub parse_convert : String → Option ConvertPayload
  pub parse_anonymize : String → Option AnonymizePayload
  pub parse_resolve_keys : String → Option ResolveKeysPayload
  -- the entries in the order in which `range` visits the map
  pub parse_extracted : String → Option (List (String × Option String))
  pub parse_questions : String → Option (List String)
  pub parse_schema : String → Option (List SchemaEntry)
  pub marshal_questions : List String → String
  pub marshal_convert_result : ConvertResultFinal → String
  pub marshal_anonymize_result : AnonymizeResultFinal → String
  pub marshal_schema : List SchemaEntry → String
  pub base_name : String → String
  pub decimal : ℕ → String
  pub quoted : String → String
  pub name_le : String → String → Bool
  -- `bcrypt`, with the number of the call for the salt; a hash is compared with a password
  pub hash_password : ℕ → String → Hashed
  pub password_matches : String → String → Bool
  -- `jwt`, with the access secret and with the refresh secret; parsing is given the time
  pub sign_access : Claims → Option String
  pub parse_access : ℕ → String → Option Claims
  pub sign_refresh : RefreshClaims → Option String
  pub parse_refresh : ℕ → String → Option RefreshClaims
  -- the S3 client: is it there, and the URL for a path, a number of seconds and the
  -- Content-Disposition that the answer shall have
  pub has_storage : Bool
  pub presign : String → ℕ → Option String → Option String

-- The tables, newest row last; the next identifier; the number of calls made so far; and every
-- message that the queues accepted, newest last.
pub record World : Type 0 where
  pub documents : List Document
  pub tasks : List DocumentTask
  pub requests : List ExtractionRequest
  pub keys : List ExtractionKey
  pub extracted : List ExtractedDatum
  pub organizations : List Organization
  pub users : List User
  pub sites : List Site
  pub contract_kinds : List ContractKind
  pub file_roles : List FileRole
  pub comparison_sessions : List ComparisonSession
  pub session_documents : List ComparisonSessionDocument
  pub user_invitations : List UserInvitation
  pub next_id : ℕ
  pub calls : ℕ
  pub published : List ProcessRequest

pub data Result (A : Type 0) : Type 0 where
  ok : A → Result A
  err : Error → Result A

abbrev pub M : Type 0 → Type 0
M A = Env → World → Result A × World

-- One SQL statement: it reads `now()`, and returns what it answers with the tables it leaves.
abbrev pub Stmt : Type 0 → Type 0
Stmt A = ℕ → World → Result A × World

abbrev pub counted : World → World
counted w = record w { calls = suc w.calls }

-- `time.Now()`.
unfoldable pub current_time : M ℕ
current_time e w = (ok (e.clock w.calls), w)

-- `ctx.Err() != nil`, asked anew at each call.
unfoldable pub is_cancelled : M Bool
is_cancelled e w = (ok (e.cancelled w.calls), counted w)

module _ {A : Type 0} where
  unfoldable pub pure : A → M A
  pure a e w = (ok a, w)

  unfoldable pub throw : Error → M A
  throw x e w = (err x, w)

module _ {A B : Type 0} where
  abbrev pub continue : Result A → (A → M B) → M B
  continue (ok a) f e w = f a e w
  continue (err x) f e w = (err x, w)

  infixl 5 ◌>>=◌ ◌>>◌
  unfoldable pub ◌>>=◌ : M A → (A → M B) → M B
  unfolding pure throw
  ◌>>=◌ m f e w = let (r, w') = m e w in continue r f e w'

  abbrev pub ◌>>◌ : M A → M B → M B
  m >> n = m >>= λ _. n

module _ {A : Type 0} where
  -- A call whose error the caller looks at: it never fails itself.
  unfoldable pub attempt : M A → M (Result A)
  attempt m e w = let (r, w') = m e w in (ok r, w')

  -- `if err := m; err != nil { log }`.
  unfoldable pub best_effort : M A → M (Unit {0})
  best_effort m e w = let (r, w') = m e w in (ok tt, w')

  abbrev pub with_error : (Error → Error) → Result A → Result A
  with_error f (ok a) = ok a
  with_error f (err x) = err (f x)

  -- `if err != nil { return f(err) }`.
  unfoldable pub map_error : (Error → Error) → M A → M A
  map_error f m e w = let (r, w') = m e w in (with_error f r, w')

  abbrev pub skip_no_rows : String → Result A → Result (Option A)
  skip_no_rows msg (ok a) = ok (some a)
  skip_no_rows msg (err x) = if is_no_rows x then ok none else err (wrapped msg x)

  -- `if errors.Is(err, pgx.ErrNoRows) { skip }; if err != nil { return wrapped }`.
  unfoldable pub unless_no_rows : String → M A → M (Option A)
  unless_no_rows msg m e w = let (r, w') = m e w in (skip_no_rows msg r, w')

  abbrev pub decoded : String → Option A → Result A
  decoded msg none = err (wrapped msg (plain "json"))
  decoded msg (some a) = ok a

  -- `if err := json.Unmarshal(text, &v); err != nil { return wrapped }`.
  unfoldable pub decoding : String → (Env → String → Option A) → String → M A
  decoding msg parse text e w = (decoded msg (parse e text), w)

  unfoldable pub asks : (Env → A) → M A
  asks f e w = (ok (f e), w)

  unfoldable pub for_each : List A → (A → M (Unit {0})) → M (Unit {0})
  for_each [] f = pure tt
  for_each (x ∷ xs) f = f x >> for_each xs f

  abbrev pub settle : Fate → Result A × World → World → Result A × World
  settle Fate.answered done w = done
  settle Fate.refused done w = (err (plain "not reached"), w)
  settle Fate.reply_lost done w = (err (plain "reply lost"), done.1)

  -- A statement against the database as it stands at this call.
  unfoldable pub run : Stmt A → M A
  run stmt e w = settle (e.fate w.calls) (stmt (e.clock w.calls) (counted w)) (counted w)

-- `if test { m }`.
unfoldable pub when : Bool → M (Unit {0}) → M (Unit {0})
unfolding pure
when test m = if test then m else pure tt
