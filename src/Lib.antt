-- ===== src/Lib.antt =====
-- The tender service: its document pipeline, and the users and organizations that it serves.
--
-- A user asks questions about a tender document. The service has Python workers turn the document
-- into text, hide names in it where the user wants that, find the keys that the questions ask for
-- and extract their values. It keeps its state in PostgreSQL, sends each task to a worker by a
-- Redis queue, and is called back when a task ends. A watchdog requeues the tasks that no worker
-- finishes. The files model the parts thus:
--
-- - Errs: pkg/errs/errs.go, with pgx.ErrNoRows and the constraint errors of the database.
-- - Models, Payloads: the rows of internal/repository/models.go, and the JSON and Celery payloads of
--   internal/service and internal/pythonworker.
-- - Effects: a call is a function of the environment and of the world to a result and a world. The
--   world holds the tables, as lists in the order of insertion, and every message that the queues
--   have taken. The environment is what the code does not implement.
-- - Repository: internal/repository, one function per query: Documents, Tasks, Requests, Keys for
--   document.sql.go, document_task.sql.go, extraction_request.sql.go, extraction.sql.go. A query is
--   run on the tables with what its SQL says and with the constraints of sql/migrations on these
--   tables. Untouched has what each statement leaves alone.
-- - PythonWorker: internal/pythonworker/client.go, the routing of modules and the publish.
-- - Extraction: internal/service/service_extraction.go. Progress has Initiate, Progress and
--   GetRequest, Enqueue the functions that create tasks and publish them, Callbacks what follows a
--   finished resolve_keys or extract task, and GetAnswers.
-- - Worker: internal/service/service_worker.go. Status has HandleStatusUpdate, Artifacts the
--   registration of artifacts and the start of the anonymization.
-- - Watchdog: internal/watchdog/watchdog.go. The ticker of Start is the number of its ticks.
-- - DocumentService, DocumentTaskService, UserService, OrganizationService, AuthService,
--   ContractKindService, FileRoleService, ComparisonSessionService, InvitationService: the services of
--   the same names in internal/service. Their queries are in Repository: Originals and Owned for the
--   documents and tasks that a user sees, Accounts for user.sql.go, organization.sql.go and the
--   transaction of internal/store/store.go, Kinds, Roles, Sessions and Invitations for
--   contract_kind.sql.go, file_role.sql.go, comparison_session.sql.go and user_invitation.sql.go.
-- - Server: internal/server, the response to an error (errors.go), the checks before a handler
--   (middleware.go) and the requests on comparison sessions (handler_comparison_session.go).
-- - System: callbacks, requests and runs of the watchdog, one after another.
--
-- The proofs: Frame relates the worlds before and after each function from a relation that the single
-- statements keep (its records Steady, Stable and Watched are the interface). Privacy, History and
-- Scans give it such relations. Outcomes is about what single calls end in. Tenants is about the
-- isolation of organizations: View says what belongs to one, Local relates two worlds that hold the
-- same for it, Quiet and Deletions relate the world before and after a call, Sessions keeps each
-- document of a comparison session in the organization of the session. Access is about logins,
-- tokens, invitations, registration, the checks before a handler and the texts that users give. Tests
-- has a small database.
--
-- The model. A UUID is a number, the next one that the database has not given. A time is a number
-- that the environment gives by the number of the call, to Go and to the database. Each
-- statement and each publish may be answered, refused (a lost connection, a timeout, a cancelled
-- context, a constraint on what is not modelled, as the length of a text), or carried out with the
-- answer lost. JSON, path.Base, fmt's %d and the collation of names are functions of the environment;
-- the order in which Go visits a map is the order of the list that the JSON function gives. Calls run
-- one after another, except that the environment may answer each in any way; two watchdogs are two
-- calls. No function needs fuel: the publish loop counts its three attempts, and every other loop
-- runs over a list. bcrypt, JWT and the object storage are functions of the environment. A document
-- is inserted after its parent, so that a deletion finds all that goes with it in one pass over the
-- table. The branch of respondWithError for an unknown code is not there, since the codes are a data
-- type. The watchdog's cutoff is a subtraction that stops at 0. The sort order of a contract kind or
-- file role and the position of a document in a comparison session, each a SMALLINT, are written as
-- their distance from the least SMALLINT, which keeps the order. uuid.Nil is 0. The
-- retry count, an INT, has no upper bound here: the watchdog stops at its limit of retries. The batch
-- size of a scan is an int32, by its 32 bits. The cascades of foreign keys are PostgreSQL's, written
-- out as what they do to the tables.
--
-- Not modelled: logs, the Celery envelope, columns that the modelled services do not read, cookies
-- and the parsing of requests, the upload of files, and the services for sites and their audit log.
pub mod Prelude
pub mod Errs
pub mod Models
pub mod Payloads
pub mod Effects
pub mod Repository
pub mod PythonWorker
pub mod Extraction
pub mod Worker
pub mod DocumentService
pub mod DocumentTaskService
pub mod ContractKindService
pub mod FileRoleService
pub mod ComparisonSessionService
pub mod InvitationService
pub mod AuthService
pub mod OrganizationService
pub mod UserService
pub mod Server
pub mod Watchdog
pub mod Frame
pub mod Privacy
pub mod System
pub mod History
pub mod Scans
pub mod Outcomes
pub mod Tenants
pub mod Access
mod Tests
