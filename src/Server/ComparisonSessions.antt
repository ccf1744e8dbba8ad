-- ===== src/Server/ComparisonSessions.antt =====
-- internal/server/handler_comparison_session.go: the requests on comparison sessions, in the
-- organization that the token names.
use kpi_tenders_go.Prelude.{ℕ, String, Option, List}
use kpi_tenders_go.Models.{ComparisonSession, ComparisonSessionDocument}
use kpi_tenders_go.Effects.{M, ◌>>=◌, ◌>>◌, pure}
use kpi_tenders_go.ComparisonSessionService

-- The handlers look whether the session is the organization's before they touch its documents.
unfoldable pub add_document_to_session : ℕ → ℕ → ℕ → ℕ → M ComparisonSessionDocument
add_document_to_session org session document position =
    ComparisonSessionService.get session org
    >> ComparisonSessionService.add_document session document org position

unfoldable pub remove_document_from_session : ℕ → ℕ → ℕ → M (Unit {0})
remove_document_from_session org session document =
    ComparisonSessionService.get session org
    >> ComparisonSessionService.remove_document session document org

unfoldable pub get_session : ℕ → ℕ → M (ComparisonSession × List ComparisonSessionDocument)
get_session org id =
    ComparisonSessionService.get id org
    >>= (λ s. ComparisonSessionService.list_documents id org >>= (λ docs. pure (s, docs)))

pub data SessionRequest : Type 0 where
  create_session : ℕ → Option String → Option ℕ → SessionRequest
  delete_session : ℕ → SessionRequest
  add_document : ℕ → ℕ → ℕ → SessionRequest
  remove_document : ℕ → ℕ → SessionRequest

abbrev pub Answered : SessionRequest → Type 0
Answered (SessionRequest.create_session user name kind) = ComparisonSession
Answered (SessionRequest.delete_session id) = Unit {0}
Answered (SessionRequest.add_document session document position) = ComparisonSessionDocument
Answered (SessionRequest.remove_document session document) = Unit {0}

unfoldable pub on_session : ℕ → (r : SessionRequest) → M (Answered r)
on_session org (SessionRequest.create_session user name kind) =
    ComparisonSessionService.create org user name kind
on_session org (SessionRequest.delete_session id) = ComparisonSessionService.delete id org
on_session org (SessionRequest.add_document session document position) =
    add_document_to_session org session document position
on_session org (SessionRequest.remove_document session document) =
    remove_document_from_session org session document
