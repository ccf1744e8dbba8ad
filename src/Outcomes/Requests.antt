-- ===== src/Outcomes/Requests.antt =====
-- The start and the end of an extraction request.
use kpi_tenders_go.Prelude.{
  ℕ, String, Bool, true, false, none, some, List, [], ◌∷◌, ◌≡◌, refl, arith, ◌==◌, find, update,
  All, if◌then◌else◌,
}
use kpi_tenders_go.Errs.{Error, no_rows, app, app_of, not_found, validation_failed, is_no_rows}
use kpi_tenders_go.Models.{DocumentTask, ExtractionRequest, RequestStatus}
use kpi_tenders_go.Effects.{Env, World, Fate, ok, err, counted, ◌>>=◌, map_error, throw, pure}
use kpi_tenders_go.Effects.Queries.{run-answered, run-ok, bind-holds, map_error-ok, map_error-world}
use kpi_tenders_go.Repository.Documents.{has_id_org, get_document, first}
use kpi_tenders_go.Repository.Requests.{
  has_request_id, update_request, set_request_status, set_extraction_request_status,
}
use kpi_tenders_go.Extraction.Progress.{initiate, start_request}
use kpi_tenders_go.Extraction.Callbacks.{with_request, on_extract_completed}

-- Where a user of one organization asks about a document of another, or about none, the answer is
-- 404; without questions it is a validation error. The tables and queues stay as they are. The
-- database answers the lookup.
pub initiate-refuses :
    (document org : ℕ) (q : String) (qs : List String) (hidden : Bool) (e : Env) (w : World)
    → e.fate w.calls ≡ Fate.answered
    → find (has_id_org document org) w.documents ≡ none
    → (initiate document org (q ∷ qs) hidden e w
        ≡ (err (app_of not_found "document not found" no_rows), counted w))
      × (initiate document org [] hidden e w
          ≡ (err (app validation_failed "questions must not be empty"), w))
unfolding initiate start_request ◌>>=◌ map_error get_document throw is_no_rows
initiate-refuses document org q qs hidden e w answers missing = (
  rw
      (
        run-answered (λ now v. (first (find (has_id_org document org) v.documents), v)) e w answers,
        missing,
      )
      refl,
  refl,
)

-- The rows of an id after a status is written.
completed_rows :
    (id now : ℕ) (rs : List ExtractionRequest)
    → All
        (λ r. (r.id == id) ≡ true → r.status ≡ RequestStatus.completed)
        (update (has_request_id id) (set_request_status RequestStatus.completed none now) rs)
completed_rows id now [] = tt
completed_rows id now (r ∷ rs) =
    (completed_row (has_request_id id r) id now r refl, completed_rows id now rs)
  where
    completed_row :
        (b : Bool) (id now : ℕ) (r : ExtractionRequest)
        → has_request_id id r ≡ b
        → ((if b then set_request_status RequestStatus.completed none now r else r).id == id) ≡ true
        → (if b then set_request_status RequestStatus.completed none now r else r).status
          ≡ RequestStatus.completed
    completed_row true id now r h k = refl
    completed_row false id now r h k = ground arith

set_completed-ok :
    (id : ℕ) (e : Env) (w : World) (r : ExtractionRequest)
    → (set_extraction_request_status id RequestStatus.completed none e w).0 ≡ ok r
    → All
        (λ r. (r.id == id) ≡ true → r.status ≡ RequestStatus.completed)
        (set_extraction_request_status id RequestStatus.completed none e w).1.requests
unfolding set_extraction_request_status update_request
set_completed-ok id e w r h =
    rw ((run-ok (update_request id (set_request_status RequestStatus.completed none)) e w h).1)
      (completed_rows id (e.clock w.calls) w.requests)

abbrev pub Completed : ℕ → List ExtractionRequest → Type 0
Completed id rs = All (λ r. (r.id == id) ≡ true → r.status ≡ RequestStatus.completed) rs

last-Completed :
    (id : ℕ) (f : Error → Error) (e : Env) (w : World)
    → ((map_error f (set_extraction_request_status id RequestStatus.completed none) >>= λ _.
          pure tt)
        e w).0
      ≡ ok tt
    → Completed id
        ((map_error f (set_extraction_request_status id RequestStatus.completed none) >>= λ _.
            pure tt)
          e w).1.requests
unfolding pure set_extraction_request_status
last-Completed id f e w h =
    bind-holds (λ v. Completed id v.requests)
      (map_error f (set_extraction_request_status id RequestStatus.completed none)) _ e w h
      λ r written _.
        rw (map_error-world f (set_extraction_request_status id RequestStatus.completed none) e w) (
          set_completed-ok id e w r (
            map_error-ok f (set_extraction_request_status id RequestStatus.completed none) e w
              written))

-- A callback of an extract task that ends without an error has completed its request: every row
-- with the request's id has the status completed.
pub on_extract_completed-Completed :
    (task : DocumentTask) (id : ℕ) (e : Env) (w : World)
    → task.extraction_request_id ≡ some id
    → (on_extract_completed task e w).0 ≡ ok tt
    → Completed id (on_extract_completed task e w).1.requests
unfolding on_extract_completed with_request
on_extract_completed-Completed task id e w owner h =
    let Q = λ (v : World). Completed id v.requests in
    rw owner (
      bind-holds Q _ _ e w (rw owner at h) λ extracted _ k.
        bind-holds Q _ _ e _ k
          λ req _ l. bind-holds Q _ _ e _ l λ _ _ done. last-Completed id _ e _ done)
