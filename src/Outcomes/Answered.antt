-- ===== src/Outcomes/Answered.antt =====
-- `Initiate` where every call is answered.
use kpi_tenders_go.Prelude.{
  some, suc, find, ℕ, String, Bool, true, List, [], ◌∷◌, ◌≡◌, refl, arith, exists, find,
}
use kpi_tenders_go.Models.{Document}
use kpi_tenders_go.Effects.{
  Fate, run, counted, asks, Env, World, ok, ◌>>=◌, map_error, pure, best_effort, asks,
}
use kpi_tenders_go.Repository.Documents.{has_id_org, get_document}
use kpi_tenders_go.Repository.Requests.{request_row, insert_request, create_extraction_request}
use kpi_tenders_go.Extraction.Progress.{initiate, start_request}

exists-found :
    (p : Document → Bool) (ds : List Document) (d : Document)
    → find p ds ≡ some d
    → exists p ds ≡ true
exists-found p [] d h = ground arith
exists-found p (x ∷ ds) d h = ground (arith, exists-found p ds d)

create-answered :
    (document org : ℕ) (questions : String) (hidden : Bool) (e : Env) (w : World)
    → e.fate w.calls ≡ Fate.answered
    → exists (has_id_org document org) w.documents ≡ true
    → (create_extraction_request document org questions hidden e w).0
      ≡ ok (request_row document org questions hidden w.next_id (e.clock w.calls))
unfolding create_extraction_request insert_request run
create-answered document org questions hidden e w answers found = rw (answers, found) refl

-- With at least one question about a document of the user's organization, and every call answered,
-- `Initiate` answers with the request, pending, under the next id, with these questions and this
-- choice, whatever comes of the first step of the pipeline.
pub initiate-answers :
    (document org : ℕ) (q : String) (qs : List String) (hidden : Bool) (e : Env) (w : World)
    (d : Document)
    → ((call : ℕ) → e.fate call ≡ Fate.answered)
    → find (has_id_org document org) w.documents ≡ some d
    → (initiate document org (q ∷ qs) hidden e w).0
      ≡ ok (
          request_row document org
            (e.marshal_questions (q ∷ qs))
            hidden
            w.next_id
            (e.clock (suc w.calls)))
unfolding initiate start_request ◌>>=◌ map_error get_document run asks best_effort pure
initiate-answers document org q qs hidden e w d answers found =
    rw
      (
        answers w.calls,
        found,
        create-answered document org (e.marshal_questions (q ∷ qs)) hidden e (counted w)
            (answers (suc w.calls)) (exists-found (has_id_org document org) w.documents d found),
      )
      refl
