-- ===== src/Outcomes/Started.antt =====
-- A request that `Initiate` answers with.
use kpi_tenders_go.Prelude.{
  find, ℕ, String, Bool, true, false, List, [], ◌∷◌, ◌++◌, ◌≡◌, refl, arith, ◌&&◌, ◌==◌, ==_refl,
  exists, find, sym, ◌∙◌, ap, subst, if◌then◌else◌,
}
use kpi_tenders_go.Models.{ExtractionRequest, RequestStatus}
use kpi_tenders_go.Errs.{missing_as, Error}
use kpi_tenders_go.Effects.{
  asks, Env, World, Result, ok, err, ◌>>=◌, map_error, pure, throw, best_effort, asks,
}
use kpi_tenders_go.Effects.Evolves.{Evolves}
use kpi_tenders_go.Effects.Queries.{run-ok, bind-holds, map_error-ok, map_error-world, query-world}
use kpi_tenders_go.Repository.Documents.{has_id_org, get_document, first}
use kpi_tenders_go.Repository.Requests.{request_row, insert_request, create_extraction_request}
use kpi_tenders_go.Extraction.Progress.{initiate, start_request, progress}
use kpi_tenders_go.Frame.Extraction.{Evolves-progress}
use kpi_tenders_go.History.Grows.{Grows}
use kpi_tenders_go.History.Extends.{Extends, SameRequest}
use kpi_tenders_go.History.Statements.{Extends-Stable}

-- A row of the request that a user of `org` has made about `document`.
abbrev pub is_about : ℕ → ℕ → ℕ → ExtractionRequest → Bool
is_about id document org r = r.id == id && r.document_id == document && r.organization_id == org

exists-kept :
    (id document org : ℕ) (xs ys : List ExtractionRequest)
    → Grows SameRequest xs ys
    → exists (is_about id document org) xs ≡ true
    → exists (is_about id document org) ys ≡ true
exists-kept id document org [] ys g h = ground arith
exists-kept id document org (x ∷ xs) [] g h = absurd g
exists-kept id document org (x ∷ xs) (y ∷ ys) g h =
    ground (
      arith,
      g.0.id_eq,
      g.0.document_eq,
      g.0.organization_eq,
      exists-kept id document org xs ys g.1,
    )

exists-last :
    (p : ExtractionRequest → Bool) (xs : List ExtractionRequest) (x : ExtractionRequest)
    → p x ≡ true
    → exists p (xs ++ x ∷ []) ≡ true
exists-last p [] x h = ground arith
exists-last p (y ∷ xs) x h = ground (arith, exists-last p xs x)

-- What `Initiate` answers, and where the world has it.
pub record IsStarted (document org : ℕ) (questions : String) (hidden : Bool)
    (req : ExtractionRequest) (v : World) : Type 0 where
  pub document_eq : req.document_id ≡ document
  pub organization_eq : req.organization_id ≡ org
  pub questions_eq : req.questions ≡ questions
  pub anonymize_eq : req.anonymize ≡ hidden
  pub status_eq : req.status ≡ RequestStatus.pending
  pub stored : exists (is_about req.id document org) v.requests ≡ true

row-IsStarted :
    (document org : ℕ) (questions : String) (hidden : Bool) (now : ℕ) (w : World)
    (req : ExtractionRequest) (n : ℕ)
    → req ≡ request_row document org questions hidden w.next_id now
    → IsStarted document org questions hidden req (record w {
      requests = w.requests ++ request_row document org questions hidden w.next_id now ∷ [];
      next_id = n;
    })
row-IsStarted document org questions hidden now w req n is_row = rw is_row (record {
  document_eq = refl;
  organization_eq = refl;
  questions_eq = refl;
  anonymize_eq = refl;
  status_eq = refl;
  stored =
      exists-last (is_about w.next_id document org) w.requests
        (request_row document org questions hidden w.next_id now)
        (ground (arith, ==_refl w.next_id, ==_refl document, ==_refl org));
})

row_of :
    (b : Bool) (r req : ExtractionRequest) (x : Error) (v w : World)
    → (if◌then◌else◌ {A = Result ExtractionRequest × World} b (ok r, v) (err x, w)).0 ≡ ok req
    → (b ≡ true) × (req ≡ r)
row_of true r req x v w h = (refl, ground arith)
row_of false r req x v w h = ground arith

insert_request-ok :
    (document org : ℕ) (questions : String) (hidden : Bool) (now : ℕ) (w : World)
    (req : ExtractionRequest)
    → (insert_request document org questions hidden now w).0 ≡ ok req
    → (exists (has_id_org document org) w.documents ≡ true)
      × (IsStarted document org questions hidden req
          (insert_request document org questions hidden now w).1)
unfolding insert_request
insert_request-ok document org questions hidden now w req h =
    let (found, is_row) = row_of (exists (has_id_org document org) w.documents) _ req _ _ w h in
    (found, rw found (row-IsStarted document org questions hidden now w req _ is_row))

create-ok :
    (document org : ℕ) (questions : String) (hidden : Bool) (e : Env) (w : World)
    (req : ExtractionRequest)
    → (create_extraction_request document org questions hidden e w).0 ≡ ok req
    → (exists (has_id_org document org) w.documents ≡ true)
      × (IsStarted document org questions hidden req
          (create_extraction_request document org questions hidden e w).1)
unfolding create_extraction_request
create-ok document org questions hidden e w req h =
    let (done, same) = run-ok (insert_request document org questions hidden) e w h in
    rw same (insert_request-ok document org questions hidden (e.clock w.calls) _ req done)

-- What follows keeps the row.
IsStarted-Extends :
    (document org : ℕ) (questions : String) (hidden : Bool) (req : ExtractionRequest) (v u : World)
    → Extends v u
    → IsStarted document org questions hidden req v
    → IsStarted document org questions hidden req u
IsStarted-Extends document org questions hidden req v u g h = record {
  document_eq = h.document_eq;
  organization_eq = h.organization_eq;
  questions_eq = h.questions_eq;
  anonymize_eq = h.anonymize_eq;
  status_eq = h.status_eq;
  stored = exists-kept req.id document org v.requests u.requests g.requests h.stored;
}

get_document-documents :
    (id org : ℕ) (e : Env) (w : World) → (get_document id org e w).1.documents ≡ w.documents
unfolding get_document
get_document-documents id org e w =
    ap World.documents (query-world (λ now v. first (find (has_id_org id org) v.documents)) e w)

progress-Extends : (req : ExtractionRequest) → Evolves Extends (progress req)
progress-Extends req = Evolves-progress (Extends-Stable {P = λ p. Unit}).steady (λ p. tt) req

answered_with :
    (document org : ℕ) (questions : String) (hidden : Bool) (made req : ExtractionRequest) (e : Env)
    (v : World)
    → ((best_effort (progress made) >>= λ _. pure made) e v).0 ≡ ok req
    → IsStarted document org questions hidden made v
    → IsStarted document org questions hidden req
        ((best_effort (progress made) >>= λ _. pure made) e v).1
unfolding ◌>>=◌ pure best_effort
answered_with document org questions hidden made req e v h started = rw (sym (ok_injective h)) (
    IsStarted-Extends document org questions hidden made v _ ((progress-Extends made).at e v)
      started)
  where
    ok_injective : {x y : ExtractionRequest} → ok x ≡ ok y → x ≡ y
    ok_injective k = ground arith

-- From the world `v` of the lookup on.
made_from :
    (document org : ℕ) (text : String) (hidden : Bool) (f : Error → Error) (e : Env) (v : World)
    (req : ExtractionRequest)
    → ((map_error f (create_extraction_request document org text hidden) >>= λ made.
          best_effort (progress made) >>= λ _. pure made)
        e v).0
      ≡ ok req
    → (exists (has_id_org document org) v.documents ≡ true)
      × (IsStarted document org text hidden req
          ((map_error f (create_extraction_request document org text hidden) >>= λ made.
              best_effort (progress made) >>= λ _. pure made)
            e v).1)
made_from document org text hidden f e v req h =
    bind-holds
      (λ u.
        (exists (has_id_org document org) v.documents ≡ true)
        × (IsStarted document org text hidden req u))
      (map_error f (create_extraction_request document org text hidden)) _ e v h
      λ made created last.
        let created_ok =
          map_error-ok f (create_extraction_request document org text hidden) e v created in
        let (owned, started) = create-ok document org text hidden e v made created_ok in
        (
          owned,
          answered_with document org text hidden made req e _ last (
              rw (map_error-world f (create_extraction_request document org text hidden) e v)
                started),
        )

start_request-ok :
    (document org : ℕ) (questions : List String) (hidden : Bool) (e : Env) (w : World)
    (req : ExtractionRequest)
    → (start_request document org questions hidden e w).0 ≡ ok req
    → (exists (has_id_org document org) w.documents ≡ true)
      × (IsStarted document org
          (e.marshal_questions questions)
          hidden
          req
          (start_request document org questions hidden e w).1)
unfolding start_request asks ◌>>=◌
start_request-ok document org questions hidden e w req h =
    bind-holds
      (λ u.
        (exists (has_id_org document org) w.documents ≡ true)
        × (IsStarted document org (e.marshal_questions questions) hidden req u))
      (map_error (missing_as "document not found") (get_document document org)) _ e w h
      λ doc found rest.
        let made = made_from document org (e.marshal_questions questions) hidden _ e _ req rest in
        (
          subst (λ ds. exists (has_id_org document org) ds ≡ true) (document_kept document org e w)
              made.0,
          made.1,
        )
  where
    document_kept :
        (document org : ℕ) (e : Env) (w : World)
        → (map_error (missing_as "document not found") (get_document document org) e w).1.documents
          ≡ w.documents
    document_kept document org e w =
        ap World.documents
          (map_error-world (missing_as "document not found") (get_document document org) e w)
        ∙ get_document-documents document org e w

-- A request that `Initiate` answers is about a document of the user's organization, with the user's
-- questions and choice of anonymization; it was pending when made, and its row is stored.
pub initiate-ok :
    (document org : ℕ) (questions : List String) (hidden : Bool) (e : Env) (w : World)
    (req : ExtractionRequest)
    → (initiate document org questions hidden e w).0 ≡ ok req
    → (exists (has_id_org document org) w.documents ≡ true)
      × (IsStarted document org
          (e.marshal_questions questions)
          hidden
          req
          (initiate document org questions hidden e w).1)
unfolding initiate throw
initiate-ok document org [] hidden e w req h = ground arith
initiate-ok document org (q ∷ qs) hidden e w req h =
    start_request-ok document org (q ∷ qs) hidden e w req h
