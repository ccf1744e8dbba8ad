-- ===== src/Outcomes/Failure.antt =====
-- The extraction requests of a document whose preparation fails.
use kpi_tenders_go.Prelude.{
  ap, length, and_true, All, ◌&&◌, ℕ, String, Bool, true, false, Option, some, List, [], ◌∷◌, ◌≡◌,
  refl, arith, inl, inr, ==_refl, exists, update, select, sort_by, Bool-cases, if◌then◌else◌,
  exists-sort_by, Member,
}
use kpi_tenders_go.Models.{ExtractionRequest, RequestStatus}
use kpi_tenders_go.Effects.{Env, World, Fate, ok, run, best_effort, for_each, ◌>>=◌, pure, counted}
use kpi_tenders_go.Repository.Requests.{
  has_request_id, is_pending_on, earliest_first, update_request, set_request_status,
  set_extraction_request_status,
}
use kpi_tenders_go.Extraction.Enqueue.{mark_request_failed}
use kpi_tenders_go.History.Grows.{Grows}

abbrev pub is_failed_request : RequestStatus → Bool
is_failed_request RequestStatus.failed = true
is_failed_request s = false

-- A request before and after those of `rs` have been failed, by their ids.
pub record Failed (rs : List ExtractionRequest) (x y : ExtractionRequest) : Type 0 where
  pub id_eq : y.id ≡ x.id
  pub document_eq : y.document_id ≡ x.document_id
  pub others : exists (has_request_id x.id) rs ≡ false → y ≡ x
  pub named : exists (has_request_id x.id) rs ≡ true → y.status ≡ RequestStatus.failed

Failed-none : (xs : List ExtractionRequest) → Grows (Failed []) xs xs
Failed-none [] = tt
Failed-none (x ∷ xs) = (
  record { id_eq = refl; document_eq = refl; others = λ _. refl; named = λ h. ground arith },
  Failed-none xs,
)

-- One request more, before the others.
failed_row :
    (r : ExtractionRequest) (rs : List ExtractionRequest) (msg : Option String) (now : ℕ) (b : Bool)
    (x y : ExtractionRequest)
    → has_request_id r.id x ≡ b
    → Failed rs (if b then set_request_status RequestStatus.failed msg now x else x) y
    → Failed (r ∷ rs) x y
failed_row r rs msg now true x y here h = record {
  id_eq = h.id_eq;
  document_eq = h.document_eq;
  others = λ none. ground arith;
  named = λ some_row. elim (Bool-cases (exists (has_request_id x.id) rs)) [
    | inl again ↦ h.named again
    | inr once ↦ ap ExtractionRequest.status (h.others once)
  ];
}
failed_row r rs msg now false x y other h = record {
  id_eq = h.id_eq;
  document_eq = h.document_eq;
  others = λ none. h.others (ground arith);
  named = λ some_row. h.named (ground arith);
}

failed_rows :
    (r : ExtractionRequest) (rs : List ExtractionRequest) (msg : Option String) (now : ℕ)
    (xs zs : List ExtractionRequest)
    → Grows
        (Failed rs)
        (update (has_request_id r.id) (set_request_status RequestStatus.failed msg now) xs)
        zs
    → Grows (Failed (r ∷ rs)) xs zs
failed_rows r rs msg now [] zs h = tt
failed_rows r rs msg now (x ∷ xs) [] h = h
failed_rows r rs msg now (x ∷ xs) (z ∷ zs) h = (
  failed_row r rs msg now (has_request_id r.id x) x z refl h.0,
  failed_rows r rs msg now xs zs h.1,
)

pub mark_request_failed-answered :
    (id : ℕ) (msg : String) (e : Env) (w : World)
    → e.fate w.calls ≡ Fate.answered
    → mark_request_failed id msg e w ≡ (
      ok tt,
      record (counted w) {
        requests =
            update
              (has_request_id id)
              (set_request_status RequestStatus.failed (some msg) (e.clock w.calls))
              w.requests;
      },
    )
unfolding mark_request_failed best_effort set_extraction_request_status run update_request
mark_request_failed-answered id msg e w answers = rw answers refl

-- The loop of `failPendingRequests`.
pub fails_each :
    (rs : List ExtractionRequest) (msg : String) (e : Env) (w : World)
    → ((call : ℕ) → e.fate call ≡ Fate.answered)
    → Grows
        (Failed rs)
        w.requests
        (for_each rs (λ req. mark_request_failed req.id msg) e w).1.requests
unfolding for_each ◌>>=◌ pure
fails_each [] msg e w answers = Failed-none w.requests
fails_each (r ∷ rs) msg e w answers =
    rw (mark_request_failed-answered r.id msg e w (answers w.calls))
      (failed_rows r rs (some msg) (e.clock w.calls) w.requests _ (fails_each rs msg e _ answers))

exists-selected :
    (p q : ExtractionRequest → Bool) (xs : List ExtractionRequest)
    → exists (λ x. p x && q x) xs ≡ true
    → exists q (select p xs) ≡ true
exists-selected p q [] h = h
exists-selected p q (x ∷ xs) h = ground (arith, exists-selected p q xs)

-- The open requests of a document, as they are listed.
abbrev pub listed : ℕ → List ExtractionRequest → List ExtractionRequest
listed document rs = sort_by earliest_first (select (is_pending_on document) rs)

Failed-closed :
    (document : ℕ) (rows : List ExtractionRequest) (x y : ExtractionRequest)
    → Member rows x
    → Failed (listed document rows) x y
    → is_pending_on document y ≡ false
Failed-closed document rows x y member h =
    elim (Bool-cases (exists (has_request_id x.id) (listed document rows))) [
      | inl named ↦ rw (h.named named) (ground arith)
      | inr other ↦ elim (Bool-cases (is_pending_on document x)) [
        | inl active ↦ absurd (
            not_listed other
              (exists-sort_by (has_request_id x.id) earliest_first
                (select (is_pending_on document) rows))
              (exists-selected (is_pending_on document) (has_request_id x.id) rows (
                member (λ r. is_pending_on document r && has_request_id x.id r)
                  (and_true _ _ active (==_refl x.id)))))
        | inr closed ↦ rw (h.others other) closed
      ]
    ]
  where
    not_listed : {a b : Bool} → a ≡ false → a ≡ b → b ≡ true → ⊥
    not_listed h k l = ground arith

pub closed_rows :
    (document : ℕ) (rows xs zs : List ExtractionRequest)
    → All (Member rows) xs
    → length zs ≡ length xs
    → Grows (Failed (listed document rows)) xs zs
    → exists (is_pending_on document) zs ≡ false
closed_rows document rows [] [] member same h = refl
closed_rows document rows [] (z ∷ zs) member same h = ground arith
closed_rows document rows (x ∷ xs) [] member same h = absurd h
closed_rows document rows (x ∷ xs) (z ∷ zs) member same h = ground (
  arith,
  Failed-closed document rows x z member.0 h.0,
  closed_rows document rows xs zs member.1 (ground arith) h.1,
)
