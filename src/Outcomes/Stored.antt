-- ===== src/Outcomes/Stored.antt =====
-- What an extract callback leaves in the table of extracted values
-- (internal/service/service_extraction.go, OnExtractCompleted and persistExtractedData).
use kpi_tenders_go.Prelude.{
  ℕ, String, Bool, true, false, Option, none, some, List, [], ◌∷◌, ◌≡◌, refl, sym, ◌∙◌, subst,
  arith, ◌&&◌, str_eq, exists, exists-imp, find, select, Bool-cases, Option-cases, inl, inr,
}
use kpi_tenders_go.Errs.{wrapped}
use kpi_tenders_go.Models.{
  DocumentTask, ExtractionKey, ExtractedDatum, ExtractionRequest, RequestStatus,
}
use kpi_tenders_go.Effects.{Env, World, counted, ok, ◌>>=◌, map_error, pure, decoding}
use kpi_tenders_go.Effects.Queries.{
  query-ok, query-world, run-ok, bind-holds, map_error-ok, map_error-world,
}
use kpi_tenders_go.Effects.Evolves.{Closed, Evolves, Evolves-run, build_rules}
use kpi_tenders_go.Repository.Documents.{has_id_org}
use kpi_tenders_go.Repository.Keys.{
  is_visible, is_listed, distinct_keys, get_extraction_keys_by_names, keys_allowed, has_repeat,
  upsert_data, batch_upsert, batch_upsert_extracted_data,
}
use kpi_tenders_go.Repository.Requests.{
  has_request_id, update_request, get_extraction_request_by_id, set_extraction_request_status,
}
use kpi_tenders_go.Extraction.Callbacks.{
  with_request, key_id_by_name, value_pairs, names_of, store_pairs, persist_extracted_data,
  persist_values, on_extract_completed,
}
use kpi_tenders_go.Outcomes.Values.{
  is_entry, is_key, is_named, is_pair, with_id, missing_key, key_id_by_name-is_key,
}
use kpi_tenders_go.Outcomes.Keys.{
  is_seen, is_seen_key, is_stored, found-named, found-is_seen, data_written,
}

-- The value, stored for the organization's document under a key of that name that it sees.
abbrev pub is_answer : ℕ → ℕ → String → String → List ExtractionKey → ExtractedDatum → Bool
is_answer org document name u keys x =
    is_stored org document x.key_id u x && exists (is_seen_key org x.key_id name) keys

answer_of :
    (org document id : ℕ) (name u : String) (keys : List ExtractionKey) (xs : List ExtractedDatum)
    → exists (is_seen_key org id name) keys ≡ true
    → exists (is_stored org document id u) xs ≡ true
    → exists (is_answer org document name u keys) xs ≡ true
answer_of org document id name u keys xs seen h =
    exists-imp (is_stored org document id u) (is_answer org document name u keys) xs
      (λ x here.
        let same : x.key_id ≡ id = ground (arith, here) in rw same (ground (arith, here, seen)))
      h

batch-ok :
    (org document now : ℕ) (ps : List (ℕ × String)) (w : World)
    → (batch_upsert org document ps now w).0 ≡ ok tt
    → (has_repeat ps ≡ false)
      × ((batch_upsert org document ps now w).1 ≡ upsert_data org document ps w)
unfolding batch_upsert
batch-ok org document now ps w h = elim (Bool-cases (has_repeat ps)) [
  | inl repeated ↦ ground (arith, h, repeated)
  | inr once ↦ elim (Bool-cases (keys_allowed org w.keys ps)) [
    | inr refused ↦ ground (arith, h, once, refused)
    | inl allowed ↦ elim (Bool-cases (exists (has_id_org document org) w.documents)) [
      | inr unknown ↦ ground (arith, h, once, allowed, unknown)
      | inl known ↦ (once, rw (once, allowed, known) refl)
    ]
  ]
]

store_pairs-stored :
    (req : ExtractionRequest) (ps : List (ℕ × String)) (id : ℕ) (u : String) (e : Env) (w : World)
    → exists (is_pair id u) ps ≡ true
    → (store_pairs req ps e w).0 ≡ ok tt
    → exists
        (is_stored req.organization_id req.document_id id u)
        (store_pairs req ps e w).1.extracted
      ≡ true
unfolding store_pairs batch_upsert_extracted_data
store_pairs-stored req [] id u e w here h = ground arith
store_pairs-stored req (p ∷ ps) id u e w here h =
    let org = req.organization_id in
    let document = req.document_id in
    let (done, left) = run-ok (batch_upsert org document (p ∷ ps)) e w h in
    let (once, rows) = batch-ok org document (e.clock w.calls) (p ∷ ps) (counted w) done in
    rw (left ∙ rows) (data_written org document id u (p ∷ ps) (counted w) once here)

listed_name :
    (extracted : List (String × Option String)) (name u : String)
    → exists (is_entry name u) extracted ≡ true
    → exists (λ n. str_eq n name) (names_of extracted) ≡ true
listed_name [] name u h = ground arith
listed_name ((n, v) ∷ rest) name u h = ground (arith, h, listed_name rest name u)

persist-stored :
    (req : ExtractionRequest) (extracted : List (String × Option String)) (name u : String)
    (e : Env) (w : World)
    → exists (is_entry name u) extracted ≡ true
    → exists (is_seen req.organization_id name) w.keys ≡ true
    → (persist_extracted_data req extracted e w).0 ≡ ok tt
    → exists
        (is_answer req.organization_id req.document_id name u w.keys)
        (persist_extracted_data req extracted e w).1.extracted
      ≡ true
unfolding persist_extracted_data get_extraction_keys_by_names
persist-stored req extracted name u e w there seen h =
    let org = req.organization_id in
    let Q =
      λ (v : World). exists (is_answer org req.document_id name u w.keys) v.extracted ≡ true in
    bind-holds Q _ _ e w h λ keys got stored.
      let rows =
        distinct_keys (select (λ k. is_listed (names_of extracted) k && is_visible org k) w.keys) in
      let same : rows ≡ keys =
        ground (arith, query-ok _ e w (map_error-ok (wrapped "get keys by names") _ e w got)) in
      let known : exists (is_named name) keys ≡ true =
        subst (λ ks. exists (is_named name) ks ≡ true) same
          (found-named w.keys (names_of extracted) org name (listed_name extracted name u there)
            seen) in
      elim (Option-cases (key_id_by_name keys name)) [
        | inl missing ↦ ground (arith, known, missing_key keys name missing)
        | inr (id, found) ↦
            answer_of org req.document_id id name u w.keys _
              (found-is_seen w.keys (names_of extracted) org id name (
                subst (λ ks. exists (is_key id name) ks ≡ true) (sym same)
                  (key_id_by_name-is_key keys name id found)))
              (store_pairs-stored req (value_pairs keys extracted) id u e _
                (with_id keys extracted name u id there found) stored)
      ]

-- The table of extracted values is the same.
abbrev SameValues : World → World → Type 0
SameValues v w = w.extracted ≡ v.extracted

same_values : Closed SameValues
same_values = record { same = λ w. refl; chain = λ u v w h k. k ∙ h; tick = λ w. refl }

status-SameValues :
    (id : ℕ) (s : RequestStatus) (msg : Option String)
    → Evolves SameValues (set_extraction_request_status id s msg)
unfolding set_extraction_request_status update_request
status-SameValues id s msg = Evolves-run same_values _ (record { at = λ now w. refl })

completes-SameValues :
    (id : ℕ)
    → Evolves SameValues (
        map_error
          (wrapped "mark request completed")
          (set_extraction_request_status id RequestStatus.completed none)
        >>= λ _. pure tt)
completes-SameValues id = search (same_values, build_rules, status-SameValues)

values-stored :
    (req : ExtractionRequest) (extracted : List (String × Option String)) (name u : String)
    (e : Env) (w : World)
    → exists (is_entry name u) extracted ≡ true
    → exists (is_seen req.organization_id name) w.keys ≡ true
    → (persist_values req extracted e w).0 ≡ ok tt
    → exists
        (is_answer req.organization_id req.document_id name u w.keys)
        (persist_values req extracted e w).1.extracted
      ≡ true
unfolding persist_values
values-stored req [] name u e w there seen h = ground arith
values-stored req (x ∷ xs) name u e w there seen h =
    let msg = wrapped "persist extracted data" in
    rw (map_error-world msg (persist_extracted_data req (x ∷ xs)) e w)
      (persist-stored req (x ∷ xs) name u e w there seen (map_error-ok msg _ e w h))

request_found :
    (id : ℕ) (req found : ExtractionRequest) (e : Env) (w : World)
    → find (has_request_id id) w.requests ≡ some req
    → (map_error (wrapped "get extraction request") (get_extraction_request_by_id id) e w).0
      ≡ ok found
    → (found ≡ req)
      × ((map_error (wrapped "get extraction request") (get_extraction_request_by_id id) e w).1
          ≡ counted w)
unfolding get_extraction_request_by_id
request_found id req found e w stored got =
    let msg = wrapped "get extraction request" in
    (
      ground (arith, stored, query-ok _ e w (map_error-ok msg _ e w got)),
      map_error-world msg _ e w ∙ query-world _ e w,
    )

finished :
    (req found : ExtractionRequest) (extracted values : List (String × Option String))
    (name u : String) (id : ℕ) (e : Env) (v w : World)
    → found ≡ req
    → values ≡ extracted
    → v ≡ counted w
    → exists (is_entry name u) extracted ≡ true
    → exists (is_seen req.organization_id name) w.keys ≡ true
    → (persist_values found values e v).0 ≡ ok tt
    → exists
        (is_answer req.organization_id req.document_id name u w.keys)
        ((map_error
              (wrapped "mark request completed")
              (set_extraction_request_status id RequestStatus.completed none)
            >>= λ _. pure tt)
          e
          (persist_values found values e v).1).1.extracted
      ≡ true
finished req found extracted values name u id e v w same read left there seen persisted =
    rw ((completes-SameValues id).at e (persist_values found values e v).1) (
      rw (same, read, left)
        (values-stored req extracted name u e (counted w) there seen
          (rw (same, read, left) at persisted)))

-- An extract callback that ends without an error has stored each value of its payload that is not
-- null and whose name is that of a key that the request's organization sees: for that organization
-- and the request's document, under such a key.
pub on_extract_completed-stores :
    (task : DocumentTask) (id : ℕ) (req : ExtractionRequest)
    (extracted : List (String × Option String)) (name u : String) (e : Env) (w : World)
    → task.extraction_request_id ≡ some id
    → e.parse_extracted task.result_payload ≡ some extracted
    → find (has_request_id id) w.requests ≡ some req
    → exists (is_entry name u) extracted ≡ true
    → exists (is_seen req.organization_id name) w.keys ≡ true
    → (on_extract_completed task e w).0 ≡ ok tt
    → exists
        (is_answer req.organization_id req.document_id name u w.keys)
        (on_extract_completed task e w).1.extracted
      ≡ true
unfolding on_extract_completed with_request decoding
on_extract_completed-stores task id req extracted name u e w owner parsed stored there seen h =
    let Q = λ (v : World).
      exists (is_answer req.organization_id req.document_id name u w.keys) v.extracted ≡ true in
    rw owner (
      bind-holds Q _ _ e w (rw owner at h) λ values read k. bind-holds Q _ _ e _ k λ found got l.
        let (same, left) = request_found id req found e w stored got in
        bind-holds Q _ _ e _ l λ _ persisted done.
          finished req found extracted values name u id e _ w same (ground (arith, read, parsed))
            left there seen persisted)
