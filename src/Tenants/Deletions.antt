-- ===== src/Tenants/Deletions.antt =====
-- What the deletion of a document, with all that hangs on it, leaves of another organization's rows.
use kpi_tenders_go.Prelude.{
  ℕ, true, false, Option, none, some, List, [], ◌∷◌, ◌≡◌, refl, sym, ap, subst, ◌∙◌, ◌==◌, ==_iff,
  inl, inr, Bool-cases, if◌then◌else◌, ◌||◌, arith, exists, select, All, All-map_weaken, All-zip,
  and_fst, and_snd, ◌&&◌, exists_alike, select-same, select-keep_All, select-map_keep,
}
use kpi_tenders_go.Models.{Document, DocumentTask, ExtractionRequest, ExtractedDatum, is_id}
use kpi_tenders_go.Effects.{
  Fate, Env, World, Result, ok, err, counted, run, settle, continue, with_error, pure, throw,
  map_error, ◌>>=◌,
}
use kpi_tenders_go.Effects.Evolves.{branches}
use kpi_tenders_go.Errs.{internal}
use kpi_tenders_go.Repository.Documents.{has_id_org}
use kpi_tenders_go.Repository.Originals.{
  among, descendants, clear_bundle, in_gone_request, without_documents, remove_document,
  delete_document,
}
use kpi_tenders_go.Repository.Documents.{document_in}
use kpi_tenders_go.Repository.Owned.{owns}
use kpi_tenders_go.Repository.Accounts.{is_document_of}
use kpi_tenders_go.Tenants.View.{SameRows, SameRows-Closed, request_of, datum_of}
use kpi_tenders_go.DocumentService
use kpi_tenders_go.DocumentService.{unless_zero}
use kpi_tenders_go.Tenants.Descendants.{IsStored, Own, descendants-Own, ids_stored, Own-apart}

module _ (w : World) (s : IsStored w) (org other : ℕ) (apart : (org == other) ≡ false)
    (ids : List ℕ) (own : Own w org ids) where
  kept :
      (owner i : ℕ)
      → exists (has_id_org i owner) w.documents ≡ true
      → (owner == other) ≡ true
      → among ids i ≡ false
  kept owner i h mine =
      Own-apart w s.keyed org other ids i apart own
        (subst (λ o. exists (has_id_org i o) w.documents ≡ true) ((==_iff owner other).0 mine) h)

  cleared :
      (owner : ℕ) (b : Option ℕ)
      → document_in b owner w ≡ true
      → (owner == other) ≡ true
      → elim b [ none ↦ none | some i ↦ if among ids i then none else some i ] ≡ b
  cleared owner none h mine = refl
  cleared owner (some i) h mine = rw (kept owner i h mine) refl

  documents_kept :
      select (is_document_of other) (without_documents ids w).documents
      ≡ select (is_document_of other) w.documents
  documents_kept =
      select-map_keep (λ (d : Document). among ids d.id) (is_document_of other) (clear_bundle ids)
        w.documents (λ d. refl)
        (All-map_weaken _ _ w.documents
          (λ d both mine. (
            kept d.organization_id d.id both.0 mine,
            ap (λ b. record d { bundle_id = b })
                (cleared d.organization_id d.bundle_id both.1 mine),
          ))
          (All-zip _ _ w.documents (ids_stored w s.keyed) s.bundles))

  request_gone :
      (t : DocumentTask) (rs : List ExtractionRequest)
      → All
          (λ (r : ExtractionRequest).
            is_id t.extraction_request_id r.id ≡ true → r.document_id ≡ t.document_id)
          rs
      → exists
          (λ (r : ExtractionRequest). among ids r.document_id && is_id t.extraction_request_id r.id)
          rs
        ≡ true
      → among ids t.document_id ≡ true
  request_gone t [] linked h = cc h
  request_gone t (r ∷ rs) linked h =
      elim (Bool-cases (among ids r.document_id && is_id t.extraction_request_id r.id)) [
        | inl found ↦
            rw (sym (linked.0 (and_snd (among ids r.document_id) _ found)))
              (and_fst _ (is_id t.extraction_request_id r.id) found)
        | inr missed ↦ request_gone t rs linked.1 (ground (arith, h, missed))
      ]

  owned_kept :
      (t : DocumentTask)
      → All
          (λ (r : ExtractionRequest).
            is_id t.extraction_request_id r.id ≡ true → r.document_id ≡ t.document_id)
          w.requests
      → (among ids t.document_id || in_gone_request ids w t) ≡ true
      → owns other w.documents t ≡ false
  owned_kept t linked h = elim (Bool-cases (owns other w.documents t)) [
    | inl mine ↦ cc (gone, Own-apart w s.keyed org other ids t.document_id apart own mine)
    | inr none_of_mine ↦ none_of_mine
  ]
    where
      gone : among ids t.document_id ≡ true
      gone = elim (Bool-cases (among ids t.document_id)) [
        | inl here ↦ here
        | inr away ↦ request_gone t w.requests linked (ground (arith, h, away))
      ]

  tasks_kept :
      select (owns other (without_documents ids w).documents) (without_documents ids w).tasks
      ≡ select (owns other w.documents) w.tasks
  tasks_kept =
      select-same _ _
        (λ t.
          exists_alike (has_id_org t.document_id other) (is_document_of other)
            (λ d h. ground (arith, h)) _ w.documents documents_kept)
        (without_documents ids w).tasks
      ∙ select-keep_All (λ (t : DocumentTask). among ids t.document_id || in_gone_request ids w t)
          (owns other w.documents) w.tasks
          (All-map_weaken _ _ w.tasks (λ t linked h. owned_kept t linked h) s.linked)

  foreign_kept :
      (owner i : ℕ)
      → exists (has_id_org i owner) w.documents ≡ true
      → among ids i ≡ true
      → (owner == other) ≡ false
  foreign_kept owner i h gone = elim (Bool-cases (owner == other)) [
    | inl mine ↦ cc (gone, kept owner i h mine)
    | inr away ↦ away
  ]

  without-SameRows : SameRows other w (without_documents ids w)
  without-SameRows = record {
    documents = sym documents_kept;
    tasks = sym tasks_kept;
    users = refl;
    sites = refl;
    contract_kinds = refl;
    file_roles = refl;
    requests = sym (
        select-keep_All (λ (r : ExtractionRequest). among ids r.document_id) (request_of other)
          w.requests
          (All-map_weaken _ _ w.requests (λ r h. foreign_kept r.organization_id r.document_id h)
            s.requests));
    keys = refl;
    extracted = sym (
        select-keep_All (λ (x : ExtractedDatum). among ids x.document_id) (datum_of other)
          w.extracted
          (All-map_weaken _ _ w.extracted (λ x h. foreign_kept x.organization_id x.document_id h)
            s.extracted));
  }

document_in-counted :
    (o : Option ℕ) (owner : ℕ) (w : World)
    → document_in o owner w ≡ true
    → document_in o owner (counted w) ≡ true
document_in-counted none owner w h = h
document_in-counted (some i) owner w h = h

counted-IsStored : (w : World) → IsStored w → IsStored (counted w)
counted-IsStored w s = record {
  keyed = s.keyed;
  parents =
      All-map_weaken _ _ w.documents (λ d h. document_in-counted d.parent_id d.organization_id w h)
        s.parents;
  bundles =
      All-map_weaken _ _ w.documents (λ d h. document_in-counted d.bundle_id d.organization_id w h)
        s.bundles;
  linked = s.linked;
  requests = s.requests;
  extracted = s.extracted;
}

module _ (org other id : ℕ) (apart : (org == other) ≡ false) where
  single-Own : (w : World) → exists (has_id_org id org) w.documents ≡ true → Own w org (id ∷ [])
  single-Own w h i found =
      subst (λ n. exists (has_id_org n org) w.documents ≡ true)
        ((==_iff id i).0 (ground (arith, found))) h

  remove_document-SameRows :
      (now : ℕ) (w : World) → IsStored w → SameRows other w (remove_document id org now w).1
  unfolding remove_document
  remove_document-SameRows now w s =
      branches (SameRows other) (exists (has_id_org id org) w.documents) w _ _
        (λ found. without-SameRows w s org other apart (descendants (id ∷ []) w.documents) (
          descendants-Own w s.keyed org (id ∷ []) w.documents s.parents (ids_stored w s.keyed)
            (single-Own w found)))
        (λ missing. (SameRows-Closed other).same w)

  settle-SameRows :
      (f : Fate) (x : Result ℕ × World) (v w : World)
      → SameRows other v x.1
      → SameRows other v w
      → SameRows other v (settle f x w).1
  settle-SameRows Fate.answered x v w done kept = done
  settle-SameRows Fate.refused x v w done kept = kept
  settle-SameRows Fate.reply_lost x v w done kept = done

  unless_zero-world :
      (r : Result ℕ) (e : Env) (w : World)
      → (continue (with_error internal r) (unless_zero "document not found") e w).1 ≡ w
  unfolding pure throw
  unless_zero-world (ok rows) e w = ground arith
  unless_zero-world (err x) e w = refl

-- Where the tables meet their constraints and a request's tasks are on its document, the deletion
-- of a document, with its artifacts, tasks, requests and values, leaves another
-- organization's documents, tasks, users, sites, contract kinds, file roles, requests, keys and values
-- as they are, whatever id is named and whatever the database answers.
pub delete-SameRows :
    (org other id : ℕ) (e : Env) (w : World)
    → (org == other) ≡ false
    → IsStored w
    → SameRows other w (DocumentService.delete id org e w).1
unfolding DocumentService.delete delete_document map_error ◌>>=◌ run
delete-SameRows org other id e w apart s =
    let c = SameRows-Closed other in
    rw
      (unless_zero-world org other id apart
        (settle (e.fate w.calls) (remove_document id org (e.clock w.calls) (counted w))
          (counted w)).0
        e
        (settle (e.fate w.calls) (remove_document id org (e.clock w.calls) (counted w))
          (counted w)).1)
      (settle-SameRows org other id apart (e.fate w.calls) _ w (counted w)
        (c.chain _ _ _ (c.tick w) (
          remove_document-SameRows org other id apart (e.clock w.calls) (counted w)
            (counted-IsStored w s)))
        (c.tick w))
