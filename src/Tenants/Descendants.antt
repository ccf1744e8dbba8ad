-- ===== src/Tenants/Descendants.antt =====
-- The documents that go with a document are of its organization.
use kpi_tenders_go.Prelude.{
  ℕ, true, false, Option, none, some, List, [], ◌∷◌, ◌≡◌, subst, ◌==◌, ==_iff, inl, inr, Bool-cases,
  arith, exists, All, All-Member, All-map_weaken,
}
use kpi_tenders_go.Models.{Document, DocumentTask, ExtractionRequest, ExtractedDatum, is_id}
use kpi_tenders_go.Effects.{World}
use kpi_tenders_go.Repository.Documents.{has_id_org}
use kpi_tenders_go.Repository.Originals.{among, has_parent_among, descendants}
use kpi_tenders_go.Repository.Documents.{document_in}
use kpi_tenders_go.Tenants.View.{IsKeyed}
use kpi_tenders_go.Tenants.Answers.{keyed-one}
use kpi_tenders_go.Tenants.Writes.{one_owner}

-- The foreign keys and the triggers on documents, and that a task of a request is on its document.
pub record IsStored (w : World) : Type 0 where
  pub keyed : IsKeyed w
  pub parents :
      All (λ (d : Document). document_in d.parent_id d.organization_id w ≡ true) w.documents
  pub bundles :
      All (λ (d : Document). document_in d.bundle_id d.organization_id w ≡ true) w.documents
  pub linked :
      All
        (λ (t : DocumentTask).
          All
            (λ (r : ExtractionRequest).
              is_id t.extraction_request_id r.id ≡ true → r.document_id ≡ t.document_id)
            w.requests)
        w.tasks
  pub requests :
      All
        (λ (r : ExtractionRequest).
          exists (has_id_org r.document_id r.organization_id) w.documents ≡ true)
        w.requests
  pub extracted :
      All
        (λ (x : ExtractedDatum).
          exists (has_id_org x.document_id x.organization_id) w.documents ≡ true)
        w.extracted

-- Every one of the ids is of a document of the organization.
abbrev pub Own : World → ℕ → List ℕ → Type 0
Own w org ids = (i : ℕ) → among ids i ≡ true → exists (has_id_org i org) w.documents ≡ true

module _ (w : World) (keyed : IsKeyed w) where
  pub same_owner :
      (i org other : ℕ)
      → exists (has_id_org i org) w.documents ≡ true
      → exists (has_id_org i other) w.documents ≡ true
      → org ≡ other
  same_owner i org other h k = elim (Bool-cases (org == other)) [
    | inl same ↦ (==_iff org other).0 same
    | inr apart ↦ cc (k, one_owner i org other w.documents apart (keyed-one w i keyed) h)
  ]

  below_owner :
      (org owner : ℕ) (ids : List ℕ) (parent : Option ℕ)
      → document_in parent owner w ≡ true
      → Own w org ids
      → elim parent [ none ↦ false | some i ↦ among ids i ] ≡ true
      → owner ≡ org
  below_owner org owner ids none known own below = cc below
  below_owner org owner ids (some i) known own below = same_owner i owner org known (own i below)

  Own-cons :
      (org : ℕ) (d : Document) (ids : List ℕ)
      → exists (has_id_org d.id d.organization_id) w.documents ≡ true
      → d.organization_id ≡ org
      → Own w org ids
      → Own w org (d.id ∷ ids)
  Own-cons org d ids stored of_org own i h = elim (Bool-cases (d.id == i)) [
    | inl same ↦
        subst (λ n. exists (has_id_org n org) w.documents ≡ true) ((==_iff d.id i).0 same)
          (subst (λ o. exists (has_id_org d.id o) w.documents ≡ true) of_org stored)
    | inr apart ↦ own i (ground (arith, h, apart))
  ]

  pub descendants-Own :
      (org : ℕ) (ids : List ℕ) (ds : List Document)
      → All (λ (d : Document). document_in d.parent_id d.organization_id w ≡ true) ds
      → All (λ (d : Document). exists (has_id_org d.id d.organization_id) w.documents ≡ true) ds
      → Own w org ids
      → Own w org (descendants ids ds)
  descendants-Own org ids [] known stored own = own
  descendants-Own org ids (d ∷ ds) known stored own = elim (Bool-cases (has_parent_among ids d)) [
    | inl below ↦ rw below (
        descendants-Own org (d.id ∷ ids) ds known.1 stored.1 (
          Own-cons org d ids stored.0
            (below_owner org d.organization_id ids d.parent_id known.0 own below) own))
    | inr apart ↦ rw apart (descendants-Own org ids ds known.1 stored.1 own)
  ]

  pub ids_stored :
      All
        (λ (d : Document). exists (has_id_org d.id d.organization_id) w.documents ≡ true)
        w.documents
  ids_stored =
      All-map_weaken _ _ w.documents
        (λ d member. member (has_id_org d.id d.organization_id) (ground (arith)))
        (All-Member w.documents)

  -- No document of another organization is among them.
  pub Own-apart :
      (org other : ℕ) (ids : List ℕ) (i : ℕ)
      → (org == other) ≡ false
      → Own w org ids
      → exists (has_id_org i other) w.documents ≡ true
      → among ids i ≡ false
  Own-apart org other ids i apart own h = elim (Bool-cases (among ids i)) [
    | inl gone ↦ cc (h, one_owner i org other w.documents apart (keyed-one w i keyed) (own i gone))
    | inr kept ↦ kept
  ]
