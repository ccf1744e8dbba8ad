-- ===== src/Privacy/Sources.antt =====
-- Where the paths in the messages of an extraction request come from.
use kpi_tenders_go.Prelude.{
  ℕ, String, Bool, true, false, Option, none, some, List, ◌≡◌, refl, ◌∙◌, ap, ◌&&◌, ◌==◌, arith,
  str_eq, str_eq_refl, and_true, and_fst, and_snd, find, exists, select, sort_by, find-holds,
  find-exists, exists-sort_by, exists-select, if◌then◌else◌, Bool-cases, inl, inr,
}
use kpi_tenders_go.Models.{
  Document, ExtractionRequest, ArtifactKind, convert_md, anonymize_doc, is_id, is_kind,
}
use kpi_tenders_go.Errs.{Error}
use kpi_tenders_go.Payloads.{ProcessRequest}
use kpi_tenders_go.Effects.{Env, World, ok, M, map_error, ◌>>=◌}
use kpi_tenders_go.Effects.Evolves.{Evolves, Evolves-pure, then_at, Evolves-map_error}
use kpi_tenders_go.Effects.Queries.{query-ok, query-world, map_error-ok, map_error-world}
use kpi_tenders_go.Repository.Documents.{
  has_id, is_child, oldest_first, first, get_document_by_id, list_documents_by_parent,
}
use kpi_tenders_go.Repository.Tasks.{is_request_module}
use kpi_tenders_go.Extraction.Progress.{
  find_artifact, target_kind, prepare, proceed, progress_open, progress, is_closed,
}
use kpi_tenders_go.Frame.Calls.{
  Steady, Evolves-get_document_by_id, Evolves-list_documents_by_parent,
}
use kpi_tenders_go.Frame.Extraction.{
  Evolves-ensure_convert_task, Evolves-ensure_anonymize_task, Evolves-enqueue_resolve_keys,
}
use kpi_tenders_go.Privacy.Sends.{Sends, Sends-none, Sends-Closed, Sends-Steady}

-- The kind of artifact that a request asks for: the anonymized text, or the text as it was converted.
abbrev pub wanted_kind : ExtractionRequest → ArtifactKind
wanted_kind req = if req.anonymize then anonymize_doc else convert_md

-- An artifact of the request's document, of the kind that the request asks for, at the path.
abbrev pub source_of : ExtractionRequest → String → Document → Bool
source_of req path d =
    is_id d.parent_id req.document_id
    && is_kind d.artifact_kind (wanted_kind req)
    && str_eq d.storage_path path

-- A message that puts questions to a text takes the text from such an artifact.
abbrev pub IsFromTarget : ExtractionRequest → List Document → ProcessRequest → Type 0
IsFromTarget req docs p =
    (if is_request_module p.module_name then exists (source_of req p.storage_path) docs else true)
    ≡ true

pub first-ok : {A : Type 0} (o : Option A) (a : A) → first o ≡ ok a → o ≡ some a
first-ok none a h = ground arith
first-ok (some b) a h = ground arith

-- The document that a lookup by id answers has this id.
pub get_document_by_id-id :
    (id : ℕ) (e : Env) (w : World) (d : Document)
    → (get_document_by_id id e w).0 ≡ ok d
    → (d.id == id) ≡ true
unfolding get_document_by_id
get_document_by_id-id id e w d h =
    find-holds (has_id id) w.documents d
      (first-ok _ d (query-ok (λ now v. first (find (has_id id) v.documents)) e w h))

is_id-eq : (o : Option ℕ) (a b : ℕ) → is_id o a ≡ true → (a == b) ≡ true → is_id o b ≡ true
is_id-eq none a b h k = h
is_id-eq (some i) a b h k = ground arith

-- An artifact found among the children of the request's document is a source.
pub find_artifact-source :
    (req : ExtractionRequest) (doc : Document) (docs : List Document) (t : Document)
    → (doc.id == req.document_id) ≡ true
    → find_artifact
        (sort_by oldest_first (select (is_child doc.id doc.organization_id) docs))
        (target_kind req)
      ≡ some t
    → exists (source_of req t.storage_path) docs ≡ true
unfolding find_artifact
find_artifact-source req doc docs t same h =
    let rows = select (is_child doc.id doc.organization_id) docs in
    let of_kind = λ (d : Document). is_kind d.artifact_kind (target_kind req) in
    let at_path = λ (d : Document). of_kind d && str_eq d.storage_path t.storage_path in
    exists-select (is_child doc.id doc.organization_id) at_path (source_of req t.storage_path) docs
      (λ d child here.
        and_true _ _
          (and_true _ _ (is_id-eq d.parent_id doc.id req.document_id (and_fst _ _ child) same)
            (and_fst _ _ here))
          (and_snd _ _ here))
      (rw (← exists-sort_by at_path oldest_first rows) (
        find-exists of_kind at_path (sort_by oldest_first rows) t h (
          and_true _ _ (find-holds of_kind (sort_by oldest_first rows) t h)
            (str_eq_refl t.storage_path))))

-- What `Progress` publishes once it has its target.
proceed-Sends :
    (req : ExtractionRequest) (docs : List Document) (doc : Document) (md target : Option Document)
    → ((t : Document) → target ≡ some t → exists (source_of req t.storage_path) docs ≡ true)
    → Evolves (Sends (IsFromTarget req docs)) (proceed req doc md target)
unfolding proceed prepare
proceed-Sends req docs doc md (some t) found =
    Evolves-enqueue_resolve_keys Sends-Steady req doc t (λ task kw. found t refl)
proceed-Sends req docs doc md none found = prepare-Sends req docs doc md req.anonymize
  where
    prepare-Sends :
        (req : ExtractionRequest) (docs : List Document) (doc : Document) (md : Option Document)
        (hidden : Bool)
        → Evolves (Sends (IsFromTarget req docs)) (prepare hidden doc md)
    prepare-Sends req docs doc (some m) true =
        Evolves-ensure_anonymize_task Sends-Steady doc m (λ task. refl)
    prepare-Sends req docs doc none true =
        Evolves-ensure_convert_task Sends-Steady doc (λ task. refl)
    prepare-Sends req docs doc md false =
        Evolves-ensure_convert_task Sends-Steady doc (λ task. refl)

list_documents_by_parent-eq :
    (parent org : ℕ) (e : Env) (w : World) (ds : List Document)
    → (list_documents_by_parent parent org e w).0 ≡ ok ds
    → ds ≡ sort_by oldest_first (select (is_child parent org) w.documents)
unfolding list_documents_by_parent
list_documents_by_parent-eq parent org e w ds h = ground (
  arith,
  query-ok (λ now v. ok (sort_by oldest_first (select (is_child parent org) v.documents))) e w h,
)

get_document_by_id-documents :
    (id : ℕ) (e : Env) (w : World) → (get_document_by_id id e w).1.documents ≡ w.documents
unfolding get_document_by_id
get_document_by_id-documents id e w =
    ap World.documents (query-world (λ now v. first (find (has_id id) v.documents)) e w)

-- The two reads that precede the choice of a target, and what they answer; `docs` are the
-- documents when the first is made.
module _ {R : World → World → Type 0} {P : ProcessRequest → Type 0} (s : Steady P R) where
  pub located :
      (req : ExtractionRequest) (f g : Error → Error) (k : Document → List Document → M (Unit {0}))
      (e : Env) (u w : World) (docs : List Document)
      → R u w
      → w.documents ≡ docs
      → ((doc : Document) (ds : List Document)
          → (doc.id == req.document_id) ≡ true
          → ds ≡ sort_by oldest_first (select (is_child doc.id doc.organization_id) docs)
          → Evolves R (k doc ds))
      → R u
          ((map_error f (get_document_by_id req.document_id) >>= λ doc.
              map_error g (list_documents_by_parent doc.id doc.organization_id) >>= λ ds. k doc ds)
            e w).1
  located req f g k e u w docs before unchanged h =
      then_at s.closed _ _ e u w before
        (Evolves-map_error s.closed f _ (Evolves-get_document_by_id s req.document_id))
        λ doc got later.
          then_at s.closed _ _ e u _ later
            (Evolves-map_error s.closed g _
              (Evolves-list_documents_by_parent s doc.id doc.organization_id))
            λ ds listed latest. s.closed.chain _ _ _ latest (
              (h doc ds (get_document_by_id-id _ e w doc (map_error-ok f _ e w got)) (
                  list_documents_by_parent-eq doc.id doc.organization_id e _ ds
                    (map_error-ok g _ e _ listed)
                  ∙ ap
                      (λ rows.
                        sort_by oldest_first (select (is_child doc.id doc.organization_id) rows))
                      (ap World.documents
                          (map_error-world f (get_document_by_id req.document_id) e w)
                        ∙ get_document_by_id-documents req.document_id e w
                        ∙ unchanged))).at
                e _)

progress_open-Sends :
    (req : ExtractionRequest) (e : Env) (w : World)
    → Sends (IsFromTarget req w.documents) w (progress_open req e w).1
unfolding progress_open
progress_open-Sends req e w =
    located Sends-Steady req _ _ _ e w w w.documents (Sends-none w w refl refl) refl
      λ doc ds same rows.
        proceed-Sends req w.documents doc _ _
          (λ t found. find_artifact-source req doc w.documents t same (rw rows at found))

-- Whatever the outside answers, every message that `progress` publishes for the modules
-- resolve_keys and extract carries the path of an artifact of the request's document, and the
-- artifact is of the kind that the request asks for: the anonymized text if it asks for
-- anonymization, else the Markdown text. No document is changed.
pub progress-Sends :
    (req : ExtractionRequest) (e : Env) (w : World)
    → Sends (IsFromTarget req w.documents) w (progress req e w).1
unfolding progress
progress-Sends req e w = elim (Bool-cases (is_closed req.status)) [
  | inl closed ↦ rw closed ((Evolves-pure Sends-Closed tt).at e w)
  | inr active ↦ rw active (progress_open-Sends req e w)
]
