-- ===== src/Outcomes/Waiting.antt =====
-- A request whose document has a convert task and no artifact.
use kpi_tenders_go.Prelude.{
  ℕ, suc, Bool, true, false, none, some, List, [], ◌∷◌, ◌≡◌, refl, arith, find, exists, select,
  sort_by,
}
use kpi_tenders_go.Errs.{no_rows, is_no_rows}
use kpi_tenders_go.Models.{Document, DocumentTask, ExtractionRequest, convert, convert_md}
use kpi_tenders_go.Effects.{
  Env, World, Fate, ok, err, counted, ◌>>=◌, map_error, pure, run, unless_no_rows,
}
use kpi_tenders_go.Effects.Queries.{run-answered}
use kpi_tenders_go.Repository.Documents.{
  has_id, is_child, oldest_first, get_document_by_id, list_documents_by_parent,
}
use kpi_tenders_go.Repository.Tasks.{
  TaskParams, in_singleton, repeats, insert_task, create_document_task_singleton,
}
use kpi_tenders_go.Repository.Documents.{is_blank}
use kpi_tenders_go.Extraction.Enqueue.{ensure_convert_task, when_created}
use kpi_tenders_go.Extraction.Progress.{
  find_artifact, target_kind, prepare, proceed, progress_open, progress, is_closed,
}

abbrev convert_params : Document → TaskParams
convert_params doc = record {
  document_id = doc.id;
  module_name = convert;
  input_storage_path = doc.storage_path;
  extraction_request_id = none;
}

exists-repeats :
    (doc : Document) (ts : List DocumentTask)
    → exists (in_singleton doc.id convert) ts ≡ true
    → exists (repeats (convert_params doc)) ts ≡ true
exists-repeats doc [] h = h
exists-repeats doc (t ∷ ts) h = ground (arith, exists-repeats doc ts)

insert_convert-repeated :
    (doc : Document) (now : ℕ) (w : World)
    → is_blank doc.storage_path ≡ false
    → exists (in_singleton doc.id convert) w.tasks ≡ true
    → insert_task no_rows (convert_params doc) now w ≡ (err no_rows, w)
unfolding insert_task
insert_convert-repeated doc now w named there = rw (named, exists-repeats doc w.tasks there) refl

ensure_convert_task-waits :
    (doc : Document) (e : Env) (w : World)
    → e.fate w.calls ≡ Fate.answered
    → is_blank doc.storage_path ≡ false
    → exists (in_singleton doc.id convert) w.tasks ≡ true
    → ensure_convert_task doc e w ≡ (ok tt, counted w)
unfolding ensure_convert_task ◌>>=◌ unless_no_rows create_document_task_singleton when_created pure
    is_no_rows
ensure_convert_task-waits doc e w answers named there =
    rw
      (
        run-answered (insert_task no_rows (convert_params doc)) e w answers,
        insert_convert-repeated doc (e.clock w.calls) (counted w) named there,
      )
      refl

abbrev pub children : Document → World → List Document
children doc w = sort_by oldest_first (select (is_child doc.id doc.organization_id) w.documents)

prepare-waits :
    (hidden : Bool) (doc : Document) (e : Env) (w : World)
    → e.fate w.calls ≡ Fate.answered
    → is_blank doc.storage_path ≡ false
    → exists (in_singleton doc.id convert) w.tasks ≡ true
    → prepare hidden doc none e w ≡ (ok tt, counted w)
unfolding prepare
prepare-waits true = ensure_convert_task-waits
prepare-waits false = ensure_convert_task-waits

-- An open request on a document without the artifacts that it looks for stays as it is, and so do
-- all tables and queues, when the document has a convert task, in whatever state that task is: also
-- a failed one is not run again, and the call answers without an error. The document's path is not
-- blank, and every call is answered.
pub progress-waits :
    (req : ExtractionRequest) (doc : Document) (e : Env) (w : World)
    → ((call : ℕ) → e.fate call ≡ Fate.answered)
    → is_closed req.status ≡ false
    → find (has_id req.document_id) w.documents ≡ some doc
    → find_artifact (children doc w) convert_md ≡ none
    → find_artifact (children doc w) (target_kind req) ≡ none
    → is_blank doc.storage_path ≡ false
    → exists (in_singleton doc.id convert) w.tasks ≡ true
    → progress req e w ≡ (ok tt, record w { calls = suc (suc (suc w.calls)) })
unfolding progress progress_open ◌>>=◌ map_error get_document_by_id list_documents_by_parent proceed
    run
progress-waits req doc e w answers active found no_text no_target named there =
    rw (active, answers w.calls, found, answers (suc w.calls), no_text, no_target)
      (prepare-waits req.anonymize doc e (record w { calls = suc (suc w.calls) })
        (answers (suc (suc w.calls))) named there)
