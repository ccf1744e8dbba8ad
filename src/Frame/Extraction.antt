-- ===== src/Frame/Extraction.antt =====
-- The calls of the ExtractionService under a relation that the statements keep.
use kpi_tenders_go.Prelude.{ℕ, String, Bool, true, false, Option, none, some, List, [], ◌∷◌}
use kpi_tenders_go.Errs.{Error}
use kpi_tenders_go.Models.{
  Document, DocumentTask, ExtractionRequest, convert, anonymize, resolve_keys, extract,
}
use kpi_tenders_go.Payloads.{ProcessRequest, KeyEntry, SchemaEntry, Kwargs, no_kwargs}
use kpi_tenders_go.Effects.{World, Result, ok, err, M}
use kpi_tenders_go.Effects.Evolves.{Evolves, build_rules, Evolves-throw, Evolves-pure}
use kpi_tenders_go.Frame.Calls.{Steady, call_rules, Evolves-batch_upsert_extracted_data}
use kpi_tenders_go.Extraction.Enqueue.{
  mark_task_failed, mark_request_failed, message, on_failure, publish, when_created, fail_task,
  ensure_convert_task, ensure_anonymize_task, fail_request_task, enqueue_resolve_keys,
  enqueue_extract,
}
use kpi_tenders_go.Extraction.Progress.{
  prepare, proceed, progress_open, progress, start_request, initiate,
}
use kpi_tenders_go.Extraction.Callbacks.{
  with_request, when_target, extract_from_target, store_schema_of, store_schema, when_resolved,
  on_resolve_keys_completed, store_pairs, persist_extracted_data, persist_values,
  on_extract_completed,
}

module _ {P : ProcessRequest → Type 0} {R : World → World → Type 0} (s : Steady P R) where
  pub Evolves-mark_task_failed : (id : ℕ) (msg : String) → Evolves R (mark_task_failed id msg)
  unfolding mark_task_failed
  Evolves-mark_task_failed id msg = search (s.closed, build_rules, call_rules)

  pub Evolves-mark_request_failed : (id : ℕ) (msg : String) → Evolves R (mark_request_failed id msg)
  unfolding mark_request_failed
  Evolves-mark_request_failed id msg = search (s.closed, build_rules, call_rules)

  pub Evolves-on_failure :
      (r : Result (Unit {0})) (handler : Error → M (Unit {0}))
      → ((x : Error) → Evolves R (handler x))
      → Evolves R (on_failure r handler)
  unfolding on_failure
  Evolves-on_failure (ok x) handler h = Evolves-pure s.closed tt
  Evolves-on_failure (err x) handler h = h x

  pub Evolves-publish :
      (p : ProcessRequest) (handler : Error → M (Unit {0}))
      → P p
      → ((x : Error) → Evolves R (handler x))
      → Evolves R (publish p handler)
  unfolding publish
  Evolves-publish p handler allowed h =
      search (s.closed, build_rules, call_rules, Evolves-on_failure)

  pub Evolves-when_created :
      (created : Option DocumentTask) (f : DocumentTask → M (Unit {0}))
      → ((task : DocumentTask) → Evolves R (f task))
      → Evolves R (when_created created f)
  unfolding when_created
  Evolves-when_created none f h = Evolves-pure s.closed tt
  Evolves-when_created (some task) f h = h task

  pub Evolves-fail_task :
      (task : DocumentTask) (msg : String) (x : Error) → Evolves R (fail_task task msg x)
  unfolding fail_task
  Evolves-fail_task task msg x = search (s.closed, build_rules, Evolves-mark_task_failed)

  pub Evolves-ensure_convert_task :
      (doc : Document)
      → ((task : DocumentTask) → P (message task convert doc.storage_path no_kwargs))
      → Evolves R (ensure_convert_task doc)
  unfolding ensure_convert_task
  Evolves-ensure_convert_task doc allowed =
      search
        (
          s.closed, build_rules, call_rules, Evolves-when_created, Evolves-publish,
          Evolves-fail_task,
        )
        depth 7

  pub Evolves-ensure_anonymize_task :
      (doc md : Document)
      → ((task : DocumentTask) → P (message task anonymize md.storage_path no_kwargs))
      → Evolves R (ensure_anonymize_task doc md)
  unfolding ensure_anonymize_task
  Evolves-ensure_anonymize_task doc md allowed =
      search
        (
          s.closed, build_rules, call_rules, Evolves-when_created, Evolves-publish,
          Evolves-fail_task,
        )
        depth 7

  pub Evolves-fail_request_task :
      (req : ExtractionRequest) (task : DocumentTask) (request_msg msg : String) (x : Error)
      → Evolves R (fail_request_task req task request_msg msg x)
  unfolding fail_request_task
  Evolves-fail_request_task req task request_msg msg x =
      search (s.closed, build_rules, Evolves-mark_task_failed, Evolves-mark_request_failed)

  pub Evolves-enqueue_resolve_keys :
      (req : ExtractionRequest) (doc target : Document)
      → ((task : DocumentTask) (kw : Kwargs) → P (message task resolve_keys target.storage_path kw))
      → Evolves R (enqueue_resolve_keys req doc target)
  unfolding enqueue_resolve_keys
  Evolves-enqueue_resolve_keys req doc target allowed =
      search
        (
          s.closed, build_rules, call_rules, Evolves-when_created, Evolves-publish,
          Evolves-fail_request_task,
        )
        depth 9

  pub Evolves-enqueue_extract :
      (req : ExtractionRequest) (target : Document) (schema : List SchemaEntry)
      → ((task : DocumentTask) (kw : Kwargs) → P (message task extract target.storage_path kw))
      → Evolves R (enqueue_extract req target schema)
  unfolding enqueue_extract
  Evolves-enqueue_extract req target schema allowed =
      search
        (
          s.closed, build_rules, call_rules, Evolves-when_created, Evolves-publish,
          Evolves-fail_request_task,
        )
        depth 7

-- The rest holds where every message is allowed.
module _ {P : ProcessRequest → Type 0} {R : World → World → Type 0} (s : Steady P R)
    (all : (p : ProcessRequest) → P p) where
  Evolves-prepare :
      (anonymize : Bool) (doc : Document) (md : Option Document)
      → Evolves R (prepare anonymize doc md)
  unfolding prepare
  Evolves-prepare true doc (some md) = Evolves-ensure_anonymize_task s doc md (λ task. all _)
  Evolves-prepare true doc none = Evolves-ensure_convert_task s doc (λ task. all _)
  Evolves-prepare false doc md = Evolves-ensure_convert_task s doc (λ task. all _)

  Evolves-proceed :
      (req : ExtractionRequest) (doc : Document) (md target : Option Document)
      → Evolves R (proceed req doc md target)
  unfolding proceed
  Evolves-proceed req doc md (some target) =
      Evolves-enqueue_resolve_keys s req doc target (λ task kw. all _)
  Evolves-proceed req doc md none = Evolves-prepare req.anonymize doc md

  pub Evolves-progress_open : (req : ExtractionRequest) → Evolves R (progress_open req)
  unfolding progress_open
  Evolves-progress_open req = search (s.closed, build_rules, call_rules, Evolves-proceed)

  pub Evolves-progress : (req : ExtractionRequest) → Evolves R (progress req)
  unfolding progress
  Evolves-progress req = search (s.closed, build_rules, Evolves-progress_open)

  Evolves-start_request :
      (document org : ℕ) (questions : List String) (anonymize : Bool)
      → Evolves R (start_request document org questions anonymize)
  unfolding start_request
  Evolves-start_request document org questions hidden =
      search (s.closed, build_rules, call_rules, Evolves-progress) depth 8

  pub Evolves-initiate :
      (document org : ℕ) (questions : List String) (anonymize : Bool)
      → Evolves R (initiate document org questions anonymize)
  unfolding initiate
  Evolves-initiate document org questions hidden =
      search (s.closed, build_rules, Evolves-start_request)

  Evolves-with_request :
      (o : Option ℕ) (f : ℕ → M (Unit {0}))
      → ((id : ℕ) → Evolves R (f id))
      → Evolves R (with_request o f)
  unfolding with_request
  Evolves-with_request none f h = Evolves-throw s.closed _
  Evolves-with_request (some id) f h = h id

  Evolves-when_target :
      (req : ExtractionRequest) (target : Option Document) (schema : List SchemaEntry)
      → Evolves R (when_target req target schema)
  unfolding when_target
  Evolves-when_target req none schema = Evolves-throw s.closed _
  Evolves-when_target req (some target) schema =
      Evolves-enqueue_extract s req target schema (λ task kw. all _)

  Evolves-extract_from_target :
      (req : ExtractionRequest) (schema : List SchemaEntry)
      → Evolves R (extract_from_target req schema)
  unfolding extract_from_target
  Evolves-extract_from_target req schema =
      search (s.closed, build_rules, call_rules, Evolves-when_target)

  Evolves-store_schema_of :
      (req : ExtractionRequest) (id : ℕ) (new_keys : List KeyEntry) (schema : List SchemaEntry)
      → Evolves R (store_schema_of req id new_keys schema)
  unfolding store_schema_of
  Evolves-store_schema_of req id new_keys schema =
      search (s.closed, build_rules, call_rules, Evolves-extract_from_target) depth 8

  Evolves-store_schema :
      (id : ℕ) (new_keys : List KeyEntry) (schema : List SchemaEntry)
      → Evolves R (store_schema id new_keys schema)
  unfolding store_schema
  Evolves-store_schema id new_keys schema =
      search (s.closed, build_rules, call_rules, Evolves-store_schema_of)

  Evolves-when_resolved :
      (id : ℕ) (new_keys : List KeyEntry) (schema : List SchemaEntry)
      → Evolves R (when_resolved id new_keys schema)
  unfolding when_resolved
  Evolves-when_resolved id new_keys [] = Evolves-throw s.closed _
  Evolves-when_resolved id new_keys (x ∷ xs) = Evolves-store_schema id new_keys (x ∷ xs)

  pub Evolves-on_resolve_keys_completed :
      (task : DocumentTask) → Evolves R (on_resolve_keys_completed task)
  unfolding on_resolve_keys_completed
  Evolves-on_resolve_keys_completed task =
      search (s.closed, build_rules, Evolves-with_request, Evolves-when_resolved)

  Evolves-store_pairs :
      (req : ExtractionRequest) (pairs : List (ℕ × String)) → Evolves R (store_pairs req pairs)
  unfolding store_pairs
  Evolves-store_pairs req [] = Evolves-pure s.closed tt
  Evolves-store_pairs req (p ∷ ps) = Evolves-batch_upsert_extracted_data s _ _ (p ∷ ps)

  Evolves-persist_extracted_data :
      (req : ExtractionRequest) (xs : List (String × Option String))
      → Evolves R (persist_extracted_data req xs)
  unfolding persist_extracted_data
  Evolves-persist_extracted_data req xs =
      search (s.closed, build_rules, call_rules, Evolves-store_pairs)

  Evolves-persist_values :
      (req : ExtractionRequest) (xs : List (String × Option String))
      → Evolves R (persist_values req xs)
  unfolding persist_values
  Evolves-persist_values req [] = Evolves-pure s.closed tt
  Evolves-persist_values req (x ∷ xs) =
      search (s.closed, build_rules, Evolves-persist_extracted_data)

  pub Evolves-on_extract_completed : (task : DocumentTask) → Evolves R (on_extract_completed task)
  unfolding on_extract_completed
  Evolves-on_extract_completed task =
      search (s.closed, build_rules, call_rules, Evolves-with_request, Evolves-persist_values) depth
        9
