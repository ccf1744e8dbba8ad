-- ===== src/Frame/Worker.antt =====
-- The callbacks of the workers under a relation that the statements keep.
use kpi_tenders_go.Prelude.{ℕ, String, Option, none, some, List}
use kpi_tenders_go.Models.{
  Document, DocumentTask, ExtractionRequest, ArtifactKind, ModuleName, convert, anonymize,
  resolve_keys, extract, parse_invoice, other_module, TaskStatus,
}
use kpi_tenders_go.Payloads.{ConvertPayload, ProcessRequest}
use kpi_tenders_go.Effects.{World, Result, ok, err, M}
use kpi_tenders_go.Effects.Evolves.{Evolves, build_rules, Evolves-throw, Evolves-pure}
use kpi_tenders_go.Frame.Calls.{Stable, worker_rules}
use kpi_tenders_go.Frame.Extraction.{
  Evolves-on_failure, Evolves-when_created, Evolves-fail_task, Evolves-progress,
  Evolves-mark_request_failed, Evolves-on_resolve_keys_completed, Evolves-on_extract_completed,
}
use kpi_tenders_go.Worker.Artifacts.{
  file_name_from_path, register_artifact, store_convert_artifact, register_convert_artifacts,
  register_at, register_anonymize_artifacts, start_anonymize, require_path, trigger_anonymize,
}
use kpi_tenders_go.Worker.Status.{
  StatusUpdate, each_listed, progress_pending_requests, fail_pending_requests, fail_owner,
  or_fail_owner, after_completed, after_failed, after_update, handle_status_update,
}

module _ {P : ProcessRequest → Type 0} {R : World → World → Type 0} (s : Stable P R)
    (all : (p : ProcessRequest) → P p) where
  Evolves-file_name_from_path : (path : String) → Evolves R (file_name_from_path path)
  unfolding file_name_from_path
  Evolves-file_name_from_path String.[] = search (s.closed, build_rules)
  Evolves-file_name_from_path _ = search (s.closed, build_rules)

  Evolves-register_artifact :
      (parent : Document) (path mime : String) (kind : ArtifactKind)
      → Evolves R (register_artifact parent path mime kind)
  unfolding register_artifact
  Evolves-register_artifact parent path mime kind =
      search (s.closed, build_rules, worker_rules, Evolves-file_name_from_path)

  Evolves-store_convert_artifact :
      (task : DocumentTask) (payload : ConvertPayload)
      → Evolves R (store_convert_artifact task payload)
  unfolding store_convert_artifact
  Evolves-store_convert_artifact task payload =
      search (s.steady, s.closed, build_rules, worker_rules, Evolves-register_artifact) depth 9

  Evolves-register_convert_artifacts :
      (task : DocumentTask) → Evolves R (register_convert_artifacts task)
  unfolding register_convert_artifacts
  Evolves-register_convert_artifacts task =
      search (s.closed, build_rules, Evolves-store_convert_artifact)

  Evolves-register_at :
      (parent : Document) (path mime : String) (kind : ArtifactKind) (msg : String)
      → Evolves R (register_at parent path mime kind msg)
  unfolding register_at
  Evolves-register_at parent String.[] mime kind msg = Evolves-pure s.closed none
  Evolves-register_at parent _ mime kind msg =
      search (s.closed, build_rules, Evolves-register_artifact)

  Evolves-register_anonymize_artifacts :
      (task : DocumentTask) → Evolves R (register_anonymize_artifacts task)
  unfolding register_anonymize_artifacts
  Evolves-register_anonymize_artifacts task =
      search (s.steady, s.closed, build_rules, worker_rules, Evolves-register_at) depth 12

  Evolves-start_anonymize :
      (task : DocumentTask) (path : String) → Evolves R (start_anonymize task path)
  unfolding start_anonymize
  Evolves-start_anonymize task path =
      search
        (
          s.steady, s.closed, build_rules, worker_rules, Evolves-when_created, Evolves-on_failure,
          Evolves-fail_task,
        )
        depth 8

  Evolves-require_path :
      (path : String) (f : String → M (Unit {0}))
      → ((p : String) → Evolves R (f p))
      → Evolves R (require_path path f)
  unfolding require_path
  Evolves-require_path String.[] f h = Evolves-throw s.closed _
  Evolves-require_path _ f h = h _

  Evolves-trigger_anonymize : (task : DocumentTask) → Evolves R (trigger_anonymize task)
  unfolding trigger_anonymize
  Evolves-trigger_anonymize task =
      search (s.closed, build_rules, Evolves-require_path, Evolves-start_anonymize)

  Evolves-each_listed :
      (r : Result (List ExtractionRequest)) (f : ExtractionRequest → M (Unit {0}))
      → ((req : ExtractionRequest) → Evolves R (f req))
      → Evolves R (each_listed r f)
  unfolding each_listed
  Evolves-each_listed (ok requests) f h = search (s.closed, build_rules)
  Evolves-each_listed (err x) f h = Evolves-pure s.closed tt

  pub Evolves-progress_pending_requests :
      (document : ℕ) → Evolves R (progress_pending_requests document)
  unfolding progress_pending_requests
  Evolves-progress_pending_requests document =
      search (s.steady, s.closed, build_rules, worker_rules, Evolves-each_listed, Evolves-progress)

  Evolves-fail_pending_requests :
      (document : ℕ) (reason : String) → Evolves R (fail_pending_requests document reason)
  unfolding fail_pending_requests
  Evolves-fail_pending_requests document reason = search (
    s.steady, s.closed, build_rules, worker_rules, Evolves-each_listed, Evolves-mark_request_failed,
  )

  Evolves-fail_owner : (o : Option ℕ) (msg : String) → Evolves R (fail_owner o msg)
  unfolding fail_owner
  Evolves-fail_owner none msg = Evolves-pure s.closed tt
  Evolves-fail_owner (some id) msg = Evolves-mark_request_failed s.steady id msg

  Evolves-or_fail_owner :
      (task : DocumentTask) (msg : String) (m : M (Unit {0}))
      → Evolves R m
      → Evolves R (or_fail_owner task msg m)
  unfolding or_fail_owner
  Evolves-or_fail_owner task msg m h =
      search (s.steady, s.closed, build_rules, Evolves-on_failure, Evolves-fail_owner)

  Evolves-after_completed :
      (task : DocumentTask) (m : ModuleName) → Evolves R (after_completed task m)
  unfolding after_completed
  Evolves-after_completed task convert = search (
    s.closed, build_rules, Evolves-register_convert_artifacts, Evolves-trigger_anonymize,
    Evolves-progress_pending_requests,
  )
  Evolves-after_completed task anonymize = search (
    s.closed, build_rules, Evolves-register_anonymize_artifacts, Evolves-progress_pending_requests,
  )
  Evolves-after_completed task resolve_keys =
      search (s.steady, Evolves-or_fail_owner, Evolves-on_resolve_keys_completed)
  Evolves-after_completed task extract =
      search (s.steady, Evolves-or_fail_owner, Evolves-on_extract_completed)
  Evolves-after_completed task parse_invoice = Evolves-pure s.closed tt
  Evolves-after_completed task (other_module x) = Evolves-pure s.closed tt

  Evolves-after_failed : (task : DocumentTask) (m : ModuleName) → Evolves R (after_failed task m)
  unfolding after_failed
  Evolves-after_failed task convert = Evolves-fail_pending_requests _ _
  Evolves-after_failed task anonymize = Evolves-fail_pending_requests _ _
  Evolves-after_failed task resolve_keys = Evolves-fail_owner _ _
  Evolves-after_failed task extract = Evolves-fail_owner _ _
  Evolves-after_failed task parse_invoice = Evolves-pure s.closed tt
  Evolves-after_failed task (other_module x) = Evolves-pure s.closed tt

  Evolves-after_update : (task : DocumentTask) (x : TaskStatus) → Evolves R (after_update task x)
  unfolding after_update
  Evolves-after_update task TaskStatus.completed = Evolves-after_completed task _
  Evolves-after_update task TaskStatus.failed = Evolves-after_failed task _
  Evolves-after_update task _ = Evolves-pure s.closed tt

  pub Evolves-handle_status_update :
      (id : ℕ) (upd : StatusUpdate) → Evolves R (handle_status_update id upd)
  unfolding handle_status_update
  Evolves-handle_status_update id upd =
      search (s.steady, s.closed, build_rules, worker_rules, Evolves-after_update)
