-- ===== src/Tests/Pipeline.antt =====
-- The properties of the services.
use kpi_tenders_go.Prelude.{true, false, none, some, List, [], ◌∷◌, ◌≡◌, refl, exists, All}
use kpi_tenders_go.Errs.{no_rows, app, app_of, not_found, validation_failed}
use kpi_tenders_go.Models.{ExtractionKey, TaskStatus, convert, extract}
use kpi_tenders_go.Effects.{
  World, Env, ok, err, counted, ◌>>=◌, decoding, map_error, run, asks, best_effort,
}
use kpi_tenders_go.Repository.Documents.{is_blank}
use kpi_tenders_go.Repository.Requests.{
  create_extraction_request, insert_request, get_extraction_request_by_id,
  set_extraction_request_status, update_request, request_row,
}
use kpi_tenders_go.Repository.Keys.{
  get_extraction_keys_by_names, batch_upsert_extracted_data, batch_upsert,
}
use kpi_tenders_go.Repository.Documents.{has_id_org, get_document}
use kpi_tenders_go.Extraction.Progress.{start_request, progress, initiate, find_artifact}
use kpi_tenders_go.Extraction.Callbacks.{
  on_resolve_keys_completed, on_extract_completed, value_pairs, with_request, persist_values,
  persist_extracted_data, store_pairs,
}
use kpi_tenders_go.Worker.Status.{StatusUpdate, handle_status_update}
use kpi_tenders_go.System.{Call, serve}
use kpi_tenders_go.Privacy.Sends.{Sends}
use kpi_tenders_go.Privacy.Sources.{IsFromTarget, progress-Sends}
use kpi_tenders_go.Privacy.Callbacks.{on_resolve_keys_completed-Sends}
use kpi_tenders_go.History.Extends.{Extends}
use kpi_tenders_go.History.Whole.{serve-Extends}
use kpi_tenders_go.Outcomes.Missing.{handle_status_update-missing}
use kpi_tenders_go.Outcomes.Closing.{IsClosedOff, handle_status_update-closes}
use kpi_tenders_go.Outcomes.Values.{comes_from, value_pairs-come_from}
use kpi_tenders_go.Outcomes.Stored.{is_answer, on_extract_completed-stores}
use kpi_tenders_go.Outcomes.Requests.{Completed, initiate-refuses, on_extract_completed-Completed}
use kpi_tenders_go.Outcomes.Started.{IsStarted, initiate-ok}
use kpi_tenders_go.Outcomes.Waiting.{progress-waits}
use kpi_tenders_go.Outcomes.Answered.{initiate-answers}
use kpi_tenders_go.Outcomes.Settling.{Settled, handle_status_update-Settled}
use kpi_tenders_go.Tests.Data.{
  task, request, key, tender, fresh, ready, resolving, waiting, converting, outside, config,
}

progress-Sends_example :
    Sends
      (IsFromTarget (request true) ready.documents)
      ready
      (progress (request true) outside ready).1
progress-Sends_example = progress-Sends (request true) outside ready

on_resolve_keys_completed-Sends_example :
    Sends
      (IsFromTarget (request true) waiting.documents)
      waiting
      (on_resolve_keys_completed resolving outside waiting).1
on_resolve_keys_completed-Sends_example =
    on_resolve_keys_completed-Sends resolving 20 (request true) outside waiting refl refl

abbrev report : TaskStatus → StatusUpdate
report s = record {
  status = s;
  celery_task_id = none;
  result_payload = some "{result}";
  error_message = none;
}

-- A request, the conversion that it starts, and a scan.
abbrev day : List (Env × Call)
day =
    (outside, Call.request 1 7 ("budget?" ∷ []) true)
    ∷ (outside, Call.callback 101 (report TaskStatus.completed))
    ∷ (outside, Call.watch config 1)
    ∷ []

serve-Extends_example : Extends fresh (serve day fresh)
serve-Extends_example = serve-Extends day fresh

handle_status_update-closes_example :
    IsClosedOff 1 converting.requests
      (handle_status_update 10 (report TaskStatus.failed) outside converting).1.requests
handle_status_update-closes_example =
    handle_status_update-closes 10 (report TaskStatus.failed)
      (task 10 convert TaskStatus.processing none "tender.pdf") outside converting (λ call. refl)
      refl refl refl

handle_status_update-missing_example :
    handle_status_update 99 (report TaskStatus.completed) outside converting
    ≡ (err (app_of not_found "task not found" no_rows), counted converting)
handle_status_update-missing_example =
    handle_status_update-missing 99 (report TaskStatus.completed) outside converting refl refl

on_extract_completed-Completed_example :
    Completed 20
      (on_extract_completed
        (task 12 extract TaskStatus.completed (some 20) "tender.md")
        outside
        ready).1.requests
unfolding on_extract_completed with_request ◌>>=◌ decoding map_error get_extraction_request_by_id
    run persist_values persist_extracted_data get_extraction_keys_by_names store_pairs value_pairs
    batch_upsert_extracted_data batch_upsert set_extraction_request_status update_request
on_extract_completed-Completed_example =
    on_extract_completed-Completed (task 12 extract TaskStatus.completed (some 20) "tender.md") 20
      outside ready refl refl

value_pairs-come_from_example :
    All
      (λ p. exists (comes_from (key ∷ []) p) (("budget", some "10") ∷ ("term", none) ∷ []) ≡ true)
      (value_pairs (key ∷ []) (("budget", some "10") ∷ ("term", none) ∷ []))
value_pairs-come_from_example =
    value_pairs-come_from (key ∷ []) (("budget", some "10") ∷ ("term", none) ∷ [])

initiate-refuses_example :
    (initiate 1 8 ("budget?" ∷ []) true outside ready
      ≡ (err (app_of not_found "document not found" no_rows), counted ready))
    × (initiate 1 8 [] true outside ready
        ≡ (err (app validation_failed "questions must not be empty"), ready))
initiate-refuses_example = initiate-refuses 1 8 "budget?" [] true outside ready refl refl

progress-waits_example :
    progress (request false) outside converting ≡ (ok tt, record converting { calls = 3 })
unfolding find_artifact is_blank
progress-waits_example =
    progress-waits (request false) tender outside converting (λ call. refl) refl refl refl refl refl
      refl

initiate-ok_example :
    (exists (has_id_org 1 7) ready.documents ≡ true)
    × (IsStarted 1 7 "[budget?]" true
        (request_row 1 7 "[budget?]" true 100 101)
        (initiate 1 7 ("budget?" ∷ []) true outside ready).1)
unfolding initiate start_request ◌>>=◌ map_error get_document run asks create_extraction_request
    insert_request best_effort
initiate-ok_example =
    initiate-ok 1 7 ("budget?" ∷ []) true outside ready (request_row 1 7 "[budget?]" true 100 101)
      refl

initiate-answers_example :
    (initiate 1 7 ("budget?" ∷ []) true outside ready).0
    ≡ ok (request_row 1 7 "[budget?]" true 100 101)
initiate-answers_example =
    initiate-answers 1 7 "budget?" [] true outside ready tender (λ call. refl) refl

-- An extract task at work.
abbrev extracting : World
extracting = record ready {
  tasks = task 12 extract TaskStatus.processing (some 20) "tender.anon.md" ∷ [];
}

handle_status_update-Settled_example :
    Settled 20 (handle_status_update 12 (report TaskStatus.completed) outside extracting).1.requests
handle_status_update-Settled_example =
    handle_status_update-Settled 12 (report TaskStatus.completed)
      (task 12 extract TaskStatus.processing (some 20) "tender.anon.md") 20 outside extracting
      (λ call. refl) refl refl refl refl

abbrev other_key : ExtractionKey
other_key = record key { id = 31; key_name = "term" }

-- Two keys, of which the payload has a value for one.
abbrev answering : World
answering = record extracting { keys = key ∷ other_key ∷ [] }

on_extract_completed-stores_example :
    exists
      (is_answer 7 1 "budget" "10" (key ∷ other_key ∷ []))
      (on_extract_completed
        (task 12 extract TaskStatus.processing (some 20) "tender.anon.md")
        outside
        answering).1.extracted
    ≡ true
unfolding on_extract_completed with_request decoding ◌>>=◌ map_error run persist_values
    persist_extracted_data get_extraction_keys_by_names store_pairs value_pairs
    batch_upsert_extracted_data batch_upsert get_extraction_request_by_id
    set_extraction_request_status update_request
on_extract_completed-stores_example =
    on_extract_completed-stores (task 12 extract TaskStatus.processing (some 20) "tender.anon.md")
      20 (request true) (("budget", some "10") ∷ ("term", none) ∷ []) "budget" "10" outside
      answering refl refl refl refl refl refl
