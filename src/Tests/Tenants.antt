-- ===== src/Tests/Tenants.antt =====
-- The isolation of organizations: two worlds that differ in what organization 8 has stored, and
-- calls of organization 7.
use kpi_tenders_go.Prelude.{some, true, none, [], ◌∷◌, ◌≡◌, refl, arith}
use kpi_tenders_go.Errs.{missing_as}
use kpi_tenders_go.Models.{
  convert_md, anonymize_doc, Document, DocumentTask, TaskStatus, convert, anonymize,
}
use kpi_tenders_go.Effects.{World, map_error, ◌>>=◌, run, asks, when, best_effort, throw, pure}
use kpi_tenders_go.PythonWorker.{validate_module, resolve_module, process}
use kpi_tenders_go.Repository.Tasks.{create_document_task, insert_task}
use kpi_tenders_go.Repository.Documents.{is_blank}
use kpi_tenders_go.Repository.Documents.{get_document}
use kpi_tenders_go.DocumentService
use kpi_tenders_go.DocumentService.{find_own}
use kpi_tenders_go.DocumentTaskService
use kpi_tenders_go.Server.Errors.{answer}
use kpi_tenders_go.Outcomes.Created.{IsInvalid, create-refuses, IsNewTask, create-IsNewTask}
use kpi_tenders_go.Tenants.View.{SameRows, SameView, IsKeyed}
use kpi_tenders_go.Tenants.Answers.{find_own-answer}
use kpi_tenders_go.Tenants.Requests.{Reading, handle, handle-answer}
use kpi_tenders_go.Tenants.Changes.{Change, perform, perform-SameRows}
use kpi_tenders_go.Tenants.Descendants.{IsStored}
use kpi_tenders_go.Tenants.Deletions.{delete-SameRows}
use kpi_tenders_go.Repository.Originals.{remove_document}
use kpi_tenders_go.Server.ComparisonSessions.{SessionRequest, on_session}
use kpi_tenders_go.Tenants.Sessions.{IsSeparate, on_session-IsSeparate}
use kpi_tenders_go.Tests.Data.{document, tender, fresh, task, outside}

-- A document of organization 8, with a task.
abbrev foreign : Document
foreign = record tender { id = 40; organization_id = 8 }

abbrev shared : World
shared = record fresh {
  documents = foreign ∷ tender ∷ [];
  tasks = record (task 41 convert TaskStatus.pending none "a.pdf") { document_id = 40 } ∷ [];
}

fresh-IsKeyed : IsKeyed fresh
fresh-IsKeyed id = ground arith

shared-IsKeyed : IsKeyed shared
shared-IsKeyed id = ground arith

shared_view : SameView 7 shared fresh
shared_view = record {
  left = shared-IsKeyed;
  right = fresh-IsKeyed;
  rows = record {
    documents = refl;
    tasks = refl;
    users = refl;
    sites = refl;
    contract_kinds = refl;
    file_roles = refl;
    requests = refl;
    keys = refl;
    extracted = refl;
  };
  calls = refl;
}

shared-IsStored : IsStored shared
shared-IsStored = record {
  keyed = shared-IsKeyed;
  parents = (refl, (refl, tt));
  bundles = (refl, (refl, tt));
  linked = (tt, tt);
  requests = tt;
  extracted = tt;
}

handle-answer_example :
    answer (handle 7 (Reading.get_document_url 40 true) outside shared).0
    ≡ answer (handle 7 (Reading.get_document_url 40 true) outside fresh).0
handle-answer_example =
    handle-answer 7 (Reading.get_document_url 40 true) outside shared fresh shared_view

find_own-answer_example :
    answer (find_own "document not found" 40 7 outside shared).0
    ≡ answer (map_error (missing_as "document not found") (get_document 40 7) outside shared).0
find_own-answer_example = find_own-answer "document not found" 40 7 outside shared shared-IsKeyed

perform-SameRows_example :
    SameRows 8 shared (perform 7 (Change.set_task_status 41 TaskStatus.failed) outside shared).1
perform-SameRows_example =
    perform-SameRows 7 8 (Change.set_task_status 41 TaskStatus.failed) outside shared refl
      shared-IsKeyed

delete-SameRows_example : SameRows 8 shared (DocumentService.delete 1 7 outside shared).1
delete-SameRows_example = delete-SameRows 7 8 1 outside shared refl shared-IsStored

create-refuses_example :
    ((DocumentTaskService.create 1 anonymize 7 outside fresh).1 ≡ fresh)
    × IsInvalid (DocumentTaskService.create 1 anonymize 7 outside fresh).0
create-refuses_example = create-refuses 1 anonymize 7 outside fresh refl

abbrev new_task : DocumentTask
new_task = record (task 100 convert TaskStatus.pending none "tender.pdf") {
  created_at = 100;
  updated_at = 100;
}

create-IsNewTask_example : IsNewTask 1 7 fresh new_task
unfolding DocumentTaskService.create ◌>>=◌ validate_module map_error create_document_task run
    insert_task is_blank asks when best_effort throw pure resolve_module process
create-IsNewTask_example = create-IsNewTask 1 convert 7 outside fresh new_task refl

-- The tender with a text made of it, and a text made of that.
abbrev layered : World
layered = record fresh {
  documents =
      tender
      ∷ document 2 (some 1) (some convert_md) "tender.md"
      ∷ document 3 (some 2) (some anonymize_doc) "tender.anon.md"
      ∷ foreign
      ∷ [];
}

-- Both texts go.
layered_left : (remove_document 2 7 5 layered).1.documents ≡ tender ∷ foreign ∷ []
unfolding remove_document
layered_left = refl

-- Organization 7 compares its tender.
abbrev comparing : World
comparing = record shared {
  comparison_sessions =
      record {
        id = 50;
        organization_id = 7;
        created_by = none;
        name = none;
        contract_kind_id = none;
        created_at = 0;
      }
      ∷ [];
  session_documents =
      record { session_id = 50; document_id = 1; organization_id = 7; position = 0 } ∷ [];
}

on_session-IsSeparate_example :
    IsSeparate (on_session 7 (SessionRequest.add_document 50 1 2) outside comparing).1
on_session-IsSeparate_example =
    on_session-IsSeparate 7 (SessionRequest.add_document 50 1 2) outside comparing
      ((refl, refl), tt)
