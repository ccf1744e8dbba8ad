-- ===== src/PythonWorker.antt =====
-- internal/pythonworker/client.go: which queue a module's tasks go to, and the publishing of a
-- task message there.
use kpi_tenders_go.Prelude.{Option, none, some, [], ◌∷◌, ◌++◌}
use kpi_tenders_go.Errs.{plain}
use kpi_tenders_go.Models.{
  ModuleName, convert, anonymize, resolve_keys, extract, parse_invoice, other_module,
}
use kpi_tenders_go.Payloads.{ProcessRequest}
use kpi_tenders_go.Effects.{ok, M, Result, err, throw, run}

-- The two Redis queues.
pub data Queue : Type 0 where
  io llm : Queue

-- `resolveModule`; the Celery task name is fixed by the module.
unfoldable pub resolve_module : ModuleName → Option Queue
resolve_module convert = some io
resolve_module parse_invoice = some io
resolve_module anonymize = some llm
resolve_module resolve_keys = some llm
resolve_module extract = some llm
resolve_module (other_module s) = none

abbrev known_queue : Option Queue → Result (Unit {0})
known_queue none = err (plain "pythonworker: unknown module")
known_queue (some q) = ok tt

unfoldable pub validate_module : ModuleName → Result (Unit {0})
unfolding resolve_module
validate_module m = known_queue (resolve_module m)

abbrev pub push : Option Queue → ProcessRequest → M (Unit {0})
push none p = throw (plain "pythonworker: unknown module")
push (some q) p = run λ now w. (ok tt, record w { published = w.published ++ p ∷ [] })

-- `Publisher.Process`: LPUSH of the message; the broker's answer may be an error or be lost.
unfoldable pub process : ProcessRequest → M (Unit {0})
unfolding resolve_module throw run
process p = push (resolve_module p.module_name) p
