-- ===== src/System.antt =====
-- The calls that reach the pipeline from outside, one after another: a worker's callback
-- (internal/server/handler_worker.go), a user's extraction request
-- (internal/server/handler_extraction_request.go), and a run of the watchdog (cmd/api/main.go).
use kpi_tenders_go.Prelude.{ℕ, String, Bool, List, [], ◌∷◌}
use kpi_tenders_go.Effects.{Env, World}
use kpi_tenders_go.Extraction.Progress.{initiate}
use kpi_tenders_go.Worker.Status.{StatusUpdate, handle_status_update}
use kpi_tenders_go.Watchdog.{Config, start}

pub data Call : Type 0 where
  callback : ℕ → StatusUpdate → Call
  request : ℕ → ℕ → List String → Bool → Call
  watch : Config → ℕ → Call

-- The world after a call.
abbrev pub perform : Call → Env → World → World
perform (callback id upd) e w = (handle_status_update id upd e w).1
perform (request document org questions anonymize) e w =
    (initiate document org questions anonymize e w).1
perform (watch cfg ticks) e w = (start cfg ticks e w).1

-- The world after a sequence of calls, each with its own environment.
unfoldable pub serve : List (Env × Call) → World → World
serve [] w = w
serve ((e, c) ∷ cs) w = serve cs (perform c e w)
