-- ===== src/History/Whole.antt =====
-- The history under any sequence of calls.
use kpi_tenders_go.Prelude.{List, [], ◌∷◌}
use kpi_tenders_go.Effects.{Env, World}
use kpi_tenders_go.Frame.Extraction.{Evolves-initiate}
use kpi_tenders_go.Frame.Worker.{Evolves-handle_status_update}
use kpi_tenders_go.Frame.Watchdog.{Evolves-start}
use kpi_tenders_go.Frame.Calls.{Stable}
use kpi_tenders_go.History.Extends.{Extends, Extends-Closed}
use kpi_tenders_go.History.Statements.{Extends-Stable, Extends-Watched}
use kpi_tenders_go.System.{Call, callback, request, watch, perform, serve}

any : Stable (λ p. Unit) Extends
any = Extends-Stable

perform-Extends : (c : Call) (e : Env) (w : World) → Extends w (perform c e w)
perform-Extends (callback id upd) e w = (Evolves-handle_status_update any (λ p. tt) id upd).at e w
perform-Extends (request document org questions hidden) e w =
    (Evolves-initiate any.steady (λ p. tt) document org questions hidden).at e w
perform-Extends (watch cfg ticks) e w =
    (Evolves-start (Extends-Watched {P = λ p. Unit}) (λ row. tt) cfg ticks).at e w

-- Whatever the outside answers and in whatever order the calls come, every row stays in its table,
-- in its place: a document keeps its organization, parent, kind of artifact and uploader, a task
-- its document, module, input and request (and its retries do not fall), a request its document,
-- organization, questions and choice of anonymization, a key its organization and name, a value
-- its document and key. Every message sent stays sent.
pub serve-Extends : (cs : List (Env × Call)) (w : World) → Extends w (serve cs w)
unfolding serve
serve-Extends [] w = Extends-Closed.same w
serve-Extends ((e, c) ∷ cs) w =
    Extends-Closed.chain w (perform c e w) _ (perform-Extends c e w)
      (serve-Extends cs (perform c e w))
