-- ===== src/Privacy/Callbacks.antt =====
-- The same of the callback of a resolve_keys task, which starts the extraction.
use kpi_tenders_go.Prelude.{ℕ, Option, none, some, List, [], ◌∷◌, ◌≡◌, refl, find}
use kpi_tenders_go.Models.{Document, DocumentTask, ExtractionRequest}
use kpi_tenders_go.Payloads.{KeyEntry, SchemaEntry}
use kpi_tenders_go.Effects.{Env, World, ok, decoding}
use kpi_tenders_go.Effects.Evolves.{
  Evolves, Evolves-throw, then_at, Evolves-map_error, Evolves-for_each, Evolves-best_effort,
  Evolves-asks, Evolves-decoding,
}
use kpi_tenders_go.Effects.Queries.{query-ok, map_error-ok}
use kpi_tenders_go.Repository.Documents.{first}
use kpi_tenders_go.Repository.Requests.{has_request_id, get_extraction_request_by_id}
use kpi_tenders_go.Extraction.Callbacks.{
  with_request, when_target, extract_from_target, store_schema_of, store_schema, when_resolved,
  on_resolve_keys_completed,
}
use kpi_tenders_go.Frame.Calls.{
  Evolves-get_extraction_request_by_id, Evolves-upsert_extraction_key,
  Evolves-set_extraction_request_resolved_schema,
}
use kpi_tenders_go.Frame.Extraction.{Evolves-enqueue_extract}
use kpi_tenders_go.Privacy.Sends.{Sends, Sends-none, Sends-Closed, Sends-Steady}
use kpi_tenders_go.Privacy.Sources.{
  source_of, IsFromTarget, first-ok, located, find_artifact-source,
}
use kpi_tenders_go.Prelude.{exists, true}

when_target-Sends :
    (req : ExtractionRequest) (docs : List Document) (schema : List SchemaEntry)
    (target : Option Document)
    → ((t : Document) → target ≡ some t → exists (source_of req t.storage_path) docs ≡ true)
    → Evolves (Sends (IsFromTarget req docs)) (when_target req target schema)
unfolding when_target
when_target-Sends req docs schema none found = Evolves-throw Sends-Closed _
when_target-Sends req docs schema (some t) found =
    Evolves-enqueue_extract Sends-Steady req t schema (λ task kw. found t refl)

-- `u` is the world in which the callback began.
extract_from_target-Sends :
    (req : ExtractionRequest) (schema : List SchemaEntry) (e : Env) (u w : World)
    → Sends (IsFromTarget req u.documents) u w
    → Sends (IsFromTarget req u.documents) u (extract_from_target req schema e w).1
unfolding extract_from_target
extract_from_target-Sends req schema e u w before =
    located Sends-Steady req _ _ _ e u w u.documents before before.documents_eq λ doc ds same rows.
      when_target-Sends req u.documents schema _
        (λ t found. find_artifact-source req doc u.documents t same (rw rows at found))

get_extraction_request_by_id-eq :
    (id : ℕ) (e : Env) (w : World) (req got : ExtractionRequest)
    → find (has_request_id id) w.requests ≡ some req
    → (get_extraction_request_by_id id e w).0 ≡ ok got
    → got ≡ req
unfolding get_extraction_request_by_id
get_extraction_request_by_id-eq id e w req got stored h =
    cc (
      first-ok _ got (query-ok (λ now v. first (find (has_request_id id) v.requests)) e w h),
      stored,
    )

store_schema_of-Sends :
    (req : ExtractionRequest) (id : ℕ) (new_keys : List KeyEntry) (schema : List SchemaEntry)
    (e : Env) (u w : World)
    → Sends (IsFromTarget req u.documents) u w
    → Sends (IsFromTarget req u.documents) u (store_schema_of req id new_keys schema e w).1
unfolding store_schema_of
store_schema_of-Sends req id new_keys schema e u w before =
    then_at Sends-Closed _ _ e u w before
      (Evolves-for_each Sends-Closed new_keys _
        λ k. Evolves-best_effort Sends-Closed _ (Evolves-upsert_extraction_key Sends-Steady _ k))
      λ _ _ after_keys.
        then_at Sends-Closed _ _ e u _ after_keys (Evolves-asks Sends-Closed _) λ text _ after_text.
          then_at Sends-Closed _ _ e u _ after_text
            (Evolves-map_error Sends-Closed _ _
              (Evolves-set_extraction_request_resolved_schema Sends-Steady id text))
            λ _ _ after_schema. extract_from_target-Sends req schema e u _ after_schema

store_schema-Sends :
    (id : ℕ) (req : ExtractionRequest) (new_keys : List KeyEntry) (schema : List SchemaEntry)
    (e : Env) (w : World)
    → find (has_request_id id) w.requests ≡ some req
    → Sends (IsFromTarget req w.documents) w (store_schema id new_keys schema e w).1
unfolding store_schema
store_schema-Sends id req new_keys schema e w stored =
    then_at Sends-Closed _ _ e w w (Sends-none w w refl refl)
      (Evolves-map_error Sends-Closed _ _ (Evolves-get_extraction_request_by_id Sends-Steady id))
      λ got answer after.
        rw (get_extraction_request_by_id-eq id e w req got stored (map_error-ok _ _ e w answer))
          (store_schema_of-Sends req id new_keys schema e w _ after)

when_resolved-Sends :
    (id : ℕ) (req : ExtractionRequest) (new_keys : List KeyEntry) (schema : List SchemaEntry)
    (e : Env) (w : World)
    → find (has_request_id id) w.requests ≡ some req
    → Sends (IsFromTarget req w.documents) w (when_resolved id new_keys schema e w).1
unfolding when_resolved
when_resolved-Sends id req new_keys [] e w stored = (Evolves-throw Sends-Closed _).at e w
when_resolved-Sends id req new_keys (x ∷ xs) e w stored =
    store_schema-Sends id req new_keys (x ∷ xs) e w stored

-- The callback of a resolve_keys task whose request is stored: every message that it publishes for
-- the modules resolve_keys and extract carries the path of an artifact of the request's document,
-- of the kind that the request asks for, whatever the outside answers. No document is changed.
pub on_resolve_keys_completed-Sends :
    (task : DocumentTask) (id : ℕ) (req : ExtractionRequest) (e : Env) (w : World)
    → task.extraction_request_id ≡ some id
    → find (has_request_id id) w.requests ≡ some req
    → Sends (IsFromTarget req w.documents) w (on_resolve_keys_completed task e w).1
unfolding on_resolve_keys_completed with_request decoding
on_resolve_keys_completed-Sends task id req e w owner stored = rw owner (
    then_at Sends-Closed _ _ e w w (Sends-none w w refl refl)
      (Evolves-decoding Sends-Closed "parse resolve_keys payload" (λ x. x.parse_resolve_keys)
        task.result_payload)
      λ payload _ after.
        when_resolved-Sends id req payload.new_keys payload.resolved_schema e w stored)
