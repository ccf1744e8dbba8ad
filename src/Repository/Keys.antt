-- ===== src/Repository/Keys.antt =====
-- internal/repository/extraction.sql.go: the keys that values are extracted for, and the values.
use kpi_tenders_go.Prelude.{
  ℕ, suc, String, Bool, true, false, not, Option, none, some, List, [], ◌∷◌, ◌++◌, ◌&&◌, ◌||◌, ◌==◌,
  str_eq, if◌then◌else◌, select, find, exists, update, sort_by,
}
use kpi_tenders_go.Errs.{plain, foreign_key_violation, check_violation}
use kpi_tenders_go.Models.{ExtractionKey, ExtractedDatum, is_id, is_null}
use kpi_tenders_go.Payloads.{KeyEntry}
use kpi_tenders_go.Effects.{World, ok, err, Stmt, M, run}
use kpi_tenders_go.Repository.Documents.{first, has_id_org}

-- uq_extraction_keys_org_name.
abbrev pub has_org_name : ℕ → String → ExtractionKey → Bool
has_org_name org name k = is_id k.organization_id org && str_eq k.key_name name

-- `organization_id = org OR organization_id IS NULL`.
abbrev pub is_visible : ℕ → ExtractionKey → Bool
is_visible org k = is_id k.organization_id org || is_null k.organization_id

abbrev pub key_row : ℕ → KeyEntry → ℕ → ℕ → ExtractionKey
key_row org p id now = record {
  id = id;
  organization_id = some org;
  key_name = p.key_name;
  source_query = p.source_query;
  data_type = p.data_type;
  created_at = now;
}

abbrev pub refresh_key : KeyEntry → ExtractionKey → ExtractionKey
refresh_key p k = record k { source_query = p.source_query; data_type = p.data_type }

abbrev insert_key : ℕ → KeyEntry → Stmt ExtractionKey
insert_key org p now w =
    let k = key_row org p w.next_id now in
    (ok k, record w { keys = w.keys ++ k ∷ []; next_id = suc w.next_id })

abbrev update_key : ℕ → KeyEntry → Stmt ExtractionKey
update_key org p now w =
    let rows = update (has_org_name org p.key_name) (refresh_key p) w.keys in
    (first (find (has_org_name org p.key_name) rows), record w { keys = rows })

unfoldable pub upsert_key : ℕ → KeyEntry → Stmt ExtractionKey
upsert_key org p now w =
    if exists (has_org_name org p.key_name) w.keys
    then update_key org p now w
    else insert_key org p now w

unfoldable pub upsert_extraction_key : ℕ → KeyEntry → M ExtractionKey
upsert_extraction_key org p = run (upsert_key org p)

-- `organization_id NULLS LAST, key_name`, among the rows of one organization and the system's.
abbrev pub key_order : (String → String → Bool) → ExtractionKey → ExtractionKey → Bool
key_order name_le j k = elim j.organization_id [
  | none ↦ is_null k.organization_id && name_le j.key_name k.key_name
  | some o ↦ is_null k.organization_id || name_le j.key_name k.key_name
]

unfoldable pub list_extraction_keys_by_org : ℕ → M (List ExtractionKey)
list_extraction_keys_by_org org e =
    run (λ now w. (ok (sort_by (key_order e.name_le) (select (is_visible org) w.keys)), w)) e

abbrev pub is_listed : List String → ExtractionKey → Bool
is_listed names k = exists (λ n. str_eq n k.key_name) names

-- `DISTINCT ON (key_name) ... ORDER BY key_name, (organization_id IS NULL)`: a system key gives way
-- to a key of the organization with its name. The services read the rows as a map, so the order
-- of names is left as it comes.
abbrev pub is_shadowed : List ExtractionKey → ExtractionKey → Bool
is_shadowed rows k =
    is_null k.organization_id
    && exists
        (λ (j : ExtractionKey). not (is_null j.organization_id) && str_eq j.key_name k.key_name)
        rows

abbrev pub distinct_keys : List ExtractionKey → List ExtractionKey
distinct_keys rows = select (λ k. not (is_shadowed rows k)) rows

unfoldable pub get_extraction_keys_by_names : List String → ℕ → M (List ExtractionKey)
get_extraction_keys_by_names names org =
    run
      λ now w. (ok (distinct_keys (select (λ k. is_listed names k && is_visible org k) w.keys)), w)

-- uq_extracted_data_doc_key.
abbrev pub is_datum : ℕ → ℕ → ℕ → ExtractedDatum → Bool
is_datum org document key x =
    x.organization_id == org && x.document_id == document && x.key_id == key

abbrev pub datum_row : ℕ → ℕ → ℕ → String → ℕ → ExtractedDatum
datum_row org document key value id = record {
  id = id;
  organization_id = org;
  document_id = document;
  key_id = key;
  extracted_value = some value;
}

abbrev pub set_value : String → ExtractedDatum → ExtractedDatum
set_value value x = record x { extracted_value = some value }

-- One pair of the batch: a row of the unique constraint is updated, else one is inserted.
abbrev pub upsert_datum : ℕ → ℕ → ℕ × String → World → World
upsert_datum org document (key, value) w =
    let old = is_datum org document key in
    if exists old w.extracted
    then record w { extracted = update old (set_value value) w.extracted }
    else record w {
      extracted = w.extracted ++ datum_row org document key value w.next_id ∷ [];
      next_id = suc w.next_id;
    }

abbrev pub upsert_data : ℕ → ℕ → List (ℕ × String) → World → World
upsert_data org document [] w = w
upsert_data org document (p ∷ ps) w = upsert_data org document ps (upsert_datum org document p w)

-- The trigger trg_document_extracted_data_key_org, for every pair.
abbrev pub keys_allowed : ℕ → List ExtractionKey → List (ℕ × String) → Bool
keys_allowed org keys [] = true
keys_allowed org keys ((key, value) ∷ ps) =
    exists (λ (k : ExtractionKey). k.id == key && is_visible org k) keys && keys_allowed org keys ps

-- `ON CONFLICT DO UPDATE` refuses a batch that would touch one row twice.
abbrev pub has_repeat : List (ℕ × String) → Bool
has_repeat [] = false
has_repeat ((key, value) ∷ ps) = exists (λ (p : ℕ × String). p.0 == key) ps || has_repeat ps

unfoldable pub batch_upsert : ℕ → ℕ → List (ℕ × String) → Stmt (Unit {0})
batch_upsert org document pairs now w =
    if has_repeat pairs
    then (err (plain "cannot affect row a second time"), w)
    else if keys_allowed org w.keys pairs
    then if exists (has_id_org document org) w.documents
      then (ok tt, upsert_data org document pairs w)
      else (err (foreign_key_violation "fk_extracted_data_doc_org"), w)
    else (err (check_violation "trg_document_extracted_data_key_org"), w)

-- The source hands the two columns over as two arrays of one length.
unfoldable pub batch_upsert_extracted_data : ℕ → ℕ → List (ℕ × String) → M (Unit {0})
batch_upsert_extracted_data org document pairs = run (batch_upsert org document pairs)

-- A row of `ListExtractedDataForKeys`.
pub record Answer : Type 0 where
  pub key_name : String
  pub data_type : String
  pub extracted_value : Option String

abbrev join_row : Option ExtractionKey → ExtractedDatum → List Answer → List Answer
join_row none x rest = rest
join_row (some k) x rest =
    record { key_name = k.key_name; data_type = k.data_type; extracted_value = x.extracted_value }
    ∷ rest

abbrev pub join_keys : List ExtractionKey → List ExtractedDatum → List Answer
join_keys keys [] = []
join_keys keys (x ∷ xs) =
    join_row (find (λ (k : ExtractionKey). k.id == x.key_id) keys) x (join_keys keys xs)

abbrev pub of_document : ℕ → ℕ → ExtractedDatum → Bool
of_document document org x = x.document_id == document && x.organization_id == org

abbrev answer_order : (String → String → Bool) → Answer → Answer → Bool
answer_order name_le a b = name_le a.key_name b.key_name

unfoldable pub list_extracted_data_for_keys : ℕ → ℕ → List String → M (List Answer)
list_extracted_data_for_keys document org names e =
    run
      (λ now w. (
        ok (
            sort_by (answer_order e.name_le) (
              select (λ a. exists (λ n. str_eq n a.key_name) names)
                (join_keys w.keys (select (of_document document org) w.extracted)))),
        w,
      ))
      e
