-- ===== src/Outcomes/Keys.antt =====
-- The keys that `persistExtractedData` reads, and the rows that its batch leaves
-- (internal/repository/extraction.sql.go).
use kpi_tenders_go.Prelude.{
  ℕ, String, Bool, true, false, not, List, [], ◌∷◌, ◌++◌, ◌≡◌, ◌∙◌, subst, arith, ◌&&◌, ◌==◌,
  ==_iff, ==_refl, str_eq, str_eq_iff, str_eq_refl, exists, exists-imp, exists-select,
  exists-selected, select, update, Bool-cases, inl, inr, and_fst, and_snd,
}
use kpi_tenders_go.Models.{ExtractionKey, ExtractedDatum, is_null}
use kpi_tenders_go.Effects.{World}
use kpi_tenders_go.Repository.Keys.{
  is_visible, is_listed, is_shadowed, distinct_keys, is_datum, datum_row, set_value, upsert_datum,
  upsert_data, has_repeat,
}
use kpi_tenders_go.Outcomes.Values.{is_key, is_named, is_pair, same_value}

-- A key of that name that the organization sees.
abbrev pub is_seen : ℕ → String → ExtractionKey → Bool
is_seen org name k = is_named name k && is_visible org k

abbrev is_own : String → ExtractionKey → Bool
is_own name k = not (is_null k.organization_id) && is_named name k

own_stays :
    (rows : List ExtractionKey) (name : String) (k : ExtractionKey)
    → is_own name k ≡ true
    → not (is_shadowed rows k) ≡ true
own_stays rows name k h = ground (arith, h)

system_stays :
    (rows : List ExtractionKey) (name : String)
    → exists (is_own name) rows ≡ false
    → (k : ExtractionKey) → is_named name k ≡ true
    → not (is_shadowed rows k) ≡ true
system_stays rows name none_own k h = rw ((str_eq_iff k.key_name name).0 h, none_own) (ground arith)

-- A name that a row has is still there when the rows of the system have given way.
distinct-named :
    (rows : List ExtractionKey) (name : String)
    → exists (is_named name) rows ≡ true
    → exists (is_named name) (distinct_keys rows) ≡ true
distinct-named rows name h = elim (Bool-cases (exists (is_own name) rows)) [
  | inl own ↦
      exists-imp (is_own name) (is_named name) (distinct_keys rows) (λ k g. and_snd _ _ g)
        (exists-selected (is_own name) (λ k. not (is_shadowed rows k)) (own_stays rows name) rows
          ∙ own)
  | inr system ↦
      exists-selected (is_named name) (λ k. not (is_shadowed rows k))
        (system_stays rows name system) rows
      ∙ h
]

pub found-named :
    (keys : List ExtractionKey) (names : List String) (org : ℕ) (name : String)
    → exists (λ n. str_eq n name) names ≡ true
    → exists (is_seen org name) keys ≡ true
    → exists
        (is_named name)
        (distinct_keys (select (λ k. is_listed names k && is_visible org k) keys))
      ≡ true
found-named keys names org name listed seen =
    distinct-named (select (λ k. is_listed names k && is_visible org k) keys) name (
      exists-imp (is_seen org name) (is_named name)
        (select (λ k. is_listed names k && is_visible org k) keys) (λ k g. and_fst _ _ g)
        (exists-selected (is_seen org name) (λ k. is_listed names k && is_visible org k)
            (λ k g. rw ((str_eq_iff k.key_name name).0 (and_fst _ _ g), listed) (and_snd _ _ g))
            keys
          ∙ seen))

-- What is found is a key that the organization sees.
abbrev pub is_seen_key : ℕ → ℕ → String → ExtractionKey → Bool
is_seen_key org id name k = k.id == id && is_seen org name k

pub found-is_seen :
    (keys : List ExtractionKey) (names : List String) (org id : ℕ) (name : String)
    → exists
        (is_key id name)
        (distinct_keys (select (λ k. is_listed names k && is_visible org k) keys))
      ≡ true
    → exists (is_seen_key org id name) keys ≡ true
found-is_seen keys names org id name h =
    exists-select (λ k. is_listed names k && is_visible org k) (λ k. is_key id name k)
      (is_seen_key org id name) keys (λ k listed here. ground (arith, listed, here))
      (exists-select
        (λ k. not (is_shadowed (select (λ k. is_listed names k && is_visible org k) keys) k))
        (is_key id name) (is_key id name) (select (λ k. is_listed names k && is_visible org k) keys)
        (λ k stays here. here) h)

-- The value of a key on a document.
abbrev pub is_stored : ℕ → ℕ → ℕ → String → ExtractedDatum → Bool
is_stored org document id u x = is_datum org document id x && same_value x.extracted_value u

module _ (org document : ℕ) where
  set_here :
      (id : ℕ) (u : String) (xs : List ExtractedDatum)
      → exists (is_datum org document id) xs ≡ true
      → exists (is_stored org document id u) (update (is_datum org document id) (set_value u) xs)
        ≡ true
  set_here id u [] h = h
  set_here id u (x ∷ xs) h = ground (arith, h, set_here id u xs, str_eq_refl u)

  kept_there :
      (id key : ℕ) (u v : String) (xs : List ExtractedDatum)
      → (key == id) ≡ false
      → exists (is_stored org document id u) xs ≡ true
      → exists (is_stored org document id u) (update (is_datum org document key) (set_value v) xs)
        ≡ true
  kept_there id key u v [] apart h = h
  kept_there id key u v (x ∷ xs) apart h = ground (arith, apart, h, kept_there id key u v xs apart)

  added_last :
      (id n : ℕ) (u : String) (xs : List ExtractedDatum)
      → exists (is_stored org document id u) (xs ++ datum_row org document id u n ∷ []) ≡ true
  added_last id n u [] = ground (arith, str_eq_refl u, ==_refl org, ==_refl document, ==_refl id)
  added_last id n u (x ∷ xs) = ground (arith, added_last id n u xs)

  still_there :
      (id : ℕ) (u : String) (y : ExtractedDatum) (xs : List ExtractedDatum)
      → exists (is_stored org document id u) xs ≡ true
      → exists (is_stored org document id u) (xs ++ y ∷ []) ≡ true
  still_there id u y [] h = ground (arith, h)
  still_there id u y (x ∷ xs) h = ground (arith, h, still_there id u y xs)

  datum_written :
      (id : ℕ) (u : String) (w : World)
      → exists (is_stored org document id u) (upsert_datum org document (id, u) w).extracted ≡ true
  datum_written id u w = elim (Bool-cases (exists (is_datum org document id) w.extracted)) [
    | inl old ↦ rw old (set_here id u w.extracted old)
    | inr new ↦ rw new (added_last id w.next_id u w.extracted)
  ]

  datum_kept :
      (id key : ℕ) (u v : String) (w : World)
      → (key == id) ≡ false
      → exists (is_stored org document id u) w.extracted ≡ true
      → exists (is_stored org document id u) (upsert_datum org document (key, v) w).extracted ≡ true
  datum_kept id key u v w apart h =
      elim (Bool-cases (exists (is_datum org document key) w.extracted)) [
        | inl old ↦ rw old (kept_there id key u v w.extracted apart h)
        | inr new ↦ rw new (still_there id u _ w.extracted h)
      ]

  data_kept :
      (id : ℕ) (u : String) (ps : List (ℕ × String)) (w : World)
      → exists (λ (p : ℕ × String). p.0 == id) ps ≡ false
      → exists (is_stored org document id u) w.extracted ≡ true
      → exists (is_stored org document id u) (upsert_data org document ps w).extracted ≡ true
  data_kept id u [] w others h = h
  data_kept id u ((key, v) ∷ ps) w others h =
      data_kept id u ps (upsert_datum org document (key, v) w) (ground (arith, others))
        (datum_kept id key u v w (ground (arith, others)) h)

  -- In a batch without repeats, each pair is in the table at the end.
  pub data_written :
      (id : ℕ) (u : String) (ps : List (ℕ × String)) (w : World)
      → has_repeat ps ≡ false
      → exists (is_pair id u) ps ≡ true
      → exists (is_stored org document id u) (upsert_data org document ps w).extracted ≡ true
  data_written id u [] w once h = ground arith
  data_written id u ((key, v) ∷ ps) w once h = elim (Bool-cases (is_pair id u (key, v))) [
    | inl here ↦
        let same_key = (==_iff key id).0 (and_fst (key == id) _ here) in
        let same_text = (str_eq_iff v u).0 (and_snd (key == id) _ here) in
        let others : exists (λ (p : ℕ × String). p.0 == key) ps ≡ false = ground (arith, once) in
        rw (same_key, same_text)
          (data_kept id u ps (upsert_datum org document (id, u) w)
            (subst (λ i. exists (λ (p : ℕ × String). p.0 == i) ps ≡ false) same_key others)
            (datum_written id u w))
    | inr not_here ↦
        data_written id u ps (upsert_datum org document (key, v) w) (ground (arith, once))
          (ground (arith, h, not_here))
  ]
