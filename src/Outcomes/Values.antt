-- ===== src/Outcomes/Values.antt =====
-- The values that `persistExtractedData` stores.
use kpi_tenders_go.Prelude.{
  str_eq_iff, and_fst, and_snd, Bool-cases, inl, inr, none, ℕ, String, Bool, true, false, Option,
  some, List, [], ◌∷◌, ◌≡◌, refl, arith, ◌&&◌, ◌==◌, str_eq, str_eq_refl, ==_refl, exists, All,
  All-map_weaken,
}
use kpi_tenders_go.Models.{ExtractionKey}
use kpi_tenders_go.Extraction.Callbacks.{last_of, key_id_by_name, add_pair, value_pairs}

abbrev pub is_key : ℕ → String → ExtractionKey → Bool
is_key id name k = k.id == id && str_eq k.key_name name

abbrev pub same_value : Option String → String → Bool
same_value none v = false
same_value (some u) v = str_eq u v

-- The pair is this extracted entry's, under a key of its name.
abbrev pub comes_from : List ExtractionKey → ℕ × String → String × Option String → Bool
comes_from keys p (name, v) = exists (is_key p.0 name) keys && same_value v p.1

pub key_id_by_name-is_key :
    (keys : List ExtractionKey) (name : String) (id : ℕ)
    → key_id_by_name keys name ≡ some id
    → exists (is_key id name) keys ≡ true
key_id_by_name-is_key [] name id h = ground arith
key_id_by_name-is_key (k ∷ ks) name id h =
    ground (arith, key_id_by_name-is_key ks name id, ==_refl k.id)

weakened :
    (keys : List ExtractionKey) (x : String × Option String) (rest : List (String × Option String))
    (pairs : List (ℕ × String))
    → All (λ p. exists (comes_from keys p) rest ≡ true) pairs
    → All (λ p. exists (comes_from keys p) (x ∷ rest) ≡ true) pairs
weakened keys x rest pairs h = All-map_weaken _ _ pairs (λ p k. ground (arith, k)) h

added :
    (keys : List ExtractionKey) (name : String) (o : Option ℕ) (v : Option String)
    (rest : List (String × Option String)) (pairs : List (ℕ × String))
    → key_id_by_name keys name ≡ o
    → All (λ p. exists (comes_from keys p) rest ≡ true) pairs
    → All (λ p. exists (comes_from keys p) ((name, v) ∷ rest) ≡ true) (add_pair o v pairs)
added keys name none v rest pairs found h = weakened keys (name, v) rest pairs h
added keys name (some id) none rest pairs found h = weakened keys (name, none) rest pairs h
added keys name (some id) (some u) rest pairs found h = (
  ground (arith, key_id_by_name-is_key keys name id found, str_eq_refl u),
  weakened keys (name, some u) rest pairs h,
)

-- Each pair that is stored is a value, not null, of an extracted entry, under the id of a key with
-- the entry's name.
pub value_pairs-come_from :
    (keys : List ExtractionKey) (extracted : List (String × Option String))
    → All (λ p. exists (comes_from keys p) extracted ≡ true) (value_pairs keys extracted)
unfolding value_pairs
value_pairs-come_from keys [] = tt
value_pairs-come_from keys ((name, v) ∷ rest) =
    added keys name (key_id_by_name keys name) v rest (value_pairs keys rest) refl
      (value_pairs-come_from keys rest)

abbrev pub is_entry : String → String → String × Option String → Bool
is_entry name u (n, v) = str_eq n name && same_value v u

abbrev pub is_pair : ℕ → String → ℕ × String → Bool
is_pair id u p = p.0 == id && str_eq p.1 u

kept :
    (q : ℕ × String → Bool) (o : Option ℕ) (v : Option String) (pairs : List (ℕ × String))
    → exists q pairs ≡ true
    → exists q (add_pair o v pairs) ≡ true
kept q none v pairs h = h
kept q (some i) none pairs h = h
kept q (some i) (some u) pairs h = ground arith

first_pair :
    (name u n : String) (id : ℕ) (v : Option String) (keys : List ExtractionKey)
    (pairs : List (ℕ × String))
    → is_entry name u (n, v) ≡ true
    → key_id_by_name keys name ≡ some id
    → exists (is_pair id u) (add_pair (key_id_by_name keys n) v pairs) ≡ true
first_pair name u n id none keys pairs here found = ground arith
first_pair name u n id (some s) keys pairs here found =
    let same_text = and_snd (str_eq n name) (str_eq s u) here in
    rw ((str_eq_iff n name).0 (and_fst (str_eq n name) (str_eq s u) here), found)
      (ground (arith, ==_refl id, same_text))

pub with_id :
    (keys : List ExtractionKey) (extracted : List (String × Option String)) (name u : String)
    (id : ℕ)
    → exists (is_entry name u) extracted ≡ true
    → key_id_by_name keys name ≡ some id
    → exists (is_pair id u) (value_pairs keys extracted) ≡ true
unfolding value_pairs
with_id keys [] name u id there found = ground arith
with_id keys ((n, v) ∷ rest) name u id there found = elim (Bool-cases (is_entry name u (n, v))) [
  | inl here ↦ first_pair name u n id v keys (value_pairs keys rest) here found
  | inr not_here ↦
      kept (is_pair id u) (key_id_by_name keys n) v (value_pairs keys rest)
        (with_id keys rest name u id (rw not_here at there) found)
]

abbrev pub is_named : String → ExtractionKey → Bool
is_named name k = str_eq k.key_name name

last_missing :
    (o : Option ℕ) (k : ExtractionKey) (ks : List ExtractionKey) (name : String)
    → last_of o k name ≡ none
    → (o ≡ none → exists (is_named name) ks ≡ false)
    → exists (is_named name) (k ∷ ks) ≡ false
last_missing none k ks name g h = ground (arith, g, h refl)
last_missing (some i) k ks name g h = ground (arith, g)

pub missing_key :
    (keys : List ExtractionKey) (name : String)
    → key_id_by_name keys name ≡ none
    → exists (is_named name) keys ≡ false
missing_key [] name h = refl
missing_key (k ∷ ks) name h =
    last_missing (key_id_by_name ks name) k ks name h (missing_key ks name)
