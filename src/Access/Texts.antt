-- ===== src/Access/Texts.antt =====
-- The name of a downloaded file in a Content-Disposition (internal/service/service_document.go).
use Prim.Native.Char.{code}
use kpi_tenders_go.Prelude.{
  ◌==◌, ℕ, String, Bool, true, not, ◌≡◌, refl, ap, subst, ◌&&◌, arith, Bool-cases, inl, inr,
  and_fst, and_snd,
}
use kpi_tenders_go.DocumentService.{safe_name, is_unsafe}

-- Neither a quote nor a carriage return nor a line feed.
abbrev pub is_header_safe : ℕ → Bool
is_header_safe c = not (c == 34) && not (c == 13) && not (c == 10)

-- Every character of the text is.
abbrev pub is_clean : String → Bool
is_clean String.[] = true
is_clean (String.◌∷◌ c s) = is_header_safe (code c) && is_clean s

unsafe_iff : (c : ℕ) → is_unsafe c ≡ not (is_header_safe c)
unsafe_iff c = ground arith

safe_name-clean : (s : String) → is_clean (safe_name s) ≡ true
unfolding safe_name
safe_name-clean String.[] = refl
safe_name-clean (String.◌∷◌ c s) = elim (Bool-cases (is_header_safe (code c))) [
  | inl good ↦ rw (unsafe_iff (code c), good, good) (safe_name-clean s)
  | inr bad ↦ rw (unsafe_iff (code c), bad) (safe_name-clean s)
]

safe_name-id : (s : String) → is_clean s ≡ true → safe_name s ≡ s
unfolding safe_name
safe_name-id String.[] h = refl
safe_name-id (String.◌∷◌ c s) h =
    rw (unsafe_iff (code c), and_fst (is_header_safe (code c)) (is_clean s) h)
      (ap (λ t. String.◌∷◌ c t) (safe_name-id s (and_snd (is_header_safe (code c)) (is_clean s) h)))

-- A download's file name has no quote, carriage return or line feed, so that it cannot end the
-- header's value; a name without them is kept as it is; and the names that are kept are exactly those.
pub safe_name-Clean :
    (s : String)
    → (is_clean (safe_name s) ≡ true)
      × ((is_clean s ≡ true → safe_name s ≡ s) × (safe_name s ≡ s → is_clean s ≡ true))
safe_name-Clean s = (
  safe_name-clean s,
  (safe_name-id s, λ same. subst (λ t. is_clean t ≡ true) same (safe_name-clean s)),
)
