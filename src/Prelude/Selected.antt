-- ===== src/Prelude/Selected.antt =====
-- Queries that see only the rows that a condition selects.
use mathlib.Core.Path.{◌≡◌, refl, sym, ap, ◌∙◌}
use mathlib.Core.Logic.{inl, inr}
use mathlib.Core.Bool.{Bool, true, false, ◌&&◌, not}
use mathlib.Core.List.{List, [], ◌∷◌, ◌++◌, map}
use native.Mathlib.Omega.{arith}
use kpi_tenders_go.Prelude.Tests.{Bool-cases}
use kpi_tenders_go.Prelude.Lists.{select, find, exists, update, count, All}

-- Of the rows that `p` holds of, `q` holds.
module _ {ℓ} {A : Type ℓ} (p q : A → Bool) (imp : (x : A) → p x ≡ true → q x ≡ true) where
  pub find-select : (xs : List A) → find p (select q xs) ≡ find p xs
  find-select [] = refl
  find-select (x ∷ xs) = ground (arith, imp x, find-select xs)

  pub exists-selected : (xs : List A) → exists p (select q xs) ≡ exists p xs
  exists-selected [] = refl
  exists-selected (x ∷ xs) = ground (arith, imp x, exists-selected xs)

  pub select-select : (xs : List A) → select p (select q xs) ≡ select p xs
  select-select [] = refl
  select-select (x ∷ xs) = ground (arith, imp x, select-select xs)

  pub count-select : (xs : List A) → count p (select q xs) ≡ count p xs
  count-select [] = refl
  count-select (x ∷ xs) = ground (arith, imp x, count-select xs)

-- A condition that is one of the selection and another.
module _ {ℓ} {A : Type ℓ} (p q : A → Bool) where
  pub find-and : (xs : List A) → find (λ x. p x && q x) xs ≡ find p (select q xs)
  find-and [] = refl
  find-and (x ∷ xs) = ground (arith, find-and xs)

  pub exists-and : (xs : List A) → exists (λ x. p x && q x) xs ≡ exists p (select q xs)
  exists-and [] = refl
  exists-and (x ∷ xs) = ground (arith, exists-and xs)

  pub select-and : (xs : List A) → select (λ x. p x && q x) xs ≡ select p (select q xs)
  select-and [] = refl
  select-and (x ∷ xs) = ground (arith, select-and xs)

  pub count-and : (xs : List A) → count (λ x. p x && q x) xs ≡ count p (select q xs)
  count-and [] = refl
  count-and (x ∷ xs) = ground (arith, count-and xs)

  -- Deleting the rows of both conditions, seen through the second.
  pub select-not_and :
      (xs : List A)
      → select q (select (λ x. not (p x && q x)) xs) ≡ select (λ x. not (p x)) (select q xs)
  select-not_and [] = refl
  select-not_and (x ∷ xs) = ground (arith, select-not_and xs)

  -- Updating them.
  pub select-update_and :
      (f : A → A)
      → ((x : A) → q (f x) ≡ q x)
      → (xs : List A) → select q (update (λ x. p x && q x) f xs) ≡ update p f (select q xs)
  select-update_and f same [] = refl
  select-update_and f same (x ∷ xs) = ground (arith, same x, select-update_and f same xs)

  -- Updating rows of the first condition, where the selection is not changed.
  pub select-update :
      (f : A → A)
      → ((x : A) → q (f x) ≡ q x)
      → (xs : List A) → select q (update p f xs) ≡ update p f (select q xs)
  select-update f same [] = refl
  select-update f same (x ∷ xs) = ground (arith, same x, select-update f same xs)

  -- Rows that are not selected may change.
  pub select-update_other :
      (f : A → A)
      → ((x : A) → q (f x) ≡ q x)
      → ((x : A) → p x ≡ true → q x ≡ false)
      → (xs : List A) → select q (update p f xs) ≡ select q xs
  select-update_other f same other [] = refl
  select-update_other f same other (x ∷ xs) =
      ground (arith, same x, other x, select-update_other f same other xs)

  pub select-same : ((x : A) → p x ≡ q x) → (xs : List A) → select p xs ≡ select q xs
  select-same same [] = refl
  select-same same (x ∷ xs) = ground (arith, same x, select-same same xs)

  -- Rows that are not selected may go.
  pub select-keep :
      ((x : A) → p x ≡ true → q x ≡ false)
      → (xs : List A) → select q (select (λ x. not (p x)) xs) ≡ select q xs
  select-keep other [] = refl
  select-keep other (x ∷ xs) = ground (arith, other x, select-keep other xs)

module _ {ℓ} {A : Type ℓ} (q : A → Bool) where
  -- A row that is not selected may come.
  pub select-append_false :
      (xs : List A) (x : A) → q x ≡ false → select q (xs ++ x ∷ []) ≡ select q xs
  select-append_false [] x h = ground arith
  select-append_false (y ∷ ys) x h = ground (arith, select-append_false ys x h)

  pub select-append : (xs ys : List A) → select q (xs ++ ys) ≡ select q xs ++ select q ys
  select-append [] ys = refl
  select-append (x ∷ xs) ys = ground (arith, select-append xs ys)

  pub exists-append_false :
      (xs : List A) (x : A) → q x ≡ false → exists q (xs ++ x ∷ []) ≡ exists q xs
  exists-append_false [] x h = ground arith
  exists-append_false (y ∷ ys) x h = ground (arith, exists-append_false ys x h)

-- Two tables of which the selected rows are the same answer alike: a condition that implies the
-- selection,
module _ {ℓ} {A : Type ℓ} (p q : A → Bool) (imp : (x : A) → p x ≡ true → q x ≡ true)
    (xs ys : List A) (same : select q xs ≡ select q ys) where
  pub find_alike : find p xs ≡ find p ys
  find_alike = sym (find-select p q imp xs) ∙ ap (find p) same ∙ find-select p q imp ys

  pub exists_alike : exists p xs ≡ exists p ys
  exists_alike = sym (exists-selected p q imp xs) ∙ ap (exists p) same ∙ exists-selected p q imp ys

  pub select_alike : select p xs ≡ select p ys
  select_alike = sym (select-select p q imp xs) ∙ ap (select p) same ∙ select-select p q imp ys

-- and one of which the selection, which may differ between the two, is a part.
module _ {ℓ} {A : Type ℓ} (p q r : A → Bool) (xs ys : List A)
    (same : select q xs ≡ select r ys) where
  pub find-and_alike : find (λ x. p x && q x) xs ≡ find (λ x. p x && r x) ys
  find-and_alike = find-and p q xs ∙ ap (find p) same ∙ sym (find-and p r ys)

  pub exists-and_alike : exists (λ x. p x && q x) xs ≡ exists (λ x. p x && r x) ys
  exists-and_alike = exists-and p q xs ∙ ap (exists p) same ∙ sym (exists-and p r ys)

  pub select-and_alike : select (λ x. p x && q x) xs ≡ select (λ x. p x && r x) ys
  select-and_alike = select-and p q xs ∙ ap (select p) same ∙ sym (select-and p r ys)

  pub count-and_alike : count (λ x. p x && q x) xs ≡ count (λ x. p x && r x) ys
  count-and_alike = count-and p q xs ∙ ap (count p) same ∙ sym (count-and p r ys)

module _ {ℓ} {A : Type ℓ} (p q : A → Bool) where
  -- As select-keep, for the rows of one table.
  pub select-keep_All :
      (xs : List A)
      → All (λ x. p x ≡ true → q x ≡ false) xs
      → select q (select (λ x. not (p x)) xs) ≡ select q xs
  select-keep_All [] all = refl
  select-keep_All (x ∷ xs) all = ground (arith, all.0, select-keep_All xs all.1)

  -- Rows that are not selected may go, and those that are selected stay as they are.
  pub select-map_keep :
      (f : A → A) (xs : List A)
      → ((x : A) → q (f x) ≡ q x)
      → All (λ x. q x ≡ true → (p x ≡ false) × (f x ≡ x)) xs
      → select q (map f (select (λ x. not (p x)) xs)) ≡ select q xs
  select-map_keep f [] same all = refl
  select-map_keep f (x ∷ xs) same all = elim (Bool-cases (q x)) [
    | inl here ↦
        rw ((all.0 here).0, (all.0 here).1, here)
          (ap (λ ys. x ∷ ys) (select-map_keep f xs same all.1))
    | inr away ↦ ground (arith, same x, away, select-map_keep f xs same all.1)
  ]
