-- ===== src/Prelude/Lists.antt =====
-- Tables as lists of rows, newest last: `SELECT`, `UPDATE`, `ORDER BY` and `LIMIT` on them, the
-- number of rows that a condition holds of, and predicates that hold of every row.
use Prim.Native.Nat.{ℕ, zero, suc, ◌+◌}
use mathlib.Core.Path.{◌≡◌, refl}
use mathlib.Core.Bool.{Bool, true, false}
use mathlib.Core.Option.{Option, none, some}
use mathlib.Core.List.{List, [], ◌∷◌, ◌++◌}
use native.Mathlib.Omega.{arith}
use kpi_tenders_go.Prelude.Tests.{if◌then◌else◌}

module _ {ℓ} {A : Type ℓ} where
  abbrev pub length : List A → ℕ
  length [] = 0
  length (x ∷ xs) = suc (length xs)

  -- `SELECT ... WHERE p`, in the order of insertion.
  abbrev pub select : (A → Bool) → List A → List A
  select p [] = []
  select p (x ∷ xs) = let rest = select p xs in if p x then x ∷ rest else rest

  -- The first row that the condition holds of.
  abbrev pub find : (A → Bool) → List A → Option A
  find p [] = none
  find p (x ∷ xs) = if p x then some x else find p xs

  -- `EXISTS (SELECT ... WHERE p)`.
  abbrev pub exists : (A → Bool) → List A → Bool
  exists p [] = false
  exists p (x ∷ xs) = if p x then true else exists p xs

  -- `UPDATE ... SET f WHERE p`.
  abbrev pub update : (A → Bool) → (A → A) → List A → List A
  update p f [] = []
  update p f (x ∷ xs) = (if p x then f x else x) ∷ update p f xs

  abbrev pub count : (A → Bool) → List A → ℕ
  count p [] = 0
  count p (x ∷ xs) = let rest = count p xs in if p x then suc rest else rest

  abbrev pub take : ℕ → List A → List A
  take zero xs = []
  take (suc n) [] = []
  take (suc n) (x ∷ xs) = x ∷ take n xs

  -- A row put before the first row that it may precede.
  abbrev pub insert_by : (A → A → Bool) → A → List A → List A
  insert_by le x [] = x ∷ []
  insert_by le x (y ∷ ys) = if le x y then x ∷ y ∷ ys else y ∷ insert_by le x ys

  -- `ORDER BY`, stable.
  abbrev pub sort_by : (A → A → Bool) → List A → List A
  sort_by le [] = []
  sort_by le (x ∷ xs) = insert_by le x (sort_by le xs)

module _ {ℓ κ} {A : Type ℓ} where
  abbrev pub All : (A → Type κ) → List A → Type κ
  All P [] = Unit
  All P (x ∷ xs) = P x × All P xs

  pub All-append : (P : A → Type κ) (xs ys : List A) → All P xs → All P ys → All P (xs ++ ys)
  All-append P [] ys hx hy = hy
  All-append P (x ∷ xs) ys hx hy = (hx.0, All-append P xs ys hx.1 hy)

  if_elim : (P : A → Type κ) (b : Bool) (x y : A) → P x → P y → P (if b then x else y)
  if_elim P true x y hx hy = hx
  if_elim P false x y hx hy = hy

  -- An update keeps what its change keeps of each row.
  pub All-update :
      (P : A → Type κ) (p : A → Bool) (f : A → A) (xs : List A)
      → ((x : A) → P x → P (f x))
      → All P xs
      → All P (update p f xs)
  All-update P p f [] keep h = tt
  All-update P p f (x ∷ xs) keep h =
      (if_elim P (p x) (f x) x (keep x h.0) h.0, All-update P p f xs keep h.1)

  pub All-zip : (P Q : A → Type κ) (xs : List A) → All P xs → All Q xs → All (λ x. P x × Q x) xs
  All-zip P Q [] hp hq = tt
  All-zip P Q (x ∷ xs) hp hq = ((hp.0, hq.0), All-zip P Q xs hp.1 hq.1)

  pub All-map_weaken :
      (P Q : A → Type κ) (xs : List A) → ((x : A) → P x → Q x) → All P xs → All Q xs
  All-map_weaken P Q [] w h = tt
  All-map_weaken P Q (x ∷ xs) w h = (w x h.0, All-map_weaken P Q xs w h.1)

module _ {ℓ κ} {A : Type ℓ} (P : A → Type κ) where
  pub All-every : (xs : List A) → ((x : A) → P x) → All P xs
  All-every [] h = tt
  All-every (x ∷ xs) h = (h x, All-every xs h)

  All-if :
      (b : Bool) (x : A) (xs : List A)
      → (b ≡ true → P x)
      → All P xs
      → All P (if b then x ∷ xs else xs)
  All-if true x xs hx hs = (hx refl, hs)
  All-if false x xs hx hs = hs

  -- Of a selected row a predicate can use that it was selected.
  pub All-select :
      (Q : A → Type κ) (p : A → Bool) (xs : List A)
      → ((x : A) → p x ≡ true → Q x → P x)
      → All Q xs
      → All P (select p xs)
  All-select Q p [] both h = tt
  All-select Q p (x ∷ xs) both h =
      All-if (p x) x (select p xs) (λ here. both x here h.0) (All-select Q p xs both h.1)

  pub All-take : (n : ℕ) (xs : List A) → All P xs → All P (take n xs)
  All-take zero xs h = tt
  All-take (suc n) [] h = tt
  All-take (suc n) (x ∷ xs) h = (h.0, All-take n xs h.1)

  All-either : (b : Bool) (xs ys : List A) → All P xs → All P ys → All P (if b then xs else ys)
  All-either true xs ys hx hy = hx
  All-either false xs ys hx hy = hy

  All-insert_by :
      (le : A → A → Bool) (x : A) (ys : List A) → P x → All P ys → All P (insert_by le x ys)
  All-insert_by le x [] hx h = (hx, tt)
  All-insert_by le x (y ∷ ys) hx h =
      All-either (le x y) (x ∷ y ∷ ys) (y ∷ insert_by le x ys) (hx, (h.0, h.1))
        (h.0, All-insert_by le x ys hx h.1)

  pub All-sort_by : (le : A → A → Bool) (xs : List A) → All P xs → All P (sort_by le xs)
  All-sort_by le [] h = tt
  All-sort_by le (x ∷ xs) h = All-insert_by le x (sort_by le xs) h.0 (All-sort_by le xs h.1)

-- Every row of a table is one of which a test that holds of it holds somewhere in the table.
module _ {ℓ} {A : Type ℓ} where
  abbrev pub Member : List A → A → Type ℓ
  Member xs x = (q : A → Bool) → q x ≡ true → exists q xs ≡ true

  pub All-Member : (xs : List A) → All (Member xs) xs
  All-Member [] = tt
  All-Member (x ∷ xs) = (
    λ q h. ground (arith, h),
    All-map_weaken (Member xs) (Member (x ∷ xs)) xs (λ y member q h. ground (arith, member q h))
        (All-Member xs),
  )

module _ {ℓ} {A : Type ℓ} where
  pub count-append : (p : A → Bool) (xs ys : List A) → count p (xs ++ ys) ≡ count p xs + count p ys
  count-append p [] ys = omega arith
  count-append p (x ∷ xs) ys = ground (arith, count-append p xs ys)

  -- An update that does not change what the condition reads keeps the count.
  pub count-update :
      (p q : A → Bool) (f : A → A) (xs : List A)
      → ((x : A) → p (f x) ≡ p x)
      → count p (update q f xs) ≡ count p xs
  count-update p q f [] same = refl
  count-update p q f (x ∷ xs) same = ground (arith, same x, count-update p q f xs same)

  pub count-eq-zero : (p : A → Bool) (xs : List A) → exists p xs ≡ false → count p xs ≡ 0
  count-eq-zero p [] h = refl
  count-eq-zero p (x ∷ xs) h = ground (arith, count-eq-zero p xs)

  pub exists-append :
      (p : A → Bool) (xs ys : List A) → exists p xs ≡ true → exists p (xs ++ ys) ≡ true
  exists-append p [] ys h = ground arith
  exists-append p (x ∷ xs) ys h = ground (arith, exists-append p xs ys)

  pub exists-update :
      (p q : A → Bool) (f : A → A) (xs : List A)
      → ((x : A) → p (f x) ≡ p x)
      → exists p (update q f xs) ≡ exists p xs
  exists-update p q f [] same = refl
  exists-update p q f (x ∷ xs) same = ground (arith, same x, exists-update p q f xs same)

-- What a query finds is a row of the table that the condition holds of.
module _ {ℓ} {A : Type ℓ} where
  pub find-holds : (p : A → Bool) (xs : List A) (t : A) → find p xs ≡ some t → p t ≡ true
  find-holds p [] t h = ground arith
  find-holds p (x ∷ xs) t h = ground (arith, find-holds p xs t)

  pub find-exists :
      (p q : A → Bool) (xs : List A) (t : A) → find p xs ≡ some t → q t ≡ true → exists q xs ≡ true
  find-exists p q [] t h k = ground arith
  find-exists p q (x ∷ xs) t h k = ground (arith, find-exists p q xs t)

  exists-insert_by :
      (q : A → Bool) (le : A → A → Bool) (x : A) (ys : List A)
      → exists q (insert_by le x ys) ≡ exists q (x ∷ ys)
  exists-insert_by q le x [] = refl
  exists-insert_by q le x (y ∷ ys) = ground (arith, exists-insert_by q le x ys)

  pub exists-sort_by :
      (q : A → Bool) (le : A → A → Bool) (xs : List A) → exists q (sort_by le xs) ≡ exists q xs
  exists-sort_by q le [] = refl
  exists-sort_by q le (x ∷ xs) =
      ground (arith, exists-insert_by q le x (sort_by le xs), exists-sort_by q le xs)

  pub exists-imp :
      (p q : A → Bool) (xs : List A)
      → ((x : A) → p x ≡ true → q x ≡ true)
      → exists p xs ≡ true
      → exists q xs ≡ true
  exists-imp p q [] imp h = h
  exists-imp p q (x ∷ xs) imp h = ground (arith, imp x, exists-imp p q xs imp)

  -- Of the selected rows a condition can use that they were selected.
  pub exists-select :
      (p q r : A → Bool) (xs : List A)
      → ((x : A) → p x ≡ true → q x ≡ true → r x ≡ true)
      → exists q (select p xs) ≡ true
      → exists r xs ≡ true
  exists-select p q r [] both h = h
  exists-select p q r (x ∷ xs) both h = ground (arith, both x, exists-select p q r xs both)
