-- ===== src/History/Grows.antt =====
-- A table before and after: each row is still there, related to what it has become, and rows may
-- have been added behind.
use kpi_tenders_go.Prelude.{
  Bool, true, false, List, [], ◌∷◌, ◌++◌, ◌≡◌, refl, update, if◌then◌else◌,
}

module _ {A : Type 0} where
  abbrev pub Grows : (A → A → Type 0) → List A → List A → Type 0
  Grows E [] ys = Unit
  Grows E (x ∷ xs) [] = ⊥
  Grows E (x ∷ xs) (y ∷ ys) = E x y × Grows E xs ys

  pub record Order (E : A → A → Type 0) : Type 0 where
    pub same : (x : A) → E x x
    pub chain : (x y z : A) → E x y → E y z → E x z

  module _ {E : A → A → Type 0} (o : Order E) where
    pub Grows-refl : (xs : List A) → Grows E xs xs
    Grows-refl [] = tt
    Grows-refl (x ∷ xs) = (o.same x, Grows-refl xs)

    pub Grows-trans : (xs ys zs : List A) → Grows E xs ys → Grows E ys zs → Grows E xs zs
    Grows-trans [] ys zs h k = tt
    Grows-trans (x ∷ xs) [] zs h k = absurd h
    Grows-trans (x ∷ xs) (y ∷ ys) [] h k = k
    Grows-trans (x ∷ xs) (y ∷ ys) (z ∷ zs) h k =
        (o.chain x y z h.0 k.0, Grows-trans xs ys zs h.1 k.1)

    pub Grows-append : (xs ys : List A) → Grows E xs (xs ++ ys)
    Grows-append [] ys = tt
    Grows-append (x ∷ xs) ys = (o.same x, Grows-append xs ys)

    E-if : (b : Bool) (f : A → A) (x : A) → (b ≡ true → E x (f x)) → E x (if b then f x else x)
    E-if true f x h = h refl
    E-if false f x h = o.same x

    pub Grows-update :
        (p : A → Bool) (f : A → A) (xs : List A)
        → ((x : A) → p x ≡ true → E x (f x))
        → Grows E xs (update p f xs)
    Grows-update p f [] h = tt
    Grows-update p f (x ∷ xs) h = (E-if (p x) f x (h x), Grows-update p f xs h)

    pub Grows-eq : (xs ys : List A) → ys ≡ xs → Grows E xs ys
    Grows-eq xs ys h = rw h (Grows-refl xs)
