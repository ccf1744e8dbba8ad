-- ===== src/Access/Inn.antt =====
-- The INN that an organization gives (internal/service/service_organization.go, parseINN).
use Prim.Native.Char.{Char, code}
use Prim.Native.String.{◌++◌ as text_append}
use text.Mathlib.TextLemmas.{nil-append, cons-append}
use kpi_tenders_go.Prelude.{
  ◌==◌, ℕ, zero, suc, String, Bool, true, false, ◌≡◌, ◌↔◌, refl, ap, subst, ◌&&◌, ◌||◌, ◌∙◌, arith,
  and_fst, and_snd, some,
}
use kpi_tenders_go.Effects.{ok}
use kpi_tenders_go.OrganizationService.{
  is_space, trim_left, keep_before, trim_right, trim_space, is_digit, is_digits, inn_of, parse_inn,
}

-- One of the ten digits, by its code.
abbrev pub is_decimal : ℕ → Bool
is_decimal c =
    c == 48
    || c == 49
    || c == 50
    || c == 51
    || c == 52
    || c == 53
    || c == 54
    || c == 55
    || c == 56
    || c == 57

abbrev pub all_decimal : String → Bool
all_decimal String.[] = true
all_decimal (String.◌∷◌ c s) = is_decimal (code c) && all_decimal s

-- A space, a tab or a line break.
abbrev pub is_blank : ℕ → Bool
is_blank c = c == 32 || c == 9 || c == 10 || c == 13

abbrev pub all_blank : String → Bool
all_blank String.[] = true
all_blank (String.◌∷◌ c s) = is_blank (code c) && all_blank s

abbrev pub characters : String → ℕ
characters String.[] = 0
characters (String.◌∷◌ c s) = suc (characters s)

-- Ten decimal digits and nothing else.
abbrev pub IsInn : String → Type 0
IsInn s = (characters s ≡ 10) × (all_decimal s ≡ true)

digit-decimal : (c : ℕ) → is_digit c ≡ is_decimal c
digit-decimal c = ground arith

digits-decimal :
    (n : ℕ) (s : String) → is_digits n s ≡ true → (characters s ≡ n) × (all_decimal s ≡ true)
unfolding is_digits
digits-decimal zero String.[] h = (refl, refl)
digits-decimal (suc n) String.[] h = cc h
digits-decimal zero (String.◌∷◌ c s) h = cc h
digits-decimal (suc n) (String.◌∷◌ c s) h =
    let (size, rest) = digits-decimal n s (and_snd (is_digit (code c)) _ h) in
    (ap suc size, ground (arith, h, rest, digit-decimal (code c)))

decimal-digits : (s : String) → all_decimal s ≡ true → is_digits (characters s) s ≡ true
unfolding is_digits
decimal-digits String.[] h = refl
decimal-digits (String.◌∷◌ c s) h = ground (arith, h, decimal-digits s, digit-decimal (code c))

inn-digits : (s : String) → IsInn s → is_digits 10 s ≡ true
inn-digits s (size, h) = subst (λ n. is_digits n s ≡ true) size (decimal-digits s h)

digit_not_space : (c : ℕ) → is_digit c ≡ true → is_space c ≡ false
digit_not_space c h = ground arith

trim_left-digits : (n : ℕ) (s : String) → is_digits n s ≡ true → trim_left s ≡ s
unfolding trim_left is_digits
trim_left-digits n String.[] h = refl
trim_left-digits zero (String.◌∷◌ c s) h = cc h
trim_left-digits (suc n) (String.◌∷◌ c s) h =
    rw (digit_not_space (code c) (and_fst _ (is_digits n s) h)) refl

keep_before-digit :
    (c : Char) (s : String) → is_space (code c) ≡ false → keep_before c s ≡ String.◌∷◌ c s
keep_before-digit c String.[] h = rw h refl
keep_before-digit c (String.◌∷◌ d s) h = refl

trim_right-digits : (n : ℕ) (s : String) → is_digits n s ≡ true → trim_right s ≡ s
unfolding trim_right is_digits
trim_right-digits n String.[] h = refl
trim_right-digits zero (String.◌∷◌ c s) h = cc h
trim_right-digits (suc n) (String.◌∷◌ c s) h =
    rw (trim_right-digits n s (and_snd (is_digit (code c)) _ h))
      (keep_before-digit c s (digit_not_space (code c) (and_fst _ (is_digits n s) h)))

inn_of-some : (s t : String) → inn_of s ≡ ok (some t) → (s ≡ t) × (is_digits 10 s ≡ true)
inn_of-some s t h = ground (arith, h)

inn_of-digits : (s : String) → is_digits 10 s ≡ true → inn_of s ≡ ok (some s)
unfolding is_digits
inn_of-digits String.[] h = cc h
inn_of-digits (String.◌∷◌ c s) h = rw h refl

trim_space-digits : (n : ℕ) (s : String) → is_digits n s ≡ true → trim_space s ≡ s
unfolding trim_space
trim_space-digits n s h = rw (trim_left-digits n s h) (trim_right-digits n s h)

blank_space : (c : ℕ) → is_blank c ≡ true → is_space c ≡ true
blank_space c h = ground arith

trim_left-blank : (l s : String) → all_blank l ≡ true → trim_left (text_append l s) ≡ trim_left s
unfolding trim_left
trim_left-blank String.[] s h = rw (nil-append s) refl
trim_left-blank (String.◌∷◌ c l) s h =
    rw (cons-append c l s, blank_space (code c) (and_fst (is_blank (code c)) _ h))
      (trim_left-blank l s (and_snd (is_blank (code c)) _ h))

trim_left-digits_append :
    (n : ℕ) (s r : String)
    → is_digits (suc n) s ≡ true
    → trim_left (text_append s r) ≡ text_append s r
unfolding trim_left is_digits
trim_left-digits_append n String.[] r h = cc h
trim_left-digits_append n (String.◌∷◌ c s) r h =
    rw (cons-append c s r, digit_not_space (code c) (and_fst _ (is_digits n s) h)) refl

trim_right-blank : (r : String) → all_blank r ≡ true → trim_right r ≡ String.[]
unfolding trim_right
trim_right-blank String.[] h = refl
trim_right-blank (String.◌∷◌ c r) h =
    rw
      (
        trim_right-blank r (and_snd (is_blank (code c)) _ h),
        blank_space (code c) (and_fst (is_blank (code c)) _ h),
      )
      refl

trim_right-digits_append :
    (n : ℕ) (s r : String)
    → is_digits n s ≡ true
    → all_blank r ≡ true
    → trim_right (text_append s r) ≡ s
unfolding trim_right is_digits
trim_right-digits_append n String.[] r h k = rw (nil-append r) (trim_right-blank r k)
trim_right-digits_append zero (String.◌∷◌ c s) r h k = cc h
trim_right-digits_append (suc n) (String.◌∷◌ c s) r h k =
    rw (cons-append c s r, trim_right-digits_append n s r (and_snd (is_digit (code c)) _ h) k)
      (keep_before-digit c s (digit_not_space (code c) (and_fst _ (is_digits n s) h)))

trim_space-padded :
    (l s r : String)
    → all_blank l ≡ true
    → all_blank r ≡ true
    → is_digits 10 s ≡ true
    → trim_space (text_append l (text_append s r)) ≡ s
unfolding trim_space
trim_space-padded l s r hl hr h =
    ap trim_right (trim_left-blank l (text_append s r) hl ∙ trim_left-digits_append 9 s r h)
    ∙ trim_right-digits_append 10 s r h hr

-- What the service takes as an INN has ten decimal digits and nothing else, and is taken again as it
-- is.
parse_inn-IsInn :
    (raw s : String) → parse_inn raw ≡ ok (some s) → IsInn s × (parse_inn s ≡ ok (some s))
unfolding parse_inn
parse_inn-IsInn raw s h =
    let (same, digits) = inn_of-some (trim_space raw) s h in
    let good : is_digits 10 s ≡ true = subst (λ t. is_digits 10 t ≡ true) same digits in
    (digits-decimal 10 s good, rw (trim_space-digits 10 s good) (inn_of-digits s good))

-- A text with spaces, tabs and line breaks around it or none is taken as the INN that it is without
-- them exactly if that is ten decimal digits and nothing else; and whatever INN is taken from such a
-- text is of this kind, and is taken again as it is.
pub parse_inn-Digits :
    (l s r : String)
    → all_blank l ≡ true
    → all_blank r ≡ true
    → ((parse_inn (text_append l (text_append s r)) ≡ ok (some s)) ↔ IsInn s)
      × ((t : String)
          → parse_inn (text_append l (text_append s r)) ≡ ok (some t)
          → IsInn t × (parse_inn t ≡ ok (some t)))
unfolding parse_inn
parse_inn-Digits l s r hl hr = (
  (
    λ h. (parse_inn-IsInn (text_append l (text_append s r)) s h).0,
    λ inn.
        rw (trim_space-padded l s r hl hr (inn-digits s inn)) (inn_of-digits s (inn-digits s inn)),
  ),
  λ t h. parse_inn-IsInn (text_append l (text_append s r)) t h,
)
