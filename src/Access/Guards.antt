-- ===== src/Access/Guards.antt =====
-- The checks before a handler.
use Prim.Native.Char.{code}
use Prim.Native.String.{◌++◌ as text_append}
use text.Mathlib.TextEquality.{Char-path}
use text.Mathlib.TextLemmas.{nil-append, cons-append}
use kpi_tenders_go.Models.{Role}
use kpi_tenders_go.Prelude.{
  ℕ, String, false, none, some, ◌≡◌, ◌≢◌, ◌↔◌, refl, ap, subst, ◌∙◌, inl, inr, ◌==◌, ==_iff,
  ==_refl, str_eq, str_eq_iff, str_eq_refl, arith, Bool-cases, Option-cases,
}
use kpi_tenders_go.Server.Middleware.{
  Request, Context, next, cut_prefix, check_token, service_bearer_auth, admin_only, owner_only,
  tenant_scoped_only,
}

cut_prefix-append : (p t : String) → cut_prefix (text_append p t) p ≡ some t
unfolding cut_prefix
cut_prefix-append String.[] t = rw (nil-append t) refl
cut_prefix-append (String.◌∷◌ c p) t =
    rw (cons-append c p t, ==_refl (code c)) (cut_prefix-append p t)

cut_prefix-some : (s p t : String) → cut_prefix s p ≡ some t → s ≡ text_append p t
unfolding cut_prefix
cut_prefix-some s String.[] t h = rw (nil-append t) (ap (λ o. elim o [ none ↦ s | some x ↦ x ]) h)
cut_prefix-some String.[] (String.◌∷◌ d p) t h = ground (arith, h)
cut_prefix-some (String.◌∷◌ c s) (String.◌∷◌ d p) t h = elim (Bool-cases (code c == code d)) [
  | inl same ↦
      let rest : cut_prefix s p ≡ some t = ground (arith, h, same) in
      rw (cons-append d p t) (
        subst (λ x. String.◌∷◌ c s ≡ String.◌∷◌ x (text_append p t))
          (Char-path c d ((==_iff (code c) (code d)).0 same))
          (ap (λ r. String.◌∷◌ c r) (cut_prefix-some s p t rest)))
  | inr apart ↦ ground (arith, h, apart)
]

check_token-next :
    (expected token : String)
    → check_token expected (some token) ≡ next tt
    → (token ≡ expected) × (str_eq expected "" ≡ false)
check_token-next expected token h = elim (Bool-cases (str_eq token expected)) [
  | inl same ↦
      let eq = (str_eq_iff token expected).0 same in
      (eq, subst (λ t. str_eq t "" ≡ false) eq (ground (arith, h)))
  | inr apart ↦ ground (arith, h, apart)
]

-- A request passes the bearer check exactly when its Authorization header is "Bearer " and the
-- configured token, and that token is not empty.
pub service_bearer_auth_iff :
    (expected : String) (req : Request)
    → (service_bearer_auth expected req ≡ next tt
        → (req.authorization ≡ text_append "Bearer " expected) × (str_eq expected "" ≡ false))
      × (req.authorization ≡ text_append "Bearer " expected
          → str_eq expected "" ≡ false
          → service_bearer_auth expected req ≡ next tt)
unfolding service_bearer_auth
service_bearer_auth_iff expected req = (
  λ passed. elim (Option-cases (cut_prefix req.authorization "Bearer ")) [
    | inl no_prefix ↦ ground (arith, passed, no_prefix)
    | inr (token, cut) ↦
        let both =
          check_token-next expected token
            (subst (λ o. check_token expected o ≡ next tt) cut passed) in
        (cut_prefix-some _ "Bearer " token cut ∙ ap (λ t. text_append "Bearer " t) both.0, both.1)
  ],
  λ same full. rw (same, cut_prefix-append "Bearer " expected, full, str_eq_refl expected) refl,
)

guards_of :
    (user org : ℕ) (r : Role)
    → let c : Context = record { user_id = user; org_id = org; role = r } in
      ((owner_only c ≡ next c) ↔ (r ≡ Role.owner))
      × ((admin_only c ≡ next c) ↔ (r ≡ Role.admin))
      × ((tenant_scoped_only c ≡ next c) ↔ (r ≢ Role.owner))
unfolding owner_only tenant_scoped_only admin_only
guards_of user org Role.admin = ground arith
guards_of user org Role.member = ground arith
guards_of user org Role.owner = ground arith
guards_of user org (Role.other_role s) = ground arith

-- A caller passes the check of owner routes exactly with the role owner, that of admin routes exactly
-- with the role admin, and that of tenant routes exactly with any role but owner.
pub role_guards :
    (c : Context)
    → ((owner_only c ≡ next c) ↔ (c.role ≡ Role.owner))
      × ((admin_only c ≡ next c) ↔ (c.role ≡ Role.admin))
      × ((tenant_scoped_only c ≡ next c) ↔ (c.role ≢ Role.owner))
role_guards c = guards_of c.user_id c.org_id c.role
