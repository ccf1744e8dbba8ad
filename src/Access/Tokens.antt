-- ===== src/Access/Tokens.antt =====
-- Login, the tokens that it gives out, and what they let a request do.
use kpi_tenders_go.Prelude.{
  ℕ, ◌+◌, String, true, Option, none, some, ◌≡◌, refl, sym, ap, ◌∙◌, inl, inr, arith, ltb,
  Option-cases,
}
use kpi_tenders_go.Errs.{app, internal_error}
use kpi_tenders_go.Models.{Role}
use kpi_tenders_go.Effects.{Env, World, Result, ok, err, ◌>>=◌, asks, pure, throw, current_time}
use kpi_tenders_go.AuthService.{
  access_token_ttl, access_claims, refresh_claims, generate_tokens, validate_access_token,
}
use kpi_tenders_go.Server.Middleware.{next, auth_middleware}

-- The tokens stand for the user, the organization and the role, from the time of the call.
pub record Signed (e : Env) (w : World) (user org : ℕ) (r : Role) (t : String × String)
    : Type 0 where
  pub access : e.sign_access (access_claims user org r (e.clock w.calls)) ≡ some t.0
  pub refresh : e.sign_refresh (refresh_claims user (e.clock w.calls)) ≡ some t.1

abbrev pub tokens_of : Option String → Option String → Result (String × String)
tokens_of (some x) (some y) = ok (x, y)
tokens_of _ _ = err (app internal_error "internal server error")

pub generate_tokens-of :
    (user org : ℕ) (r : Role) (e : Env) (w : World)
    → generate_tokens user org r e w ≡ (
      tokens_of
          (e.sign_access (access_claims user org r (e.clock w.calls)))
          (e.sign_refresh (refresh_claims user (e.clock w.calls))),
      w,
    )
unfolding generate_tokens ◌>>=◌ asks current_time pure throw
generate_tokens-of user org r e w =
    elim (Option-cases (e.sign_access (access_claims user org r (e.clock w.calls)))) [
      | inl no_access ↦ rw no_access refl
      | inr (x, access) ↦
          elim (Option-cases (e.sign_refresh (refresh_claims user (e.clock w.calls)))) [
            | inl no_refresh ↦ rw (access, no_refresh) refl
            | inr (y, refresh) ↦ rw (access, refresh) refl
          ]
    ]

tokens_of-ok :
    (a b : Option String) (t : String × String)
    → tokens_of a b ≡ ok t
    → (a ≡ some t.0) × (b ≡ some t.1)
tokens_of-ok none b t h = ground arith
tokens_of-ok (some x) none t h = ground arith
tokens_of-ok (some x) (some y) t h = (
  ap (λ r. elim r [ ok p ↦ some p.0 | err z ↦ none ]) h,
  ap (λ r. elim r [ ok p ↦ some p.1 | err z ↦ none ]) h,
)

pub generate_tokens-Signed :
    (user org : ℕ) (r : Role) (e : Env) (w : World) (t : String × String)
    → (generate_tokens user org r e w).0 ≡ ok t
    → Signed e w user org r t
generate_tokens-Signed user org r e w t h =
    let both = tokens_of-ok _ _ t (sym (ap (λ p. p.0) (generate_tokens-of user org r e w)) ∙ h) in
    record { access = both.0; refresh = both.1 }

-- The access token of a user lets a request in for 15 minutes after it was signed, with that user,
-- organization and role, where the JWT library parses what it has signed until it expires.
pub generate_tokens-auth :
    (user org : ℕ) (r : Role) (e : Env) (w v : World) (t : String × String) (header : String)
    → ((now : ℕ)
        → e.sign_access (access_claims user org r (e.clock w.calls)) ≡ some t.0
        → ltb now (e.clock w.calls + access_token_ttl) ≡ true
        → e.parse_access now t.0 ≡ some (access_claims user org r (e.clock w.calls)))
    → (generate_tokens user org r e w).0 ≡ ok t
    → ltb (e.clock v.calls) (e.clock w.calls + 900) ≡ true
    → (auth_middleware (record { access_token = some t.0; authorization = header }) e v).0
      ≡ next (record { user_id = user; org_id = org; role = r })
unfolding auth_middleware validate_access_token ◌>>=◌ asks current_time pure
generate_tokens-auth user org r e w v t header parses h soon =
    let s = generate_tokens-Signed user org r e w t h in
    rw (parses (e.clock v.calls) s.access soon) refl
