-- ===== src/Access/Logins.antt =====
-- Whom a login gives tokens to.
use kpi_tenders_go.Prelude.{
  ℕ, String, Bool, true, false, Option, none, some, ◌≡◌, refl, sym, ap, subst, ◌∙◌, ◌⊎◌, inl, inr,
  arith, if◌then◌else◌, find,
}
use kpi_tenders_go.Models.{User, Organization, is_owner}
use kpi_tenders_go.Effects.{
  Env, World, ok, err, M, counted, map_error, ◌>>=◌, ◌>>◌, asks, pure, throw,
}
use kpi_tenders_go.Effects.Queries.{query-ok, query-world, map_error-ok, map_error-world, bind-ok}
use kpi_tenders_go.Repository.Documents.{first}
use kpi_tenders_go.Repository.Accounts.{
  get_user_by_email, get_organization_by_id, has_email, has_org_id,
}
use kpi_tenders_go.AuthService.{
  bytes, access_claims, generate_tokens, refused_as, check_password, check_active,
  check_organization, tokens_for, login,
}
use kpi_tenders_go.Access.Tokens.{generate_tokens-Signed}

-- The organization in the tokens: uuid.Nil for an owner.
abbrev pub token_org : User → ℕ
token_org u = if is_owner u.role then 0 else bytes u.organization_id

abbrev pub OrganizationOk : User → World → Type 0
OrganizationOk u w =
    (is_owner u.role ≡ true)
    ⊎ ((o : Organization) × (find (has_org_id (bytes u.organization_id)) w.organizations ≡ some o)
        × (o.is_active ≡ true))

-- The stored user whose tokens a login gives out.
pub record IsLogin (email password : String) (e : Env) (w : World) (access : String) : Type 0 where
  pub user : User
  pub stored : find (has_email email) w.users ≡ some user
  pub password_ok : e.password_matches user.password_hash password ≡ true
  pub active : user.is_active ≡ true
  pub organization : OrganizationOk user w
  pub issued : ℕ
  pub token_signed :
      e.sign_access (access_claims user.id (token_org user) user.role issued) ≡ some access

first-ok : {A : Type 0} (o : Option A) (a : A) → first o ≡ ok a → o ≡ some a
first-ok none a h = ground arith
first-ok (some b) a h = ap (λ r. elim r [ ok x ↦ some x | err z ↦ none ]) h

check_password-ok :
    (u : User) (password : String) (e : Env) (w : World) {t : Unit {0}}
    → (check_password u password e w).0 ≡ ok t
    → e.password_matches u.password_hash password ≡ true
unfolding ◌>>=◌ asks pure throw
check_password-ok u password e w h = ground (arith, h)

check_password-world :
    (u : User) (password : String) (e : Env) (w : World) → (check_password u password e w).1 ≡ w
unfolding ◌>>=◌ asks pure throw
check_password-world u password e w = ground arith

check_active-ok :
    (u : User) (e : Env) (w : World) {t : Unit {0}}
    → (check_active u e w).0 ≡ ok t
    → u.is_active ≡ true
unfolding pure throw
check_active-ok u e w h = ground (arith, h)

check_active-world : (u : User) (e : Env) (w : World) → (check_active u e w).1 ≡ w
unfolding pure throw
check_active-world u e w = ground arith

check_organization-ok :
    (o : Organization) (e : Env) (w : World) {t : Unit {0}}
    → (check_organization o e w).0 ≡ ok t
    → o.is_active ≡ true
unfolding pure throw
check_organization-ok o e w h = ground (arith, h)

found_user :
    (email : String) (e : Env) (w : World) (u : User)
    → (map_error (refused_as "invalid email or password") (get_user_by_email email) e w).0 ≡ ok u
    → find (has_email email) w.users ≡ some u
unfolding get_user_by_email
found_user email e w u h =
    first-ok _ u (query-ok _ e w (map_error-ok (refused_as "invalid email or password") _ e w h))

found_organization :
    (id : ℕ) (e : Env) (w : World) (o : Organization)
    → (map_error (refused_as "organization is unavailable") (get_organization_by_id id) e w).0
      ≡ ok o
    → find (has_org_id id) w.organizations ≡ some o
unfolding get_organization_by_id
found_organization id e w o h =
    first-ok _ o (query-ok _ e w (map_error-ok (refused_as "organization is unavailable") _ e w h))

found_user-world :
    (email : String) (e : Env) (w : World)
    → (map_error (refused_as "invalid email or password") (get_user_by_email email) e w).1
      ≡ counted w
unfolding get_user_by_email
found_user-world email e w =
    map_error-world (refused_as "invalid email or password") (get_user_by_email email) e w
    ∙ query-world _ e w

-- What the second half of a login needs and gives.
abbrev Granted : User → Env → World → String → Type 0
Granted u e w access =
    OrganizationOk u w
    × ((issued : ℕ) × (e.sign_access (access_claims u.id (token_org u) u.role issued)
          ≡ some access))

tenant_tokens : User → M (String × String)
tenant_tokens u =
    map_error (refused_as "organization is unavailable")
      (get_organization_by_id (bytes u.organization_id))
    >>= λ o. check_organization o >> generate_tokens u.id (bytes u.organization_id) u.role

tenant_tokens-ok :
    (u : User) (e : Env) (w : World) (t : String × String)
    → (tenant_tokens u e w).0 ≡ ok t
    → ((o : Organization) × (find (has_org_id (bytes u.organization_id)) w.organizations ≡ some o)
        × (o.is_active ≡ true))
      × ((issued : ℕ) × (e.sign_access (access_claims u.id (bytes u.organization_id) u.role issued)
            ≡ some t.0))
unfolding tenant_tokens
tenant_tokens-ok u e w t h =
    let (o, (found, rest)) = bind-ok _ _ e w h in
    let (done, (checked, made)) = bind-ok _ _ e _ rest in
    (
      (o, found_organization _ e w o found, check_organization-ok o e _ checked),
      (e.clock _, (generate_tokens-Signed u.id _ u.role e _ t made).access),
    )

granted :
    (b : Bool) (u : User) (e : Env) (w : World) (t : String × String)
    → b ≡ is_owner u.role
    → ((if b then generate_tokens u.id 0 u.role else tenant_tokens u) e w).0 ≡ ok t
    → Granted u e w t.0
granted true u e w t role h = (
  inl (sym role),
  rw (sym role) (e.clock w.calls, (generate_tokens-Signed u.id 0 u.role e w t h).access),
)
granted false u e w t role h =
    let both = tenant_tokens-ok u e w t h in (inr both.0, rw (sym role) both.1)

checked_user :
    (u : User) (password : String) (e : Env) (w : World) (t : String × String)
    → ((check_password u password >> (check_active u >> tokens_for u)) e w).0 ≡ ok t
    → (e.password_matches u.password_hash password ≡ true)
      × (u.is_active ≡ true)
      × ((tokens_for u e w).0 ≡ ok t)
checked_user u password e w t h =
    let (matched, (password_ok, after)) = bind-ok _ _ e _ h in
    let (is_on, (on, made)) = bind-ok _ _ e _ after in
    (
      check_password-ok u password e w password_ok,
      check_active-ok u e _ on,
      subst (λ v. (tokens_for u e v).0 ≡ ok t)
          (check_active-world u e _ ∙ check_password-world u password e w) made,
    )

-- A login answers with tokens only for the stored user with that email, whose password matches
-- and who is active, and who is an owner or whose organization is stored and active; the access
-- token is that user's, with the stored role and organization (none for an owner).
pub login-IsLogin :
    (email password : String) (e : Env) (w : World) (t : String × String)
    → (login email password e w).0 ≡ ok t
    → IsLogin email password e w t.0
unfolding login tenant_tokens
login-IsLogin email password e w t h =
    let (u, (found, rest)) = bind-ok _ _ e w h in
    let (password_ok, active, made) = checked_user u password e _ t rest in
    let (organization, (issued, signed)) = granted (is_owner u.role) u e _ t refl made in
    record {
      user = u;
      stored = found_user email e w u found;
      password_ok = password_ok;
      active = active;
      organization = subst (OrganizationOk u) (found_user-world email e w) organization;
      issued = issued;
      token_signed = signed;
    }
