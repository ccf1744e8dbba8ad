-- ===== src/Tests/Access.antt =====
-- Access: the user of the test data logs in, refreshes, and asks; an organization registers.
use Prim.Native.String.{◌++◌ as text_append}
use kpi_tenders_go.Prelude.{
  String, ◌≢◌, ◌↔◌, true, false, none, arith, some, [], ◌∷◌, ◌≡◌, refl, str_eq,
}
use kpi_tenders_go.Models.{Role, UserInvitation}
use kpi_tenders_go.Effects.{World, ok, ◌>>=◌, current_time, asks, map_error, run}
use kpi_tenders_go.Repository.Accounts.{get_user_by_email, get_organization_by_id}
use kpi_tenders_go.AuthService.{generate_tokens, refresh_tokens, login}
use kpi_tenders_go.OrganizationService.{RegisterParams, register, parse_inn}
use kpi_tenders_go.DocumentService.{safe_name}
use kpi_tenders_go.Server.Middleware.{
  Request, Context, next, auth_middleware, service_bearer_auth, owner_only, admin_only,
  tenant_scoped_only,
}
use kpi_tenders_go.Access.Texts.{is_clean, safe_name-Clean}
use kpi_tenders_go.Access.Inn.{IsInn, parse_inn-Digits}
use kpi_tenders_go.Access.Tokens.{generate_tokens-auth}
use kpi_tenders_go.Access.Logins.{IsLogin, login-IsLogin}
use kpi_tenders_go.Access.Refresh.{refresh_tokens-answers}
use kpi_tenders_go.Access.Registration.{AllOrNothing, register-AllOrNothing}
use kpi_tenders_go.Access.Guards.{service_bearer_auth_iff, role_guards}
use kpi_tenders_go.InvitationService
use kpi_tenders_go.Repository.Invitations.{accept_user_invitation, accept_row}
use kpi_tenders_go.Access.Invitations.{accept-once}
use kpi_tenders_go.Tests.Data.{fresh, user, outside}

safe_name-Clean_example :
    (is_clean (safe_name "a\"b.pdf") ≡ true)
    × ((is_clean "a\"b.pdf" ≡ true → safe_name "a\"b.pdf" ≡ "a\"b.pdf")
        × (safe_name "a\"b.pdf" ≡ "a\"b.pdf" → is_clean "a\"b.pdf" ≡ true))
safe_name-Clean_example = safe_name-Clean "a\"b.pdf"

safe_name_drops : safe_name "a\"b.pdf" ≡ "ab.pdf"
unfolding safe_name
safe_name_drops = refl

parse_inn-Digits_example :
    ((parse_inn " 7707083893" ≡ ok (some "7707083893")) ↔ IsInn "7707083893")
    × ((t : String) → parse_inn " 7707083893" ≡ ok (some t) → IsInn t × (parse_inn t ≡ ok (some t)))
parse_inn-Digits_example = parse_inn-Digits " " "7707083893" "" refl refl

abbrev bearer : String → Request
bearer header = record { access_token = some "access"; authorization = header }

abbrev context : Context
context = record { user_id = 3; org_id = 7; role = Role.admin }

generate_tokens-auth_example : (auth_middleware (bearer "") outside fresh).0 ≡ next context
unfolding generate_tokens ◌>>=◌ current_time asks
generate_tokens-auth_example =
    generate_tokens-auth 3 7 Role.admin outside fresh fresh ("access", "refresh") ""
      (λ now signed soon. refl) refl refl

login-IsLogin_example : IsLogin "a@b.ru" "secret" outside fresh "access"
unfolding login ◌>>=◌ map_error get_user_by_email run asks get_organization_by_id generate_tokens
    current_time
login-IsLogin_example = login-IsLogin "a@b.ru" "secret" outside fresh ("access", "refresh") refl

-- The user is not active any more.
abbrev dismissed : World
dismissed = record fresh { users = record user { is_active = false } ∷ [] }

refresh_tokens-answers_example :
    (refresh_tokens "refresh" outside dismissed).0 ≡ ok ("access", "refresh")
refresh_tokens-answers_example =
    refresh_tokens-answers "refresh" (record { user_id = 3; issued_at = 100; expires_at = 9000 })
      (record user { is_active = false }) outside dismissed refl refl refl

abbrev form : RegisterParams
form = record {
  org_name = "Bridge";
  inn = "";
  email = "c@d.ru";
  password = "secret";
  full_name = "C D";
}

register-AllOrNothing_example : AllOrNothing fresh (register form outside fresh).1
register-AllOrNothing_example = register-AllOrNothing form outside fresh

service_bearer_auth_iff_example :
    (service_bearer_auth "k" (bearer "Bearer k") ≡ next tt
      → (text_append "Bearer " "k" ≡ text_append "Bearer " "k") × (str_eq "k" "" ≡ false))
    × (text_append "Bearer " "k" ≡ text_append "Bearer " "k"
        → str_eq "k" "" ≡ false
        → service_bearer_auth "k" (bearer "Bearer k") ≡ next tt)
service_bearer_auth_iff_example = service_bearer_auth_iff "k" (bearer "Bearer k")

role_guards_example :
    ((owner_only context ≡ next context) ↔ (Role.admin ≡ Role.owner))
    × ((admin_only context ≡ next context) ↔ (Role.admin ≡ Role.admin))
    × ((tenant_scoped_only context ≡ next context) ↔ (Role.admin ≢ Role.owner))
role_guards_example = role_guards context

abbrev invitation : UserInvitation
invitation = record {
  id = 60;
  organization_id = 7;
  email = "c@d.ru";
  role = Role.member;
  invited_by = none;
  token_hash = "hash";
  expires_at = 1000000;
  accepted_at = none;
  created_at = 0;
}

abbrev inviting : World
inviting = record fresh { user_invitations = invitation ∷ [] }

abbrev joined : World
joined = record fresh {
  user_invitations = record invitation { accepted_at = some (outside.clock 0) } ∷ [];
}

accept-once_example : ¬ ((InvitationService.accept 60 7 outside joined).0 ≡ ok invitation)
unfolding InvitationService.accept accept_user_invitation accept_row run map_error
accept-once_example =
    accept-once 60 7 outside outside inviting joined
      (record invitation { accepted_at = some (outside.clock 0) }) invitation refl refl
      (ground arith)
