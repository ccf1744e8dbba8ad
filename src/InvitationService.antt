-- ===== src/InvitationService.antt =====
-- internal/service/service_invitation.go: invitations to an organization, by their tokens.
use kpi_tenders_go.Prelude.{ℕ, String, List, Option, none, some, ◌==◌, if◌then◌else◌}
use kpi_tenders_go.Errs.{Error, app_of, conflict, internal, missing_as, is_unique_violation}
use kpi_tenders_go.Models.{UserInvitation, Role}
use kpi_tenders_go.Effects.{M, ◌>>=◌, map_error}
use kpi_tenders_go.Repository.Invitations.{
  create_user_invitation, get_user_invitation_by_token_hash, list_user_invitations_by_org,
  accept_user_invitation, delete_user_invitation,
}
use kpi_tenders_go.DocumentService.{unless_zero}

abbrev pub active_conflict : Error → Error
active_conflict x =
    if is_unique_violation x "uq_user_invitations_org_email_active"
    then app_of conflict "active invitation for this email already exists" x
    else internal x

-- uuid.Nil is the number 0.
abbrev pub unless_nil : ℕ → Option ℕ
unless_nil id = if id == 0 then none else some id

unfoldable pub create : ℕ → String → Role → ℕ → String → ℕ → M UserInvitation
create org email role invited_by token_hash expires_at = map_error active_conflict (
    create_user_invitation (record {
      organization_id = org;
      email = email;
      role = role;
      invited_by = unless_nil invited_by;
      token_hash = token_hash;
      expires_at = expires_at;
    }))

unfoldable pub get_by_token_hash : String → M UserInvitation
get_by_token_hash hash =
    map_error (missing_as "invitation not found") (get_user_invitation_by_token_hash hash)

unfoldable pub list_by_org : ℕ → M (List UserInvitation)
list_by_org org = map_error internal (list_user_invitations_by_org org)

unfoldable pub accept : ℕ → ℕ → M UserInvitation
accept id org =
    map_error (missing_as "invitation not found or already accepted")
      (accept_user_invitation id org)

unfoldable pub delete : ℕ → ℕ → M (Unit {0})
delete id org =
    map_error internal (delete_user_invitation id org) >>= unless_zero "invitation not found"
