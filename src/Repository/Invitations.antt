-- ===== src/Repository/Invitations.antt =====
-- internal/repository/user_invitation.sql.go: the invitations of users to an organization.
use kpi_tenders_go.Prelude.{
  ℕ, suc, String, Bool, not, Option, none, some, List, [], ◌∷◌, ◌++◌, ◌&&◌, ◌||◌, ◌==◌, str_eq, leb,
  ltb, if◌then◌else◌, select, find, exists, update, count, sort_by,
}
use kpi_tenders_go.Errs.{check_violation, unique_violation, foreign_key_violation}
use kpi_tenders_go.Models.{UserInvitation, Role, is_admin, is_member, is_null}
use kpi_tenders_go.Effects.{ok, err, Stmt, M, run}
use kpi_tenders_go.Repository.Documents.{first}
use kpi_tenders_go.Repository.Accounts.{org_exists}
use kpi_tenders_go.Repository.Sessions.{user_exists}

pub record InvitationParams : Type 0 where
  pub organization_id : ℕ
  pub email : String
  pub role : Role
  pub invited_by : Option ℕ
  pub token_hash : String
  pub expires_at : ℕ

abbrev pub invitation_row : InvitationParams → ℕ → ℕ → UserInvitation
invitation_row p id now = record {
  id = id;
  organization_id = p.organization_id;
  email = p.email;
  role = p.role;
  invited_by = p.invited_by;
  token_hash = p.token_hash;
  expires_at = p.expires_at;
  accepted_at = none;
  created_at = now;
}

-- uq_user_invitations_org_email_active.
abbrev pub is_active_for : ℕ → String → UserInvitation → Bool
is_active_for org email i =
    i.organization_id == org && str_eq i.email email && is_null i.accepted_at

abbrev pub has_token_hash : String → UserInvitation → Bool
has_token_hash hash i = str_eq i.token_hash hash

unfoldable pub insert_invitation : InvitationParams → Stmt UserInvitation
insert_invitation p now w =
    let i = invitation_row p w.next_id now in
    if is_admin p.role || is_member p.role
    then if exists (is_active_for p.organization_id p.email) w.user_invitations
      then (err (unique_violation "uq_user_invitations_org_email_active"), w)
      else if exists (has_token_hash p.token_hash) w.user_invitations
      then (err (unique_violation "idx_user_invitations_token_hash"), w)
      else if org_exists (some p.organization_id) w && user_exists p.invited_by w
      then (
        ok i,
        record w { user_invitations = w.user_invitations ++ i ∷ []; next_id = suc w.next_id },
      )
      else (err (foreign_key_violation "user_invitations"), w)
    else (err (check_violation "user_invitations_role_check"), w)

unfoldable pub create_user_invitation : InvitationParams → M UserInvitation
create_user_invitation p = run (insert_invitation p)

unfoldable pub get_user_invitation_by_token_hash : String → M UserInvitation
get_user_invitation_by_token_hash hash =
    run (λ now w. (first (find (has_token_hash hash) w.user_invitations), w))

-- `ORDER BY created_at DESC`.
abbrev pub newest_invitation_first : UserInvitation → UserInvitation → Bool
newest_invitation_first i j = leb j.created_at i.created_at

unfoldable pub list_user_invitations_by_org : ℕ → M (List UserInvitation)
list_user_invitations_by_org org = run (λ now w. (
  ok (
      sort_by newest_invitation_first
        (select (λ (i : UserInvitation). i.organization_id == org) w.user_invitations)),
  w,
))

abbrev pub is_acceptable : ℕ → ℕ → ℕ → UserInvitation → Bool
is_acceptable id org now i =
    i.id == id && i.organization_id == org && is_null i.accepted_at && ltb now i.expires_at

abbrev pub set_accepted : ℕ → UserInvitation → UserInvitation
set_accepted now i = record i { accepted_at = some now }

-- `RETURNING`: the row as it is now.
abbrev pub returned_row : ℕ → Option UserInvitation → Option UserInvitation
returned_row now none = none
returned_row now (some i) = some (set_accepted now i)

unfoldable pub accept_row : ℕ → ℕ → Stmt UserInvitation
accept_row id org now w = (
  first (returned_row now (find (is_acceptable id org now) w.user_invitations)),
  record w {
    user_invitations = update (is_acceptable id org now) (set_accepted now) w.user_invitations;
  },
)

unfoldable pub accept_user_invitation : ℕ → ℕ → M UserInvitation
accept_user_invitation id org = run (accept_row id org)

abbrev pub is_invitation_of : ℕ → ℕ → UserInvitation → Bool
is_invitation_of id org i = i.id == id && i.organization_id == org

unfoldable pub remove_invitation : ℕ → ℕ → Stmt ℕ
remove_invitation id org now w = (
  ok (count (is_invitation_of id org) w.user_invitations),
  record w { user_invitations = select (λ i. not (is_invitation_of id org i)) w.user_invitations },
)

unfoldable pub delete_user_invitation : ℕ → ℕ → M ℕ
delete_user_invitation id org = run (remove_invitation id org)
