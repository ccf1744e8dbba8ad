-- ===== src/Access/Invitations.antt =====
-- An invitation is accepted at most once.
use kpi_tenders_go.Prelude.{ℕ, none, List, [], ◌∷◌, ◌≡◌, refl, ◌∙◌, ap, ◌≤◌, arith, find, update}
use kpi_tenders_go.Errs.{missing_as}
use kpi_tenders_go.Models.{UserInvitation}
use kpi_tenders_go.Effects.{Env, World, ok}
use kpi_tenders_go.Effects.Queries.{run-ok, map_error-ok, map_error-world}
use kpi_tenders_go.Repository.Documents.{first}
use kpi_tenders_go.Repository.Invitations.{
  is_acceptable, set_accepted, returned_row, accept_row, accept_user_invitation,
}
use kpi_tenders_go.InvitationService

none_acceptable :
    (id org now later : ℕ) (is : List UserInvitation)
    → now ≤ later
    → find (is_acceptable id org later) (update (is_acceptable id org now) (set_accepted now) is)
      ≡ none
none_acceptable id org now later [] h = refl
none_acceptable id org now later (i ∷ is) h = ground (arith, none_acceptable id org now later is)

module _ (id org : ℕ) (e : Env) (w : World) where
  acceptance :
      {a : UserInvitation}
      → (InvitationService.accept id org e w).0 ≡ ok a
      → (first (
            returned_row
              (e.clock w.calls)
              (find (is_acceptable id org (e.clock w.calls)) w.user_invitations))
          ≡ ok a)
        × ((InvitationService.accept id org e w).1.user_invitations
            ≡ update
                (is_acceptable id org (e.clock w.calls))
                (set_accepted (e.clock w.calls))
                w.user_invitations)
  unfolding InvitationService.accept accept_user_invitation accept_row
  acceptance h =
      let msg = missing_as "invitation not found or already accepted" in
      let (found, left) = run-ok (accept_row id org) e w (map_error-ok msg _ e w h) in
      (found, ap World.user_invitations (map_error-world msg _ e w ∙ left))

-- When an invitation has been accepted, no later call accepts it again, from any table that is as
-- the first left it and whatever the outside answers, if time does not go back.
pub accept-once :
    (id org : ℕ) (e f : Env) (v w : World) (a b : UserInvitation)
    → (InvitationService.accept id org e v).0 ≡ ok a
    → w.user_invitations ≡ (InvitationService.accept id org e v).1.user_invitations
    → e.clock v.calls ≤ f.clock w.calls
    → ¬ ((InvitationService.accept id org f w).0 ≡ ok b)
accept-once id org e f v w a b done same later again =
    let left = same ∙ (acceptance id org e v done).1 in
    let found = (acceptance id org f w again).0 in
    let gone =
      ap (find (is_acceptable id org (f.clock w.calls))) left
      ∙ none_acceptable id org (e.clock v.calls) (f.clock w.calls) v.user_invitations later in
    ground (arith, found, gone)
