-- ===== src/Access/Refresh.antt =====
-- What a refresh token is exchanged for.
use kpi_tenders_go.Prelude.{suc, String, some, ◌≡◌, ap, find}
use kpi_tenders_go.Models.{User}
use kpi_tenders_go.Payloads.{RefreshClaims}
use kpi_tenders_go.Effects.{
  Fate, Env, World, counted, run, map_error, ◌>>=◌, asks, pure, current_time,
}
use kpi_tenders_go.Repository.Accounts.{get_user_by_id, has_user_id}
use kpi_tenders_go.AuthService.{
  bytes, access_claims, refresh_claims, validate_refresh_token, resolve_user_for_refresh,
  refresh_tokens,
}
use kpi_tenders_go.Access.Tokens.{tokens_of, generate_tokens-of}

-- With a refresh token that the JWT library parses and a database that answers, a refresh gives
-- new tokens for the stored user, with the role and organization that are stored now. It asks
-- neither that the user is active nor that the organization is.
pub refresh_tokens-answers :
    (token : String) (claims : RefreshClaims) (u : User) (e : Env) (w : World)
    → e.fate w.calls ≡ Fate.answered
    → e.parse_refresh (e.clock w.calls) token ≡ some claims
    → find (has_user_id claims.user_id) w.users ≡ some u
    → (refresh_tokens token e w).0
      ≡ tokens_of
          (e.sign_access
            (access_claims u.id (bytes u.organization_id) u.role (e.clock (suc w.calls))))
          (e.sign_refresh (refresh_claims u.id (e.clock (suc w.calls))))
unfolding refresh_tokens validate_refresh_token resolve_user_for_refresh get_user_by_id ◌>>=◌
    map_error run asks pure current_time
refresh_tokens-answers token claims u e w answers parses stored =
    rw (parses, answers, stored)
      (ap (λ p. p.0) (generate_tokens-of u.id (bytes u.organization_id) u.role e (counted w)))
