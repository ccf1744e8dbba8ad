-- ===== src/Tenants/Sessions.antt =====
-- Comparison sessions and their documents stay within one organization. The foreign key on
-- comparison_sessions does not name the organization; the handlers look first.
use kpi_tenders_go.Prelude.{
  ℕ, true, not, String, Option, none, some, [], ◌∷◌, ◌≡◌, refl, ◌∙◌, ap, ◌==◌, arith, exists, find,
  All, All-append, All-map_weaken, All-select, All-update, exists-append, exists-selected,
  find-exists, find-holds, and_snd,
}
use kpi_tenders_go.Models.{ComparisonSession, ComparisonSessionDocument}
use kpi_tenders_go.Effects.{Env, World, ok}
use kpi_tenders_go.Effects.Queries.{query-ok, query-world, map_error-ok, map_error-world}
use kpi_tenders_go.Effects.Evolves.{
  Closed, Evolves, Keeps, branches, then_at, Evolves-run, Evolves-query, build_rules,
}
use kpi_tenders_go.Errs.{missing_as}
use kpi_tenders_go.Repository.Documents.{first, has_id_org}
use kpi_tenders_go.Repository.Originals.{get_contract_kind}
use kpi_tenders_go.Repository.Sessions.{
  SessionParams, insert_session, session_references, create_comparison_session, is_session_of,
  get_comparison_session, remove_session, delete_comparison_session, is_place, set_position,
  place_row, place_references, upsert_place, add_document_to_comparison_session, is_place_of,
  remove_place, remove_document_from_comparison_session,
}
use kpi_tenders_go.DocumentService.{unless_zero}
use kpi_tenders_go.ComparisonSessionService
use kpi_tenders_go.ComparisonSessionService.{check_kind}
use kpi_tenders_go.Server.ComparisonSessions.{
  SessionRequest, on_session, add_document_to_session, remove_document_from_session,
}

abbrev pub InOrganization : World → ComparisonSessionDocument → Type 0
InOrganization w p =
    (exists (is_session_of p.session_id p.organization_id) w.comparison_sessions ≡ true)
    × (exists (has_id_org p.document_id p.organization_id) w.documents ≡ true)

-- Each place in a session is of the organization of the session and of the document.
abbrev pub IsSeparate : World → Type 0
IsSeparate w = All (InOrganization w) w.session_documents

abbrev pub Separates : World → World → Type 0
Separates v w = IsSeparate v → IsSeparate w

pub separates : Closed Separates
separates = record { same = λ w h. h; chain = λ u v w f g h. g (f h); tick = λ w h. h }

-- The same, where a session of the organization is there.
abbrev Within : ℕ → ℕ → World → World → Type 0
Within session org v w =
    exists (is_session_of session org) v.comparison_sessions ≡ true
    → IsSeparate v
    → (exists (is_session_of session org) w.comparison_sessions ≡ true) × IsSeparate w

within : (session org : ℕ) → Closed (Within session org)
within session org = record {
  same = λ w s h. (s, h);
  chain = λ u v w f g s h. let (t, k) = f s h in g t k;
  tick = λ w s h. (s, h);
}

insert_session-Separates : (p : SessionParams) → Keeps Separates (insert_session p)
unfolding insert_session
insert_session-Separates p = record {
  at = λ now w.
      branches Separates (session_references p w) w _ _
        (λ known h.
          All-map_weaken _ _ w.session_documents
            (λ x (s, d). (
              exists-append (is_session_of x.session_id x.organization_id) w.comparison_sessions _
                  s,
              d,
            ))
            h)
        (λ unknown h. h);
}

remove_session-Separates : (id org : ℕ) → Keeps Separates (remove_session id org)
unfolding remove_session
remove_session-Separates id org = record {
  at = λ now w.
      branches Separates (exists (is_session_of id org) w.comparison_sessions) w _ _
        (λ there h.
          All-select _ (InOrganization w)
            (λ (p : ComparisonSessionDocument). not (p.session_id == id)) w.session_documents
            (λ x other (s, d). (
              exists-selected (is_session_of x.session_id x.organization_id)
                    (λ (t : ComparisonSession). not (is_session_of id org t))
                    (λ t here. ground (arith, other, here)) w.comparison_sessions
                  ∙ s,
              d,
            ))
            h)
        (λ missing h. h);
}

remove_place-Separates :
    (session document org : ℕ) → Keeps Separates (remove_place session document org)
unfolding remove_place
remove_place-Separates session document org = record {
  at = λ now w h.
      All-select _ (InOrganization w) (λ p. not (is_place_of session document org p))
        w.session_documents (λ x kept placed. placed) h;
}

upsert_place-Within :
    (session document org position : ℕ)
    → Keeps (Within session org) (upsert_place session document org position)
unfolding upsert_place
upsert_place-Within session document org position = record {
  at = λ now w.
      branches (Within session org) (exists (is_place session document) w.session_documents) w _ _
        (λ there s h. (
          s,
          All-update (InOrganization w) (is_place session document) (set_position position)
              w.session_documents (λ x placed. placed) h,
        ))
        (λ new.
          branches (Within session org) (place_references session document org w) w _ _
            (λ known s h. (
              s,
              All-append (InOrganization w) w.session_documents
                  (place_row session document org position ∷ []) h ((s, and_snd _ _ known), tt),
            ))
            (λ unknown s h. (s, h)));
}

get-session :
    (id org : ℕ) (e : Env) (w : World) {s : ComparisonSession}
    → (ComparisonSessionService.get id org e w).0 ≡ ok s
    → exists (is_session_of id org) w.comparison_sessions ≡ true
unfolding ComparisonSessionService.get get_comparison_session
get-session id org e w {s = s} h =
    let found = query-ok _ e w (map_error-ok (missing_as "comparison session not found") _ e w h) in
    stored (find (is_session_of id org) w.comparison_sessions) refl found
  where
    stored :
        (o : Option ComparisonSession)
        → find (is_session_of id org) w.comparison_sessions ≡ o
        → first o ≡ ok s
        → exists (is_session_of id org) w.comparison_sessions ≡ true
    stored none eq f = ground arith
    stored (some t) eq f =
        find-exists (is_session_of id org) (is_session_of id org) w.comparison_sessions t eq
          (find-holds (is_session_of id org) w.comparison_sessions t eq)

get-same :
    (id org : ℕ) (e : Env) (w : World)
    → (ComparisonSessionService.get id org e w).1.comparison_sessions ≡ w.comparison_sessions
unfolding ComparisonSessionService.get get_comparison_session
get-same id org e w =
    ap World.comparison_sessions
      (map_error-world (missing_as "comparison session not found") _ e w ∙ query-world _ e w)

get-Separates : (id org : ℕ) → Evolves Separates (ComparisonSessionService.get id org)
unfolding ComparisonSessionService.get get_comparison_session
get-Separates id org = search (separates, build_rules, Evolves-query separates _)

add_document-Within :
    (session document org position : ℕ)
    → Evolves
        (Within session org)
        (ComparisonSessionService.add_document session document org position)
unfolding ComparisonSessionService.add_document add_document_to_comparison_session
add_document-Within session document org position = search (
  within session org,
  build_rules,
  Evolves-run (within session org) _ (upsert_place-Within session document org position),
)

add-Separates :
    (org session document position : ℕ)
    → Evolves Separates (add_document_to_session org session document position)
unfolding add_document_to_session
add-Separates org session document position = record {
  at = λ e w.
      then_at separates (ComparisonSessionService.get session org) _ e w w (λ h. h)
        (get-Separates session org)
        (λ s found kept h.
          ((add_document-Within session document org position).at e
            (ComparisonSessionService.get session org e w).1
            (rw (get-same session org e w) (get-session session org e w found)) (kept h)).1);
}

pub unless_zero-Separates : (msg : String) (n : ℕ) → Evolves Separates (unless_zero msg n)
unless_zero-Separates msg n = search (separates, build_rules)

remove_row-Separates :
    (session document org : ℕ)
    → Evolves Separates (remove_document_from_comparison_session session document org)
unfolding remove_document_from_comparison_session
remove_row-Separates session document org =
    Evolves-run separates _ (remove_place-Separates session document org)

remove-Separates :
    (org session document : ℕ)
    → Evolves Separates (remove_document_from_session org session document)
unfolding remove_document_from_session ComparisonSessionService.remove_document
remove-Separates org session document =
    search (separates, build_rules, get-Separates, remove_row-Separates, unless_zero-Separates)

delete_row-Separates : (id org : ℕ) → Evolves Separates (delete_comparison_session id org)
unfolding delete_comparison_session
delete_row-Separates id org = Evolves-run separates _ (remove_session-Separates id org)

delete-Separates : (id org : ℕ) → Evolves Separates (ComparisonSessionService.delete id org)
unfolding ComparisonSessionService.delete
delete-Separates id org =
    search (separates, build_rules, delete_row-Separates, unless_zero-Separates)

check_kind-Separates : (kind : Option ℕ) (org : ℕ) → Evolves Separates (check_kind kind org)
unfolding get_contract_kind
check_kind-Separates none org = search (separates, build_rules)
check_kind-Separates (some k) org = search (separates, build_rules, Evolves-query separates _)

create-Separates :
    (org user : ℕ) (name : Option String) (kind : Option ℕ)
    → Evolves Separates (ComparisonSessionService.create org user name kind)
unfolding ComparisonSessionService.create create_comparison_session
create-Separates org user name kind = search (
  separates,
  build_rules,
  check_kind-Separates,
  Evolves-run separates _ (insert_session-Separates _),
)

on_session-Separates : (org : ℕ) (r : SessionRequest) → Evolves Separates (on_session org r)
unfolding on_session
on_session-Separates org (SessionRequest.create_session user name kind) =
    create-Separates org user name kind
on_session-Separates org (SessionRequest.delete_session id) = delete-Separates id org
on_session-Separates org (SessionRequest.add_document session document position) =
    add-Separates org session document position
on_session-Separates org (SessionRequest.remove_document session document) =
    remove-Separates org session document

-- In a database where every document of a comparison session is of the organization of the session,
-- a request on sessions, of any organization and with any ids, keeps it so, whatever the outside
-- answers.
pub on_session-IsSeparate :
    (org : ℕ) (r : SessionRequest) (e : Env) (w : World)
    → IsSeparate w
    → IsSeparate (on_session org r e w).1
on_session-IsSeparate org r e w h = (on_session-Separates org r).at e w h
