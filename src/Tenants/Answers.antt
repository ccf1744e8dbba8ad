-- ===== src/Tenants/Answers.antt =====
-- A document that is looked up by its id alone and then held against the caller's organization is
-- answered like one that is looked up in the organization.
use kpi_tenders_go.Prelude.{
  ℕ, String, Option, none, some, List, [], ◌∷◌, ◌≡◌, refl, sym, ◌≤◌, ◌==◌, arith, if◌then◌else◌,
  find, count,
}
use kpi_tenders_go.Errs.{missing_as, is_no_rows, app_error}
use kpi_tenders_go.Models.{Document}
use kpi_tenders_go.Effects.{
  Fate, Env, World, Result, ok, err, settle, counted, run, map_error, ◌>>=◌, continue, pure, throw,
  with_error,
}
use kpi_tenders_go.Repository.Documents.{
  first, has_id, has_id_org, get_document, get_document_by_id,
}
use kpi_tenders_go.DocumentService.{find_own, of_organization}
use kpi_tenders_go.Server.Errors.{answer, respond_with_error}
use kpi_tenders_go.Tenants.View.{IsKeyed}

abbrev owned_only : ℕ → Option Document → Option Document
owned_only org none = none
owned_only org (some d) = if d.organization_id == org then some d else none

find-none :
    (id org : ℕ) (ds : List Document)
    → count (has_id id) ds ≡ 0
    → find (has_id_org id org) ds ≡ none
find-none id org [] h = refl
find-none id org (d ∷ ds) h = ground (arith, find-none id org ds)

owned_only-find :
    (id org : ℕ) (ds : List Document)
    → count (has_id id) ds ≤ 1
    → owned_only org (find (has_id id) ds) ≡ find (has_id_org id org) ds
owned_only-find id org [] h = refl
owned_only-find id org (d ∷ ds) h = ground (arith, find-none id org ds, owned_only-find id org ds)

abbrev own_after : String → ℕ → Env → World → Result Document → Result Document
own_after msg org e v r = (continue (with_error (missing_as msg) r) (of_organization msg org) e v).0

first-answer :
    (msg : String) (org : ℕ) (e : Env) (v : World) (o : Option Document)
    → answer (own_after msg org e v (first o))
      ≡ answer (with_error (missing_as msg) (first (owned_only org o)))
unfolding answer pure throw respond_with_error app_error is_no_rows
first-answer msg org e v none = refl
first-answer msg org e v (some d) = ground arith

abbrev by_id : String → ℕ → ℕ → Fate → Env → World → Result Document × World
by_id msg id org f e v =
    let (r, v') = settle f (first (find (has_id id) v.documents), v) v in
    continue (with_error (missing_as msg) r) (of_organization msg org) e v'

abbrev scoped : String → ℕ → ℕ → Fate → World → Result Document × World
scoped msg id org f v =
    let (r, v') = settle f (first (find (has_id_org id org) v.documents), v) v in
    (with_error (missing_as msg) r, v')

by_id-answer :
    (msg : String) (id org : ℕ) (f : Fate) (e : Env) (v : World)
    → count (has_id id) v.documents ≤ 1
    → answer (by_id msg id org f e v).0 ≡ answer (scoped msg id org f v).0
unfolding is_no_rows
by_id-answer msg id org Fate.answered e v h =
    rw (sym (owned_only-find id org v.documents h))
      (first-answer msg org e v (find (has_id id) v.documents))
by_id-answer msg id org Fate.refused e v h = refl
by_id-answer msg id org Fate.reply_lost e v h = refl

of_organization-world :
    (msg : String) (org : ℕ) (d : Document) (e : Env) (v : World)
    → (of_organization msg org d e v).1 ≡ v
unfolding pure throw
of_organization-world msg org d e v = ground arith

continue-world :
    (r : Result Document) (msg : String) (org : ℕ) (e : Env) (v : World)
    → (continue r (of_organization msg org) e v).1 ≡ v
continue-world (ok d) msg org e v = of_organization-world msg org d e v
continue-world (err x) msg org e v = refl

by_id-world :
    (msg : String) (id org : ℕ) (f : Fate) (e : Env) (v : World) → (by_id msg id org f e v).1 ≡ v
by_id-world msg id org Fate.answered e v = continue-world _ msg org e v
by_id-world msg id org Fate.refused e v = refl
by_id-world msg id org Fate.reply_lost e v = refl

pub keyed-one : (w : World) (id : ℕ) → IsKeyed w → count (has_id id) w.documents ≤ 1
keyed-one w id k = ground (arith, k id)

-- Where ids are unique, a document that is found by its id alone and then compared with the
-- caller's organization (as for a presigned URL, and for the bundle of UpdateMeta) is answered
-- exactly as if it had been looked up in the organization: a document of another one gives the same
-- status, code and message as one that does not exist, whatever the database does.
pub find_own-answer :
    (msg : String) (id org : ℕ) (e : Env) (w : World)
    → IsKeyed w
    → answer (find_own msg id org e w).0
      ≡ answer (map_error (missing_as msg) (get_document id org) e w).0
unfolding find_own get_document_by_id get_document ◌>>=◌ map_error run
find_own-answer msg id org e w k =
    by_id-answer msg id org (e.fate w.calls) e (counted w) (keyed-one w id k)

pub find_own-world :
    (msg : String) (id org : ℕ) (e : Env) (w : World) → (find_own msg id org e w).1 ≡ counted w
unfolding find_own get_document_by_id ◌>>=◌ map_error run
find_own-world msg id org e w = by_id-world msg id org (e.fate w.calls) e (counted w)
