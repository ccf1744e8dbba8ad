-- ===== src/Tenants/Writes.antt =====
-- What the statements on one organization's documents leave of another organization's rows.
use kpi_tenders_go.Prelude.{
  ℕ, suc, Bool, true, false, Option, none, some, List, [], ◌∷◌, ◌++◌, ◌≡◌, refl, sym, ap, ◌≤◌, ◌==◌,
  ◌&&◌, arith, exists, count, update, count-append, count-update, exists-update,
  exists-append_false, select-append_false, select-update_other, select-same,
}
use kpi_tenders_go.Models.{Document, is_id}
use kpi_tenders_go.Effects.{World}
use kpi_tenders_go.Effects.Evolves.{Closed, Keeps, branches}
use kpi_tenders_go.Repository.Documents.{has_id, has_id_org}
use kpi_tenders_go.Repository.Originals.{
  CreateDocumentParams, document_row, insert_document, repeats_artifact, MetaParams, is_meta_target,
  set_meta, write_meta, classified,
}
use kpi_tenders_go.Repository.Documents.{isolated, parent_kind_chk}
use kpi_tenders_go.Repository.Accounts.{is_document_of}
use kpi_tenders_go.Tenants.View.{SameRows, SameRows-Closed, IsKeyed}

-- With unique ids, the other organization's rows stay and the ids stay unique.
abbrev pub Spares : ℕ → World → World → Type 0
Spares other v w = IsKeyed v → SameRows other v w × IsKeyed w

pub Spares-Closed : (other : ℕ) → Closed (Spares other)
Spares-Closed other =
    let c = SameRows-Closed other in
    record {
      same = λ w k. (c.same w, k);
      chain = λ u v w a b k.
          let (first_same, kv) = a k in
          let (then_same, kw) = b kv in (c.chain u v w first_same then_same, kw);
      tick = λ w k. (c.tick w, k);
    }

pub no_owner :
    (i org : ℕ) (ds : List Document)
    → count (has_id i) ds ≡ 0
    → exists (has_id_org i org) ds ≡ false
no_owner i org [] h = refl
no_owner i org (d ∷ ds) h = ground (arith, no_owner i org ds)

-- A document id is of one organization only.
pub one_owner :
    (i org other : ℕ) (ds : List Document)
    → (org == other) ≡ false
    → count (has_id i) ds ≤ 1
    → exists (has_id_org i org) ds ≡ true
    → exists (has_id_org i other) ds ≡ false
one_owner i org other [] apart k h = refl
one_owner i org other (d ∷ ds) apart k h =
    ground (arith, one_owner i org other ds, no_owner i org ds, no_owner i other ds)

module _ (other : ℕ) where
  appended-Spares :
      (d : Document) (w : World)
      → (d.organization_id == other) ≡ false
      → d.id ≡ w.next_id
      → Spares other w (record w { documents = w.documents ++ d ∷ []; next_id = suc w.next_id })
  appended-Spares d w apart numbered k = (
    record {
      documents = sym (select-append_false (is_document_of other) w.documents d apart);
      tasks =
          select-same _ _
            (λ t. sym (
              exists-append_false (has_id_org t.document_id other) w.documents d
                (ground (arith, apart))))
            w.tasks;
      users = refl;
      sites = refl;
      contract_kinds = refl;
      file_roles = refl;
      requests = refl;
      keys = refl;
      extracted = refl;
    },
    λ id. ground (arith, k id, count-append (has_id id) w.documents (d ∷ []), numbered),
  )

  pub insert_document-Spares :
      (p : CreateDocumentParams)
      → (p.organization_id == other) ≡ false
      → Keeps (Spares other) (insert_document p)
  unfolding insert_document
  insert_document-Spares p apart = record {
    at = λ now w.
        let d = document_row p w.next_id now in
        let same = (Spares-Closed other).same w in
        branches (Spares other) (isolated d w) w _ _
          (λ yes.
            branches (Spares other) (parent_kind_chk d) w _ _
              (λ fits.
                branches (Spares other) (exists (repeats_artifact d) w.documents) w _ _
                  (λ repeated. same) (λ new. appended-Spares d w apart refl))
              (λ unfit. same))
          (λ no. same);
  }

  updated-Spares :
      (p : Document → Bool) (f : Document → Document) (w : World)
      → ((d : Document) → (f d).id ≡ d.id)
      → ((d : Document) → (f d).organization_id ≡ d.organization_id)
      → ((d : Document) → p d ≡ true → is_document_of other d ≡ false)
      → Spares other w (record w { documents = update p f w.documents })
  updated-Spares p f w same_id same_org apart k = (
    record {
      documents = sym (
          select-update_other p (is_document_of other) f (λ d. ap (λ o. o == other) (same_org d))
            apart w.documents);
      tasks =
          select-same _ _
            (λ t. sym (
              exists-update (has_id_org t.document_id other) p f w.documents
                (λ d. rw (same_id d, same_org d) refl)))
            w.tasks;
      users = refl;
      sites = refl;
      contract_kinds = refl;
      file_roles = refl;
      requests = refl;
      keys = refl;
      extracted = refl;
    },
    λ id. rw (count-update (has_id id) p f w.documents (λ d. ap (λ i. i == id) (same_id d))) (k id),
  )

  pub write_meta-Spares :
      (p : MetaParams)
      → (p.organization_id == other) ≡ false
      → (now : ℕ) (w : World) (o : Option Document) → Spares other w (write_meta p now w o).1
  write_meta-Spares p apart now w none = (Spares-Closed other).same w
  write_meta-Spares p apart now w (some d) =
      let d' = set_meta p now d in
      let same = (Spares-Closed other).same w in
      branches (Spares other) (isolated d' w && classified d' w) w _ _
        (λ yes.
          branches (Spares other) (is_id d'.bundle_id d'.id) w _ _ (λ itself. same)
            (λ fine.
              updated-Spares (is_meta_target p) (set_meta p now) w (λ c. refl) (λ c. refl)
                (λ c h. ground (arith, h, apart))))
        (λ no. same)
