-- ===== src/Privacy/Sends.antt =====
-- Calls that publish allowed messages only.
use kpi_tenders_go.Prelude.{List, [], ◌∷◌, ◌++◌, ◌≡◌, refl, ◌∙◌, ap, sym, All, All-append}
use mathlib.Core.List.{append-nil, append_assoc}
use kpi_tenders_go.Payloads.{ProcessRequest}
use kpi_tenders_go.Effects.{World}
use kpi_tenders_go.Effects.Evolves.{Closed}
use kpi_tenders_go.Repository.Untouched.{
  claim_task-TasksOnly, insert_task-TasksOnly, write_status-TasksOnly, insert_request-RequestsOnly,
  update_request-RequestsOnly, upsert_key-KeysOnly, batch_upsert-DataOnly,
}
use kpi_tenders_go.Repository.Tasks.{set_failed, set_requeued}
use kpi_tenders_go.Frame.Calls.{Steady, Watched}

-- The messages sent between two worlds are allowed, and no document has changed.
pub record Sends (P : ProcessRequest → Type 0) (w v : World) : Type 0 where
  pub sent : List ProcessRequest
  pub published_eq : v.published ≡ w.published ++ sent
  pub allowed : All P sent
  pub documents_eq : v.documents ≡ w.documents

module _ {P : ProcessRequest → Type 0} where
  pub Sends-none :
      (w v : World) → v.published ≡ w.published → v.documents ≡ w.documents → Sends P w v
  Sends-none w v hp hd = record {
    sent = [];
    published_eq = hp ∙ sym (append-nil w.published);
    allowed = tt;
    documents_eq = hd;
  }

  Sends-trans : (u v w : World) → Sends P u v → Sends P v w → Sends P u w
  Sends-trans u v w h k = record {
    sent = h.sent ++ k.sent;
    published_eq =
        k.published_eq
        ∙ ap (λ l. l ++ k.sent) h.published_eq
        ∙ append_assoc u.published h.sent k.sent;
    allowed = All-append P h.sent k.sent h.allowed k.allowed;
    documents_eq = k.documents_eq ∙ h.documents_eq;
  }

  pub Sends-Closed : Closed (Sends P)
  Sends-Closed = record {
    same = λ w. Sends-none w w refl refl;
    chain = Sends-trans;
    tick = λ w. Sends-none w _ refl refl;
  }

  -- Every statement but the publishing of a message.
  pub Sends-Steady : Steady P (Sends P)
  Sends-Steady = record {
    closed = Sends-Closed;
    inserts_task = λ x p. record {
      at = λ now w.
          let k = (insert_task-TasksOnly x p now w) in Sends-none w _ k.published_eq k.documents_eq;
    };
    inserts_request = λ document org questions hidden. record {
      at = λ now w.
          let k = (insert_request-RequestsOnly document org questions hidden now w) in
          Sends-none w _ k.published_eq k.documents_eq;
    };
    writes_status = λ p. record {
      at = λ now w.
          let k = (write_status-TasksOnly p now w) in Sends-none w _ k.published_eq k.documents_eq;
    };
    writes_request_status = λ id s msg. record {
      at = λ now w.
          let k = (update_request-RequestsOnly id _ now w) in
          Sends-none w _ k.published_eq k.documents_eq;
    };
    writes_schema = λ id text. record {
      at = λ now w.
          let k = (update_request-RequestsOnly id _ now w) in
          Sends-none w _ k.published_eq k.documents_eq;
    };
    upserts_key = λ org p. record {
      at = λ now w.
          let k = (upsert_key-KeysOnly org p now w) in Sends-none w _ k.published_eq k.documents_eq;
    };
    upserts_data = λ org document ps. record {
      at = λ now w.
          let k = (batch_upsert-DataOnly org document ps now w) in
          Sends-none w _ k.published_eq k.documents_eq;
    };
    delivers = λ p h. record {
      at = λ now w. record {
        sent = p ∷ [];
        published_eq = refl;
        allowed = (h, tt);
        documents_eq = refl;
      };
    };
  }

  pub Sends-Watched : Watched P (Sends P)
  Sends-Watched = record {
    closed = Sends-Closed;
    claims_failed = λ id msg cutoff. record {
      at = λ now w.
          let k = claim_task-TasksOnly id cutoff (set_failed msg) now w in
          Sends-none w _ k.published_eq k.documents_eq;
    };
    claims_pending = λ id cutoff. record {
      at = λ now w.
          let k = claim_task-TasksOnly id cutoff set_requeued now w in
          Sends-none w _ k.published_eq k.documents_eq;
    };
    delivers = Sends-Steady.delivers;
  }
