-- ===== src/Tenants/Local.antt =====
-- Calls that depend on one organization's rows only: in two worlds that hold the same rows for it
-- they end alike. `Exact` is about results, `Hidden` about what the caller is answered, which does
-- not tell a row of another organization from a row that is missing.
use kpi_tenders_go.Prelude.{ℕ, Bool, true, false, ◌≡◌, refl, sym, subst, ap, if◌then◌else◌}
use kpi_tenders_go.Errs.{Error}
use kpi_tenders_go.Effects.{
  Fate, Env, World, Result, ok, err, M, Stmt, pure, throw, continue, ◌>>=◌, best_effort, map_error,
  asks, settle, counted, run, when, with_error, current_time,
}
use kpi_tenders_go.Server.Errors.{ErrorResponse, Response, success, failure, answer}
use kpi_tenders_go.Tenants.View.{SameView, SameView-counted}

-- A statement, at the same time in the two worlds.
pub record ExactStmt (org : ℕ) {A : Type 0} (s : Stmt A) : Type 0 where
  pub at :
      (now : ℕ) (v w : World)
      → SameView org v w
      → ((s now v).0 ≡ (s now w).0) × SameView org (s now v).1 (s now w).1

pub record Exact (org : ℕ) {A : Type 0} (m : M A) : Type 0 where
  pub at :
      (e : Env) (v w : World)
      → SameView org v w
      → ((m e v).0 ≡ (m e w).0) × SameView org (m e v).1 (m e w).1

pub record Hidden (org : ℕ) {A : Type 0} (m : M A) : Type 0 where
  pub at :
      (e : Env) (v w : World)
      → SameView org v w
      → (answer (m e v).0 ≡ answer (m e w).0) × SameView org (m e v).1 (m e w).1

module _ (org : ℕ) {A : Type 0} where
  settle-Exact :
      (f : Fate) (x y : Result A × World) (v w : World)
      → (x.0 ≡ y.0) × SameView org x.1 y.1
      → SameView org v w
      → ((settle f x v).0 ≡ (settle f y w).0) × SameView org (settle f x v).1 (settle f y w).1
  settle-Exact Fate.answered x y v w done kept = done
  settle-Exact Fate.refused x y v w done kept = (refl, kept)
  settle-Exact Fate.reply_lost x y v w done kept = (refl, done.1)

  pub Exact-run : (s : Stmt A) → ExactStmt org s → Exact org (run s)
  unfolding run
  Exact-run s h = record {
    at = λ e v w same.
        let kept = SameView-counted org v w same in
        let seen : ℕ → Result A × World =
          λ n. settle (e.fate n) (s (e.clock n) (counted v)) (counted v) in
        subst (λ n. ((seen n).0 ≡ (run s e w).0) × SameView org (seen n).1 (run s e w).1)
          (sym same.calls)
          (settle-Exact (e.fate w.calls) (s (e.clock w.calls) (counted v))
            (s (e.clock w.calls) (counted w)) (counted v) (counted w)
            (h.at (e.clock w.calls) (counted v) (counted w) kept) kept);
  }

  -- A query.
  pub Exact-query :
      (q : World → Result A)
      → ((v w : World) → SameView org v w → q v ≡ q w)
      → Exact org (run (λ now w. (q w, w)))
  Exact-query q h =
      Exact-run (λ now w. (q w, w)) (record { at = λ now v w same. (h v w same, same) })

  pub Exact-pure : (a : A) → Exact org (pure a)
  unfolding pure
  Exact-pure a = record { at = λ e v w same. (refl, same) }

  pub Exact-throw : (x : Error) → Exact org (throw {A = A} x)
  unfolding throw
  Exact-throw x = record { at = λ e v w same. (refl, same) }

  pub Exact-asks : (f : Env → A) → Exact org (asks f)
  unfolding asks
  Exact-asks f = record { at = λ e v w same. (refl, same) }

  pub Exact-map_error : (f : Error → Error) (m : M A) → Exact org m → Exact org (map_error f m)
  unfolding map_error
  Exact-map_error f m h = record {
    at = λ e v w same. let both = h.at e v w same in (ap (with_error f) both.0, both.1);
  }

  pub Exact-best_effort : (m : M A) → Exact org m → Exact org (best_effort m)
  unfolding best_effort
  Exact-best_effort m h = record { at = λ e v w same. (refl, (h.at e v w same).1) }

  pub Exact-if : (b : Bool) (m n : M A) → Exact org m → Exact org n → Exact org (if b then m else n)
  Exact-if true m n hm hn = hm
  Exact-if false m n hm hn = hn

  pub Hidden-if :
      (b : Bool) (m n : M A) → Hidden org m → Hidden org n → Hidden org (if b then m else n)
  Hidden-if true m n hm hn = hm
  Hidden-if false m n hm hn = hn

  pub Hidden-Exact : (m : M A) → Exact org m → Hidden org m
  Hidden-Exact m h = record {
    at = λ e v w same. let both = h.at e v w same in (ap answer both.0, both.1);
  }

module _ {A : Type 0} where
  success-inj : (a b : A) → success a ≡ success b → a ≡ b
  success-inj a b h = cc h

  failure-inj : (x y : ErrorResponse) → ◌≡◌ {A = Response A} (failure x) (failure y) → x ≡ y
  failure-inj x y h = cc h

module _ (org : ℕ) {A B : Type 0} where
  continue-Exact :
      (r : Result A) (f : A → M B) (e : Env) (v w : World)
      → SameView org v w
      → ((a : A) → Exact org (f a))
      → ((continue r f e v).0 ≡ (continue r f e w).0)
        × SameView org (continue r f e v).1 (continue r f e w).1
  continue-Exact (ok a) f e v w same h = (h a).at e v w same
  continue-Exact (err x) f e v w same h = (refl, same)

  pub Exact-bind :
      (m : M A) (f : A → M B) → Exact org m → ((a : A) → Exact org (f a)) → Exact org (m >>= f)
  unfolding ◌>>=◌
  Exact-bind m f hm hf = record {
    at = λ e v w same.
        let both = hm.at e v w same in
        rw both.0 (continue-Exact (m e w).0 f e (m e v).1 (m e w).1 both.1 hf);
  }

  -- Where the first results may differ in a cause that the answer does not show.
  continue-Hidden :
      (r s : Result A) (f : A → M B) (e : Env) (v w : World)
      → answer r ≡ answer s
      → SameView org v w
      → ((a : A) → Hidden org (f a))
      → (answer (continue r f e v).0 ≡ answer (continue s f e w).0)
        × SameView org (continue r f e v).1 (continue s f e w).1
  unfolding answer
  continue-Hidden (ok a) (ok b) f e v w eq same h = rw (success-inj a b eq) ((h b).at e v w same)
  continue-Hidden (err x) (err y) f e v w eq same h = (ap failure (failure-inj _ _ eq), same)
  continue-Hidden (ok a) (err y) f e v w eq same h = cc (eq)
  continue-Hidden (err x) (ok b) f e v w eq same h = cc (eq)

  pub Hidden-bind :
      (m : M A) (f : A → M B) → Hidden org m → ((a : A) → Hidden org (f a)) → Hidden org (m >>= f)
  unfolding ◌>>=◌
  Hidden-bind m f hm hf = record {
    at = λ e v w same.
        let both = hm.at e v w same in
        continue-Hidden (m e v).0 (m e w).0 f e (m e v).1 (m e w).1 both.0 both.1 hf;
  }

module _ (org : ℕ) where
  pub Exact-current_time : Exact org current_time
  unfolding current_time
  Exact-current_time = record { at = λ e v w same. (ap (λ n. ok (e.clock n)) same.calls, same) }

  pub Exact-when : (b : Bool) (m : M (Unit {0})) → Exact org m → Exact org (when b m)
  unfolding when
  Exact-when b m h = Exact-if org b m (pure tt) h (Exact-pure org tt)

pub ruleset exact_rules = (
  Exact-pure, Exact-throw, Exact-asks, Exact-map_error, Exact-best_effort, Exact-if, Exact-bind,
  Exact-current_time, Exact-when,
)
