-- ===== src/Effects/Queries.antt =====
-- What the answer of a query says of the tables, and how wrapped calls relate to what they wrap.
use kpi_tenders_go.Prelude.{ℕ, ◌≡◌, refl, arith}
use kpi_tenders_go.Errs.{Error}
use kpi_tenders_go.Effects.{
  Fate, Env, World, Result, ok, M, settle, counted, run, map_error, err, continue, ◌>>=◌,
}

module _ {A : Type 0} where
  settle-ok :
      (f : Fate) (r : Result A) (v : World) {a : A} → (settle f (r, v) v).0 ≡ ok a → r ≡ ok a
  settle-ok Fate.answered r v h = h
  settle-ok Fate.refused r v h = ground arith
  settle-ok Fate.reply_lost r v h = ground arith

  settle-world : (f : Fate) (r : Result A) (v : World) → (settle f (r, v) v).1 ≡ v
  settle-world Fate.answered r v = refl
  settle-world Fate.refused r v = refl
  settle-world Fate.reply_lost r v = refl

  -- A query that answers tells what the tables hold.
  pub query-ok :
      (q : ℕ → World → Result A) (e : Env) (w : World) {a : A}
      → (run (λ now v. (q now v, v)) e w).0 ≡ ok a
      → q (e.clock w.calls) (counted w) ≡ ok a
  unfolding run
  query-ok q e w h = settle-ok (e.fate w.calls) (q (e.clock w.calls) (counted w)) (counted w) h

  -- A query changes nothing, however it ends.
  pub query-world :
      (q : ℕ → World → Result A) (e : Env) (w : World)
      → (run (λ now v. (q now v, v)) e w).1 ≡ counted w
  unfolding run
  query-world q e w = settle-world (e.fate w.calls) (q (e.clock w.calls) (counted w)) (counted w)

  -- With the outside answering, a statement is run as it is.
  pub run-answered :
      (s : ℕ → World → Result A × World) (e : Env) (w : World)
      → e.fate w.calls ≡ Fate.answered
      → run s e w ≡ s (e.clock w.calls) (counted w)
  unfolding run
  run-answered s e w h = rw (h, settle)

  pub map_error-ok :
      (f : Error → Error) (m : M A) (e : Env) (w : World) {a : A}
      → (map_error f m e w).0 ≡ ok a
      → (m e w).0 ≡ ok a
  unfolding map_error
  map_error-ok f m e w h = ground arith

  pub map_error-world :
      (f : Error → Error) (m : M A) (e : Env) (w : World) → (map_error f m e w).1 ≡ (m e w).1
  unfolding map_error
  map_error-world f m e w = refl

  -- A statement that has answered has run.
  run-ran :
      (f : Fate) (r : Result A) (v u : World) {a : A}
      → (settle f (r, v) u).0 ≡ ok a
      → (r ≡ ok a) × ((settle f (r, v) u).1 ≡ v)
  run-ran Fate.answered r v u h = (h, refl)
  run-ran Fate.refused r v u h = ground arith
  run-ran Fate.reply_lost r v u h = ground arith

  pub run-ok :
      (s : ℕ → World → Result A × World) (e : Env) (w : World) {a : A}
      → (run s e w).0 ≡ ok a
      → ((s (e.clock w.calls) (counted w)).0 ≡ ok a)
        × ((run s e w).1 ≡ (s (e.clock w.calls) (counted w)).1)
  unfolding run
  run-ok s e w h =
      let done = s (e.clock w.calls) (counted w) in
      run-ran (e.fate w.calls) done.0 done.1 (counted w) h

module _ {A B : Type 0} where
  continue-ok :
      (r : Result A) (f : A → M B) (e : Env) (v : World) {b : B}
      → (continue r f e v).0 ≡ ok b
      → (a : A) × ((r ≡ ok a) × ((f a e v).0 ≡ ok b))
  continue-ok (ok a) f e v h = (a, (refl, h))
  continue-ok (err x) f e v h = ground arith

  -- A sequence of calls that has answered: each has.
  pub bind-ok :
      (m : M A) (f : A → M B) (e : Env) (w : World) {b : B}
      → ((m >>= f) e w).0 ≡ ok b
      → (a : A) × (((m e w).0 ≡ ok a) × ((f a e (m e w).1).0 ≡ ok b))
  unfolding ◌>>=◌
  bind-ok m f e w h = continue-ok (m e w).0 f e (m e w).1 h

  pub bind-world :
      (m : M A) (f : A → M B) (e : Env) (w : World) (a : A)
      → (m e w).0 ≡ ok a
      → ((m >>= f) e w).1 ≡ (f a e (m e w).1).1
  unfolding ◌>>=◌
  bind-world m f e w a h = rw h refl

  -- Of the world after a sequence of calls that has answered, from the first call's answer.
  pub bind-holds :
      (Q : World → Type 0) (m : M A) (f : A → M B) (e : Env) (w : World) {b : B}
      → ((m >>= f) e w).0 ≡ ok b
      → ((a : A) → (m e w).0 ≡ ok a → (f a e (m e w).1).0 ≡ ok b → Q (f a e (m e w).1).1)
      → Q ((m >>= f) e w).1
  bind-holds Q m f e w h k =
      let (a, (first_ok, rest_ok)) = bind-ok m f e w h in
      rw (bind-world m f e w a first_ok) (k a first_ok rest_ok)
