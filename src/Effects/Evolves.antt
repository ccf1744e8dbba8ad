-- ===== src/Effects/Evolves.antt =====
-- What a call may do to the world, whatever the outside answers: a reflexive and transitive
-- relation between the world before and after, with one rule for each way to build a call.
use kpi_tenders_go.Prelude.{
  ℕ, String, Bool, true, false, Option, List, [], ◌∷◌, ◌≡◌, refl, if◌then◌else◌, All,
}
use kpi_tenders_go.Errs.{Error}
use kpi_tenders_go.Effects.{
  Fate, Env, World, Result, ok, err, M, Stmt, pure, throw, continue, ◌>>=◌, attempt, best_effort,
  map_error, unless_no_rows, decoding, asks, for_each, settle, counted, run, current_time,
  is_cancelled, when,
}

pub record Closed (R : World → World → Type 0) : Type 0 where
  pub same : (w : World) → R w w
  pub chain : (u v w : World) → R u v → R v w → R u w
  -- the number of calls is not what `R` is about
  pub tick : (w : World) → R w (counted w)

-- The call relates the world before to the world after, however it ends.
pub record Evolves (R : World → World → Type 0) {A : Type 0} (m : M A) : Type 0 where
  pub at : (e : Env) (w : World) → R w (m e w).1

-- A statement that relates the tables before to the tables after, at any time.
pub record Keeps (R : World → World → Type 0) {A : Type 0} (s : Stmt A) : Type 0 where
  pub at : (now : ℕ) (w : World) → R w (s now w).1

-- The two ways of a statement, each with the outcome of its test.
pub branches :
    (R : World → World → Type 0) {A : Type 0} (b : Bool) (w : World) (x y : Result A × World)
    → (b ≡ true → R w x.1)
    → (b ≡ false → R w y.1)
    → R w (if b then x else y).1
branches R true w x y hx hy = hx refl
branches R false w x y hx hy = hy refl

pub world_branches :
    (R : World → World → Type 0) (b : Bool) (w x y : World)
    → (b ≡ true → R w x)
    → (b ≡ false → R w y)
    → R w (if b then x else y)
world_branches R true w x y hx hy = hx refl
world_branches R false w x y hx hy = hy refl

module _ {R : World → World → Type 0} (c : Closed R) {A : Type 0} where
  pub Evolves-pure : (a : A) → Evolves R (pure a)
  unfolding pure
  Evolves-pure a = record { at = λ e w. c.same w }

  pub Evolves-throw : (x : Error) → Evolves R (throw {A = A} x)
  unfolding throw
  Evolves-throw x = record { at = λ e w. c.same w }

  pub Evolves-asks : (f : Env → A) → Evolves R (asks f)
  unfolding asks
  Evolves-asks f = record { at = λ e w. c.same w }

  pub Evolves-decoding :
      (msg : String) (parse : Env → String → Option A) (text : String)
      → Evolves R (decoding msg parse text)
  unfolding decoding
  Evolves-decoding msg parse text = record { at = λ e w. c.same w }

  pub Evolves-attempt : (m : M A) → Evolves R m → Evolves R (attempt m)
  unfolding attempt
  Evolves-attempt m h = record { at = λ e w. h.at e w }

  pub Evolves-best_effort : (m : M A) → Evolves R m → Evolves R (best_effort m)
  unfolding best_effort
  Evolves-best_effort m h = record { at = λ e w. h.at e w }

  pub Evolves-map_error : (f : Error → Error) (m : M A) → Evolves R m → Evolves R (map_error f m)
  unfolding map_error
  Evolves-map_error f m h = record { at = λ e w. h.at e w }

  pub Evolves-unless_no_rows :
      (msg : String) (m : M A) → Evolves R m → Evolves R (unless_no_rows msg m)
  unfolding unless_no_rows
  Evolves-unless_no_rows msg m h = record { at = λ e w. h.at e w }

  pub Evolves-if :
      (b : Bool) (m n : M A) → Evolves R m → Evolves R n → Evolves R (if b then m else n)
  Evolves-if true m n hm hn = hm
  Evolves-if false m n hm hn = hn

  settle-R :
      (f : Fate) (s : Stmt A) (now : ℕ) (w v : World)
      → R w (s now v).1
      → R w v
      → R w (settle f (s now v) v).1
  settle-R Fate.answered s now w v done kept = done
  settle-R Fate.refused s now w v done kept = kept
  settle-R Fate.reply_lost s now w v done kept = done

  pub Evolves-run : (s : Stmt A) → Keeps R s → Evolves R (run s)
  unfolding run
  Evolves-run s h = record {
    at = λ e w.
        settle-R (e.fate w.calls) s (e.clock w.calls) w (counted w)
          (c.chain _ _ _ (c.tick w) (h.at (e.clock w.calls) (counted w))) (c.tick w);
  }

  -- A query leaves the tables.
  pub Evolves-query : (q : ℕ → World → Result A) → Evolves R (run (λ now w. (q now w, w)))
  Evolves-query q = Evolves-run (λ now w. (q now w, w)) (record { at = λ now w. c.same w })

module _ {R : World → World → Type 0} (c : Closed R) {A B : Type 0} where
  continue-R :
      (r : Result A) (f : A → M B) (e : Env) (u w : World)
      → R u w
      → ((a : A) → Evolves R (f a))
      → R u (continue r f e w).1
  continue-R (ok a) f e u w h hf = c.chain _ _ _ h ((hf a).at e w)
  continue-R (err x) f e u w h hf = h

  -- From a world `u` on, with what the first call answered and has done since `u`.
  then_at_continue :
      (r : Result A) (f : A → M B) (e : Env) (u w : World)
      → R u w
      → ((a : A) → r ≡ ok a → R u w → R u (f a e w).1)
      → R u (continue r f e w).1
  then_at_continue (ok a) f e u w h hf = hf a refl h
  then_at_continue (err x) f e u w h hf = h

  pub then_at :
      (m : M A) (f : A → M B) (e : Env) (u w : World)
      → R u w
      → Evolves R m
      → ((a : A) → (m e w).0 ≡ ok a → R u (m e w).1 → R u (f a e (m e w).1).1)
      → R u ((m >>= f) e w).1
  unfolding ◌>>=◌
  then_at m f e u w h hm hf =
      then_at_continue (m e w).0 f e u (m e w).1 (c.chain _ _ _ h (hm.at e w)) hf

  pub Evolves-bind :
      (m : M A) (f : A → M B) → Evolves R m → ((a : A) → Evolves R (f a)) → Evolves R (m >>= f)
  unfolding ◌>>=◌
  Evolves-bind m f hm hf = record {
    at = λ e w. continue-R (m e w).0 f e w (m e w).1 (hm.at e w) hf;
  }

module _ {R : World → World → Type 0} (c : Closed R) where
  pub Evolves-current_time : Evolves R current_time
  unfolding current_time
  Evolves-current_time = record { at = λ e w. c.same w }

  pub Evolves-is_cancelled : Evolves R is_cancelled
  unfolding is_cancelled
  Evolves-is_cancelled = record { at = λ e w. c.tick w }

  pub Evolves-when : (b : Bool) (m : M (Unit {0})) → Evolves R m → Evolves R (when b m)
  unfolding when
  Evolves-when b m h = Evolves-if c b m (pure tt) h (Evolves-pure c tt)

  pub Evolves-for_each :
      {A : Type 0} (xs : List A) (f : A → M (Unit {0}))
      → ((a : A) → Evolves R (f a))
      → Evolves R (for_each xs f)
  unfolding for_each
  Evolves-for_each [] f h = Evolves-pure c tt
  Evolves-for_each (x ∷ xs) f h =
      Evolves-bind c (f x) (λ _. for_each xs f) (h x) (λ _. Evolves-for_each xs f h)

  pub Evolves-for_each-All :
      {A : Type 0} (Q : A → Type 0) (xs : List A) (f : A → M (Unit {0}))
      → ((a : A) → Q a → Evolves R (f a))
      → All Q xs
      → Evolves R (for_each xs f)
  unfolding for_each
  Evolves-for_each-All Q [] f h all = Evolves-pure c tt
  Evolves-for_each-All Q (x ∷ xs) f h all =
      Evolves-bind c (f x) (λ _. for_each xs f) (h x all.0)
        (λ _. Evolves-for_each-All Q xs f h all.1)

pub ruleset build_rules = (
  Evolves-pure, Evolves-throw, Evolves-asks, Evolves-decoding, Evolves-attempt, Evolves-best_effort,
  Evolves-map_error, Evolves-unless_no_rows, Evolves-if, Evolves-bind, Evolves-current_time,
  Evolves-is_cancelled, Evolves-when, Evolves-for_each,
)
