-- ===== src/Access/Registration.antt =====
-- The registration of an organization with its first user.
use kpi_tenders_go.Prelude.{
  ℕ, String, Option, some, [], ◌∷◌, ◌++◌, ◌≡◌, refl, ◌⊎◌, inl, inr, arith, ap, subst, ◌∙◌,
}
use kpi_tenders_go.Models.{User, Organization, Role}
use kpi_tenders_go.Effects.{
  Fate, Env, World, Result, ok, err, M, counted, run, settle, map_error, ◌>>=◌, continue, pure,
  throw, Hashed, hashed, too_long, hash_failed,
}
use kpi_tenders_go.Effects.Queries.{bind-holds, query-world, run-ok, map_error-ok}
use kpi_tenders_go.Repository.Accounts.{
  CreateUserParams, create_user, insert_user, create_organization, insert_organization, exec_tx,
  in_transaction, commit,
}
use kpi_tenders_go.OrganizationService.{
  RegisterParams, register, create_tenant, returned, parse_inn, generate_from_password, hash_of,
  inn_conflict, email_conflict,
}

-- The organizations and the users are as before, or one organization and one admin of it are new.
abbrev pub AllOrNothing : World → World → Type 0
AllOrNothing v w =
    ((v.organizations ≡ w.organizations) × (v.users ≡ w.users))
    ⊎ ((o : Organization) × (u : User) × (w.organizations ≡ v.organizations ++ o ∷ [])
        × (w.users ≡ v.users ++ u ∷ [])
        × (u.organization_id ≡ some o.id)
        × (u.role ≡ Role.admin))

ok-inj : {A : Type 0} (a b : A) → ◌≡◌ {A = Result A} (ok a) (ok b) → a ≡ b
ok-inj a b h = ap (λ r. elim r [ ok x ↦ x | err z ↦ a ]) h

insert_organization-ok :
    (name : String) (inn : Option String) (now : ℕ) (w : World) (o : Organization)
    → (insert_organization name inn now w).0 ≡ ok o
    → ((insert_organization name inn now w).1.organizations ≡ w.organizations ++ o ∷ [])
      × ((insert_organization name inn now w).1.users ≡ w.users)
unfolding insert_organization
insert_organization-ok name inn now w o h = ground (arith, h)

insert_user-ok :
    (p : CreateUserParams) (now : ℕ) (w : World) (u : User)
    → (insert_user p now w).0 ≡ ok u
    → ((insert_user p now w).1.organizations ≡ w.organizations)
      × ((insert_user p now w).1.users ≡ w.users ++ u ∷ [])
      × (u.organization_id ≡ p.organization_id)
      × (u.role ≡ p.role)
unfolding insert_user
insert_user-ok p now w u h = ground (arith, h)

created_organization :
    (name : String) (inn : Option String) (e : Env) (w : World) (o : Organization)
    → (map_error inn_conflict (create_organization name inn) e w).0 ≡ ok o
    → ((map_error inn_conflict (create_organization name inn) e w).1.organizations
        ≡ w.organizations ++ o ∷ [])
      × ((map_error inn_conflict (create_organization name inn) e w).1.users ≡ w.users)
unfolding create_organization map_error
created_organization name inn e w o h =
    let (answered, left) =
      run-ok (insert_organization name inn) e w
        (map_error-ok inn_conflict (create_organization name inn) e w h) in
    rw left (insert_organization-ok name inn _ (counted w) o answered)

created_user :
    (p : CreateUserParams) (e : Env) (w : World) (u : User)
    → (map_error email_conflict (create_user p) e w).0 ≡ ok u
    → ((map_error email_conflict (create_user p) e w).1.organizations ≡ w.organizations)
      × ((map_error email_conflict (create_user p) e w).1.users ≡ w.users ++ u ∷ [])
      × (u.organization_id ≡ p.organization_id)
      × (u.role ≡ p.role)
unfolding create_user map_error
created_user p e w u h =
    let (answered, left) =
      run-ok (insert_user p) e w (map_error-ok email_conflict (create_user p) e w h) in
    rw left (insert_user-ok p _ (counted w) u answered)

-- The body of the transaction, when it has run through.
create_tenant-ok :
    (p : RegisterParams) (inn : Option String) (hash : String) (e : Env) (w : World)
    (made : Organization × User)
    → (create_tenant p inn hash e w).0 ≡ ok made
    → AllOrNothing w (create_tenant p inn hash e w).1
unfolding create_tenant pure map_error
create_tenant-ok p inn hash e w made h = bind-holds (AllOrNothing w) _ _ e w h (λ o o_ok rest.
    bind-holds (AllOrNothing w) _ _ e _ rest (λ u u_ok done.
      let org = created_organization p.org_name inn e w o o_ok in
      let user = created_user _ e _ u u_ok in
      inr (o, u, user.0 ∙ org.0, user.1 ∙ ap (λ us. us ++ u ∷ []) org.1, user.2, user.3)))

settle-AllOrNothing :
    {A : Type 0} (f : Fate) (r : Result A) (v x y : World)
    → AllOrNothing v x
    → AllOrNothing v y
    → AllOrNothing v (settle f (r, x) y).1
settle-AllOrNothing Fate.answered r v x y hx hy = hx
settle-AllOrNothing Fate.refused r v x y hx hy = hy
settle-AllOrNothing Fate.reply_lost r v x y hx hy = hx

committed :
    (r : Result (Organization × User)) (e : Env) (v w : World)
    → ((made : Organization × User) → r ≡ ok made → AllOrNothing v w)
    → AllOrNothing v (commit e v r w).1
committed (err x) e v w ran = inl (refl, refl)
committed (ok made) e v w ran =
    settle-AllOrNothing (e.fate w.calls) (ok made) v (counted w) _ (ran made refl)
      (inl (refl, refl))

begun-AllOrNothing :
    (r : Result (Unit {0})) (p : RegisterParams) (inn : Option String) (hash : String) (e : Env)
    (w : World)
    → AllOrNothing w (in_transaction (create_tenant p inn hash) r e w).1
begun-AllOrNothing (err x) p inn hash e w = inl (refl, refl)
begun-AllOrNothing (ok u) p inn hash e w =
    committed (create_tenant p inn hash e w).0 e w (create_tenant p inn hash e w).1
      (λ made h. create_tenant-ok p inn hash e w made h)

-- A transaction that begins leaves the tables to its body.
exec_tx-AllOrNothing :
    (p : RegisterParams) (inn : Option String) (hash : String) (e : Env) (w : World)
    → AllOrNothing w (exec_tx (create_tenant p inn hash) e w).1
unfolding exec_tx
exec_tx-AllOrNothing p inn hash e w =
    let begin : M (Unit {0}) = run (λ now v. (ok tt, v)) in
    subst
      (λ v.
        AllOrNothing v (in_transaction (create_tenant p inn hash) (begin e w).0 e (begin e w).1).1)
      (query-world (λ now v. ok tt) e w)
      (begun-AllOrNothing (begin e w).0 p inn hash e (begin e w).1)

-- A step that leaves the tables, and then the rest.
after_step :
    {A B : Type 0} (r : Result A) (f : A → M B) (e : Env) (w v : World)
    → AllOrNothing w v
    → ((a : A) → AllOrNothing w (f a e v).1)
    → AllOrNothing w (continue r f e v).1
after_step (ok a) f e w v same rest = rest a
after_step (err x) f e w v same rest = same

returned-world : (r : Result (Option String)) (e : Env) (w : World) → (returned r e w).1 ≡ w
unfolding pure throw
returned-world (ok a) e w = refl
returned-world (err x) e w = refl

hash_of-world : (h : Hashed) (e : Env) (w : World) → (hash_of h e w).1 ≡ w
unfolding pure throw
hash_of-world (hashed h) e w = refl
hash_of-world too_long e w = refl
hash_of-world hash_failed e w = refl

-- Whatever the outside answers and wherever it fails, a registration leaves the organizations and
-- users as they were, or adds one organization and one user, who is an admin of it.
pub register-AllOrNothing :
    (p : RegisterParams) (e : Env) (w : World) → AllOrNothing w (register p e w).1
unfolding register ◌>>=◌ generate_from_password map_error
register-AllOrNothing p e w = rw (returned-world (parse_inn p.inn) e w) (
    after_step (returned (parse_inn p.inn) e w).0 _ e w w (inl (refl, refl)) (λ inn.
      rw (hash_of-world (e.hash_password w.calls p.password) e (counted w)) (
        after_step (hash_of (e.hash_password w.calls p.password) e (counted w)).0 _ e w (counted w)
          (inl (refl, refl)) (λ hash. exec_tx-AllOrNothing p inn hash e (counted w)))))
