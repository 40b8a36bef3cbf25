-- ===== src/Tenancy/Controller/Creation/Keeping.antt =====
-- What the table of tenancies keeps when tenancies are added, and when their customer, their pool or
-- their database changes (pkg/multitenancy/tenancy_manager/tenancy_controller.go).
use evgo.Shared.{
  ◌≡◌, refl, sym, ◌∙◌, ap, ◌≢◌, ◌⊎◌, inl, inr, Bool, true, false, ◌&&◌, ◌||◌, Option, none, some,
  List, [], ◌∷◌, ◌++◌, String, string_eq, ◌==◌, if◌then◌else◌, Bool-cases, In, arith, get,
}
use mathlib.Core.Path.{subst}
use evgo.Auth.Context.{Result, ok, err}
use evgo.Crud.{text}
use evgo.Crud.Rows.{any, has, Unique-snoc}
use evgo.Crud.Actions.{State, Post, ◌>>◌, pure, fail, oplog, clear_error}
use evgo.Crud.Hoare.{bind-wp, write_then, oplog_then, oplog-Post, clear_error-Post}
use evgo.Pool.Consistency.Rows.{both_eq}
use evgo.Tenancy.{TenancyDb, Customer, TenancyPool, Tenancy, Environment, init}
use evgo.Tenancy.Controller.{
  TenancyCrud, TenancyItem, TenancyLog, published, Directory, tenancy_model,
}
use evgo.Tenancy.Controller.Creation.{
  Creation, find_customer, customer_or_login, or_not_found, or_fail, find_pool, pool_or_name,
  or_unknown, require, require_code, check_database, check_initialized, open_database,
  claim_database, new_tenancy, create_tenancy, add, set_customer, check_new_pool, check_if_active,
  moved_to, tell_old_pool, change_pool_or_db, set_db_role, or_default,
}
use evgo.Tenancy.Controller.Conflicts.{
  tenancy_ids, conflicts, Pairwise, any-In, eq_sym, conflicts_sym,
}
use evgo.Tenancy.Controller.Keeps.{
  Valid, ControllerLaws, IsValid, After, IsFreePath, customer_role, find_tenancy-Post,
  fail_with-Post, check_duplicate_path-Post, check_duplicate_role-Post, update-After, logs-After,
}
use evgo.Tenancy.Controller.Keeps.Operations.{row-Valid, new_role, same_roles, apart_rows}

-- The paths of the tenancy are free in its new pool, or the pool stays.
abbrev IsFreeIn : String → TenancyDb → List TenancyDb → Type 0
IsFreeIn pool_id row ts =
    (pool_id ≡ row.pool_id)
    ⊎ (IsFreePath pool_id row.path ts × IsFreePath pool_id row.shadow_path ts)

any_snoc :
    {O : Type 0} (p : O → Bool) (xs : List O) (x : O) → any p (xs ++ x ∷ []) ≡ (any p xs || p x)
any_snoc p [] x = ground arith
any_snoc p (y ∷ ys) x = ground (arith, any_snoc p ys x)

module _ (crud : TenancyCrud) (laws : ControllerLaws crud) where
  moved : (s s' : State crud.Db TenancyLog) → s'.db ≡ s.db → IsValid laws s → IsValid laws s'
  moved s s' same = subst (λ db. Valid (laws.tenancies.rows db)) (sym same)

  require-Post :
      (Q : Unit {0} → State crud.Db TenancyLog → Type 0) (b : Bool) (s : State crud.Db TenancyLog)
      → IsValid laws s
      → Q tt s
      → Post (IsValid laws) Q (require crud b s)
  unfolding require
  require-Post Q true s v q = q
  require-Post Q false s v q = v

  require_code-Post :
      (Q : Unit {0} → State crud.Db TenancyLog → Type 0) (code : String) (b : Bool)
      (s : State crud.Db TenancyLog)
      → IsValid laws s
      → Q tt s
      → Post (IsValid laws) Q (require_code crud code b s)
  unfolding require_code
  require_code-Post Q code true s v q = q
  require_code-Post Q code false s v q = fail_with-Post crud laws Q code s v

  or_not_found-Post :
      (Q : Customer → State crud.Db TenancyLog → Type 0) (found : Option Customer)
      (s : State crud.Db TenancyLog)
      → IsValid laws s
      → ((c : Customer) → found ≡ some c → Q c s)
      → Post (IsValid laws) Q (or_not_found crud found s)
  unfolding or_not_found
  or_not_found-Post Q none s v q = v
  or_not_found-Post Q (some c) s v q = q c refl

  -- Where a customer may come from: by id, or by login.
  abbrev pub IsCustomer : Directory → String → Customer → Type 0
  IsCustomer directory id c =
      (directory.customer id ≡ ok (some c)) ⊎ (directory.customer_by_login id ≡ ok (some c))

  find_customer-Post :
      (Q : Customer → State crud.Db TenancyLog → Type 0) (directory : Directory) (id : String)
      (s : State crud.Db TenancyLog)
      → IsValid laws s
      → ((c : Customer) (s' : State crud.Db TenancyLog)
          → IsCustomer directory id c
          → s'.db ≡ s.db
          → Q c s')
      → Post (IsValid laws) Q (find_customer crud directory id s)
  unfolding find_customer
  find_customer-Post Q directory id s v q = after (directory.customer id) refl
    where
      by_login :
          (r : Result (Option Customer)) (s' : State crud.Db TenancyLog)
          → directory.customer_by_login id ≡ r
          → s'.db ≡ s.db
          → Post (IsValid laws) Q (or_fail crud r s')
      by_login err s' e same = moved s s' same v
      by_login (ok found) s' e same =
          or_not_found-Post Q found s' (moved s s' same v)
            (λ c is. q c s' (inr (e ∙ ap ok is)) same)

      tried :
          (b : Bool)
          → Post
              (IsValid laws)
              Q
              ((if b then clear_error >> or_fail crud (directory.customer_by_login id) else fail) s)
      tried true = bind-wp (IsValid laws) Q clear_error _ s (
          clear_error-Post (IsValid laws) _ s (
            by_login (directory.customer_by_login id) (record s { generic_error = none }) refl
              refl))
      tried false = v

      after :
          (r : Result (Option Customer))
          → directory.customer id ≡ r
          → Post (IsValid laws) Q (customer_or_login crud directory id r s)
      after (ok found) e = or_not_found-Post Q found s v (λ c is. q c s (inl (e ∙ ap ok is)) refl)
      after err e = tried (directory.is_not_found id)

  abbrev pub IsPool : Directory → String → TenancyPool → Type 0
  IsPool directory id p = (directory.pool id ≡ some p) ⊎ (directory.pool_by_name id ≡ some p)

  find_pool-Post :
      (Q : TenancyPool → State crud.Db TenancyLog → Type 0) (directory : Directory) (id : String)
      (s : State crud.Db TenancyLog)
      → IsValid laws s
      → ((p : TenancyPool) → IsPool directory id p → Q p s)
      → Post (IsValid laws) Q (find_pool crud directory id s)
  unfolding find_pool
  find_pool-Post Q directory id s v q = after (directory.pool id) refl
    where
      named :
          (o : Option TenancyPool)
          → directory.pool_by_name id ≡ o
          → Post (IsValid laws) Q (or_unknown crud o s)
      named none e = fail_with-Post crud laws Q "pool_not_found" s v
      named (some p) e = q p (inr e)

      after :
          (o : Option TenancyPool)
          → directory.pool id ≡ o
          → Post (IsValid laws) Q (pool_or_name crud directory id o s)
      after (some p) e = q p (inl e)
      after none e = named (directory.pool_by_name id) refl

  check_database-Post :
      (Q : Unit {0} → State crud.Db TenancyLog → Type 0) (env : Environment) (row : TenancyDb)
      (s : State crud.Db TenancyLog)
      → IsValid laws s
      → Q tt s
      → Post (IsValid laws) Q (check_database crud env row s)
  unfolding check_database
  check_database-Post Q env row s v q = after (init env row)
    where
      after : (r : Result Tenancy) → Post (IsValid laws) Q (check_initialized crud r s)
      after err = v
      after (ok t) = require_code-Post Q _ _ s v q

  pub set_customer-After :
      (directory : Directory) (id customer : String) (id_is_display : Bool)
      (s : State crud.Db TenancyLog)
      → IsValid laws s
      → After crud laws (set_customer crud directory id customer id_is_display s)
  unfolding set_customer get
  set_customer-After directory id customer id_is_display s v =
      bind-wp (IsValid laws) (λ x. IsValid laws) _ _ s
        (find_tenancy-Post crud laws _ id id_is_display s v (λ item is_in.
          bind-wp (IsValid laws) (λ x. IsValid laws) _ _ s
            (find_customer-Post _ directory customer s v (λ owner s' is same.
              let v' : IsValid laws s' = moved s s' same v in
              let is_in' : In item.row (laws.tenancies.rows s'.db) =
                subst (λ db. In item.row (laws.tenancies.rows db)) (sym same) is_in in
              bind-wp (IsValid laws) (λ x. IsValid laws) _ _ s'
                (check_duplicate_role-Post crud laws _ owner.id item.row.role s' v' (λ free.
                  update-After crud laws item.row (("customer_id", text owner.id) ∷ []) _ s' v'
                    (row-Valid _ v' item.row is_in'
                      (tenancy_model.set (("customer_id", text owner.id) ∷ [])) (λ x. refl)
                      (apart_rows _ v' item.row is_in') (new_role _ v' item.row is_in' _ free))
                    (λ after s'' v''. logs-After crud laws _ _ s'' v'')))))))

  check_new_pool-Post :
      (Q : Unit {0} → State crud.Db TenancyLog → Type 0) (row : TenancyDb) (pool : TenancyPool)
      (s : State crud.Db TenancyLog)
      → IsValid laws s
      → (IsFreeIn pool.id row (laws.tenancies.rows s.db) → Q tt s)
      → Post (IsValid laws) Q (check_new_pool crud row pool s)
  unfolding check_new_pool
  check_new_pool-Post Q row pool s v q = elim (Bool-cases (pool.id == row.pool_id)) [
    | inl same ↦ rw (same) (q (inl ((string_eq.eqb_iff pool.id row.pool_id).0 same)))
    | inr other ↦ rw (other) (
        bind-wp (IsValid laws) Q _ _ s (
          check_duplicate_path-Post crud laws _ pool.id row.path s v (λ free.
            check_duplicate_path-Post crud laws Q pool.id row.shadow_path s v
              (λ free'. q (inr (free, free'))))))
  ]

  moved-conflicts :
      (ts : List TenancyDb) (w : Valid ts) (row : TenancyDb) (is_in : In row ts)
      (pool_id dbname : String)
      → IsFreeIn pool_id row ts
      → (y : TenancyDb) → In y ts
      → row.id ≢ y.id
      → conflicts (moved_to pool_id dbname row) y ≡ false
  moved-conflicts ts w row is_in pool_id dbname (inl same) y hy ne =
      ap (λ i. conflicts (moved_to i dbname row) y) same ∙ apart_rows ts w row is_in y hy ne
  moved-conflicts ts w row is_in pool_id dbname (inr (free, free')) y hy ne = ground (
    arith,
    any-In (λ z. (z.pool_id == pool_id) && (z.path == row.path)) ts y free.0 hy,
    any-In (λ z. (z.pool_id == pool_id) && (z.shadow_path == row.path)) ts y free.1 hy,
    any-In (λ z. (z.pool_id == pool_id) && (z.path == row.shadow_path)) ts y free'.0 hy,
    any-In (λ z. (z.pool_id == pool_id) && (z.shadow_path == row.shadow_path)) ts y free'.1 hy,
    eq_sym y.pool_id pool_id,
    eq_sym y.path row.path,
    eq_sym y.shadow_path row.path,
    eq_sym y.path row.shadow_path,
    eq_sym y.shadow_path row.shadow_path,
  )

  check_if_active-Post :
      (Q : Unit {0} → State crud.Db TenancyLog → Type 0) (env : Environment) (row : TenancyDb)
      (s : State crud.Db TenancyLog)
      → IsValid laws s
      → Q tt s
      → Post (IsValid laws) Q (check_if_active crud env row s)
  unfolding check_if_active
  check_if_active-Post Q env row s v q = after row.active
    where
      after :
          (b : Bool)
          → Post (IsValid laws) Q ((if b then check_database crud env row else pure tt) s)
      after true = check_database-Post Q env row s v q
      after false = q

  tell_then :
      (old requested : String) (row : TenancyDb) (entry : TenancyLog) (s : State crud.Db TenancyLog)
      → IsValid laws s
      → After crud laws ((tell_old_pool crud old requested row >> oplog entry) s)
  unfolding tell_old_pool
  tell_then old requested row entry s v =
      bind-wp (IsValid laws) (λ x. IsValid laws) (tell_old_pool crud old requested row) _ s
        (after (old == requested))
    where
      after :
          (b : Bool)
          → Post
              (IsValid laws)
              (λ x s'. After crud laws (oplog entry s'))
              ((if b then pure tt else oplog (published row.id "delete" old)) s)
      after true = oplog-Post (IsValid laws) (λ x. IsValid laws) entry s v
      after false =
          oplog-Post (IsValid laws) (λ x s'. After crud laws (oplog entry s')) _ s
            (oplog-Post (IsValid laws) (λ x. IsValid laws) entry _ v)

  pub change_pool_or_db-After :
      (directory : Directory) (env : Environment) (id pool_id dbname : String)
      (id_is_display : Bool) (s : State crud.Db TenancyLog)
      → IsValid laws s
      → After crud laws (change_pool_or_db crud directory env id pool_id dbname id_is_display s)
  unfolding change_pool_or_db get
  change_pool_or_db-After directory env id pool_id dbname id_is_display s v =
      bind-wp (IsValid laws) (λ x. IsValid laws) _ _ s
        (find_tenancy-Post crud laws _ id id_is_display s v (λ item is_in.
          bind-wp (IsValid laws) (λ x. IsValid laws) _ _ s
            (find_pool-Post _ directory (or_default pool_id item.row.pool_id) s v (λ pool is.
              bind-wp (IsValid laws) (λ x. IsValid laws) _ _ s
                (check_new_pool-Post _ item.row pool s v (λ free.
                  bind-wp (IsValid laws) (λ x. IsValid laws) _ _ s
                    (check_if_active-Post _ env _ s v (
                      update-After crud laws _ _ _ s v
                        (row-Valid _ v item.row is_in
                          (tenancy_model.set (
                            ("pool_id", text pool.id)
                            ∷ ("dbname", text (or_default dbname item.row.dbname))
                            ∷ []))
                          (λ x. refl)
                          (moved-conflicts _ v item.row is_in pool.id
                            (or_default dbname item.row.dbname) free)
                          (same_roles _ v item.row is_in _ (λ x. refl)))
                        (λ after s' v'.
                          oplog_then (IsValid laws) (λ x. IsValid laws) _ _ s'
                            (tell_then _ _ after _ _ v'))))))))))

  pub set_db_role-After :
      (env : Environment) (id db_role : String) (id_is_display : Bool)
      (s : State crud.Db TenancyLog)
      → IsValid laws s
      → After crud laws (set_db_role crud env id db_role id_is_display s)
  unfolding set_db_role get
  set_db_role-After env id db_role id_is_display s v =
      bind-wp (IsValid laws) (λ x. IsValid laws) _ _ s
        (find_tenancy-Post crud laws _ id id_is_display s v (λ item is_in.
          bind-wp (IsValid laws) (λ x. IsValid laws) _ _ s
            (check_database-Post _ env _ s v (
              update-After crud laws _ (("db_role", text db_role) ∷ []) _ s v
                (row-Valid _ v item.row is_in (tenancy_model.set (("db_role", text db_role) ∷ []))
                  (λ x. refl) (apart_rows _ v item.row is_in)
                  (same_roles _ v item.row is_in _ (λ x. refl)))
                (λ after s' v'. logs-After crud laws _ _ s' v')))))

  claim_database-Post :
      (Q : Unit {0} → State crud.Db TenancyLog → Type 0) (creation : Creation) (row : TenancyDb)
      (metas : Result (List String)) (s : State crud.Db TenancyLog)
      → IsValid laws s
      → Q tt s
      → Post (IsValid laws) Q (claim_database crud creation row metas s)
  unfolding claim_database
  claim_database-Post Q creation row err s v q = v
  claim_database-Post Q creation row (ok ids) s v q =
      bind-wp (IsValid laws) Q _ _ s (require_code-Post _ _ _ s v (require-Post Q _ s v q))

  open_database-Post :
      (Q : Unit {0} → State crud.Db TenancyLog → Type 0) (creation : Creation) (pool : TenancyPool)
      (row : TenancyDb) (s : State crud.Db TenancyLog)
      → IsValid laws s
      → Q tt s
      → Post (IsValid laws) Q (open_database crud creation pool row s)
  unfolding open_database
  open_database-Post Q creation pool row s v q = bind-wp (IsValid laws) Q _ _ s (
      require-Post _ _ s v (
        bind-wp (IsValid laws) Q _ _ s (
          require-Post _ _ s v (
            bind-wp (IsValid laws) Q _ _ s
              (require_code-Post _ _ _ s v (claim_database-Post Q creation row _ s v q))))))

  -- What `CreateTenancy` has found, and what it has checked.
  pub create_tenancy-Post :
      (Q : TenancyItem → State crud.Db TenancyLog → Type 0) (directory : Directory)
      (creation : Creation) (request : TenancyDb) (s : State crud.Db TenancyLog)
      → IsValid laws s
      → ((customer : Customer) (pool : TenancyPool) (item : TenancyItem)
            (s' : State crud.Db TenancyLog)
          → IsCustomer directory request.customer_id customer
          → IsPool directory request.pool_id pool
          → IsValid laws s'
          → has customer_role (request.customer_id, request.role) (laws.tenancies.rows s'.db)
            ≡ false
          → IsFreePath request.pool_id request.path (laws.tenancies.rows s'.db)
          → IsFreePath request.pool_id request.shadow_path (laws.tenancies.rows s'.db)
          → item.row ≡ new_tenancy creation request customer pool
          → Q item s')
      → Post (IsValid laws) Q (create_tenancy crud directory creation request s)
  unfolding create_tenancy
  create_tenancy-Post Q directory creation request s v q = bind-wp (IsValid laws) Q _ _ s (
      find_customer-Post _ directory request.customer_id s v (λ customer s' is_customer same.
        let v' : IsValid laws s' = moved s s' same v in
        bind-wp (IsValid laws) Q _ _ s' (
          find_pool-Post _ directory request.pool_id s' v' (λ pool is_pool.
            bind-wp (IsValid laws) Q _ _ s' (
              require_code-Post _ _ _ s' v' (
                bind-wp (IsValid laws) Q _ _ s' (
                  check_duplicate_role-Post crud laws _ request.customer_id request.role s' v'
                    (λ role_free. bind-wp (IsValid laws) Q _ _ s' (
                      check_duplicate_path-Post crud laws _ request.pool_id request.path s' v'
                        (λ path_free. bind-wp (IsValid laws) Q _ _ s' (
                          check_duplicate_path-Post crud laws _ request.pool_id request.shadow_path
                            s' v'
                            (λ shadow_free. bind-wp (IsValid laws) Q _ _ s' (
                              open_database-Post _ creation pool _ s' v' (
                                q customer pool _ s' is_customer is_pool v' role_free path_free
                                  shadow_free refl))))))))))))))

-- A request that names the customer and the pool by their ids, and gives both paths.
pub record IsPrecise (directory : Directory) (request : TenancyDb) : Type 0 where
  pub customer_id :
      (c : Customer)
      → (directory.customer request.customer_id ≡ ok (some c))
        ⊎ (directory.customer_by_login request.customer_id ≡ ok (some c))
      → c.id ≡ request.customer_id
  pub pool_id :
      (p : TenancyPool)
      → (directory.pool request.pool_id ≡ some p)
        ⊎ (directory.pool_by_name request.pool_id ≡ some p)
      → p.id ≡ request.pool_id
  pub path : (request.path == "") ≡ false
  pub shadow_path : (request.shadow_path == "") ≡ false

-- A row at the end, in conflict with none before it.
Pairwise-snoc :
    (t : TenancyDb) (ts : List TenancyDb)
    → any (conflicts t) ts ≡ false
    → Pairwise ts
    → Pairwise (ts ++ t ∷ [])
Pairwise-snoc t [] free p = (refl, tt)
Pairwise-snoc t (x ∷ xs) free p =
    ground (arith, Pairwise-snoc t xs, any_snoc (conflicts x) xs t, conflicts_sym x t)

no_conflicts :
    (t : TenancyDb) (ts : List TenancyDb)
    → IsFreePath t.pool_id t.path ts
    → IsFreePath t.pool_id t.shadow_path ts
    → any (conflicts t) ts ≡ false
no_conflicts t [] free free' = refl
no_conflicts t (y ∷ ys) free free' = ground (
  arith,
  no_conflicts t ys,
  eq_sym y.pool_id t.pool_id,
  eq_sym y.path t.path,
  eq_sym y.shadow_path t.path,
  eq_sym y.path t.shadow_path,
  eq_sym y.shadow_path t.shadow_path,
)

added-Valid :
    (t : TenancyDb) (ts : List TenancyDb)
    → Valid ts
    → has tenancy_ids t.id ts ≡ false
    → has customer_role (customer_role t) ts ≡ false
    → IsFreePath t.pool_id t.path ts
    → IsFreePath t.pool_id t.shadow_path ts
    → Valid (ts ++ t ∷ [])
added-Valid t ts v new_id new_role free free' = record {
  ids = Unique-snoc tenancy_ids ts t new_id v.ids;
  paths = Pairwise-snoc t ts (no_conflicts t ts free free') v.paths;
  roles = Unique-snoc customer_role ts t new_role v.roles;
}

module _ (crud : TenancyCrud) (laws : ControllerLaws crud) where
  pub add-After :
      (directory : Directory) (creation : Creation) (request : TenancyDb)
      (s : State crud.Db TenancyLog)
      → IsPrecise directory request
      → IsValid laws s
      → After crud laws (add crud directory creation request s)
  unfolding add
  add-After directory creation request s precise v =
      bind-wp (IsValid laws) (λ x. IsValid laws) _ _ s
        (create_tenancy-Post crud laws _ directory creation request s v
          (λ customer pool item s' is_customer is_pool v' role_free free free' is_new.
            write_then (IsValid laws) (λ x. IsValid laws) _ _ s' v'
              (λ db e.
                oplog_then (IsValid laws) (λ x. IsValid laws) _ _ _
                  (oplog_then (IsValid laws) (λ x. IsValid laws) _ _ _
                    (subst Valid (sym (laws.tenancies.create_rows s'.db db item.row e)) (
                      added-Valid item.row _ v' (laws.tenancies.create_new s'.db db item.row e)
                        (rw (is_new, precise.customer_id customer is_customer) role_free)
                        (rw (is_new, precise.pool_id pool is_pool, precise.path) free)
                        (rw (is_new, precise.pool_id pool is_pool, precise.shadow_path) free')))))))
