-- ===== src/Pool/Consistency/Updates.antt =====
-- The operations that update a pool or a service (pkg/pool/pool_controller.go).
use evgo.Shared.{
  ◌≡◌, refl, sym, ◌∙◌, ap, Bool, true, false, ◌&&◌, Option, none, some, List, [], ◌∷◌, String,
  string_eq, ◌==◌, get,
}
use mathlib.Core.Path.{subst}
use evgo.Auth.Context.{ok}
use evgo.Crud.{Value, text, flag, Fields, matches, Model, Crud}
use evgo.Crud.Rows.{any, any-ext, change, Unique, Unique-change, Unique-change_row}
use evgo.Crud.Actions.{
  State, Action, Post, ◌>>=◌, ◌>>◌, find_by_field, find_update, update_found, oplog,
}
use evgo.Crud.Hoare.{bind-wp, reading-Post, update_object-Post, oplog-Post}
use evgo.Pool.{
  PoolCrud, PoolBase, PoolService, OpLogPool, pool_model, service_model, check_new_name,
  check_pool_name_unique, check_service_name_unique, or_fail, log_update, find_pool, find_service,
  update_pool, update_service, when, error_pool_not_found, error_service_not_found, text_or,
  field_name,
}
use evgo.Pool.Tables.{PoolLaws}
use evgo.Pool.Consistency.{
  IsConsistent, After, fail_with-Post, check_pool_name_unique-Post, check_service_name_unique-Post,
  find_pool-Post, find_service-Post, moved,
}
use evgo.Pool.Consistency.Rows.{
  Consistent, change_pool_rows, change_service_rows, pool_ids, pool_names, service_ids,
  service_names,
}

and_true : (b : Bool) → (b && true) ≡ b
and_true true = refl
and_true false = refl

-- No row has the name that the fields give, if they give one.
abbrev IsFree : {O : Type 0} → Model O → Fields → List O → Type 0
IsFree model fields xs =
    (v : Value) → get "name" fields ≡ some v → any (matches model (("name", v) ∷ [])) xs ≡ false

pool_names-Unique :
    (i : String) (fields : Fields) (ps : List PoolBase)
    → IsFree pool_model fields ps
    → Unique pool_ids ps
    → Unique pool_names ps
    → Unique pool_names (change (λ x. x.id == i) (pool_model.set fields) ps)
pool_names-Unique i fields ps free ids names = after (get "name" fields) refl
  where
    after :
        (name : Option Value)
        → get "name" fields ≡ name
        → Unique pool_names (change (λ x. x.id == i) (pool_model.set fields) ps)
    after none e =
        Unique-change pool_names (λ x. x.id == i) (pool_model.set fields) ps
          (λ x. ap (text_or x.name) e) names
    after (some (flag b)) e =
        Unique-change pool_names (λ x. x.id == i) (pool_model.set fields) ps
          (λ x. ap (text_or x.name) e) names
    after (some (text n)) e =
        Unique-change_row pool_ids pool_names i n (pool_model.set fields) ps
          (λ x. ap (text_or x.name) e)
          (any-ext _ _ ps (λ x. sym (and_true (x.name == n))) ∙ free (text n) e) ids names

service_names-Unique :
    (i : String) (fields : Fields) (ps : List PoolService)
    → IsFree service_model fields ps
    → Unique service_ids ps
    → Unique service_names ps
    → Unique service_names (change (λ x. x.id == i) (service_model.set fields) ps)
service_names-Unique i fields ps free ids names = after (get "name" fields) refl
  where
    after :
        (name : Option Value)
        → get "name" fields ≡ name
        → Unique service_names (change (λ x. x.id == i) (service_model.set fields) ps)
    after none e =
        Unique-change service_names (λ x. x.id == i) (service_model.set fields) ps
          (λ x. ap (text_or x.name) e) names
    after (some (flag b)) e =
        Unique-change service_names (λ x. x.id == i) (service_model.set fields) ps
          (λ x. ap (text_or x.name) e) names
    after (some (text n)) e =
        Unique-change_row service_ids service_names i n (service_model.set fields) ps
          (λ x. ap (text_or x.name) e)
          (any-ext _ _ ps (λ x. sym (and_true (x.name == n))) ∙ free (text n) e) ids names

module _ (crud : PoolCrud) (laws : PoolLaws crud) where
  check_new_name-Post :
      (Q : Unit {0} → State crud.Db OpLogPool → Type 0)
      (check : Value → Action (State crud.Db OpLogPool) (Unit {0})) (name : Option Value)
      (s : State crud.Db OpLogPool)
      → ((v : Value) → name ≡ some v → Post (IsConsistent laws) Q (check v s))
      → (name ≡ none → Q tt s)
      → Post (IsConsistent laws) Q (check_new_name crud check name s)
  unfolding check_new_name
  check_new_name-Post Q check none s given q = q refl
  check_new_name-Post Q check (some v) s given q = given v refl

  find_update-Post :
      {O : Type 0} (table : Crud crud.Db O) (Q : Option O → State crud.Db OpLogPool → Type 0)
      (name : String) (v : Value) (fields : Fields) (s : State crud.Db OpLogPool)
      → IsConsistent laws s
      → Q none s
      → ((db : crud.Db) (object after : O)
          → table.update s.db object fields ≡ ok (db, after)
          → Q (some after) (record s { db = db }))
      → Post (IsConsistent laws) Q (find_update table name v fields s)
  unfolding find_update find_by_field update_found
  find_update-Post {O} table Q name v fields s c missed q =
      bind-wp (IsConsistent laws) Q (find_by_field table name v) (update_found table fields) s (
        reading-Post (IsConsistent laws) _ (λ db. table.read_by_field db name v) s c
          (λ found e. after found))
    where
      after : (found : Option O) → Post (IsConsistent laws) Q (update_found table fields found s)
      after none = missed
      after (some object) = bind-wp (IsConsistent laws) Q _ _ s (
          update_object-Post (IsConsistent laws) _ table object fields s c
            (λ db after e. q db object after e))

  or_fail-Post :
      {O : Type 0} (Q : O → State crud.Db OpLogPool → Type 0) (code : String) (found : Option O)
      (s : State crud.Db OpLogPool)
      → IsConsistent laws s
      → ((x : O) → found ≡ some x → Q x s)
      → Post (IsConsistent laws) Q (or_fail crud code found s)
  unfolding or_fail
  or_fail-Post Q code none s c q = fail_with-Post crud laws Q code s c
  or_fail-Post Q code (some x) s c q = q x refl

  when-oplog-Post :
      (Q : Unit {0} → State crud.Db OpLogPool → Type 0) (b : Bool) (entry : OpLogPool)
      (s : State crud.Db OpLogPool)
      → ((s' : State crud.Db OpLogPool) → s'.db ≡ s.db → Q tt s')
      → Post (IsConsistent laws) Q (when b (oplog entry) s)
  unfolding when
  when-oplog-Post Q true entry s q = oplog-Post (IsConsistent laws) Q entry s (q _ refl)
  when-oplog-Post Q false entry s q = q s refl

  log_update-Post :
      (Q : Unit {0} → State crud.Db OpLogPool → Type 0) (kind id name : String) (fields : Fields)
      (s : State crud.Db OpLogPool)
      → ((s' : State crud.Db OpLogPool) → s'.db ≡ s.db → Q tt s')
      → Post (IsConsistent laws) Q (log_update crud kind id name fields s)
  unfolding log_update
  log_update-Post Q kind id name fields s q = bind-wp (IsConsistent laws) Q _ _ s (
      when-oplog-Post _ _ _ s
        (λ s' same. when-oplog-Post Q _ _ s' (λ s'' still. q s'' (still ∙ same))))

  updated_pool :
      (fields : Fields) (s : State crud.Db OpLogPool) (db : crud.Db) (object after : PoolBase)
      → IsConsistent laws s
      → IsFree pool_model fields (laws.pools.rows s.db)
      → crud.pools.update s.db object fields ≡ ok (db, after)
      → Consistent (laws.pools.rows db) (laws.services.rows db) (laws.associations.rows db)
  updated_pool fields s db object after c free e =
      rw
        (
          laws.pools.update_rows s.db db object after fields e,
          laws.pools-services.update_keeps s.db db object after fields e,
          laws.pools-associations.update_keeps s.db db object after fields e,
        )
        (change_pool_rows _ _ _ c (λ x. x.id == object.id) (pool_model.set fields) (λ x. refl)
          (pool_names-Unique object.id fields _ free c.ids_of_pools c.names_of_pools))

  updated_service :
      (fields : Fields) (s : State crud.Db OpLogPool) (db : crud.Db) (object after : PoolService)
      → IsConsistent laws s
      → IsFree service_model fields (laws.services.rows s.db)
      → crud.services.update s.db object fields ≡ ok (db, after)
      → Consistent (laws.pools.rows db) (laws.services.rows db) (laws.associations.rows db)
  updated_service fields s db object after c free e =
      rw
        (
          laws.services.update_rows s.db db object after fields e,
          laws.services-pools.update_keeps s.db db object after fields e,
          laws.services-associations.update_keeps s.db db object after fields e,
        )
        (change_service_rows _ _ _ c (λ x. x.id == object.id) (service_model.set fields) (λ x. refl)
          (service_names-Unique object.id fields _ free c.ids_of_services c.names_of_services))

  free_pool-Post :
      (Q : Unit {0} → State crud.Db OpLogPool → Type 0) (fields : Fields)
      (s : State crud.Db OpLogPool)
      → IsConsistent laws s
      → (IsFree pool_model fields (laws.pools.rows s.db) → Q tt s)
      → Post
          (IsConsistent laws)
          Q
          (check_new_name crud (check_pool_name_unique crud) (get "name" fields) s)
  free_pool-Post Q fields s c q =
      check_new_name-Post Q (check_pool_name_unique crud) (get "name" fields) s
        (λ v e. check_pool_name_unique-Post crud laws Q v s c (λ free. q (λ w given.
          let same : v ≡ w = cc in
          subst (λ x. any (matches pool_model (("name", x) ∷ [])) (laws.pools.rows s.db) ≡ false)
            same free)))
        (λ e. q (λ w given. cc))

  found_pool-After :
      (id : String) (s : State crud.Db OpLogPool)
      → IsConsistent laws s
      → After crud laws
          ((find_pool crud id false >>= λ updated. or_fail crud error_pool_not_found updated) s)
  found_pool-After id s c =
      bind-wp (IsConsistent laws) (λ a. IsConsistent laws) _ _ s
        (find_pool-Post crud laws _ id false s c
          (λ s' same.
            or_fail-Post (λ a. IsConsistent laws) _ none s' (moved crud laws s s' same c)
              (λ p e. moved crud laws s s' same c))
          (λ p is. or_fail-Post (λ a. IsConsistent laws) _ (some p) s c (λ x e. c)))

  pub update_pool-After :
      (id : String) (fields : Fields) (use_name : Bool) (s : State crud.Db OpLogPool)
      → IsConsistent laws s
      → After crud laws (update_pool crud id fields use_name s)
  unfolding update_pool
  update_pool-After id fields use_name s c =
      bind-wp (IsConsistent laws) (λ a. IsConsistent laws) _ _ s
        (free_pool-Post _ fields s c (λ free.
          bind-wp (IsConsistent laws) (λ a. IsConsistent laws) _ _ s
            (find_update-Post crud.pools _ (field_name use_name) (text id) fields s c
              (logged none s c)
              (λ db object after e.
                logged (some after) (record s { db = db })
                  (updated_pool fields s db object after c free e)))))
    where
      logged :
          (found : Option PoolBase) (s : State crud.Db OpLogPool)
          → IsConsistent laws s
          → After crud laws (
              (or_fail crud error_pool_not_found found >>= λ x.
              log_update crud "pool" x.id x.name fields
              >> (find_pool crud x.id false >>= λ updated.
                  or_fail crud error_pool_not_found updated))
                s)
      logged found s c =
          bind-wp (IsConsistent laws) (λ a. IsConsistent laws) _ _ s
            (or_fail-Post _ error_pool_not_found found s c (λ x e.
              bind-wp (IsConsistent laws) (λ a. IsConsistent laws) _ _ s
                (log_update-Post _ _ _ _ _ s
                  (λ s' same. found_pool-After x.id s' (moved crud laws s s' same c)))))

  free_service-Post :
      (Q : Unit {0} → State crud.Db OpLogPool → Type 0) (fields : Fields)
      (s : State crud.Db OpLogPool)
      → IsConsistent laws s
      → (IsFree service_model fields (laws.services.rows s.db) → Q tt s)
      → Post
          (IsConsistent laws)
          Q
          (check_new_name crud (check_service_name_unique crud) (get "name" fields) s)
  free_service-Post Q fields s c q =
      check_new_name-Post Q (check_service_name_unique crud) (get "name" fields) s
        (λ v e. check_service_name_unique-Post crud laws Q v s c (λ free. q (λ w given.
          let same : v ≡ w = cc in
          subst
            (λ x. any (matches service_model (("name", x) ∷ [])) (laws.services.rows s.db) ≡ false)
            same free)))
        (λ e. q (λ w given. cc))

  found_service-After :
      (id : String) (s : State crud.Db OpLogPool)
      → IsConsistent laws s
      → After crud laws (
          (find_service crud id false >>= λ updated. or_fail crud error_service_not_found updated)
            s)
  found_service-After id s c =
      bind-wp (IsConsistent laws) (λ a. IsConsistent laws) _ _ s
        (find_service-Post crud laws _ id false s c
          (λ s' same.
            or_fail-Post (λ a. IsConsistent laws) _ none s' (moved crud laws s s' same c)
              (λ p e. moved crud laws s s' same c))
          (λ p is. or_fail-Post (λ a. IsConsistent laws) _ (some p) s c (λ x e. c)))

  pub update_service-After :
      (id : String) (fields : Fields) (use_name : Bool) (s : State crud.Db OpLogPool)
      → IsConsistent laws s
      → After crud laws (update_service crud id fields use_name s)
  unfolding update_service
  update_service-After id fields use_name s c =
      bind-wp (IsConsistent laws) (λ a. IsConsistent laws) _ _ s
        (free_service-Post _ fields s c (λ free.
          bind-wp (IsConsistent laws) (λ a. IsConsistent laws) _ _ s
            (find_update-Post crud.services _ (field_name use_name) (text id) fields s c
              (logged none s c)
              (λ db object after e.
                logged (some after) (record s { db = db })
                  (updated_service fields s db object after c free e)))))
    where
      logged :
          (found : Option PoolService) (s : State crud.Db OpLogPool)
          → IsConsistent laws s
          → After crud laws (
              (or_fail crud error_service_not_found found >>= λ x.
              log_update crud "service" x.id x.name fields
              >> (find_service crud x.id false >>= λ updated.
                  or_fail crud error_service_not_found updated))
                s)
      logged found s c =
          bind-wp (IsConsistent laws) (λ a. IsConsistent laws) _ _ s
            (or_fail-Post _ error_service_not_found found s c (λ x e.
              bind-wp (IsConsistent laws) (λ a. IsConsistent laws) _ _ s
                (log_update-Post _ _ _ _ _ s
                  (λ s' same. found_service-After x.id s' (moved crud laws s s' same c)))))
