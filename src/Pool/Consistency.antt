-- ===== src/Pool/Consistency.antt =====
-- What the tables of pools, services and associations keep under every operation of the controller
-- (pkg/pool/pool_controller.go).
pub mod Rows
pub mod Additions
pub mod Removals
pub mod Updates
use evgo.Shared.{
  ◌≡◌, refl, sym, ◌∙◌, ap, Bool, true, false, Option, none, some, List, [], ◌∷◌, ◌++◌, String,
  string_eq, ◌==◌, if◌then◌else◌, arith,
}
use mathlib.Core.Path.{subst}
use evgo.Auth.Context.{Result, ok, err}
use evgo.Crud.{Value, text, Fields, matches, Model, Crud}
use evgo.Crud.Rows.{any, first}
use evgo.Crud.Actions.{
  State, Action, Post, ◌>>=◌, ◌>>◌, fail, pure, exists, set_generic_error_code, find_by_field,
  reading,
}
use evgo.Crud.Hoare.{bind-wp, reading-Post, set_code-Post}
use evgo.Pool.{
  PoolCrud, PoolBase, PoolService, OpLogPool, pool_model, service_model, association_model,
  fail_with, refuse_if, found_or_fail, check_pool_name_unique, check_service_name_unique, find_pool,
  find_service, or_code, error_pool_name_conflict, error_service_name_conflict,
  error_pool_not_found, error_service_not_found, field_name,
}
use evgo.Pool.Tables.{PoolLaws, TableLaws, Keeps}
use Rows.{Consistent}

-- The invariant of the database: ids and names of pools and of services are unique, a pool has one
-- service of a role, and the pool and the service of an association are there.
abbrev pub IsConsistent : {crud : PoolCrud} → PoolLaws crud → State crud.Db OpLogPool → Type 0
IsConsistent laws s =
    Consistent (laws.pools.rows s.db) (laws.services.rows s.db) (laws.associations.rows s.db)

module _ (crud : PoolCrud) (laws : PoolLaws crud) where
  abbrev pub After : {A : Type 0} → Result A × State crud.Db OpLogPool → Type 0
  After = Post (IsConsistent laws) (λ a. IsConsistent laws)

  pub fail_with-Post :
      {A : Type 0} (Q : A → State crud.Db OpLogPool → Type 0) (code : String)
      (s : State crud.Db OpLogPool)
      → IsConsistent laws s
      → Post (IsConsistent laws) Q (fail_with crud code s)
  fail_with-Post Q code s c =
      bind-wp (IsConsistent laws) Q (set_generic_error_code code) (λ x. fail) s
        (set_code-Post (IsConsistent laws) _ code s (λ s' same.
          subst
            (λ db.
              Consistent (laws.pools.rows db) (laws.services.rows db) (laws.associations.rows db))
            (sym same) c))

  pub refuse_if-Post :
      (Q : Unit {0} → State crud.Db OpLogPool → Type 0) (code : String) (found : Bool)
      (s : State crud.Db OpLogPool)
      → IsConsistent laws s
      → (found ≡ false → Q tt s)
      → Post (IsConsistent laws) Q (refuse_if crud code found s)
  unfolding refuse_if
  refuse_if-Post Q code true s c q = fail_with-Post Q code s c
  refuse_if-Post Q code false s c q = q refl

  -- A test for rows, and the refusal if there are some.
  exists-Post :
      {O : Type 0} (model : Model O) (table : Crud crud.Db O)
      (t : TableLaws {Db = crud.Db} {O = O} model table)
      (Q : Unit {0} → State crud.Db OpLogPool → Type 0) (code : String) (fields : Fields)
      (s : State crud.Db OpLogPool)
      → IsConsistent laws s
      → (any (matches model fields) (t.rows s.db) ≡ false → Q tt s)
      → Post (IsConsistent laws) Q ((exists table fields >>= refuse_if crud code) s)
  unfolding exists
  exists-Post model table t Q code fields s c q =
      bind-wp (IsConsistent laws) Q (exists table fields) (refuse_if crud code) s (
        reading-Post (IsConsistent laws) _ (λ db. table.exists db fields) s c
          (λ found e.
            refuse_if-Post Q code found s c
              (λ absent. q (sym (t.exists_rows s.db fields found e) ∙ absent))))

  pub check_pool_name_unique-Post :
      (Q : Unit {0} → State crud.Db OpLogPool → Type 0) (name : Value) (s : State crud.Db OpLogPool)
      → IsConsistent laws s
      → (any (matches pool_model (("name", name) ∷ [])) (laws.pools.rows s.db) ≡ false → Q tt s)
      → Post (IsConsistent laws) Q (check_pool_name_unique crud name s)
  unfolding check_pool_name_unique
  check_pool_name_unique-Post Q name =
      exists-Post pool_model crud.pools laws.pools Q error_pool_name_conflict (("name", name) ∷ [])

  pub check_service_name_unique-Post :
      (Q : Unit {0} → State crud.Db OpLogPool → Type 0) (name : Value) (s : State crud.Db OpLogPool)
      → IsConsistent laws s
      → (any (matches service_model (("name", name) ∷ [])) (laws.services.rows s.db) ≡ false
          → Q tt s)
      → Post (IsConsistent laws) Q (check_service_name_unique crud name s)
  unfolding check_service_name_unique
  check_service_name_unique-Post Q name =
      exists-Post service_model crud.services laws.services Q error_service_name_conflict
        (("name", name) ∷ [])

  or_code-Post :
      {O : Type 0} (Q : Option O → State crud.Db OpLogPool → Type 0) (code : String)
      (found : Option O) (s : State crud.Db OpLogPool)
      → ((s' : State crud.Db OpLogPool) → s'.db ≡ s.db → Q none s')
      → ((x : O) → found ≡ some x → Q (some x) s)
      → Post (IsConsistent laws) Q (or_code crud code found s)
  or_code-Post Q code none s missed q =
      bind-wp (IsConsistent laws) Q (set_generic_error_code code) (λ x. pure none) s
        (set_code-Post (IsConsistent laws) _ code s missed)
  or_code-Post Q code (some x) s missed q = q x refl

  pub find_pool-Post :
      (Q : Option PoolBase → State crud.Db OpLogPool → Type 0) (id : String) (use_name : Bool)
      (s : State crud.Db OpLogPool)
      → IsConsistent laws s
      → ((s' : State crud.Db OpLogPool) → s'.db ≡ s.db → Q none s')
      → ((p : PoolBase)
          → first (matches pool_model ((field_name use_name, text id) ∷ [])) (laws.pools.rows s.db)
            ≡ some p
          → Q (some p) s)
      → Post (IsConsistent laws) Q (find_pool crud id use_name s)
  unfolding find_pool find_by_field
  find_pool-Post Q id use_name s c missed q =
      bind-wp (IsConsistent laws) Q (find_by_field crud.pools (field_name use_name) (text id))
        (or_code crud error_pool_not_found) s
        (reading-Post (IsConsistent laws) _
          (λ db. crud.pools.read_by_field db (field_name use_name) (text id)) s c
          (λ found e. or_code-Post Q error_pool_not_found found s missed (λ p is_some. q p (
            sym (laws.pools.read_by_field_rows s.db (field_name use_name) (text id) found e)
            ∙ is_some))))

  pub find_service-Post :
      (Q : Option PoolService → State crud.Db OpLogPool → Type 0) (id : String) (use_name : Bool)
      (s : State crud.Db OpLogPool)
      → IsConsistent laws s
      → ((s' : State crud.Db OpLogPool) → s'.db ≡ s.db → Q none s')
      → ((p : PoolService)
          → first
              (matches service_model ((field_name use_name, text id) ∷ []))
              (laws.services.rows s.db)
            ≡ some p
          → Q (some p) s)
      → Post (IsConsistent laws) Q (find_service crud id use_name s)
  unfolding find_service find_by_field
  find_service-Post Q id use_name s c missed q =
      bind-wp (IsConsistent laws) Q (find_by_field crud.services (field_name use_name) (text id))
        (or_code crud error_service_not_found) s
        (reading-Post (IsConsistent laws) _
          (λ db. crud.services.read_by_field db (field_name use_name) (text id)) s c
          (λ found e. or_code-Post Q error_service_not_found found s missed (λ p is_some. q p (
            sym (laws.services.read_by_field_rows s.db (field_name use_name) (text id) found e)
            ∙ is_some))))

  -- The invariant is one of the database.
  pub moved :
      (s s' : State crud.Db OpLogPool) → s'.db ≡ s.db → IsConsistent laws s → IsConsistent laws s'
  moved s s' same =
      subst
        (λ db. Consistent (laws.pools.rows db) (laws.services.rows db) (laws.associations.rows db))
        (sym same)

  pub found_then :
      {O A : Type 0} (Q : A → State crud.Db OpLogPool → Type 0) (x : O)
      (k : O → Action (State crud.Db OpLogPool) A) (s : State crud.Db OpLogPool)
      → Post (IsConsistent laws) Q (k x s)
      → Post (IsConsistent laws) Q ((found_or_fail crud (some x) >>= k) s)
  unfolding ◌>>=◌ found_or_fail
  found_then Q x k s h = h

  pub none_then :
      {O A : Type 0} (Q : A → State crud.Db OpLogPool → Type 0)
      (k : O → Action (State crud.Db OpLogPool) A) (s : State crud.Db OpLogPool)
      → IsConsistent laws s
      → Post (IsConsistent laws) Q ((found_or_fail crud none >>= k) s)
  unfolding ◌>>=◌ found_or_fail
  none_then Q k s h = h

  -- A test whose refusal is not the last step.
  pub refuse_then :
      {A : Type 0} (Q : A → State crud.Db OpLogPool → Type 0) (code : String) (found : Bool)
      (k : Unit {0} → Action (State crud.Db OpLogPool) A) (s : State crud.Db OpLogPool)
      → IsConsistent laws s
      → (found ≡ false → Post (IsConsistent laws) Q (k tt s))
      → Post (IsConsistent laws) Q ((refuse_if crud code found >>= k) s)
  refuse_then Q code found k s c q =
      bind-wp (IsConsistent laws) Q (refuse_if crud code found) k s
        (refuse_if-Post (λ a s'. Post (IsConsistent laws) Q (k a s')) code found s c q)

  -- A test for associations, the refusal if there are some, and what follows.
  pub unbound_then :
      {A : Type 0} (Q : A → State crud.Db OpLogPool → Type 0) (code : String) (fields : Fields)
      (k : Unit {0} → Action (State crud.Db OpLogPool) A) (s : State crud.Db OpLogPool)
      → IsConsistent laws s
      → (any (matches association_model fields) (laws.associations.rows s.db) ≡ false
          → Post (IsConsistent laws) Q (k tt s))
      → Post
          (IsConsistent laws)
          Q
          ((exists crud.associations fields >>= λ found. refuse_if crud code found >>= k) s)
  unfolding exists
  unbound_then Q code fields k s c q =
      bind-wp (IsConsistent laws) Q (exists crud.associations fields) _ s (
        reading-Post (IsConsistent laws) _ (λ db. crud.associations.exists db fields) s c
          (λ found e.
            refuse_then Q code found k s c
              (λ absent. q (sym (laws.associations.exists_rows s.db fields found e) ∙ absent))))
