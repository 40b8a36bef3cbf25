-- ===== src/Tenancy/Controller/Keeps.antt =====
-- What the table of tenancies keeps under the operations of the controller
-- (pkg/multitenancy/tenancy_manager/tenancy_controller.go).
pub mod Operations
use evgo.Shared.{
  ◌≡◌, refl, sym, ◌∙◌, ap, ◌≢◌, inl, inr, Bool, true, false, ◌&&◌, ◌||◌, Option, none, some, List,
  [], ◌∷◌, ◌++◌, String, string_eq, ◌==◌, if◌then◌else◌, Bool-cases, In, All, arith, get,
}
use mathlib.Core.Path.{subst}
use evgo.Auth.Context.{Result, ok, err}
use evgo.Crud.{Value, text, flag, Fields, matches, Crud}
use evgo.Crud.Rows.{
  any, any-ext, change, without, has, Unique, Unique-change, Unique-without, has-without,
}
use evgo.Crud.Actions.{
  State, Action, Post, ◌>>=◌, ◌>>◌, fail, pure, reading, exists, set_generic_error_code, oplog,
  update_object,
}
use evgo.Crud.Hoare.{
  bind-wp, reading-Post, set_code-Post, update_object-Post, oplog_then, oplog-Post,
}
use evgo.Pool.Tables.{TableLaws}
use evgo.Pool.Consistency.Rows.{both_eq}
use evgo.Tenancy.{TenancyDb, TenancyIpAddress}
use evgo.Tenancy.Display.{parse_tenancy_display}
use evgo.Tenancy.Controller.{
  TenancyCrud, TenancyItem, TenancyLog, OpLogTenancy, tenancy_model, fail_with, refuse_if,
  first_item, find_tenancy, find_parsed, check_duplicate_role, check_duplicate_path,
  error_conflict_role, error_conflict_path,
}
use evgo.Tenancy.Controller.Conflicts.{
  tenancy_ids, conflicts, Pairwise, changed, Pairwise-changed, Pairwise-In, Unique-In, any-In,
}

abbrev pub customer_role : TenancyDb → String × String
customer_role t = (t.customer_id, t.role)

-- Ids are unique, a customer has one tenancy of a role, and no two tenancies of one pool have a path in
-- common, shadow paths included.
pub record Valid (ts : List TenancyDb) : Type 0 where
  pub ids : Unique tenancy_ids ts
  pub paths : Pairwise ts
  pub roles : Unique customer_role ts

pub record ControllerLaws (crud : TenancyCrud) : Type 0 where
  pub tenancies : TableLaws tenancy_model crud.tenancies
  pub join_rows :
      (db : crud.Db) (filter : Fields) (items : List TenancyItem)
      → crud.join db filter ≡ ok items
      → All (λ item. In item.row (tenancies.rows db)) items
  pub add_ip_keeps :
      (db db' : crud.Db) (id : String) (a : TenancyIpAddress)
      → crud.add_ip db id a ≡ ok db'
      → tenancies.rows db' ≡ tenancies.rows db
  pub delete_ip_keeps :
      (db db' : crud.Db) (id : String) (a : TenancyIpAddress)
      → crud.delete_ip db id a ≡ ok db'
      → tenancies.rows db' ≡ tenancies.rows db

-- The invariant of the database.
abbrev pub IsValid : {crud : TenancyCrud} → ControllerLaws crud → State crud.Db TenancyLog → Type 0
IsValid laws s = Valid (laws.tenancies.rows s.db)

-- No tenancy of the pool has the path as its path or as its shadow path.
abbrev pub IsFreePath : String → String → List TenancyDb → Type 0
IsFreePath pool_id path ts =
    (any (λ t. (t.pool_id == pool_id) && (t.path == path)) ts ≡ false)
    × (any (λ t. (t.pool_id == pool_id) && (t.shadow_path == path)) ts ≡ false)

and_true : (b : Bool) → (b && true) ≡ b
and_true true = refl
and_true false = refl

module _ (crud : TenancyCrud) (laws : ControllerLaws crud) where
  abbrev pub After : {A : Type 0} → Result A × State crud.Db TenancyLog → Type 0
  After = Post (IsValid laws) (λ a. IsValid laws)

  pub fail_with-Post :
      {A : Type 0} (Q : A → State crud.Db TenancyLog → Type 0) (code : String)
      (s : State crud.Db TenancyLog)
      → IsValid laws s
      → Post (IsValid laws) Q (fail_with crud code s)
  fail_with-Post Q code s v =
      bind-wp (IsValid laws) Q (set_generic_error_code code) (λ x. fail) s
        (set_code-Post (IsValid laws) _ code s
          (λ s' same. subst (λ db. Valid (laws.tenancies.rows db)) (sym same) v))

  refuse_if-Post :
      (Q : Unit {0} → State crud.Db TenancyLog → Type 0) (code : String) (found : Bool)
      (s : State crud.Db TenancyLog)
      → IsValid laws s
      → (found ≡ false → Q tt s)
      → Post (IsValid laws) Q (refuse_if crud code found s)
  unfolding refuse_if
  refuse_if-Post Q code true s v q = fail_with-Post Q code s v
  refuse_if-Post Q code false s v q = q refl

  -- A test for tenancies, and the refusal if there are some.
  absent-Post :
      (Q : Unit {0} → State crud.Db TenancyLog → Type 0) (code : String) (fields : Fields)
      (s : State crud.Db TenancyLog)
      → IsValid laws s
      → (any (matches tenancy_model fields) (laws.tenancies.rows s.db) ≡ false → Q tt s)
      → Post (IsValid laws) Q ((exists crud.tenancies fields >>= refuse_if crud code) s)
  unfolding exists
  absent-Post Q code fields s v q =
      bind-wp (IsValid laws) Q (exists crud.tenancies fields) (refuse_if crud code) s (
        reading-Post (IsValid laws) _ (λ db. crud.tenancies.exists db fields) s v
          (λ found e.
            refuse_if-Post Q code found s v
              (λ absent. q (sym (laws.tenancies.exists_rows s.db fields found e) ∙ absent))))

  pub check_duplicate_path-Post :
      (Q : Unit {0} → State crud.Db TenancyLog → Type 0) (pool_id path : String)
      (s : State crud.Db TenancyLog)
      → IsValid laws s
      → (IsFreePath pool_id path (laws.tenancies.rows s.db) → Q tt s)
      → Post (IsValid laws) Q (check_duplicate_path crud pool_id path s)
  unfolding check_duplicate_path
  check_duplicate_path-Post Q pool_id path s v q = bind-wp (IsValid laws) Q _ _ s (
      absent-Post _ error_conflict_path (("pool_id", text pool_id) ∷ ("path", text path) ∷ []) s v
        (λ no_path.
          absent-Post Q error_conflict_path
            (("pool_id", text pool_id) ∷ ("shadow_path", text path) ∷ []) s v
            (λ no_shadow_path. q (
              any-ext _ _ (laws.tenancies.rows s.db)
                    (λ t. ap (λ b. (t.pool_id == pool_id) && b) (sym (and_true (t.path == path))))
                  ∙ no_path,
              any-ext _ _ (laws.tenancies.rows s.db) (λ t.
                    ap (λ b. (t.pool_id == pool_id) && b) (sym (and_true (t.shadow_path == path))))
                  ∙ no_shadow_path,
            ))))

  pub check_duplicate_role-Post :
      (Q : Unit {0} → State crud.Db TenancyLog → Type 0) (customer_id role : String)
      (s : State crud.Db TenancyLog)
      → IsValid laws s
      → (has customer_role (customer_id, role) (laws.tenancies.rows s.db) ≡ false → Q tt s)
      → Post (IsValid laws) Q (check_duplicate_role crud customer_id role s)
  unfolding check_duplicate_role
  check_duplicate_role-Post Q customer_id role s v q =
      absent-Post Q error_conflict_role
        (("customer_id", text customer_id) ∷ ("role", text role) ∷ []) s v
        (λ absent. q (
          any-ext _ _ (laws.tenancies.rows s.db)
            (λ t. ap (λ b. (t.customer_id == customer_id) && b) (sym (and_true (t.role == role))))
          ∙ absent))

  first-Post :
      (Q : TenancyItem → State crud.Db TenancyLog → Type 0) (items : List TenancyItem)
      (s : State crud.Db TenancyLog)
      → IsValid laws s
      → All (λ item. In item.row (laws.tenancies.rows s.db)) items
      → ((item : TenancyItem) → In item.row (laws.tenancies.rows s.db) → Q item s)
      → Post (IsValid laws) Q (first_item crud items s)
  unfolding first_item
  first-Post Q [] s v rows q = fail_with-Post Q _ s v
  first-Post Q (item ∷ items) s v rows q = q item rows.0

  list_first-Post :
      (Q : TenancyItem → State crud.Db TenancyLog → Type 0) (filter : Fields)
      (s : State crud.Db TenancyLog)
      → IsValid laws s
      → ((item : TenancyItem) → In item.row (laws.tenancies.rows s.db) → Q item s)
      → Post (IsValid laws) Q ((reading (λ db. crud.join db filter) >>= first_item crud) s)
  list_first-Post Q filter s v q = bind-wp (IsValid laws) Q _ _ s (
      reading-Post (IsValid laws) _ (λ db. crud.join db filter) s v
        (λ items e. first-Post Q items s v (laws.join_rows s.db filter items e) q))

  pub find_tenancy-Post :
      (Q : TenancyItem → State crud.Db TenancyLog → Type 0) (id : String) (id_is_display : Bool)
      (s : State crud.Db TenancyLog)
      → IsValid laws s
      → ((item : TenancyItem) → In item.row (laws.tenancies.rows s.db) → Q item s)
      → Post (IsValid laws) Q (find_tenancy crud id id_is_display s)
  unfolding find_tenancy
  find_tenancy-Post Q id false s v q = list_first-Post Q (("tenancies.id", text id) ∷ []) s v q
  find_tenancy-Post Q id true s v q = after (parse_tenancy_display id)
    where
      after :
          (parsed : Option (String × String)) → Post (IsValid laws) Q (find_parsed crud parsed s)
      after none = fail_with-Post Q "invalid_format" s v
      after (some (login, role)) =
          list_first-Post Q (("customers.login", text login) ∷ ("role", text role) ∷ []) s v q

  -- What is logged and published changes no rows.
  pub logs-After :
      (a b : TenancyLog) (s : State crud.Db TenancyLog)
      → IsValid laws s
      → After ((oplog a >> oplog b) s)
  logs-After a b s v =
      oplog_then (IsValid laws) (λ x. IsValid laws) a _ s
        (oplog-Post (IsValid laws) (λ x. IsValid laws) b _ v)

  -- An update of a row, and what is logged after it.
  pub update-After :
      (row : TenancyDb) (fields : Fields)
      (k : TenancyDb → Action (State crud.Db TenancyLog) (Unit {0})) (s : State crud.Db TenancyLog)
      → IsValid laws s
      → Valid (changed row.id (tenancy_model.set fields) (laws.tenancies.rows s.db))
      → ((after : TenancyDb) (s' : State crud.Db TenancyLog) → IsValid laws s' → After (k after s'))
      → After ((update_object crud.tenancies row fields >>= k) s)
  update-After row fields k s v new quiet =
      bind-wp (IsValid laws) (λ x. IsValid laws) _ k s
        (update_object-Post (IsValid laws) _ crud.tenancies row fields s v (λ db after e.
          quiet after (record s { db = db })
            (subst Valid (sym (laws.tenancies.update_rows s.db db row after fields e)) new)))
