-- ===== src/Tenancy/Controller/Creation.antt =====
-- Operations of TenancyController that look up customers and pools and open databases: Add with
-- CreateTenancy, SetCustomer, ChangePoolOrDb and SetDbRole
-- (pkg/multitenancy/tenancy_manager/tenancy_controller.go and tenancy_manager.go).
pub mod Keeping
use evgo.Shared.{
  ◌≡◌, Bool, true, false, not, ◌&&◌, ◌||◌, Option, none, some, List, [], ◌∷◌, String, string_eq,
  ◌==◌, if◌then◌else◌,
}
use Prim.Native.String.{◌++◌ as str_append}
use evgo.Auth.Context.{Result, ok, err}
use evgo.Crud.{text, flag, Fields, Crud}
use evgo.Crud.Actions.{
  State, Action, ◌>>=◌, ◌>>◌, pure, fail, writing, set_generic_error_code, clear_error, oplog,
  update_object,
}
use evgo.Tenancy.{TenancyDb, Customer, TenancyPool, Tenancy, Environment, init}
use evgo.Tenancy.Controller.{
  TenancyCrud, Directory, TenancyItem, TenancyLog, logged, published, OpLogTenancy, Run, fail_with,
  find_tenancy, check_duplicate_role, check_duplicate_path, publish, with_role, new_oplog,
}

abbrev pub error_pool_not_found : String
error_pool_not_found = "pool_not_found"

abbrev pub error_pool_not_active : String
error_pool_not_active = "pool_not_active"

-- What is outside when a tenancy is created: a new id, two random strings in lower case, the prefix of
-- the names of databases, the event dispatcher, the new database, its models, its metas (the ids of the
-- tenancies it belongs to) and the record of a meta.
pub record Creation : Type 0 where
  pub new_id : String
  pub random_path : String
  pub random_shadow_path : String
  pub db_prefix : String
  pub has_event_dispatcher : Bool
  pub connect_new_database : TenancyPool → TenancyDb → Bool
  pub upgrade_database : TenancyDb → Bool
  pub metas : TenancyDb → Result (List String)
  pub create_meta : TenancyDb → Bool

abbrev pub or_default : String → String → String
or_default value default = if value == "" then default else value

-- the new tenancy of `CreateTenancy`
abbrev pub new_tenancy : Creation → TenancyDb → Customer → TenancyPool → TenancyDb
new_tenancy creation request customer pool = record request {
  id = creation.new_id;
  active = true;
  customer_id = customer.id;
  pool_id = pool.id;
  path = or_default request.path creation.random_path;
  shadow_path = or_default request.shadow_path creation.random_shadow_path;
  dbname = or_default request.dbname (
      str_append creation.db_prefix
        (str_append "_" (str_append customer.login (str_append "_" request.role))));
}

abbrev pub moved_to : String → String → TenancyDb → TenancyDb
moved_to pool_id dbname row = record row { pool_id = pool_id; dbname = dbname }

module _ (crud : TenancyCrud) where
  unfoldable pub or_not_found : Option Customer → Run crud Customer
  or_not_found none s = (err, record s { generic_error = some "customer_not_found" })
  or_not_found (some customer) s = (ok customer, s)

  abbrev pub or_fail : Result (Option Customer) → Run crud Customer
  or_fail err = fail
  or_fail (ok found) = or_not_found found

  abbrev pub customer_or_login : Directory → String → Result (Option Customer) → Run crud Customer
  customer_or_login directory id (ok found) = or_not_found found
  customer_or_login directory id err =
      if directory.is_not_found id
      then clear_error >> or_fail (directory.customer_by_login id)
      else fail

  unfoldable pub find_customer : Directory → String → Run crud Customer
  find_customer directory id = customer_or_login directory id (directory.customer id)

  abbrev pub or_unknown : Option TenancyPool → Run crud TenancyPool
  or_unknown none = fail_with crud error_pool_not_found
  or_unknown (some pool) = pure pool

  abbrev pub pool_or_name : Directory → String → Option TenancyPool → Run crud TenancyPool
  pool_or_name directory id (some pool) = pure pool
  pool_or_name directory id none = or_unknown (directory.pool_by_name id)

  unfoldable pub find_pool : Directory → String → Run crud TenancyPool
  find_pool directory id = pool_or_name directory id (directory.pool id)

  unfoldable pub require : Bool → Run crud (Unit {0})
  require b = if b then pure tt else fail

  unfoldable pub require_code : String → Bool → Run crud (Unit {0})
  require_code code b = if b then pure tt else fail_with crud code

  abbrev pub pool_active : Option TenancyPool → Bool
  pool_active none = false
  pool_active (some pool) = pool.active

  -- A tenancy with the new parameters is initialised for a check and closed again.
  abbrev pub check_initialized : Result Tenancy → Run crud (Unit {0})
  check_initialized err = fail
  check_initialized (ok t) = require_code error_pool_not_active (pool_active t.pool)

  unfoldable pub check_database : Environment → TenancyDb → Run crud (Unit {0})
  check_database env row = check_initialized (init env row)

  abbrev pub owns : TenancyDb → List String → Bool
  owns row [] = true
  owns row (id ∷ ids) = id == row.id

  abbrev pub is_empty : List String → Bool
  is_empty [] = true
  is_empty (id ∷ ids) = false

  -- A database with metas belongs to the tenancy of the first one; an empty one gets a meta.
  unfoldable pub claim_database : Creation → TenancyDb → Result (List String) → Run crud (Unit {0})
  claim_database creation row err = fail
  claim_database creation row (ok ids) = do
    require_code "foreign_tenancy_database" (owns row ids)
    require (not (is_empty ids) || creation.create_meta row)

  -- the event dispatcher and the database of a new tenancy
  unfoldable pub open_database : Creation → TenancyPool → TenancyDb → Run crud (Unit {0})
  open_database creation pool row = do
    require creation.has_event_dispatcher
    require (creation.connect_new_database pool row)
    require_code "tenancy_db_initialization_failed" (creation.upgrade_database row)
    claim_database creation row (creation.metas row)

  -- `CreateTenancy`. The checks for duplicates use the ids and the paths of the request, not those of
  -- the customer, the pool and the paths that the tenancy gets.
  unfoldable pub create_tenancy : Directory → Creation → TenancyDb → Run crud TenancyItem
  create_tenancy directory creation request = do
    customer ← find_customer directory request.customer_id
    pool ← find_pool directory request.pool_id
    require_code error_pool_not_active pool.active
    check_duplicate_role crud request.customer_id request.role
    check_duplicate_path crud request.pool_id request.path
    check_duplicate_path crud request.pool_id request.shadow_path
    open_database creation pool (new_tenancy creation request customer pool)
    pure (record {
      row = new_tenancy creation request customer pool;
      customer_login = customer.login;
      pool_name = pool.name;
    })

  abbrev added : TenancyItem → OpLogTenancy
  added item = record (with_role "add" item item.row) {
    shadow_path = item.row.shadow_path;
    path = item.row.path;
    db_name = item.row.dbname;
    pool = item.pool_name;
  }

  -- `Add`
  unfoldable pub add : Directory → Creation → TenancyDb → Run crud TenancyItem
  add directory creation request = do
    item ← create_tenancy directory creation request
    writing (λ db. crud.tenancies.create db item.row)
    oplog (logged (added item))
    publish crud "add" item.row
    pure item

  unfoldable pub set_customer : Directory → String → String → Bool → Run crud (Unit {0})
  set_customer directory id customer id_is_display = do
    item ← find_tenancy crud id id_is_display
    owner ← find_customer directory customer
    check_duplicate_role crud owner.id item.row.role
    row ← update_object crud.tenancies item.row (("customer_id", text owner.id) ∷ [])
    oplog (
        logged
          (record (new_oplog "set_customer" row.id) { role = row.role; customer = owner.login }))
    publish crud "set_customer" row

  unfoldable pub check_new_pool : TenancyDb → TenancyPool → Run crud (Unit {0})
  check_new_pool row pool =
      if pool.id == row.pool_id
      then pure tt
      else check_duplicate_path crud pool.id row.path
        >> check_duplicate_path crud pool.id row.shadow_path

  unfoldable pub check_if_active : Environment → TenancyDb → Run crud (Unit {0})
  check_if_active env row = if row.active then check_database env row else pure tt

  -- The old pool is told of a deletion if it is not called what the request calls the new one.
  unfoldable pub tell_old_pool : String → String → TenancyDb → Run crud (Unit {0})
  tell_old_pool old_pool_id requested row =
      if old_pool_id == requested then pure tt else oplog (published row.id "delete" old_pool_id)

  unfoldable pub change_pool_or_db :
      Directory → Environment → String → String → String → Bool → Run crud (Unit {0})
  change_pool_or_db directory env id pool_id dbname id_is_display = do
    item ← find_tenancy crud id id_is_display
    pool ← find_pool directory (or_default pool_id item.row.pool_id)
    check_new_pool item.row pool
    check_if_active env (moved_to pool.id (or_default dbname item.row.dbname) item.row)
    row ←
        update_object crud.tenancies (moved_to pool.id (or_default dbname item.row.dbname) item.row)
          (("pool_id", text pool.id) ∷ ("dbname", text (or_default dbname item.row.dbname)) ∷ [])
    oplog (
        logged (record (with_role "change_pool_or_db" item row) {
          pool = pool.name;
          db_name = or_default dbname item.row.dbname;
        }))
    tell_old_pool item.row.pool_id (or_default pool_id item.row.pool_id) row
    publish crud "change_pool_or_db" row

  -- The database is checked also for a tenancy that is not active.
  unfoldable pub set_db_role : Environment → String → String → Bool → Run crud (Unit {0})
  set_db_role env id db_role id_is_display = do
    item ← find_tenancy crud id id_is_display
    check_database env (record item.row { db_role = db_role })
    row ←
        update_object crud.tenancies (record item.row { db_role = db_role })
          (("db_role", text db_role) ∷ [])
    oplog (logged (record (with_role "set_db_role" item row) { db_role = db_role }))
    publish crud "set_db_role" row
