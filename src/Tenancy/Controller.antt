-- ===== src/Tenancy/Controller.antt =====
-- TenancyController (pkg/multitenancy/tenancy_manager/tenancy_controller.go), and CreateTenancy and the
-- checks of the manager that it calls. The CRUD object is a parameter; what is published to the pools is
-- written to the log of operations, in its order.
pub mod Conflicts
pub mod Keeps
pub mod Creation
use evgo.Shared.{
  ◌≡◌, Bool, true, false, not, ◌&&◌, ◌||◌, Option, none, some, List, [], ◌∷◌, String, string_eq,
  ◌==◌, if◌then◌else◌, get,
}
use Prim.Native.String.{◌++◌ as str_append}
use evgo.Auth.Context.{Result, ok, err}
use evgo.Crud.{Value, text, flag, Fields, Model, Crud}
use evgo.Crud.Actions.{
  State, Action, ◌>>=◌, ◌>>◌, pure, fail, reading, writing, set_generic_error_code, clear_error,
  oplog, update_object, exists,
}
use evgo.Pool.{text_or, flag_or}
use evgo.Tenancy.{TenancyDb, Customer, TenancyPool, Tenancy, TenancyIpAddress, Environment, init}
use evgo.Tenancy.Display.{parse_tenancy_display}

-- OpLogTenancy
pub record OpLogTenancy : Type 0 where
  pub operation : String
  pub tenancy_id : String
  pub customer : String
  pub role : String
  pub path : String
  pub shadow_path : String
  pub db_name : String
  pub pool : String
  pub db_role : String
  pub ip_address : String
  pub ip_address_tag : String
  pub block_path : Bool
  pub block_shadow_path : Bool

pub data TenancyLog : Type 0 where
  logged : OpLogTenancy → TenancyLog
  published : String → String → String → TenancyLog

-- a row of the join of tenancies, customers and pools
pub record TenancyItem : Type 0 where
  pub row : TenancyDb
  pub customer_login : String
  pub pool_name : String

abbrev pub tenancy_model : Model TenancyDb
tenancy_model = record {
  id = λ t. t.id;
  column = λ name t.
      if name == "id"
      then some (text t.id)
      else if name == "pool_id"
      then some (text t.pool_id)
      else if name == "path"
      then some (text t.path)
      else if name == "shadow_path"
      then some (text t.shadow_path)
      else if name == "customer_id"
      then some (text t.customer_id)
      else if name == "role"
      then some (text t.role)
      else none;
  set = λ fields t. record t {
    path = text_or t.path (get "path" fields);
    shadow_path = text_or t.shadow_path (get "shadow_path" fields);
    role = text_or t.role (get "role" fields);
    customer_id = text_or t.customer_id (get "customer_id" fields);
    pool_id = text_or t.pool_id (get "pool_id" fields);
    dbname = text_or t.dbname (get "dbname" fields);
    db_role = text_or t.db_role (get "db_role" fields);
    active = flag_or t.active (get "active" fields);
    block_path = flag_or t.block_path (get "block_path" fields);
    block_shadow_path = flag_or t.block_shadow_path (get "block_shadow_path" fields);
  };
}

-- The tables, the join of `List`, and the operations on the addresses of a tenancy.
pub record TenancyCrud : Type 1 where
  pub Db : Type 0
  pub tenancies : Crud Db TenancyDb
  pub join : Db → Fields → Result (List TenancyItem)
  pub add_ip : Db → String → TenancyIpAddress → Result Db
  pub delete_ip : Db → String → TenancyIpAddress → Result Db

-- What the controller calls besides: customers by id (an error, whether it is that there is none) and
-- by login, and pools by id and by name.
pub record Directory : Type 0 where
  pub customer : String → Result (Option Customer)
  pub is_not_found : String → Bool
  pub customer_by_login : String → Result (Option Customer)
  pub pool : String → Option TenancyPool
  pub pool_by_name : String → Option TenancyPool

abbrev pub error_tenancy_not_found : String
error_tenancy_not_found = "tenancy_not_found"

abbrev pub error_conflict_role : String
error_conflict_role = "tenancy_conflict_role"

abbrev pub error_conflict_path : String
error_conflict_path = "tenancy_conflict_path"

abbrev pub new_oplog : String → String → OpLogTenancy
new_oplog operation id = record {
  operation = operation;
  tenancy_id = id;
  customer = "";
  role = "";
  path = "";
  shadow_path = "";
  db_name = "";
  pool = "";
  db_role = "";
  ip_address = "";
  ip_address_tag = "";
  block_path = false;
  block_shadow_path = false;
}

abbrev pub with_paths : String → TenancyItem → TenancyDb → OpLogTenancy
with_paths operation item row = record (new_oplog operation row.id) {
  role = row.role;
  shadow_path = row.shadow_path;
  path = row.path;
  customer = item.customer_login;
}

abbrev pub with_role : String → TenancyItem → TenancyDb → OpLogTenancy
with_role operation item row = record (new_oplog operation row.id) {
  role = row.role;
  customer = item.customer_login;
}

abbrev pub blocks : Bool → String → TenancyDb → Fields
blocks blocked mode row =
    if mode == "default"
    then ("block_path", flag blocked) ∷ ("block_shadow_path", flag row.block_shadow_path) ∷ []
    else if mode == "shadow"
    then ("block_path", flag row.block_path) ∷ ("block_shadow_path", flag blocked) ∷ []
    else ("block_path", flag blocked) ∷ ("block_shadow_path", flag blocked) ∷ []

module _ (crud : TenancyCrud) where
  abbrev pub Run : Type 0 → Type 0
  Run A = Action (State crud.Db TenancyLog) A

  abbrev pub fail_with : {A : Type 0} → String → Run A
  fail_with code = set_generic_error_code code >> fail

  unfoldable pub refuse_if : String → Bool → Run (Unit {0})
  refuse_if code found = if found then fail_with code else pure tt

  -- `PublishOp`
  abbrev pub publish : String → TenancyDb → Run (Unit {0})
  publish op row = oplog (published row.id op row.pool_id)

  unfoldable pub first_item : List TenancyItem → Run TenancyItem
  first_item [] = fail_with error_tenancy_not_found
  first_item (item ∷ items) = pure item

  abbrev pub list_first : Fields → Run TenancyItem
  list_first filter = reading (λ db. crud.join db filter) >>= first_item

  abbrev pub find_parsed : Option (String × String) → Run TenancyItem
  find_parsed none = fail_with "invalid_format"
  find_parsed (some (login, role)) =
      list_first (("customers.login", text login) ∷ ("role", text role) ∷ [])

  -- `FindTenancy` with `TenancyId`
  unfoldable pub find_tenancy : String → Bool → Run TenancyItem
  find_tenancy id id_is_display =
      if id_is_display
      then find_parsed (parse_tenancy_display id)
      else list_first (("tenancies.id", text id) ∷ [])

  -- `CheckDuplicateRole` of the manager
  unfoldable pub check_duplicate_role : String → String → Run (Unit {0})
  check_duplicate_role customer_id role =
      exists crud.tenancies (("customer_id", text customer_id) ∷ ("role", text role) ∷ [])
      >>= refuse_if error_conflict_role

  -- `CheckDuplicatePath`
  unfoldable pub check_duplicate_path : String → String → Run (Unit {0})
  check_duplicate_path pool_id path =
      (exists crud.tenancies (("pool_id", text pool_id) ∷ ("path", text path) ∷ [])
        >>= refuse_if error_conflict_path)
      >> (exists crud.tenancies (("pool_id", text pool_id) ∷ ("shadow_path", text path) ∷ [])
          >>= refuse_if error_conflict_path)

  unfoldable pub set_path : String → String → Bool → Run (Unit {0})
  set_path id path id_is_display = do
    item ← find_tenancy id id_is_display
    check_duplicate_path item.row.pool_id path
    row ← update_object crud.tenancies item.row (("path", text path) ∷ [])
    oplog (logged (with_paths "set_path" item row))
    publish "set_path" row

  unfoldable pub set_shadow_path : String → String → Bool → Run (Unit {0})
  set_shadow_path id path id_is_display = do
    item ← find_tenancy id id_is_display
    check_duplicate_path item.row.pool_id path
    row ← update_object crud.tenancies item.row (("shadow_path", text path) ∷ [])
    oplog (logged (with_paths "set_shadow_path" item row))
    publish "set_shadow_path" row

  unfoldable pub set_role : String → String → Bool → Run (Unit {0})
  set_role id role id_is_display = do
    item ← find_tenancy id id_is_display
    check_duplicate_role item.row.customer_id role
    row ← update_object crud.tenancies item.row (("role", text role) ∷ [])
    oplog (logged (with_role "set_role" item row))
    publish "set_role" row

  -- `Activate` and `Deactivate`
  abbrev pub set_active : String → Bool → String → Bool → Run (Unit {0})
  set_active operation active id id_is_display = do
    item ← find_tenancy id id_is_display
    row ← update_object crud.tenancies item.row (("active", flag active) ∷ [])
    oplog (logged (with_role operation item row))
    publish operation row

  unfoldable pub activate : String → Bool → Run (Unit {0})
  activate = set_active "activate" true

  unfoldable pub deactivate : String → Bool → Run (Unit {0})
  deactivate = set_active "deactivate" false

  unfoldable pub set_path_blocked : String → Bool → String → Bool → Run (Unit {0})
  set_path_blocked id blocked mode id_is_display = do
    item ← find_tenancy id id_is_display
    row ← update_object crud.tenancies item.row (blocks blocked mode item.row)
    oplog (
        logged (record (new_oplog "set_path_blocked" row.id) {
          block_path = row.block_path;
          block_shadow_path = row.block_shadow_path;
          customer = item.customer_login;
        }))
    publish "set_path_blocked" row

  -- `Delete`; a database can not be dropped
  unfoldable pub delete : String → Bool → Bool → Run (Unit {0})
  delete id with_database id_is_display =
      if with_database then fail_with "operation_unsupported" else (do
        item ← find_tenancy id id_is_display
        writing (λ db. crud.tenancies.delete db item.row)
        oplog (logged (with_role "delete" item item.row))
        publish "delete" item.row)

  unfoldable pub add_ip_address : String → String → String → Bool → Run (Unit {0})
  add_ip_address id ip tag id_is_display = do
    item ← find_tenancy id id_is_display
    writing (λ db. crud.add_ip db item.row.id (record { tag = tag; ip = ip }))
    oplog (
        logged (record (with_role "add_ip_address" item item.row) {
          ip_address = ip;
          ip_address_tag = tag;
        }))
    publish "add_ip_address" item.row

  unfoldable pub delete_ip_address : String → String → String → Bool → Run (Unit {0})
  delete_ip_address id ip tag id_is_display = do
    item ← find_tenancy id id_is_display
    writing (λ db. crud.delete_ip db item.row.id (record { tag = tag; ip = ip }))
    oplog (logged (record (with_role "delete_ip_address" item item.row) { ip_address_tag = tag }))
    publish "delete_ip_address" item.row
