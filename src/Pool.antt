-- ===== src/Pool.antt =====
-- pkg/pool: pools, the services they are made of, and the controller of both (pool_controller.go).
-- The CRUD object of each table is a parameter; an id that is a name is marked by `use_name`.
pub mod Tables
pub mod Consistency
pub mod Calls
pub mod Bindings
pub mod Store
use evgo.Shared.{
  ℕ, ◌≡◌, Bool, true, false, ◌&&◌, Option, none, some, List, [], ◌∷◌, String, string_eq, ◌==◌,
  if◌then◌else◌, get, length, ltb,
}
use Prim.Native.String.{◌++◌ as str_append}
use evgo.Auth.Context.{Result, ok, err}
use evgo.Crud.{Value, text, flag, Fields, Model, Crud}
use evgo.Crud.Actions.{
  State, Action, ◌>>=◌, ◌>>◌, pure, fail, reading, writing, set_generic_error_code, clear_error,
  oplog, find_by_field, find_update, delete_by_field, exists, list_all, find,
}

pub record PoolBase : Type 0 where
  pub id : String
  pub name : String
  pub long_name : String
  pub description : String
  pub active : Bool

-- of ServiceConfigBase, the fields that the pools' code reads or that have a rule of their own
pub record PoolService : Type 0 where
  pub id : String
  pub name : String
  pub active : Bool
  pub type_name : String
  pub provider : String
  pub private_host : String
  pub ip_address : String
  pub db_name : String

pub record PoolServiceAssociation : Type 0 where
  pub id : String
  pub pool_id : String
  pub service_id : String
  pub role : String

-- a row of the join of associations, pools and services
pub record PoolServiceBinding : Type 0 where
  pub role : String
  pub pool_id : String
  pub pool_name : String
  pub service_id : String
  pub service_name : String
  pub active : Bool

pub record OpLogPool : Type 0 where
  pub operation : String
  pub pool_id : String
  pub pool_name : String
  pub service_id : String
  pub service_name : String
  pub role : String

abbrev pub new_oplog : String → OpLogPool
new_oplog operation = record {
  operation = operation;
  pool_id = "";
  pool_name = "";
  service_id = "";
  service_name = "";
  role = "";
}

-- `PrivateHost`
unfoldable pub private_host : PoolService → String
private_host service =
    if service.private_host == "" then service.ip_address else service.private_host

abbrev pub text_or : String → Option Value → String
text_or old (some (text new)) = new
text_or old (some (flag b)) = old
text_or old none = old

abbrev pub flag_or : Bool → Option Value → Bool
flag_or old (some (flag new)) = new
flag_or old (some (text t)) = old
flag_or old none = old

-- The columns that the controller filters by, and those that it may update.
-- The fields that an update may set. An id among them, which would change that of the row, is refused
-- before by the validation of the API (pkg/validator, ValidateMap), and passed over here.
abbrev pub pool_model : Model PoolBase
pool_model = record {
  id = λ p. p.id;
  column = λ name p.
      if name == "id"
      then some (text p.id)
      else if name == "name"
      then some (text p.name)
      else none;
  set = λ fields p. record p {
    name = text_or p.name (get "name" fields);
    long_name = text_or p.long_name (get "long_name" fields);
    description = text_or p.description (get "description" fields);
    active = flag_or p.active (get "active" fields);
  };
}

-- as for pools
abbrev pub service_model : Model PoolService
service_model = record {
  id = λ p. p.id;
  column = λ name p.
      if name == "id"
      then some (text p.id)
      else if name == "name"
      then some (text p.name)
      else none;
  set = λ fields p. record p {
    name = text_or p.name (get "name" fields);
    active = flag_or p.active (get "active" fields);
    type_name = text_or p.type_name (get "type_name" fields);
    provider = text_or p.provider (get "provider" fields);
    private_host = text_or p.private_host (get "private_host" fields);
    ip_address = text_or p.ip_address (get "ip_address" fields);
    db_name = text_or p.db_name (get "db_name" fields);
  };
}

abbrev pub association_model : Model PoolServiceAssociation
association_model = record {
  id = λ a. a.id;
  column = λ name a.
      if name == "id"
      then some (text a.id)
      else if name == "pool_id"
      then some (text a.pool_id)
      else if name == "service_id"
      then some (text a.service_id)
      else if name == "role"
      then some (text a.role)
      else none;
  set = λ fields a. a;
}

-- The three tables of the database, and its joins: by the id of a pool, and by that of a service.
pub record PoolCrud : Type 1 where
  pub Db : Type 0
  pub pools : Crud Db PoolBase
  pub services : Crud Db PoolService
  pub associations : Crud Db PoolServiceAssociation
  pub join_pool : Db → String → Result (List PoolServiceBinding)
  pub join_service : Db → String → Result (List PoolServiceBinding)

-- `fieldName`
abbrev pub field_name : Bool → String
field_name use_name = if use_name then "name" else "id"

abbrev pub error_pool_not_found : String
error_pool_not_found = "pool_not_found"

abbrev pub error_service_not_found : String
error_service_not_found = "service_not_found"

abbrev pub error_pool_name_conflict : String
error_pool_name_conflict = "pool_name_conflict"

abbrev pub error_service_name_conflict : String
error_service_name_conflict = "service_name_conflict"

abbrev pub error_service_role_conflict : String
error_service_role_conflict = "service_role_conflict"

abbrev pub error_bindings_exist : String
error_bindings_exist = "pool_service_bindings_exist"

abbrev pub error_bound_to_pool : String
error_bound_to_pool = "service_bound_to_pool"

abbrev activate_op : List (String × Value) → Option Value → Bool × String × Bool
activate_op fields (some (flag true)) = (true, "activate", ltb 1 (length fields))
activate_op fields (some (flag false)) = (true, "deactivate", ltb 1 (length fields))
activate_op fields (some (text t)) = (false, "", true)
activate_op fields none = (false, "", true)

-- `CheckIfActivate`: whether the state is set, the name of that operation, and whether there are
-- other fields
unfoldable pub check_if_activate : Fields → Bool × String × Bool
check_if_activate fields = activate_op fields (get "active" fields)

unfoldable pub when : {S : Type 0} → Bool → Action S (Unit {0}) → Action S (Unit {0})
when b m = if b then m else pure tt

module _ (crud : PoolCrud) where
  abbrev pub Run : Type 0 → Type 0
  Run A = Action (State crud.Db OpLogPool) A

  abbrev pub fail_with : {A : Type 0} → String → Run A
  fail_with code = set_generic_error_code code >> fail

  abbrev pub or_code : {A : Type 0} → String → Option A → Run (Option A)
  or_code code none = set_generic_error_code code >> pure none
  or_code code (some found) = pure (some found)

  unfoldable pub or_fail : {A : Type 0} → String → Option A → Run A
  or_fail code none = fail_with code
  or_fail code (some found) = pure found

  unfoldable pub refuse_if : String → Bool → Run (Unit {0})
  refuse_if code found = if found then fail_with code else pure tt

  unfoldable pub check_pool_name_unique : Value → Run (Unit {0})
  check_pool_name_unique name =
      exists crud.pools (("name", name) ∷ []) >>= refuse_if error_pool_name_conflict

  unfoldable pub check_service_name_unique : Value → Run (Unit {0})
  check_service_name_unique name =
      exists crud.services (("name", name) ∷ []) >>= refuse_if error_service_name_conflict

  unfoldable pub find_pool : String → Bool → Run (Option PoolBase)
  find_pool id use_name =
      find_by_field crud.pools (field_name use_name) (text id) >>= or_code error_pool_not_found

  unfoldable pub find_service : String → Bool → Run (Option PoolService)
  find_service id use_name =
      find_by_field crud.services (field_name use_name) (text id)
      >>= or_code error_service_not_found

  -- The id of the pool is the one that `InitObject` has made.
  unfoldable pub add_pool : PoolBase → Run PoolBase
  add_pool pool = do
    check_pool_name_unique (text pool.name)
    writing (λ db. crud.pools.create db pool)
    oplog (record (new_oplog "add_pool") { pool_id = pool.id; pool_name = pool.name })
    pure pool

  unfoldable pub add_service : PoolService → Run PoolService
  add_service service = do
    check_service_name_unique (text service.name)
    writing (λ db. crud.services.create db service)
    oplog
        (record (new_oplog "add_service") { service_id = service.id; service_name = service.name })
    pure service

  unfoldable pub check_new_name : (Value → Run (Unit {0})) → Option Value → Run (Unit {0})
  check_new_name check none = pure tt
  check_new_name check (some name) = check name

  -- Also for a pool the log names the service.
  unfoldable pub log_update : String → String → String → Fields → Run (Unit {0})
  log_update kind id name fields =
      let (activates, op, others) = check_if_activate fields in
      let entry : String → OpLogPool =
        λ operation. record (new_oplog operation) { service_id = id; service_name = name } in
      do
        when activates (oplog (entry (str_append op (str_append "_" kind))))
        when others (oplog (entry (str_append "update_" kind)))

  unfoldable pub update_pool : String → Fields → Bool → Run PoolBase
  update_pool id fields use_name = do
    check_new_name check_pool_name_unique (get "name" fields)
    found ← find_update crud.pools (field_name use_name) (text id) fields
    pool ← or_fail error_pool_not_found found
    log_update "pool" pool.id pool.name fields
    updated ← find_pool pool.id false
    or_fail error_pool_not_found updated

  unfoldable pub update_service : String → Fields → Bool → Run PoolService
  update_service id fields use_name = do
    check_new_name check_service_name_unique (get "name" fields)
    found ← find_update crud.services (field_name use_name) (text id) fields
    service ← or_fail error_service_not_found found
    log_update "service" service.id service.name fields
    updated ← find_service service.id false
    or_fail error_service_not_found updated

  abbrev pub pool_id_of : Option PoolBase → String
  pool_id_of none = ""
  pool_id_of (some pool) = pool.id

  abbrev pub service_id_of : Option PoolService → String
  service_id_of none = ""
  service_id_of (some service) = service.id

  -- An id is not looked up.
  unfoldable pub pool_id : String → Bool → Run String
  pool_id id use_name =
      if use_name then (do found ← find_pool id true; pure (pool_id_of found)) else pure id

  unfoldable pub service_id : String → Bool → Run String
  service_id id use_name =
      if use_name then (do found ← find_service id true; pure (service_id_of found)) else pure id

  -- What is not found is no error.
  unfoldable pub unless_empty : String → Run (Unit {0}) → Run (Unit {0})
  unless_empty id m = if id == "" then clear_error else m

  abbrev pub name_if : Bool → String → String
  name_if use_name id = if use_name then id else ""

  unfoldable pub delete_pool : String → Bool → Run (Unit {0})
  delete_pool id use_name = do
    pool_id ← pool_id id use_name
    unless_empty pool_id (do
      found ← exists crud.associations (("pool_id", text pool_id) ∷ [])
      refuse_if error_bindings_exist found
      delete_by_field crud.pools "id" (text pool_id)
      oplog
          (record (new_oplog "delete_pool") { pool_id = pool_id; pool_name = name_if use_name id }))

  unfoldable pub delete_service : String → Bool → Run (Unit {0})
  delete_service id use_name = do
    service_id ← service_id id use_name
    unless_empty service_id (do
      found ← exists crud.associations (("service_id", text service_id) ∷ [])
      refuse_if error_bound_to_pool found
      delete_by_field crud.services "id" (text service_id)
      oplog (record (new_oplog "delete_service") {
        service_id = service_id;
        service_name = name_if use_name id;
      }))

  unfoldable pub get_pools : Fields → Run (List PoolBase)
  get_pools filter = list_all crud.pools filter

  unfoldable pub get_services : Fields → Run (List PoolService)
  get_services filter = list_all crud.services filter

  unfoldable pub found_or_fail : {A : Type 0} → Option A → Run A
  found_or_fail none = fail
  found_or_fail (some found) = pure found

  -- `new_id` is the id that `InitObject` makes.
  unfoldable pub add_service_to_pool : String → String → String → String → Bool → Run (Unit {0})
  add_service_to_pool new_id pool_id service_id role use_name = do
    found_pool ← find_pool pool_id use_name
    pool ← found_or_fail found_pool
    found_service ← find_service service_id use_name
    service ← found_or_fail found_service
    taken ← exists crud.associations (("pool_id", text pool.id) ∷ ("role", text role) ∷ [])
    refuse_if error_service_role_conflict taken
    writing (λ db.
        crud.associations.create db
          (record { id = new_id; pool_id = pool.id; service_id = service.id; role = role }))
    oplog (record (new_oplog "add_service_to_pool") {
      pool_id = pool.id;
      pool_name = pool.name;
      service_id = service.id;
      service_name = service.name;
      role = role;
    })

  abbrev pub delete_association :
      String → String → OpLogPool → Option PoolServiceAssociation → Run (Unit {0})
  delete_association pool_id role entry none = pure tt
  delete_association pool_id role entry (some association) = do
    writing (λ db. crud.associations.delete db association)
    oplog entry

  unfoldable pub remove_service_from_pool : String → String → Bool → Run (Unit {0})
  remove_service_from_pool id role use_name = do
    pool_id ← pool_id id use_name
    unless_empty pool_id (
        find crud.associations (("pool_id", text pool_id) ∷ ("role", text role) ∷ [])
        >>= delete_association pool_id role (record (new_oplog "remove_service_from_pool") {
          pool_id = pool_id;
          pool_name = name_if use_name id;
          role = role;
        }))

  unfoldable pub remove_all_services_from_pool : String → Bool → Run (Unit {0})
  remove_all_services_from_pool id use_name = do
    pool_id ← pool_id id use_name
    unless_empty pool_id (do
      writing (λ db. crud.associations.delete_by_fields db (("pool_id", text pool_id) ∷ []))
      oplog (record (new_oplog "remove_all_services_from_pool") {
        pool_id = pool_id;
        pool_name = name_if use_name id;
      }))

  unfoldable pub remove_service_from_all_pools : String → Bool → Run (Unit {0})
  remove_service_from_all_pools id use_name = do
    service_id ← service_id id use_name
    unless_empty service_id (do
      writing (λ db. crud.associations.delete_by_fields db (("service_id", text service_id) ∷ []))
      oplog (record (new_oplog "remove_service_from_all_pools") {
        service_id = service_id;
        service_name = name_if use_name id;
      }))

  abbrev pub list_unless_empty :
      String → Run (List PoolServiceBinding) → Run (List PoolServiceBinding)
  list_unless_empty id m = if id == "" then clear_error >> pure [] else m

  unfoldable pub get_pool_bindings : String → Bool → Run (List PoolServiceBinding)
  get_pool_bindings id use_name = do
    pool_id ← pool_id id use_name
    list_unless_empty pool_id (reading (λ db. crud.join_pool db pool_id))

  unfoldable pub get_service_bindings : String → Bool → Run (List PoolServiceBinding)
  get_service_bindings id use_name = do
    service_id ← service_id id use_name
    list_unless_empty service_id (reading (λ db. crud.join_service db service_id))

  unfoldable pub activate_pool : String → Bool → Run PoolBase
  activate_pool id use_name = update_pool id (("active", flag true) ∷ []) use_name

  unfoldable pub deactivate_pool : String → Bool → Run PoolBase
  deactivate_pool id use_name = update_pool id (("active", flag false) ∷ []) use_name

  unfoldable pub activate_service : String → Bool → Run PoolService
  activate_service id use_name = update_service id (("active", flag true) ∷ []) use_name

  unfoldable pub deactivate_service : String → Bool → Run PoolService
  deactivate_service id use_name = update_service id (("active", flag false) ∷ []) use_name
