-- ===== src/Tenancy.antt =====
-- pkg/multitenancy and pkg/multitenancy/tenancy_manager: tenancies, and the manager that keeps those
-- which are loaded, by id and by path. The customers, the connections to databases and the controller
-- that the manager reads from are parameters. Of an error, loading says only that there was one.
pub mod Indexes
pub mod Addresses
pub mod Display
pub mod Controller
pub mod Calls
use evgo.Shared.{
  ◌≡◌, Bool, true, false, not, ◌&&◌, Option, none, some, List, [], ◌∷◌, ◌++◌, map, String,
  string_eq, ◌==◌, if◌then◌else◌, get, put, delete,
}
use evgo.Auth.Context.{Result, ok, err}

pub record TenancyDb : Type 0 where
  pub id : String
  pub description : String
  pub path : String
  pub shadow_path : String
  pub role : String
  pub customer_id : String
  pub pool_id : String
  pub dbname : String
  pub db_role : String
  pub active : Bool
  pub block_path : Bool
  pub block_shadow_path : Bool

pub record Customer : Type 0 where
  pub id : String
  pub login : String
  pub blocked : Bool

-- what the manager reads of a pool
pub record TenancyPool : Type 0 where
  pub id : String
  pub name : String
  pub active : Bool

-- TenancyBase; `connected` tells whether its database is open
pub record Tenancy : Type 0 where
  pub tenancy_db : TenancyDb
  pub customer : Option Customer
  pub pool : Option TenancyPool
  pub connected : Bool

pub record TenancyIpAddress : Type 0 where
  pub tag : String
  pub ip : String

-- A set of addresses for each tag: map[string]map[string]bool
abbrev pub TagAddresses : Type 0
TagAddresses = List (String × List (String × Bool))

-- TenancyManager; `closed` has the ids of the tenancies whose database was closed.
pub record TenancyManager : Type 0 where
  pub tenancies_by_id : List (String × Tenancy)
  pub tenancies_by_path : List (String × Tenancy)
  pub tenancies_by_shadow_path : List (String × Tenancy)
  pub tenancy_ip_addresses : List (String × TagAddresses)
  pub closed : List String

abbrev pub new_tenancy_manager : TenancyManager
new_tenancy_manager = record {
  tenancies_by_id = [];
  tenancies_by_path = [];
  tenancies_by_shadow_path = [];
  tenancy_ip_addresses = [];
  closed = [];
}

-- What the manager calls at the time of a request: the customers, the pools, the connection to a
-- database with the check that it belongs to the tenancy, and the controller's reads.
pub record Environment : Type 0 where
  pub customer : String → Result (Option Customer)
  pub pool : String → Option TenancyPool
  pub connect_database : TenancyPool → TenancyDb → Bool
  pub check_tenancy_database : TenancyDb → Bool
  pub find : String → Result TenancyDb
  pub list_ip_addresses : String → Result (List TenancyIpAddress)

-- `IsActive` of a tenancy; without a customer or a pool the source dereferences a nil pointer, and
-- the pool is only read if the tenancy and its customer are active
unfoldable pub is_active : Tenancy → Option Bool
is_active t = if not t.tenancy_db.active then some false else elim t.customer [
  | none ↦ none
  | some customer ↦
      if customer.blocked
      then some false
      else elim t.pool [ none ↦ none | some pool ↦ some pool.active ]
]

abbrev in_pool : Environment → TenancyDb → Customer → TenancyPool → Result Tenancy
in_pool env row customer pool =
    let skipped : Tenancy = record {
      tenancy_db = row;
      customer = some customer;
      pool = some pool;
      connected = false;
    } in
    if not pool.active
    then ok skipped
    else if not (env.connect_database pool row)
    then err
    else if not (env.check_tenancy_database row)
    then err
    else ok (record skipped { connected = true })

abbrev of_customer : Environment → TenancyDb → Option Customer → Result Tenancy
of_customer env row none =
    ok (record { tenancy_db = row; customer = none; pool = none; connected = false })
of_customer env row (some customer) =
    if not row.active
    then ok (record { tenancy_db = row; customer = some customer; pool = none; connected = false })
    else elim (env.pool row.pool_id) [ none ↦ err | some pool ↦ in_pool env row customer pool ]

-- `Init`. A customer that is not there is no error: the error that the source returns is nil.
unfoldable pub init : Environment → TenancyDb → Result Tenancy
init env row = elim (env.customer row.customer_id) [
  | err ↦ err
  | ok found ↦ of_customer env row found
]

unfoldable pub tenancy : String → TenancyManager → Option Tenancy
tenancy id m = get id m.tenancies_by_id

unfoldable pub tenancy_by_path : String → TenancyManager → Option Tenancy
tenancy_by_path path m = get path m.tenancies_by_path

unfoldable pub tenancy_by_shadow_path : String → TenancyManager → Option Tenancy
tenancy_by_shadow_path path m = get path m.tenancies_by_shadow_path

abbrev pub or_empty {ℓ} : {A : Type ℓ} → Option (List A) → List A
or_empty none = []
or_empty (some xs) = xs

abbrev pub is_some {ℓ} : {A : Type ℓ} → Option A → Bool
is_some none = false
is_some (some a) = true

abbrev pub in_tags : String → String → TagAddresses → Bool
in_tags ip tag tags = is_some (get ip (or_empty (get tag tags)))

unfoldable pub has_ip_address_by_path : String → String → String → TenancyManager → Bool
has_ip_address_by_path path ip tag m = in_tags ip tag (or_empty (get path m.tenancy_ip_addresses))

unfoldable pub tenancies : TenancyManager → List Tenancy
tenancies m = map (λ entry. entry.1) m.tenancies_by_id

-- `CloseTenancyDb`
abbrev pub closes : Tenancy → List String
closes t = if t.connected then t.tenancy_db.id ∷ [] else []

abbrev pub unloaded : String → Tenancy → TenancyManager → TenancyManager
unloaded id t m = record {
  tenancies_by_id = delete id m.tenancies_by_id;
  tenancies_by_path = delete t.tenancy_db.path m.tenancies_by_path;
  tenancies_by_shadow_path = delete t.tenancy_db.shadow_path m.tenancies_by_shadow_path;
  tenancy_ip_addresses =
      delete t.tenancy_db.shadow_path (delete t.tenancy_db.path m.tenancy_ip_addresses);
  closed = m.closed ++ closes t;
}

abbrev pub unloaded_if : String → Option Tenancy → TenancyManager → TenancyManager
unloaded_if id none m = m
unloaded_if id (some t) m = unloaded id t m

unfoldable pub unload_tenancy : String → TenancyManager → TenancyManager
unload_tenancy id m = unloaded_if id (get id m.tenancies_by_id) m

-- the loop of `LoadTenancyFromData` over the addresses
unfoldable pub add_addresses : List TenancyIpAddress → TagAddresses → TagAddresses
add_addresses [] tags = tags
add_addresses (address ∷ addresses) tags =
    add_addresses addresses
      (put address.tag (put address.ip true (or_empty (get address.tag tags))) tags)

abbrev pub with_addresses :
    Tenancy → List TenancyIpAddress → List (String × TagAddresses) → List (String × TagAddresses)
with_addresses t [] m = m
with_addresses t (address ∷ addresses) m =
    let tags : TagAddresses = add_addresses (address ∷ addresses) [] in
    put t.tenancy_db.shadow_path tags (put t.tenancy_db.path tags m)

abbrev pub addresses_or_none : Result (List TenancyIpAddress) → List TenancyIpAddress
addresses_or_none err = []
addresses_or_none (ok addresses) = addresses

unfoldable pub keep : Tenancy → List TenancyIpAddress → TenancyManager → TenancyManager
keep t addresses m = record m {
  tenancies_by_id = put t.tenancy_db.id t m.tenancies_by_id;
  tenancies_by_path = put t.tenancy_db.path t m.tenancies_by_path;
  tenancies_by_shadow_path = put t.tenancy_db.shadow_path t m.tenancies_by_shadow_path;
  tenancy_ip_addresses = with_addresses t addresses m.tenancy_ip_addresses;
}

module _ (env : Environment) where
  -- A failure to list the addresses is no error: the tenancy is kept without them.
  abbrev pub kept_if : TenancyDb → TenancyManager → Result Tenancy → TenancyManager × Result Tenancy
  kept_if row m err = (m, err)
  kept_if row m (ok t) = (keep t (addresses_or_none (env.list_ip_addresses row.id)) m, ok t)

  unfoldable pub load_tenancy_from_data :
      TenancyDb → TenancyManager → TenancyManager × Result Tenancy
  load_tenancy_from_data row m = kept_if row m (init env row)

  abbrev pub loaded_if : TenancyManager → Result TenancyDb → TenancyManager × Result Tenancy
  loaded_if m err = (m, err)
  loaded_if m (ok row) = load_tenancy_from_data row m

  unfoldable pub load_tenancy : String → TenancyManager → TenancyManager × Result Tenancy
  load_tenancy id m = loaded_if m (env.find id)

  abbrev pub is_ok : TenancyManager × Result Tenancy → TenancyManager × Bool
  is_ok (m, err) = (m, false)
  is_ok (m, ok t) = (m, true)

  -- `LoadTenancies` on the list from the database: the first error ends it
  unfoldable pub load_tenancies : List TenancyDb → TenancyManager → TenancyManager × Bool
  load_tenancies [] m = (m, true)
  load_tenancies (row ∷ rest) m =
      let all : TenancyManager × Bool = load_tenancies rest (load_tenancy_from_data row m).0 in
      if (is_ok (load_tenancy_from_data row m)).1
      then all
      else ((load_tenancy_from_data row m).0, false)

  -- `TenancyNotificationHandler.Handle`: whether there was no error
  unfoldable pub handle : String → String → TenancyManager → TenancyManager × Bool
  handle id operation m =
      if operation == "delete"
      then (unload_tenancy id m, true)
      else is_ok (load_tenancy id (unload_tenancy id m))

abbrev close_all : List (String × Tenancy) → List String
close_all [] = []
close_all ((id, t) ∷ m) = closes t ++ close_all m

unfoldable pub close : TenancyManager → TenancyManager
close m = record new_tenancy_manager { closed = m.closed ++ close_all m.tenancies_by_id }
