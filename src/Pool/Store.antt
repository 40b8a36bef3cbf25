-- ===== src/Pool/Store.antt =====
-- pkg/pool/pool.go, `LoadPool`, and pkg/pool/pool_store.go: pools with the services bound to them, and
-- the store that a program keeps of them. A map of services is kept in the order of its keys' arrival.
pub mod Contents
use evgo.Shared.{
  ◌≡◌, refl, Bool, true, false, Option, none, some, List, [], ◌∷◌, map, String, string_eq, ◌==◌,
  if◌then◌else◌, get, put,
}
use evgo.Auth.Context.{Result, ok, err}
use evgo.Crud.{Fields}
use evgo.Crud.Actions.{State, Action, ◌>>=◌, ◌>>◌, pure, fail}
use evgo.Pool.{
  PoolCrud, PoolBase, PoolServiceBinding, OpLogPool, find_pool, get_pools, get_pool_bindings,
}

-- a pool whose services are set
pub record LoadedPool : Type 0 where
  pub pool : PoolBase
  pub services : List (String × PoolServiceBinding)

abbrev add_services :
    List PoolServiceBinding
    → List (String × PoolServiceBinding)
    → List (String × PoolServiceBinding)
add_services [] m = m
add_services (b ∷ bs) m = add_services bs (put b.role b m)

-- `SetServices`: of two services of one role, the later stays
unfoldable pub set_services : List PoolServiceBinding → PoolBase → LoadedPool
set_services services pool = record { pool = pool; services = add_services services [] }

-- `Service`
unfoldable pub service : String → LoadedPool → Option PoolServiceBinding
service role loaded = get role loaded.services

abbrev named : String → List (String × PoolServiceBinding) → Option PoolServiceBinding
named name [] = none
named name ((role, b) ∷ m) = if b.service_name == name then some b else named name m

-- `ServiceByName`
unfoldable pub service_by_name : String → LoadedPool → Option PoolServiceBinding
service_by_name name loaded = named name loaded.services

pub record PoolStore : Type 0 where
  pub self_pool : Option LoadedPool
  pub pools_by_name : List (String × LoadedPool)
  pub pools_by_id : List (String × LoadedPool)

abbrev pub new_pool_store : PoolStore
new_pool_store = record { self_pool = none; pools_by_name = []; pools_by_id = [] }

unfoldable pub keep_pool : LoadedPool → PoolStore → PoolStore
keep_pool loaded store = record store {
  pools_by_id = put loaded.pool.id loaded store.pools_by_id;
  pools_by_name = put loaded.pool.name loaded store.pools_by_name;
}

abbrev keep_as_self : LoadedPool → PoolStore → PoolStore
keep_as_self loaded store = record (keep_pool loaded store) { self_pool = some loaded }

module _ (crud : PoolCrud) where
  abbrev load_found : Option PoolBase → Action (State crud.Db OpLogPool) (Option LoadedPool)
  load_found none = pure none
  load_found (some pool) = do
    services ← get_pool_bindings crud pool.id false
    pure (some (set_services services pool))

  -- `LoadPool`
  unfoldable pub load_pool : String → Bool → Action (State crud.Db OpLogPool) (Option LoadedPool)
  load_pool id use_name = find_pool crud id use_name >>= load_found

  -- `loadServices` for each pool, in their order
  unfoldable pub keep_pools : List PoolBase → PoolStore → Action (State crud.Db OpLogPool) PoolStore
  keep_pools [] store = pure store
  keep_pools (pool ∷ pools) store = do
    services ← get_pool_bindings crud pool.id false
    keep_pools pools (keep_pool (set_services services pool) store)

  abbrev keep_self : Option PoolBase → PoolStore → Action (State crud.Db OpLogPool) PoolStore
  keep_self none store = fail
  keep_self (some pool) store = do
    services ← get_pool_bindings crud pool.id false
    pure (keep_as_self (set_services services pool) store)

  -- `Init`, after the configuration is loaded: all pools, or the own one
  unfoldable pub init : Bool → String → PoolStore → Action (State crud.Db OpLogPool) PoolStore
  init enable_pools pool_name store =
      if enable_pools
      then (if pool_name == ""
          then (get_pools crud [] >>= λ pools. keep_pools pools store)
          else find_pool crud pool_name true >>= λ found. keep_self found store)
      else pure store

unfoldable pub pool : String → PoolStore → Option LoadedPool
pool id store = get id store.pools_by_id

unfoldable pub pool_by_name : String → PoolStore → Option LoadedPool
pool_by_name name store = get name store.pools_by_name

abbrev or_by_name : String → PoolStore → Option LoadedPool → Option LoadedPool
or_by_name id store none = pool_by_name id store
or_by_name id store (some loaded) = some loaded

-- `FindPool`: an id, or else a name
unfoldable pub find_stored : String → PoolStore → Option LoadedPool
find_stored id store = or_by_name id store (pool id store)

abbrev service_of : String → Option LoadedPool → Option PoolServiceBinding
service_of role none = none
service_of role (some loaded) = service role loaded

unfoldable pub self_pool_service : String → PoolStore → Option PoolServiceBinding
self_pool_service role store = service_of role store.self_pool

abbrev id_or_empty : Option LoadedPool → String
id_or_empty none = ""
id_or_empty (some loaded) = loaded.pool.id

-- `SelfPoolId`
unfoldable pub self_pool_id : PoolStore → String
self_pool_id store = id_or_empty store.self_pool
