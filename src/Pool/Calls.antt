-- ===== src/Pool/Calls.antt =====
-- The requests that PoolController (pkg/pool/pool_controller.go) serves, one after the other, each by
-- its operation; a request that fails leaves what it has written.
use evgo.Shared.{Bool, List, [], ◌∷◌, String}
use evgo.Auth.Context.{Result, ok, err}
use evgo.Crud.{Fields}
use evgo.Crud.Actions.{State, Action, ◌>>=◌, pure}
use evgo.Crud.Hoare.{bind-wp}
use evgo.Pool.{
  PoolCrud, PoolBase, PoolService, OpLogPool, add_pool, update_pool, delete_pool, add_service,
  update_service, delete_service, add_service_to_pool, remove_service_from_pool,
  remove_all_services_from_pool, remove_service_from_all_pools,
}
use evgo.Pool.Tables.{PoolLaws}
use evgo.Pool.Consistency.{IsConsistent, After}
use evgo.Pool.Consistency.Additions.{add_pool-After, add_service-After, add_service_to_pool-After}
use evgo.Pool.Consistency.Removals.{
  delete_pool-After, delete_service-After, remove_service_from_pool-After,
  remove_all_services_from_pool-After, remove_service_from_all_pools-After,
}
use evgo.Pool.Consistency.Updates.{update_pool-After, update_service-After}

-- The calls that write, with the ids that are made for new objects.
pub data Call : Type 0 where
  adds_pool : PoolBase → Call
  updates_pool : String → Fields → Bool → Call
  deletes_pool : String → Bool → Call
  adds_service : PoolService → Call
  updates_service : String → Fields → Bool → Call
  deletes_service : String → Bool → Call
  binds : String → String → String → String → Bool → Call
  unbinds : String → String → Bool → Call
  unbinds_pool : String → Bool → Call
  unbinds_service : String → Bool → Call

module _ (crud : PoolCrud) where
  abbrev done :
      {A : Type 0}
      → Action (State crud.Db OpLogPool) A
      → Action (State crud.Db OpLogPool) (Unit {0})
  done m = m >>= λ a. pure tt

  unfoldable pub serve : Call → Action (State crud.Db OpLogPool) (Unit {0})
  serve (adds_pool pool) = done (add_pool crud pool)
  serve (updates_pool id fields use_name) = done (update_pool crud id fields use_name)
  serve (deletes_pool id use_name) = delete_pool crud id use_name
  serve (adds_service service) = done (add_service crud service)
  serve (updates_service id fields use_name) = done (update_service crud id fields use_name)
  serve (deletes_service id use_name) = delete_service crud id use_name
  serve (binds new_id pool_id service_id role use_name) =
      add_service_to_pool crud new_id pool_id service_id role use_name
  serve (unbinds id role use_name) = remove_service_from_pool crud id role use_name
  serve (unbinds_pool id use_name) = remove_all_services_from_pool crud id use_name
  serve (unbinds_service id use_name) = remove_service_from_all_pools crud id use_name

  unfoldable pub serve_all : List Call → State crud.Db OpLogPool → State crud.Db OpLogPool
  serve_all [] s = s
  serve_all (call ∷ calls) s = serve_all calls (serve call s).1

module _ (crud : PoolCrud) (laws : PoolLaws crud) where
  done-After :
      {A : Type 0} (m : Action (State crud.Db OpLogPool) A) (s : State crud.Db OpLogPool)
      → After crud laws (m s)
      → After crud laws ((m >>= λ a. pure tt) s)
  done-After m s h = bind-wp (IsConsistent laws) (λ a. IsConsistent laws) m (λ a. pure tt) s h

  serve-After :
      (call : Call) (s : State crud.Db OpLogPool)
      → IsConsistent laws s
      → After crud laws (serve crud call s)
  unfolding serve
  serve-After (adds_pool pool) s c = done-After _ s (add_pool-After crud laws pool s c)
  serve-After (updates_pool id fields use_name) s c =
      done-After _ s (update_pool-After crud laws id fields use_name s c)
  serve-After (deletes_pool id use_name) s c = delete_pool-After crud laws id use_name s c
  serve-After (adds_service service) s c = done-After _ s (add_service-After crud laws service s c)
  serve-After (updates_service id fields use_name) s c =
      done-After _ s (update_service-After crud laws id fields use_name s c)
  serve-After (deletes_service id use_name) s c = delete_service-After crud laws id use_name s c
  serve-After (binds new_id pool_id service_id role use_name) s c =
      add_service_to_pool-After crud laws new_id pool_id service_id role use_name s c
  serve-After (unbinds id role use_name) s c =
      remove_service_from_pool-After crud laws id role use_name s c
  serve-After (unbinds_pool id use_name) s c =
      remove_all_services_from_pool-After crud laws id use_name s c
  serve-After (unbinds_service id use_name) s c =
      remove_service_from_all_pools-After crud laws id use_name s c

  -- The state after an action, however it has ended.
  state-After :
      {A : Type 0} (x : Result A × State crud.Db OpLogPool)
      → After crud laws x
      → IsConsistent laws x.1
  state-After (ok a, s) h = h
  state-After (err, s) h = h

  -- Over tables that obey the laws of the database, any sequence of the calls of the pool
  -- controller that write keeps the ids and the names of pools and of services unique, one service
  -- at most for a role of a pool, and the pool and the service of every association in their
  -- tables, however each call ends.
  pub serve_all-IsConsistent :
      (calls : List Call) (s : State crud.Db OpLogPool)
      → IsConsistent laws s
      → IsConsistent laws (serve_all crud calls s)
  unfolding serve_all
  serve_all-IsConsistent [] s c = c
  serve_all-IsConsistent (call ∷ calls) s c =
      serve_all-IsConsistent calls (serve crud call s).1
        (state-After (serve crud call s) (serve-After call s c))
