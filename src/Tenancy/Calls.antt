-- ===== src/Tenancy/Calls.antt =====
-- The requests that the controller of tenancies serves
-- (pkg/multitenancy/tenancy_manager/tenancy_controller.go), one after the other; a request that fails
-- leaves what it has written.
use evgo.Shared.{Bool, List, [], ◌∷◌, String, All}
use evgo.Auth.Context.{Result, ok, err}
use evgo.Crud.Actions.{State, Action, ◌>>=◌, pure}
use evgo.Crud.Hoare.{bind-wp}
use evgo.Tenancy.{TenancyDb, Environment}
use evgo.Tenancy.Controller.{
  TenancyCrud, TenancyLog, Directory, set_path, set_shadow_path, set_role, activate, deactivate,
  set_path_blocked, delete, add_ip_address, delete_ip_address,
}
use evgo.Tenancy.Controller.Creation.{Creation, add, set_customer, change_pool_or_db, set_db_role}
use evgo.Tenancy.Controller.Keeps.{ControllerLaws, IsValid, After}
use evgo.Tenancy.Controller.Keeps.Operations.{
  set_path-After, set_shadow_path-After, set_role-After, activate-After, deactivate-After,
  set_path_blocked-After, delete-After, add_ip_address-After, delete_ip_address-After,
}
use evgo.Tenancy.Controller.Creation.Keeping.{
  IsPrecise, add-After, set_customer-After, change_pool_or_db-After, set_db_role-After,
}

-- An id is followed by the flag that tells whether it is a display.
pub data Call : Type 0 where
  adds : Creation → TenancyDb → Call
  sets_path sets_shadow_path sets_role sets_customer sets_db_role : String → String → Bool → Call
  activates deactivates : String → Bool → Call
  moves : String → String → String → Bool → Call
  blocks : String → Bool → String → Bool → Call
  deletes : String → Bool → Bool → Call
  adds_ip deletes_ip : String → String → String → Bool → Call

module _ (crud : TenancyCrud) (directory : Directory) (env : Environment) where
  unfoldable pub serve : Call → Action (State crud.Db TenancyLog) (Unit {0})
  serve (adds creation request) = add crud directory creation request >>= λ item. pure tt
  serve (sets_path id path display) = set_path crud id path display
  serve (sets_shadow_path id path display) = set_shadow_path crud id path display
  serve (sets_role id role display) = set_role crud id role display
  serve (sets_customer id customer display) = set_customer crud directory id customer display
  serve (sets_db_role id role display) = set_db_role crud env id role display
  serve (activates id display) = activate crud id display
  serve (deactivates id display) = deactivate crud id display
  serve (moves id pool_id dbname display) =
      change_pool_or_db crud directory env id pool_id dbname display
  serve (blocks id blocked mode display) = set_path_blocked crud id blocked mode display
  serve (deletes id with_database display) = delete crud id with_database display
  serve (adds_ip id ip tag display) = add_ip_address crud id ip tag display
  serve (deletes_ip id ip tag display) = delete_ip_address crud id ip tag display

  unfoldable pub serve_tenancies : List Call → State crud.Db TenancyLog → State crud.Db TenancyLog
  serve_tenancies [] s = s
  serve_tenancies (call ∷ calls) s = serve_tenancies calls (serve call s).1

-- The requests to add a tenancy are precise.
abbrev pub IsPreciseCall : Directory → Call → Type 0
IsPreciseCall directory (adds creation request) = IsPrecise directory request
IsPreciseCall directory _ = Unit

module _ (crud : TenancyCrud) (laws : ControllerLaws crud) (directory : Directory)
    (env : Environment) where
  serve-After :
      (call : Call) (s : State crud.Db TenancyLog)
      → IsPreciseCall directory call
      → IsValid laws s
      → After crud laws (serve crud directory env call s)
  unfolding serve
  serve-After (adds creation request) s p v =
      bind-wp (IsValid laws) (λ x. IsValid laws) _ _ s
        (add-After crud laws directory creation request s p v)
  serve-After (sets_path id path display) s p v = set_path-After crud laws id path display s v
  serve-After (sets_shadow_path id path display) s p v =
      set_shadow_path-After crud laws id path display s v
  serve-After (sets_role id role display) s p v = set_role-After crud laws id role display s v
  serve-After (sets_customer id customer display) s p v =
      set_customer-After crud laws directory id customer display s v
  serve-After (sets_db_role id role display) s p v =
      set_db_role-After crud laws env id role display s v
  serve-After (activates id display) s p v = activate-After crud laws id display s v
  serve-After (deactivates id display) s p v = deactivate-After crud laws id display s v
  serve-After (moves id pool_id dbname display) s p v =
      change_pool_or_db-After crud laws directory env id pool_id dbname display s v
  serve-After (blocks id blocked mode display) s p v =
      set_path_blocked-After crud laws id blocked mode display s v
  serve-After (deletes id with_database display) s p v =
      delete-After crud laws id with_database display s v
  serve-After (adds_ip id ip tag display) s p v =
      add_ip_address-After crud laws id ip tag display s v
  serve-After (deletes_ip id ip tag display) s p v =
      delete_ip_address-After crud laws id ip tag display s v

  state-After :
      (x : Result (Unit {0}) × State crud.Db TenancyLog) → After crud laws x → IsValid laws x.1
  state-After (ok a, s) h = h
  state-After (err, s) h = h

  -- Over a table that obeys the laws of the database, any sequence of the calls of the tenancy
  -- controller, in which every request to add a tenancy gives both paths and the ids of its
  -- customer and its pool, keeps ids unique, one tenancy at most for a role of a customer, and no
  -- path or shadow path of a tenancy equal to a path or shadow path of another one in its pool.
  pub serve_tenancies-IsValid :
      (calls : List Call) (s : State crud.Db TenancyLog)
      → All (IsPreciseCall directory) calls
      → IsValid laws s
      → IsValid laws (serve_tenancies crud directory env calls s)
  unfolding serve_tenancies
  serve_tenancies-IsValid [] s p v = v
  serve_tenancies-IsValid (call ∷ calls) s p v =
      serve_tenancies-IsValid calls (serve crud directory env call s).1 p.1
        (state-After (serve crud directory env call s) (serve-After call s p.0 v))
