-- ===== src/Tests/Pools.antt =====
-- The controller of pools (pkg/pool) at concrete inputs, on tables that are lists.
use evgo.Shared.{◌≡◌, ◌≢◌, refl, inl, true, false, none, some, List, [], ◌∷◌, String, string_eq}
use evgo.Auth.Context.{ok, err}
use evgo.Crud.{text, flag, DbHandlers, Crud, db_crud}
use evgo.Crud.DryRun.{dry_run_lem}
use evgo.Pool.Bindings.{delete_pool-bound}
use evgo.Pool.Store.{PoolStore, keep_pool, keep_pools, set_services, new_pool_store}
use evgo.Pool.Store.Contents.{Found, keep_pools-Found}
use evgo.Crud.Actions.{State, find_update, find_by_field, delete_by_field, reading, ◌>>=◌}
use evgo.Pool.{
  PoolCrud, PoolBase, PoolService, PoolServiceAssociation, OpLogPool, pool_model, service_model,
  association_model, delete_pool, error_bindings_exist, get_pool_bindings, pool_id,
}
use evgo.Pool.Tables.{PoolLaws}
use evgo.Pool.Calls.{
  Call, adds_pool, adds_service, updates_pool, deletes_pool, binds, unbinds, serve_all,
  serve_all-IsConsistent,
}
use evgo.Pool.Consistency.{IsConsistent}
use evgo.Tests.Tables.{table, table_laws, table-Keeps}

record PoolDb : Type 0 where
  pools : List PoolBase
  services : List PoolService
  associations : List PoolServiceAssociation

abbrev put_pools : List PoolBase → PoolDb → PoolDb
put_pools xs db = record db { pools = xs }

abbrev put_services : List PoolService → PoolDb → PoolDb
put_services xs db = record db { services = xs }

abbrev put_associations : List PoolServiceAssociation → PoolDb → PoolDb
put_associations xs db = record db { associations = xs }

abbrev tables : PoolCrud
tables = record {
  Db = PoolDb;
  pools = table pool_model (λ db. db.pools) put_pools;
  services = table service_model (λ db. db.services) put_services;
  associations = table association_model (λ db. db.associations) put_associations;
  join_pool = λ db id. ok [];
  join_service = λ db id. ok [];
}

unfoldable table_of_pools : PoolLaws tables
unfolding table_laws
table_of_pools = record {
  pools = table_laws pool_model (λ db. db.pools) put_pools (λ xs db. refl) (λ fields x. refl);
  services =
      table_laws service_model (λ db. db.services) put_services (λ xs db. refl) (λ fields x. refl);
  associations =
      table_laws association_model (λ db. db.associations) put_associations (λ xs db. refl)
        (λ fields x. refl);
  pools-services =
      table-Keeps pool_model (λ db. db.pools) put_pools (λ db. db.services) (λ xs db. refl);
  pools-associations =
      table-Keeps pool_model (λ db. db.pools) put_pools (λ db. db.associations) (λ xs db. refl);
  services-pools =
      table-Keeps service_model (λ db. db.services) put_services (λ db. db.pools) (λ xs db. refl);
  services-associations =
      table-Keeps service_model (λ db. db.services) put_services (λ db. db.associations)
        (λ xs db. refl);
  associations-pools =
      table-Keeps association_model (λ db. db.associations) put_associations (λ db. db.pools)
        (λ xs db. refl);
  associations-services =
      table-Keeps association_model (λ db. db.associations) put_associations (λ db. db.services)
        (λ xs db. refl);
}

abbrev main_pool : PoolBase
main_pool = record { id = "p1"; name = "main"; long_name = ""; description = ""; active = false }

abbrev main_service : PoolService
main_service = record {
  id = "s1";
  name = "db";
  active = true;
  type_name = "database";
  provider = "postgres";
  private_host = "";
  ip_address = "10.0.0.1";
  db_name = "";
}

abbrev empty_state : State PoolDb OpLogPool
empty_state = record {
  db = record { pools = []; services = []; associations = [] };
  generic_error = none;
  oplogs = [];
}

abbrev calls : List Call
calls =
    adds_pool main_pool
    ∷ adds_service main_service
    ∷ binds "a1" "main" "db" "storage" true
    ∷ updates_pool "p1" (("active", flag true) ∷ ("name", text "first") ∷ []) false
    ∷ deletes_pool "first" true
    ∷ unbinds "p1" "storage" false
    ∷ []

serve_all-IsConsistent_example : IsConsistent table_of_pools (serve_all tables calls empty_state)
unfolding table_of_pools table_laws
serve_all-IsConsistent_example =
    serve_all-IsConsistent tables table_of_pools calls empty_state (record {
      ids_of_pools = tt;
      names_of_pools = tt;
      ids_of_services = tt;
      names_of_services = tt;
      roles = tt;
      bound = tt;
    })

abbrev bound_db : PoolDb
bound_db = record {
  pools = main_pool ∷ [];
  services = main_service ∷ [];
  associations = record { id = "a1"; pool_id = "p1"; service_id = "s1"; role = "storage" } ∷ [];
}

abbrev bound_state : State PoolDb OpLogPool
bound_state = record empty_state { db = bound_db }

abbrev pool_id_given : String
pool_id_given = "p1"

given : pool_id_given ≢ ""
given = cc

delete_pool-bound_example :
    delete_pool tables "p1" false bound_state
    ≡ (err, record bound_state { generic_error = some error_bindings_exist })
unfolding table_of_pools table_laws
delete_pool-bound_example =
    delete_pool-bound tables table_of_pools "p1" bound_state true given refl refl refl

abbrev kept_store : PoolStore
kept_store = keep_pool (set_services [] main_pool) new_pool_store

keep_pools-Found_example :
    Found "p1" main_pool kept_store.pools_by_id × Found "main" main_pool kept_store.pools_by_name
unfolding keep_pools get_pool_bindings pool_id reading ◌>>=◌
keep_pools-Found_example =
    keep_pools-Found tables main_pool (main_pool ∷ []) new_pool_store kept_store bound_state
      bound_state (inl refl) (refl, tt) (refl, tt) refl

-- one pool in the database: it is found, and a dry run leaves it
abbrev handlers : DbHandlers PoolDb PoolBase
handlers = record {
  create = λ db p. ok db;
  create_dup = λ db p. ok (db, false);
  find_by_fields = λ db fields. ok (some main_pool);
  find_for_update = λ db fields. ok (some main_pool);
  find_for_share = λ db fields. ok (some main_pool);
  update = λ db p fields. ok (empty_state.db, p);
  update_multi = λ db filter fields. ok empty_state.db;
  update_all = λ db fields. ok empty_state.db;
  delete = λ db p. ok empty_state.db;
  delete_by_fields = λ db fields. ok empty_state.db;
  find_with_filter = λ db filter. ok (main_pool ∷ []);
  exists = λ db filter. ok true;
}

abbrev dry : Crud PoolDb PoolBase
dry = db_crud true (λ p. text "") (λ p. text p.id) handlers

dry_run_lem_example :
    (find_update dry "id" (text "p1") [] bound_state
      ≡ find_by_field dry "id" (text "p1") bound_state)
    × ((delete_by_field dry "id" (text "p1") bound_state).1 ≡ bound_state)
dry_run_lem_example =
    dry_run_lem (λ p. text "") (λ p. text p.id) handlers "id" (text "p1") [] bound_state
