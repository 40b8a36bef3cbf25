-- ===== src/Tests/Tenancies.antt =====
-- Tenancies (pkg/multitenancy) at concrete inputs: the controller on a table that is a list, and the
-- manager.
use evgo.Shared.{
  ◌≡◌, refl, sym, ap, ◌⊎◌, inl, inr, true, false, ◌≢◌, Option, none, some, List, [], ◌∷◌, String,
  string_eq, ◌==◌, if◌then◌else◌, In, All, get, put, ◌∙◌, Bool-cases,
}
use mathlib.Core.Path.{subst}
use evgo.Auth.Context.{ok, err}
use evgo.Crud.Rows.{any}
use evgo.Crud.Actions.{
  State, exists, reading, writing, set_generic_error_code, oplog, clear_error, ◌>>=◌,
}
use evgo.Tests.Tables.{table, table_laws, ok-injective}
use evgo.Tenancy.{
  TenancyDb, Customer, TenancyPool, Tenancy, TenancyManager, TenancyIpAddress, Environment, init,
  new_tenancy_manager, tenancy_by_path, load_tenancy_from_data, has_ip_address_by_path, handle,
  load_tenancy, unload_tenancy, keep, add_addresses,
}
use evgo.Tenancy.Indexes.{IsCoherent, handle_all, handle_all-IsCoherent, handle-delete}
use evgo.Tenancy.Addresses.{is_address, load-has_ip_address}
use evgo.Tenancy.Display.{parse_tenancy_display, tenancy_display, parse-display}
use evgo.Tenancy.Controller.{
  TenancyCrud, TenancyItem, TenancyLog, Directory, tenancy_model, check_duplicate_role,
  check_duplicate_path, refuse_if,
}
use evgo.Tenancy.Controller.Creation.{
  Creation, add, create_tenancy, find_customer, or_not_found, find_pool, require, require_code,
  open_database, claim_database,
}
use evgo.Tenancy.Controller.Creation.Keeping.{IsPrecise}
use evgo.Tenancy.Controller.Keeps.{ControllerLaws, IsValid}
use evgo.Tenancy.Calls.{
  adds, sets_path, moves, blocks, serve, serve_tenancies, serve_tenancies-IsValid,
}

abbrev item_of : TenancyDb → TenancyItem
item_of row = record { row = row; customer_login = "ann"; pool_name = "main" }

abbrev items_of : List TenancyDb → List TenancyItem
items_of [] = []
items_of (row ∷ rows) = item_of row ∷ items_of rows

items_of-In :
    (rows all : List TenancyDb)
    → ((x : TenancyDb) → In x rows → In x all)
    → All (λ item. In item.row all) (items_of rows)
items_of-In [] all h = tt
items_of-In (x ∷ rows) all h = (h x (inl refl), items_of-In rows all (λ y later. h y (inr later)))

abbrev tenancies : TenancyCrud
tenancies = record {
  Db = List TenancyDb;
  tenancies = table tenancy_model (λ db. db) (λ xs db. xs);
  join = λ db filter. ok (items_of db);
  add_ip = λ db id a. ok db;
  delete_ip = λ db id a. ok db;
}

unfoldable laws : ControllerLaws tenancies
unfolding table_laws
laws = record {
  tenancies = table_laws tenancy_model (λ db. db) (λ xs db. xs) (λ xs db. refl) (λ fields x. refl);
  join_rows = λ db filter items e.
      subst (All (λ item. In item.row db)) (ok-injective e) (items_of-In db db (λ x h. h));
  add_ip_keeps = λ db db' id a e. sym (ok-injective e);
  delete_ip_keeps = λ db db' id a e. sym (ok-injective e);
}

abbrev ann : Customer
ann = record { id = "c1"; login = "ann"; blocked = false }

abbrev main_pool : TenancyPool
main_pool = record { id = "p1"; name = "main"; active = true }

abbrev or_ann : Option Customer → Customer
or_ann none = ann
or_ann (some c) = c

abbrev or_main : Option TenancyPool → TenancyPool
or_main none = main_pool
or_main (some p) = p

abbrev directory : Directory
directory = record {
  customer = λ id. if id == "c1" then ok (some ann) else err;
  is_not_found = λ id. true;
  customer_by_login = λ login. if login == "ann" then ok (some ann) else ok none;
  pool = λ id. if id == "p1" then some main_pool else none;
  pool_by_name = λ name. if name == "main" then some main_pool else none;
}

abbrev row : String → TenancyDb
row path = record {
  id = "t1";
  description = "";
  path = path;
  shadow_path = "s1";
  role = "shop";
  customer_id = "c1";
  pool_id = "p1";
  dbname = "";
  db_role = "";
  active = true;
  block_path = false;
  block_shadow_path = false;
}

abbrev addresses : List TenancyIpAddress
addresses =
    record { tag = "office"; ip = "10.0.0.7" } ∷ record { tag = "home"; ip = "10.0.0.8" } ∷ []

abbrev env : Environment
env = record {
  customer = λ id. ok (some ann);
  pool = λ id. some main_pool;
  connect_database = λ pool row. true;
  check_tenancy_database = λ row. true;
  find = λ id. if id == "t1" then ok (row "x") else err;
  list_ip_addresses = λ id. ok addresses;
}

abbrev creation : Creation
creation = record {
  new_id = "t2";
  random_path = "r1";
  random_shadow_path = "r2";
  db_prefix = "tenancy";
  has_event_dispatcher = true;
  connect_new_database = λ pool row. true;
  upgrade_database = λ row. true;
  metas = λ row. ok [];
  create_meta = λ row. true;
}

abbrev start : State (List TenancyDb) TenancyLog
start = record { db = []; generic_error = none; oplogs = [] }

only_ann : (c : Customer) → (ok (some ann) ≡ ok (some c)) ⊎ (ok none ≡ ok (some c)) → c.id ≡ "c1"
only_ann c (inl e) = ap (λ x. (or_ann x).id) (sym (ok-injective e))
only_ann c (inr e) = cc

only_main : (p : TenancyPool) → (some main_pool ≡ some p) ⊎ (none ≡ some p) → p.id ≡ "p1"
only_main p (inl e) = ap (λ x. (or_main x).id) (sym e)
only_main p (inr e) = cc

request-IsPrecise : IsPrecise directory (row "x")
request-IsPrecise = record {
  customer_id = λ c found. only_ann c found;
  pool_id = λ p found. only_main p found;
  path = refl;
  shadow_path = refl;
}

serve_tenancies-IsValid_example : IsValid laws (
    serve_tenancies tenancies directory env
      (adds creation (row "x")
        ∷ sets_path "ann/shop" "y" true
        ∷ moves "t2" "main" "" false
        ∷ blocks "t2" true "both" false
        ∷ [])
      start)
unfolding laws table_laws
serve_tenancies-IsValid_example =
    serve_tenancies-IsValid tenancies laws directory env
      (adds creation (row "x")
        ∷ sets_path "ann/shop" "y" true
        ∷ moves "t2" "main" "" false
        ∷ blocks "t2" true "both" false
        ∷ [])
      start (request-IsPrecise, (tt, (tt, (tt, tt)))) (record { ids = tt; paths = tt; roles = tt })

-- A second tenancy with the same shadow path is added to the pool, when the request calls the pool by
-- its name: the check looks for tenancies of a pool with the name as its id.
abbrev by_name : TenancyDb
by_name = record (row "z") { id = "t3"; pool_id = "main"; role = "office" }

shadow_paths : List TenancyDb → List String
shadow_paths [] = []
shadow_paths (t ∷ ts) = t.shadow_path ∷ shadow_paths ts

add_by_name_lem :
    shadow_paths
      (serve_tenancies tenancies directory env
        (adds creation (row "x") ∷ adds (record creation { new_id = "t3" }) by_name ∷ [])
        start).db
    ≡ "s1" ∷ "s1" ∷ []
unfolding shadow_paths serve_tenancies serve add create_tenancy find_customer or_not_found find_pool
    require require_code check_duplicate_role check_duplicate_path exists reading writing refuse_if
    open_database claim_database set_generic_error_code oplog clear_error ◌>>=◌ get
add_by_name_lem = refl

parse-display_example :
    parse_tenancy_display (tenancy_display "ann" "shop" "t1" "x") ≡ some ("ann", "shop")
parse-display_example =
    parse-display "ann" "shop" "t1" "x" (refl, (refl, (refl, tt)))
      (refl, (refl, (refl, (refl, tt)))) refl

empty-IsCoherent : IsCoherent new_tenancy_manager
unfolding get
empty-IsCoherent = record {
  ids = tt;
  paths = tt;
  shadow_paths = tt;
  by_id = λ id t e. cc;
  by_path = λ k t e. cc;
  by_shadow_path = λ k t e. cc;
}

env_finds : (id : String) (found : TenancyDb) → env.find id ≡ ok found → found.id ≡ id
env_finds id found e = elim (Bool-cases (id == "t1")) [
  | inl same ↦
      let is : ok (row "x") ≡ ok found = rw⁻¹ (ap (λ b. if b then ok (row "x") else err) same) e in
      ap (λ t. t.id) (sym (ok-injective is)) ∙ sym ((string_eq.eqb_iff id "t1").0 same)
  | inr other ↦
      let none_is : err ≡ ok found = sym (ap (λ b. if b then ok (row "x") else err) other) ∙ e in cc
]

handle_all-IsCoherent_example : IsCoherent (
    handle_all env (("t1", "add") ∷ ("t1", "set_path") ∷ ("t1", "delete") ∷ []) new_tenancy_manager)
handle_all-IsCoherent_example =
    handle_all-IsCoherent env (("t1", "add") ∷ ("t1", "set_path") ∷ ("t1", "delete") ∷ [])
      new_tenancy_manager env_finds empty-IsCoherent

abbrev ready : Tenancy
ready = record {
  tenancy_db = row "x";
  customer = some ann;
  pool = some main_pool;
  connected = true;
}

abbrev with_ready : TenancyManager
with_ready = handle_all env (("t1", "add") ∷ []) new_tenancy_manager

handle-delete_example : ready.tenancy_db.id ≢ "t5"
unfolding handle_all handle load_tenancy load_tenancy_from_data unload_tenancy init keep
    tenancy_by_path get put add_addresses
handle-delete_example =
    handle-delete env "t5" "x" ready with_ready
      (handle_all-IsCoherent env (("t1", "add") ∷ []) new_tenancy_manager env_finds
        empty-IsCoherent)
      (inl refl)

load-has_ip_address_example :
    has_ip_address_by_path "x" "10.0.0.7" "office"
      (load_tenancy_from_data env (row "x") new_tenancy_manager).0
    ≡ any (is_address "10.0.0.7" "office") addresses
unfolding init get
load-has_ip_address_example =
    load-has_ip_address env (row "x") new_tenancy_manager ready addresses "10.0.0.7" "office" refl
      refl refl
