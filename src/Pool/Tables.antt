-- ===== src/Pool/Tables.antt =====
-- What the controller of pools (pkg/pool/pool_controller.go) relies on of the database: each table is
-- a list of rows, a filter selects the rows that match it, and a write of one table keeps the others.
use evgo.Shared.{◌≡◌, Bool, false, Option, List, [], ◌∷◌, ◌++◌, string_eq, ◌==◌}
use evgo.Auth.Context.{ok}
use evgo.Crud.{Value, Fields, Model, matches, Crud}
use evgo.Crud.Rows.{any, first, without, change, has}
use evgo.Pool.{PoolCrud, pool_model, service_model, association_model}

-- `create` refuses a primary key that is there; `update` and `delete` go by the id of the object.
pub record TableLaws {Db O : Type 0} (model : Model O) (crud : Crud Db O) : Type 0 where
  pub rows : Db → List O
  pub exists_rows :
      (db : Db) (fields : Fields) (found : Bool)
      → crud.exists db fields ≡ ok found
      → found ≡ any (matches model fields) (rows db)
  pub read_rows :
      (db : Db) (fields : Fields) (found : Option O)
      → crud.read db fields ≡ ok found
      → found ≡ first (matches model fields) (rows db)
  pub read_by_field_rows :
      (db : Db) (name : _) (v : Value) (found : Option O)
      → crud.read_by_field db name v ≡ ok found
      → found ≡ first (matches model ((name, v) ∷ [])) (rows db)
  pub create_rows :
      (db db' : Db) (object : O)
      → crud.create db object ≡ ok db'
      → rows db' ≡ rows db ++ object ∷ []
  pub create_new :
      (db db' : Db) (object : O)
      → crud.create db object ≡ ok db'
      → has model.id (model.id object) (rows db) ≡ false
  pub update_rows :
      (db db' : Db) (object after : O) (fields : Fields)
      → crud.update db object fields ≡ ok (db', after)
      → rows db' ≡ change (λ x. model.id x == model.id object) (model.set fields) (rows db)
  pub update_id :
      (db db' : Db) (object after : O) (fields : Fields)
      → crud.update db object fields ≡ ok (db', after)
      → model.id after ≡ model.id object
  pub delete_rows :
      (db db' : Db) (object : O)
      → crud.delete db object ≡ ok db'
      → rows db' ≡ without (λ x. model.id x == model.id object) (rows db)
  pub delete_by_fields_rows :
      (db db' : Db) (fields : Fields)
      → crud.delete_by_fields db fields ≡ ok db'
      → rows db' ≡ without (matches model fields) (rows db)

-- The writes of one table keep what is seen of another.
pub record Keeps {Db O V : Type 0} (crud : Crud Db O) (view : Db → V) : Type 0 where
  pub create_keeps :
      (db db' : Db) (object : O) → crud.create db object ≡ ok db' → view db' ≡ view db
  pub update_keeps :
      (db db' : Db) (object after : O) (fields : Fields)
      → crud.update db object fields ≡ ok (db', after)
      → view db' ≡ view db
  pub delete_keeps :
      (db db' : Db) (object : O) → crud.delete db object ≡ ok db' → view db' ≡ view db
  pub delete_by_fields_keeps :
      (db db' : Db) (fields : Fields)
      → crud.delete_by_fields db fields ≡ ok db'
      → view db' ≡ view db

pub record PoolLaws (crud : PoolCrud) : Type 0 where
  pub pools : TableLaws pool_model crud.pools
  pub services : TableLaws service_model crud.services
  pub associations : TableLaws association_model crud.associations
  pub pools-services : Keeps crud.pools services.rows
  pub pools-associations : Keeps crud.pools associations.rows
  pub services-pools : Keeps crud.services pools.rows
  pub services-associations : Keeps crud.services associations.rows
  pub associations-pools : Keeps crud.associations pools.rows
  pub associations-services : Keeps crud.associations services.rows
