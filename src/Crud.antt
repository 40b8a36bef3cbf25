-- ===== src/Crud.antt =====
-- pkg/crud/crud.go: the interface CRUD over the handlers of a database (pkg/db), which are a parameter,
-- DbCRUD with its dry runs, and the generic helpers. An action gives a result and the state after it.
pub mod Rows
pub mod Actions
pub mod Hoare
pub mod DryRun
use evgo.Shared.{
  ℕ, ◌≡◌, Bool, true, false, ◌&&◌, Option, none, some, List, [], ◌∷◌, String, string_eq, ◌==◌,
  if◌then◌else◌, option_beq,
}
use evgo.Auth.Context.{Result, ok, err}

pub data Value : Type 0 where
  text : String → Value
  flag : Bool → Value

-- db.Fields
abbrev pub Fields : Type 0
Fields = List (String × Value)

abbrev pub flag_eqb : Bool → Bool → Bool
flag_eqb true b = b
flag_eqb false true = false
flag_eqb false false = true

abbrev pub value_eqb : Value → Value → Bool
value_eqb (text a) (text b) = a == b
value_eqb (flag a) (flag b) = flag_eqb a b
value_eqb (text a) (flag b) = false
value_eqb (flag a) (text b) = false

abbrev pub is_value : Option Value → Value → Bool
is_value none v = false
is_value (some w) v = value_eqb w v

-- What the database reads from the tags of a model: the id, the columns, and how they are set.
pub record Model (O : Type 0) : Type 0 where
  pub id : O → String
  pub column : String → O → Option Value
  pub set : Fields → O → O

abbrev pub matches : {O : Type 0} → Model O → Fields → O → Bool
matches model [] object = true
matches model ((name, v) ∷ fields) object =
    is_value (model.column name object) v && matches model fields object

-- db.DBHandlers, for the objects of one model; an update also sets the time of the update, and gives
-- the object as the database library leaves it. The filter of a list is the fields of the source's.
pub record DbHandlers (Db O : Type 0) : Type 0 where
  pub create : Db → O → Result Db
  pub create_dup : Db → O → Result (Db × Bool)
  pub find_by_fields : Db → Fields → Result (Option O)
  pub find_for_update : Db → Fields → Result (Option O)
  pub find_for_share : Db → Fields → Result (Option O)
  pub update : Db → O → Fields → Result (Db × O)
  pub update_multi : Db → Fields → Fields → Result Db
  pub update_all : Db → Fields → Result Db
  pub delete : Db → O → Result Db
  pub delete_by_fields : Db → Fields → Result Db
  pub find_with_filter : Db → Fields → Result (List O)
  pub exists : Db → Fields → Result Bool

-- the interface CRUD, for the objects of one model; the filter of `update_multi` may be nil
pub record Crud (Db O : Type 0) : Type 0 where
  pub create : Db → O → Result Db
  pub create_dup : Db → O → Result (Db × Bool)
  pub read : Db → Fields → Result (Option O)
  pub read_by_field : Db → String → Value → Result (Option O)
  pub read_for_update : Db → Fields → Result (Option O)
  pub read_for_share : Db → Fields → Result (Option O)
  pub update : Db → O → Fields → Result (Db × O)
  pub update_month_object : Db → O → Fields → Result Db
  pub update_multi : Db → Option Fields → Fields → Result Db
  pub delete : Db → O → Result Db
  pub delete_by_fields : Db → Fields → Result Db
  pub list : Db → Fields → Result (List O)
  pub exists : Db → Fields → Result Bool

module _ {Db O : Type 0} (dry_run : Bool) (handlers : DbHandlers Db O) where
  unfoldable pub create : Db → O → Result Db
  create db object = if dry_run then ok db else handlers.create db object

  abbrev pub not_duplicate : Result (Db × Bool) → Result (Db × Bool)
  not_duplicate err = err
  not_duplicate (ok (db, duplicate)) = ok (db, false)

  -- Without an error the answer is false, whatever the handler has said.
  unfoldable pub create_dup : Db → O → Result (Db × Bool)
  create_dup db object =
      if dry_run then ok (db, false) else not_duplicate (handlers.create_dup db object)

  unfoldable pub read : Db → Fields → Result (Option O)
  read db fields = handlers.find_by_fields db fields

  unfoldable pub read_by_field : Db → String → Value → Result (Option O)
  read_by_field db name v = handlers.find_by_fields db ((name, v) ∷ [])

  unfoldable pub read_for_update : Db → Fields → Result (Option O)
  read_for_update db fields = handlers.find_for_update db fields

  unfoldable pub read_for_share : Db → Fields → Result (Option O)
  read_for_share db fields = handlers.find_for_share db fields

  unfoldable pub update : Db → O → Fields → Result (Db × O)
  update db object fields = if dry_run then ok (db, object) else handlers.update db object fields

  -- the rows of the month and the id of the object
  unfoldable pub update_month_object : (O → Value) → (O → Value) → Db → O → Fields → Result Db
  update_month_object month id db object fields =
      if dry_run
      then ok db
      else handlers.update_multi db (("month", month object) ∷ ("id", id object) ∷ []) fields

  abbrev pub update_where : Db → Option Fields → Fields → Result Db
  update_where db none fields = handlers.update_all db fields
  update_where db (some filter) fields = handlers.update_multi db filter fields

  unfoldable pub update_multi : Db → Option Fields → Fields → Result Db
  update_multi db filter fields = if dry_run then ok db else update_where db filter fields

  unfoldable pub delete : Db → O → Result Db
  delete db object = if dry_run then ok db else handlers.delete db object

  unfoldable pub delete_by_fields : Db → Fields → Result Db
  delete_by_fields db fields = if dry_run then ok db else handlers.delete_by_fields db fields

  unfoldable pub list : Db → Fields → Result (List O)
  list db filter = handlers.find_with_filter db filter

  unfoldable pub exists : Db → Fields → Result Bool
  exists db filter = handlers.exists db filter

-- `NewDbCrud`
abbrev pub db_crud :
    {Db O : Type 0} → Bool → (O → Value) → (O → Value) → DbHandlers Db O → Crud Db O
db_crud dry_run month id handlers = record {
  create = create dry_run handlers;
  create_dup = create_dup dry_run handlers;
  read = read dry_run handlers;
  read_by_field = read_by_field dry_run handlers;
  read_for_update = read_for_update dry_run handlers;
  read_for_share = read_for_share dry_run handlers;
  update = update dry_run handlers;
  update_month_object = update_month_object dry_run handlers month id;
  update_multi = update_multi dry_run handlers;
  delete = delete dry_run handlers;
  delete_by_fields = delete_by_fields dry_run handlers;
  list = list dry_run handlers;
  exists = exists dry_run handlers;
}
