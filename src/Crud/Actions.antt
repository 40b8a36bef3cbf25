-- ===== src/Crud/Actions.antt =====
-- Actions on a state that may fail, and the generic helpers of pkg/crud/crud.go as such. An error
-- keeps what was written before it.
use evgo.Shared.{Bool, Option, none, some, List, [], ◌∷◌, ◌++◌, String}
use evgo.Auth.Context.{Result, ok, err}
use evgo.Crud.{Value, Fields, Crud}

-- The database, and what an operation leaves in its context: the generic error and the log of
-- operations.
pub record State (Db L : Type 0) : Type 0 where
  pub db : Db
  pub generic_error : Option String
  pub oplogs : List L

abbrev pub Action : Type 0 → Type 0 → Type 0
Action S A = S → Result A × S

abbrev pub and_then : {S A B : Type 0} → (A → Action S B) → Result A × S → Result B × S
and_then f (ok a, s) = f a s
and_then f (err, s) = (err, s)

infixl 5 ◌>>=◌ ◌>>◌
unfoldable pub ◌>>=◌ : {S A B : Type 0} → Action S A → (A → Action S B) → Action S B
◌>>=◌ m f s = and_then f (m s)

abbrev pub ◌>>◌ : {S A B : Type 0} → Action S A → Action S B → Action S B
m >> k = m >>= λ _. k

abbrev pub pure : {S A : Type 0} → A → Action S A
pure a s = (ok a, s)

abbrev pub fail : {S A : Type 0} → Action S A
fail s = (err, s)

-- What holds after an action, by how it ended.
abbrev pub Post : {S A : Type 0} → (S → Type 0) → (A → S → Type 0) → Result A × S → Type 0
Post E Q (ok a, s) = Q a s
Post E Q (err, s) = E s

module _ {Db L : Type 0} where
  -- a call of the database that only reads
  unfoldable pub reading : {A : Type 0} → (Db → Result A) → Action (State Db L) A
  reading f s = (f s.db, s)

  abbrev pub written : State Db L → Result Db → Result (Unit {0}) × State Db L
  written s err = (err, s)
  written s (ok db) = (ok tt, record s { db = db })

  unfoldable pub writing : (Db → Result Db) → Action (State Db L) (Unit {0})
  writing f s = written s (f s.db)

  -- `ctx.SetGenericErrorCode`: the first code stays
  unfoldable pub set_generic_error_code : String → Action (State Db L) (Unit {0})
  set_generic_error_code code s = elim s.generic_error [
    | none ↦ (ok tt, record s { generic_error = some code })
    | some old ↦ (ok tt, s)
  ]

  unfoldable pub clear_error : Action (State Db L) (Unit {0})
  clear_error s = (ok tt, record s { generic_error = none })

  -- `ctx.Oplog`
  unfoldable pub oplog : L → Action (State Db L) (Unit {0})
  oplog entry s = (ok tt, record s { oplogs = s.oplogs ++ entry ∷ [] })

  module _ {O : Type 0} (crud : Crud Db O) where
    -- `Find` and `FindByField`
    unfoldable pub find : Fields → Action (State Db L) (Option O)
    find fields = reading (λ db. crud.read db fields)

    unfoldable pub find_by_field : String → Value → Action (State Db L) (Option O)
    find_by_field name v = reading (λ db. crud.read_by_field db name v)

    abbrev updated : State Db L → Result (Db × O) → Result O × State Db L
    updated s err = (err, s)
    updated s (ok (db, object)) = (ok object, record s { db = db })

    -- `Update`
    unfoldable pub update_object : O → Fields → Action (State Db L) O
    update_object object fields s = updated s (crud.update s.db object fields)

    unfoldable pub update_found : Fields → Option O → Action (State Db L) (Option O)
    update_found fields none = pure none
    update_found fields (some object) = do after ← update_object object fields; pure (some after)

    unfoldable pub find_update : String → Value → Fields → Action (State Db L) (Option O)
    find_update name v fields = find_by_field name v >>= update_found fields

    unfoldable pub delete_found : Option O → Action (State Db L) (Unit {0})
    delete_found none = pure tt
    delete_found (some object) = writing (λ db. crud.delete db object)

    -- `Delete`
    unfoldable pub delete_by_field : String → Value → Action (State Db L) (Unit {0})
    delete_by_field name v = find_by_field name v >>= delete_found

    unfoldable pub list_all : Fields → Action (State Db L) (List O)
    list_all filter = reading (λ db. crud.list db filter)

    unfoldable pub exists : Fields → Action (State Db L) Bool
    exists filter = reading (λ db. crud.exists db filter)
