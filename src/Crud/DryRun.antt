-- ===== src/Crud/DryRun.antt =====
-- DbCRUD with DryRun set, under the generic helpers of pkg/crud/crud.go.
use evgo.Shared.{◌≡◌, refl, true, Option, none, some, String}
use evgo.Auth.Context.{Result, ok, err}
use evgo.Crud.{Value, Fields, DbHandlers, Crud, db_crud, update, delete}
use evgo.Crud.Actions.{
  State, Action, and_then, ◌>>=◌, reading, writing, find_by_field, find_update, update_found,
  update_object, delete_by_field, delete_found,
}

bind-pure :
    {S A : Type 0} (m : Action S A) (f : A → Action S A) (s : S)
    → ((a : A) (s' : S) → f a s' ≡ (ok a, s'))
    → (m >>= f) s ≡ m s
unfolding ◌>>=◌
bind-pure {A} m f s h = after (m s)
  where
    after : (x : Result A × _) → and_then f x ≡ x
    after (ok a, s') = h a s'
    after (err, s') = refl

bind-keeps :
    {S A B : Type 0} (m : Action S A) (f : A → Action S B) (s : S)
    → ((a : A) (s' : S) → (f a s').1 ≡ s')
    → ((m >>= f) s).1 ≡ (m s).1
unfolding ◌>>=◌
bind-keeps {A} {B} m f s h = after (m s)
  where
    after : (x : Result A × _) → (and_then f x).1 ≡ x.1
    after (ok a, s') = h a s'
    after (err, s') = refl

module _ {Db O : Type 0} (month id : O → Value) (handlers : DbHandlers Db O) where
  abbrev pub crud : Crud Db O
  crud = db_crud true month id handlers

module _ {Db O L : Type 0} (month id : O → Value) (handlers : DbHandlers Db O) where
  update_found-dry :
      (fields : Fields) (found : Option O) (s : State Db L)
      → update_found (crud month id handlers) fields found s ≡ (ok found, s)
  unfolding ◌>>=◌ update_found update_object update
  update_found-dry fields none s = refl
  update_found-dry fields (some object) s = refl

  delete_found-dry :
      (found : Option O) (s : State Db L) → (delete_found (crud month id handlers) found s).1 ≡ s
  unfolding delete_found writing delete
  delete_found-dry none s = refl
  delete_found-dry (some object) s = refl

  -- In a dry run FindUpdate is FindByField, with its result, its errors and its state, and Delete
  -- leaves the state as it was.
  pub dry_run_lem :
      (name : String) (v : Value) (fields : Fields) (s : State Db L)
      → (find_update (crud month id handlers) name v fields s
          ≡ find_by_field (crud month id handlers) name v s)
        × ((delete_by_field (crud month id handlers) name v s).1 ≡ s)
  unfolding find_update delete_by_field find_by_field reading
  dry_run_lem name v fields s = (
    bind-pure (find_by_field (crud month id handlers) name v)
        (update_found (crud month id handlers) fields) s (update_found-dry fields),
    bind-keeps (find_by_field (crud month id handlers) name v)
        (delete_found (crud month id handlers)) s delete_found-dry,
  )
