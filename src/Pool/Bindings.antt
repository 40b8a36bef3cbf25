-- ===== src/Pool/Bindings.antt =====
-- Deletion and associations (pkg/pool/pool_controller.go): what is refused while a service is bound.
use evgo.Shared.{
  ◌≡◌, refl, ◌∙◌, ap, ◌≢◌, ◌&&◌, Bool, true, false, none, some, [], ◌∷◌, String, string_eq, ◌==◌,
  arith,
}
use evgo.Auth.Context.{Result, ok, err}
use evgo.Crud.{Fields, text, matches}
use evgo.Crud.Rows.{any, any-ext}
use evgo.Crud.Actions.{State, ◌>>=◌, reading, exists, set_generic_error_code}
use evgo.Pool.{
  PoolCrud, PoolServiceAssociation, OpLogPool, association_model, delete_pool, pool_id,
  unless_empty, refuse_if, error_bindings_exist, delete_service, service_id, error_bound_to_pool,
}
use evgo.Pool.Tables.{PoolLaws}

and_true : (b : Bool) → (b && true) ≡ b
and_true true = refl
and_true false = refl

module _ (crud : PoolCrud) (laws : PoolLaws crud) where
  refused :
      (code : String) (fields : Fields) (s : State crud.Db OpLogPool)
      (k : Unit {0} → State crud.Db OpLogPool → Result (Unit {0}) × State crud.Db OpLogPool)
      → s.generic_error ≡ none
      → crud.associations.exists s.db fields ≡ ok true
      → (exists crud.associations fields >>= λ found. refuse_if crud code found >>= k) s
        ≡ (err, record s { generic_error = some code })
  unfolding ◌>>=◌ exists reading refuse_if set_generic_error_code
  refused code fields s k unset bound = ground arith

  unless_given :
      (id : String) (m : State crud.Db OpLogPool → Result (Unit {0}) × State crud.Db OpLogPool)
      (s : State crud.Db OpLogPool)
      → id ≢ ""
      → unless_empty crud id m s ≡ m s
  unfolding unless_empty
  unless_given id m s given =
      let other : (id == "") ≡ false = ground (arith, string_eq.eqb_iff id "") in rw (other) refl

  -- The answer of the database is that of the rows.
  is_bound :
      (fields : Fields) (p : PoolServiceAssociation → Bool) (s : State crud.Db OpLogPool)
      (found : Bool)
      → ((a : PoolServiceAssociation) → matches association_model fields a ≡ p a)
      → any p (laws.associations.rows s.db) ≡ true
      → crud.associations.exists s.db fields ≡ ok found
      → crud.associations.exists s.db fields ≡ ok true
  is_bound fields p s found same bound e =
      e
      ∙ ap ok (
          laws.associations.exists_rows s.db fields found e
          ∙ any-ext _ _ (laws.associations.rows s.db) same
          ∙ bound)

  -- To delete a pool by a nonempty id that an association has is refused, if the database answers
  -- and there was no error before: the code tells that bindings exist, and the database and the log
  -- stay as they were.
  pub delete_pool-bound :
      (id : String) (s : State crud.Db OpLogPool) (found : Bool)
      → id ≢ ""
      → s.generic_error ≡ none
      → any (λ a. a.pool_id == id) (laws.associations.rows s.db) ≡ true
      → crud.associations.exists s.db (("pool_id", text id) ∷ []) ≡ ok found
      → delete_pool crud id false s ≡ (err, record s { generic_error = some error_bindings_exist })
  unfolding delete_pool ◌>>=◌ pool_id
  delete_pool-bound id s found given unset bound e =
      unless_given id _ s given
      ∙ refused error_bindings_exist (("pool_id", text id) ∷ []) s _ unset (
          is_bound (("pool_id", text id) ∷ []) (λ a. a.pool_id == id) s found
            (λ a. and_true (a.pool_id == id)) bound e)

  pub delete_service-bound :
      (id : String) (s : State crud.Db OpLogPool) (found : Bool)
      → id ≢ ""
      → s.generic_error ≡ none
      → any (λ a. a.service_id == id) (laws.associations.rows s.db) ≡ true
      → crud.associations.exists s.db (("service_id", text id) ∷ []) ≡ ok found
      → delete_service crud id false s
        ≡ (err, record s { generic_error = some error_bound_to_pool })
  unfolding delete_service ◌>>=◌ service_id
  delete_service-bound id s found given unset bound e =
      unless_given id _ s given
      ∙ refused error_bound_to_pool (("service_id", text id) ∷ []) s _ unset (
          is_bound (("service_id", text id) ∷ []) (λ a. a.service_id == id) s found
            (λ a. and_true (a.service_id == id)) bound e)
