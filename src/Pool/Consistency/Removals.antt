-- ===== src/Pool/Consistency/Removals.antt =====
-- The operations that delete a pool, a service or associations (pkg/pool/pool_controller.go).
use evgo.Shared.{
  ◌≡◌, refl, sym, ◌∙◌, Bool, true, false, ◌&&◌, Option, none, some, [], ◌∷◌, String, string_eq,
  ◌==◌, Bool-cases, inl, inr,
}
use evgo.Auth.Context.{ok}
use evgo.Crud.{text, Fields, matches, Model, Crud}
use evgo.Crud.Rows.{any, any-ext, first-fits}
use evgo.Crud.Actions.{
  State, Action, Post, ◌>>=◌, pure, find, find_by_field, delete_by_field, delete_found,
}
use evgo.Crud.Hoare.{bind-wp, reading-Post, writing-Post, write_then, oplog-Post, clear_error-Post}
use evgo.Pool.{
  PoolCrud, PoolBase, PoolService, PoolServiceAssociation, OpLogPool, pool_model, service_model,
  association_model, pool_id, service_id, pool_id_of, service_id_of, unless_empty, find_pool,
  find_service, delete_pool, delete_service, remove_service_from_pool,
  remove_all_services_from_pool, remove_service_from_all_pools, delete_association,
}
use evgo.Pool.Tables.{PoolLaws, TableLaws}
use evgo.Pool.Consistency.{
  IsConsistent, After, find_pool-Post, find_service-Post, unbound_then, moved,
}
use evgo.Pool.Consistency.Rows.{
  Consistent, delete_pool_rows, delete_service_rows, delete_association_rows,
}

and_true : (b : Bool) → (b && true) ≡ b
and_true true = refl
and_true false = refl

module _ (crud : PoolCrud) (laws : PoolLaws crud) where
  pool_id-Post :
      (Q : String → State crud.Db OpLogPool → Type 0) (id : String) (use_name : Bool)
      (s : State crud.Db OpLogPool)
      → IsConsistent laws s
      → ((i : String) (s' : State crud.Db OpLogPool) → IsConsistent laws s' → Q i s')
      → Post (IsConsistent laws) Q (pool_id crud id use_name s)
  unfolding pool_id
  pool_id-Post Q id true s c q =
      bind-wp (IsConsistent laws) Q (find_pool crud id true) (λ found. pure (pool_id_of crud found))
        s
        (find_pool-Post crud laws _ id true s c (λ s' same. q "" s' (moved crud laws s s' same c))
          (λ p is. q p.id s c))
  pool_id-Post Q id false s c q = q id s c

  service_id-Post :
      (Q : String → State crud.Db OpLogPool → Type 0) (id : String) (use_name : Bool)
      (s : State crud.Db OpLogPool)
      → IsConsistent laws s
      → ((i : String) (s' : State crud.Db OpLogPool) → IsConsistent laws s' → Q i s')
      → Post (IsConsistent laws) Q (service_id crud id use_name s)
  unfolding service_id
  service_id-Post Q id true s c q =
      bind-wp (IsConsistent laws) Q (find_service crud id true)
        (λ found. pure (service_id_of crud found)) s
        (find_service-Post crud laws _ id true s c
          (λ s' same. q "" s' (moved crud laws s s' same c)) (λ p is. q p.id s c))
  service_id-Post Q id false s c q = q id s c

  unless_empty-After :
      (id : String) (m : Action (State crud.Db OpLogPool) (Unit {0})) (s : State crud.Db OpLogPool)
      → IsConsistent laws s
      → After crud laws (m s)
      → After crud laws (unless_empty crud id m s)
  unfolding unless_empty
  unless_empty-After id m s c h = elim (Bool-cases (id == "")) [
    | inl empty ↦ rw (empty) (clear_error-Post (IsConsistent laws) (λ a. IsConsistent laws) s c)
    | inr given ↦ rw (given) h
  ]

  -- A row of a table that is found by its id is deleted, and what follows.
  delete_then :
      {O A : Type 0} (model : Model O) (table : Crud crud.Db O)
      (t : TableLaws {Db = crud.Db} {O = O} model table) (Q : A → State crud.Db OpLogPool → Type 0)
      (id : String) (k : Unit {0} → Action (State crud.Db OpLogPool) A)
      (s : State crud.Db OpLogPool)
      → IsConsistent laws s
      → Post (IsConsistent laws) Q (k tt s)
      → ((db : crud.Db) (object : O)
          → matches model (("id", text id) ∷ []) object ≡ true
          → table.delete s.db object ≡ ok db
          → Post (IsConsistent laws) Q (k tt (record s { db = db })))
      → Post (IsConsistent laws) Q ((delete_by_field table "id" (text id) >>= k) s)
  unfolding delete_by_field find_by_field delete_found
  delete_then {O} model table t Q id k s c absent q =
      bind-wp (IsConsistent laws) Q (delete_by_field table "id" (text id)) k s (
        bind-wp (IsConsistent laws) (λ a s'. Post (IsConsistent laws) Q (k a s'))
          (find_by_field table "id" (text id)) (delete_found table) s
          (reading-Post (IsConsistent laws) _ (λ db. table.read_by_field db "id" (text id)) s c
            after))
    where
      after :
          (found : Option O)
          → table.read_by_field s.db "id" (text id) ≡ ok found
          → Post
              (IsConsistent laws)
              (λ a s'. Post (IsConsistent laws) Q (k a s'))
              (delete_found table found s)
      after none e = absent
      after (some object) e =
          writing-Post (IsConsistent laws) (λ a s'. Post (IsConsistent laws) Q (k a s')) _ s c
            (λ db deleted.
              q db object
                (first-fits (matches model (("id", text id) ∷ [])) (t.rows s.db) object
                  (sym (t.read_by_field_rows s.db "id" (text id) (some object) e)))
                deleted)

  -- The rows after a deletion of the pool that was found by its id, to which nothing is bound.
  deleted_pool :
      (i : String) (s : State crud.Db OpLogPool) (db : crud.Db) (object : PoolBase)
      → IsConsistent laws s
      → any (matches association_model (("pool_id", text i) ∷ [])) (laws.associations.rows s.db)
        ≡ false
      → matches pool_model (("id", text i) ∷ []) object ≡ true
      → crud.pools.delete s.db object ≡ ok db
      → Consistent (laws.pools.rows db) (laws.services.rows db) (laws.associations.rows db)
  deleted_pool i s db object c unbound fits e =
      rw
        (
          laws.pools.delete_rows s.db db object e,
          laws.pools-services.delete_keeps s.db db object e,
          laws.pools-associations.delete_keeps s.db db object e,
          (string_eq.eqb_iff object.id i).0 (sym (and_true (object.id == i)) ∙ fits),
        )
        (delete_pool_rows _ _ _ c i (
          any-ext _ _ (laws.associations.rows s.db) (λ x. sym (and_true (x.pool_id == i)))
          ∙ unbound))

  deleted_service :
      (i : String) (s : State crud.Db OpLogPool) (db : crud.Db) (object : PoolService)
      → IsConsistent laws s
      → any (matches association_model (("service_id", text i) ∷ [])) (laws.associations.rows s.db)
        ≡ false
      → matches service_model (("id", text i) ∷ []) object ≡ true
      → crud.services.delete s.db object ≡ ok db
      → Consistent (laws.pools.rows db) (laws.services.rows db) (laws.associations.rows db)
  deleted_service i s db object c unbound fits e =
      rw
        (
          laws.services.delete_rows s.db db object e,
          laws.services-pools.delete_keeps s.db db object e,
          laws.services-associations.delete_keeps s.db db object e,
          (string_eq.eqb_iff object.id i).0 (sym (and_true (object.id == i)) ∙ fits),
        )
        (delete_service_rows _ _ _ c i (
          any-ext _ _ (laws.associations.rows s.db) (λ x. sym (and_true (x.service_id == i)))
          ∙ unbound))

  pub delete_pool-After :
      (id : String) (use_name : Bool) (s : State crud.Db OpLogPool)
      → IsConsistent laws s
      → After crud laws (delete_pool crud id use_name s)
  unfolding delete_pool
  delete_pool-After id use_name s c =
      bind-wp (IsConsistent laws) (λ a. IsConsistent laws) _ _ s
        (pool_id-Post _ id use_name s c (λ i s' c'. unless_empty-After i _ s' c' (
          unbound_then crud laws (λ a. IsConsistent laws) _ _ _ s' c'
            (λ unbound.
              delete_then pool_model crud.pools laws.pools (λ a. IsConsistent laws) i _ s' c'
                (oplog-Post (IsConsistent laws) (λ a. IsConsistent laws) _ s' c')
                (λ db object fits e.
                  oplog-Post (IsConsistent laws) (λ a. IsConsistent laws) _ _
                    (deleted_pool i s' db object c' unbound fits e))))))

  pub delete_service-After :
      (id : String) (use_name : Bool) (s : State crud.Db OpLogPool)
      → IsConsistent laws s
      → After crud laws (delete_service crud id use_name s)
  unfolding delete_service
  delete_service-After id use_name s c =
      bind-wp (IsConsistent laws) (λ a. IsConsistent laws) _ _ s
        (service_id-Post _ id use_name s c (λ i s' c'. unless_empty-After i _ s' c' (
          unbound_then crud laws (λ a. IsConsistent laws) _ _ _ s' c'
            (λ unbound.
              delete_then service_model crud.services laws.services (λ a. IsConsistent laws) i _ s'
                c' (oplog-Post (IsConsistent laws) (λ a. IsConsistent laws) _ s' c')
                (λ db object fits e.
                  oplog-Post (IsConsistent laws) (λ a. IsConsistent laws) _ _
                    (deleted_service i s' db object c' unbound fits e))))))

  deleted_associations :
      (fields : Fields) (s : State crud.Db OpLogPool) (db : crud.Db)
      → IsConsistent laws s
      → crud.associations.delete_by_fields s.db fields ≡ ok db
      → Consistent (laws.pools.rows db) (laws.services.rows db) (laws.associations.rows db)
  deleted_associations fields s db c e =
      rw
        (
          laws.associations.delete_by_fields_rows s.db db fields e,
          laws.associations-pools.delete_by_fields_keeps s.db db fields e,
          laws.associations-services.delete_by_fields_keeps s.db db fields e,
        )
        (delete_association_rows _ _ _ c (matches association_model fields))

  pub remove_all_services_from_pool-After :
      (id : String) (use_name : Bool) (s : State crud.Db OpLogPool)
      → IsConsistent laws s
      → After crud laws (remove_all_services_from_pool crud id use_name s)
  unfolding remove_all_services_from_pool
  remove_all_services_from_pool-After id use_name s c =
      bind-wp (IsConsistent laws) (λ a. IsConsistent laws) _ _ s
        (pool_id-Post _ id use_name s c (λ i s' c'. unless_empty-After i _ s' c' (
          write_then (IsConsistent laws) (λ a. IsConsistent laws) _ _ s' c'
            (λ db e.
              oplog-Post (IsConsistent laws) (λ a. IsConsistent laws) _ _
                (deleted_associations _ s' db c' e)))))

  pub remove_service_from_all_pools-After :
      (id : String) (use_name : Bool) (s : State crud.Db OpLogPool)
      → IsConsistent laws s
      → After crud laws (remove_service_from_all_pools crud id use_name s)
  unfolding remove_service_from_all_pools
  remove_service_from_all_pools-After id use_name s c =
      bind-wp (IsConsistent laws) (λ a. IsConsistent laws) _ _ s
        (service_id-Post _ id use_name s c (λ i s' c'. unless_empty-After i _ s' c' (
          write_then (IsConsistent laws) (λ a. IsConsistent laws) _ _ s' c'
            (λ db e.
              oplog-Post (IsConsistent laws) (λ a. IsConsistent laws) _ _
                (deleted_associations _ s' db c' e)))))

  deleted_association :
      (s : State crud.Db OpLogPool) (db : crud.Db) (a : PoolServiceAssociation)
      → IsConsistent laws s
      → crud.associations.delete s.db a ≡ ok db
      → Consistent (laws.pools.rows db) (laws.services.rows db) (laws.associations.rows db)
  deleted_association s db a c e =
      rw
        (
          laws.associations.delete_rows s.db db a e,
          laws.associations-pools.delete_keeps s.db db a e,
          laws.associations-services.delete_keeps s.db db a e,
        )
        (delete_association_rows _ _ _ c (λ x. x.id == a.id))

  delete_association-After :
      (pool_id role : String) (entry : OpLogPool) (found : Option PoolServiceAssociation)
      (s : State crud.Db OpLogPool)
      → IsConsistent laws s
      → After crud laws (delete_association crud pool_id role entry found s)
  delete_association-After pool_id role entry none s c = c
  delete_association-After pool_id role entry (some a) s c =
      write_then (IsConsistent laws) (λ a. IsConsistent laws) _ _ s c
        (λ db e.
          oplog-Post (IsConsistent laws) (λ a. IsConsistent laws) _ _
            (deleted_association s db a c e))

  pub remove_service_from_pool-After :
      (id role : String) (use_name : Bool) (s : State crud.Db OpLogPool)
      → IsConsistent laws s
      → After crud laws (remove_service_from_pool crud id role use_name s)
  unfolding remove_service_from_pool find
  remove_service_from_pool-After id role use_name s c =
      bind-wp (IsConsistent laws) (λ a. IsConsistent laws) _ _ s
        (pool_id-Post _ id use_name s c (λ i s' c'. unless_empty-After i _ s' c' (
          bind-wp (IsConsistent laws) (λ a. IsConsistent laws) _ _ s'
            (reading-Post (IsConsistent laws) _ _ s' c'
              (λ found e. delete_association-After i role _ found s' c')))))
