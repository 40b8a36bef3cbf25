-- ===== src/Pool/Consistency/Additions.antt =====
-- The operations that add a pool, a service or an association (pkg/pool/pool_controller.go).
use evgo.Shared.{◌≡◌, refl, sym, ◌∙◌, ap, Bool, true, false, ◌&&◌, [], ◌∷◌, String, string_eq, ◌==◌}
use evgo.Auth.Context.{ok}
use evgo.Crud.{text, matches}
use evgo.Crud.Rows.{any, any-ext, first-has, has}
use evgo.Crud.Actions.{State}
use evgo.Crud.Hoare.{bind-wp, write_then, oplog_then, oplog-Post}
use evgo.Pool.{
  PoolCrud, PoolBase, PoolService, PoolServiceAssociation, OpLogPool, pool_model, service_model,
  association_model, add_pool, add_service, add_service_to_pool,
}
use evgo.Pool.Tables.{PoolLaws}
use evgo.Pool.Consistency.{
  IsConsistent, After, check_pool_name_unique-Post, check_service_name_unique-Post, find_pool-Post,
  find_service-Post, unbound_then, moved, found_then, none_then,
}
use evgo.Pool.Consistency.Rows.{
  Consistent, add_pool_rows, add_service_rows, add_association_rows, pool_ids, service_ids,
}

and_true : (b : Bool) → (b && true) ≡ b
and_true true = refl
and_true false = refl

module _ (crud : PoolCrud) (laws : PoolLaws crud) where
  created_pool :
      (pool : PoolBase) (s : State crud.Db OpLogPool) (db : crud.Db)
      → IsConsistent laws s
      → any (matches pool_model (("name", text pool.name) ∷ [])) (laws.pools.rows s.db) ≡ false
      → crud.pools.create s.db pool ≡ ok db
      → Consistent (laws.pools.rows db) (laws.services.rows db) (laws.associations.rows db)
  created_pool pool s db c new_name e =
      rw
        (
          laws.pools.create_rows s.db db pool e,
          laws.pools-services.create_keeps s.db db pool e,
          laws.pools-associations.create_keeps s.db db pool e,
        )
        (add_pool_rows _ _ _ c pool (laws.pools.create_new s.db db pool e) (
          any-ext _ _ (laws.pools.rows s.db) (λ x. sym (and_true (x.name == pool.name)))
          ∙ new_name))

  pub add_pool-After :
      (pool : PoolBase) (s : State crud.Db OpLogPool)
      → IsConsistent laws s
      → After crud laws (add_pool crud pool s)
  unfolding add_pool
  add_pool-After pool s c =
      bind-wp (IsConsistent laws) (λ a. IsConsistent laws) _ _ s
        (check_pool_name_unique-Post crud laws _ (text pool.name) s c (λ new_name.
          write_then (IsConsistent laws) (λ a. IsConsistent laws) _ _ s c
            (λ db e.
              oplog_then (IsConsistent laws) (λ a. IsConsistent laws) _ _ _
                (created_pool pool s db c new_name e))))

  created_service :
      (service : PoolService) (s : State crud.Db OpLogPool) (db : crud.Db)
      → IsConsistent laws s
      → any (matches service_model (("name", text service.name) ∷ [])) (laws.services.rows s.db)
        ≡ false
      → crud.services.create s.db service ≡ ok db
      → Consistent (laws.pools.rows db) (laws.services.rows db) (laws.associations.rows db)
  created_service service s db c new_name e =
      rw
        (
          laws.services.create_rows s.db db service e,
          laws.services-pools.create_keeps s.db db service e,
          laws.services-associations.create_keeps s.db db service e,
        )
        (add_service_rows _ _ _ c service (laws.services.create_new s.db db service e) (
          any-ext _ _ (laws.services.rows s.db) (λ x. sym (and_true (x.name == service.name)))
          ∙ new_name))

  pub add_service-After :
      (service : PoolService) (s : State crud.Db OpLogPool)
      → IsConsistent laws s
      → After crud laws (add_service crud service s)
  unfolding add_service
  add_service-After service s c =
      bind-wp (IsConsistent laws) (λ a. IsConsistent laws) _ _ s
        (check_service_name_unique-Post crud laws _ (text service.name) s c (λ new_name.
          write_then (IsConsistent laws) (λ a. IsConsistent laws) _ _ s c
            (λ db e.
              oplog_then (IsConsistent laws) (λ a. IsConsistent laws) _ _ _
                (created_service service s db c new_name e))))

  created_association :
      (a : PoolServiceAssociation) (s : State crud.Db OpLogPool) (db : crud.Db)
      → IsConsistent laws s
      → has pool_ids a.pool_id (laws.pools.rows s.db) ≡ true
      → has service_ids a.service_id (laws.services.rows s.db) ≡ true
      → any
          (matches association_model (("pool_id", text a.pool_id) ∷ ("role", text a.role) ∷ []))
          (laws.associations.rows s.db)
        ≡ false
      → crud.associations.create s.db a ≡ ok db
      → Consistent (laws.pools.rows db) (laws.services.rows db) (laws.associations.rows db)
  created_association a s db c has_pool has_service new e =
      rw
        (
          laws.associations.create_rows s.db db a e,
          laws.associations-pools.create_keeps s.db db a e,
          laws.associations-services.create_keeps s.db db a e,
        )
        (add_association_rows _ _ _ c a (has_pool, has_service)
          (any-ext _ _ (laws.associations.rows s.db)
              (λ x. ap (λ b. (x.pool_id == a.pool_id) && b) (sym (and_true (x.role == a.role))))
            ∙ new))

  pub add_service_to_pool-After :
      (new_id pool_id service_id role : String) (use_name : Bool) (s : State crud.Db OpLogPool)
      → IsConsistent laws s
      → After crud laws (add_service_to_pool crud new_id pool_id service_id role use_name s)
  unfolding add_service_to_pool
  add_service_to_pool-After new_id pool_id service_id role use_name s c =
      bind-wp (IsConsistent laws) (λ a. IsConsistent laws) _ _ s
        (find_pool-Post crud laws _ pool_id use_name s c
          (λ s' same. none_then crud laws _ _ s' (moved crud laws s s' same c))
          (λ pool is_pool. found_then crud laws _ pool _ s (
            bind-wp (IsConsistent laws) (λ a. IsConsistent laws) _ _ s
              (find_service-Post crud laws _ service_id use_name s c
                (λ s' same. none_then crud laws _ _ s' (moved crud laws s s' same c))
                (λ service is_service. found_then crud laws _ service _ s (
                  unbound_then crud laws (λ a. IsConsistent laws) _ _ _ s c
                    (λ free.
                      write_then (IsConsistent laws) (λ a. IsConsistent laws) _ _ s c
                        (λ db e.
                          oplog-Post (IsConsistent laws) (λ a. IsConsistent laws) _ _
                            (created_association _ s db c
                              (first-has pool_ids _ (laws.pools.rows s.db) pool is_pool)
                              (first-has service_ids _ (laws.services.rows s.db) service is_service)
                              free e)))))))))
