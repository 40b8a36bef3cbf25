-- ===== src/Pool/Store/Contents.antt =====
-- What the store of pools (pkg/pool/pool_store.go) holds after it has loaded them.
use evgo.Shared.{
  ◌≡◌, refl, sym, ◌∙◌, ap, inl, inr, false, some, List, [], ◌∷◌, String, string_eq, ◌==◌, get, put,
  get-put, beq_refl, In, arith,
}
use evgo.Auth.Context.{ok}
use evgo.Crud.Rows.{has, Unique}
use evgo.Crud.Actions.{State, ◌>>=◌}
use evgo.Crud.Hoare.{Ends, bind-ok}
use evgo.Pool.{PoolCrud, PoolBase, OpLogPool, get_pool_bindings}
use evgo.Pool.Consistency.Rows.{pool_ids, pool_names}
use evgo.Pool.Store.{LoadedPool, PoolStore, keep_pool, keep_pools, set_services}

-- One of the two maps of the store, and the key by which it is filled.
record Index : Type 0 where
  key : PoolBase → String
  view : PoolStore → List (String × LoadedPool)
  view_lem :
      (loaded : LoadedPool) (store : PoolStore)
      → view (keep_pool loaded store) ≡ put (key loaded.pool) loaded (view store)

unfoldable by_id : Index
unfolding keep_pool
by_id = record { key = pool_ids; view = λ s. s.pools_by_id; view_lem = λ loaded s. refl }

unfoldable by_name : Index
unfolding keep_pool
by_name = record { key = pool_names; view = λ s. s.pools_by_name; view_lem = λ loaded s. refl }

abbrev pub Found : String → PoolBase → List (String × LoadedPool) → Type 0
Found k p m = (loaded : LoadedPool) × (get k m ≡ some loaded) × (loaded.pool ≡ p)

put_other :
    (k j : String) (loaded : LoadedPool) (m : List (String × LoadedPool))
    → (k == j) ≡ false
    → get j (put k loaded m) ≡ get j m
put_other k j loaded m other = get-put k j loaded m ∙ rw (other) refl

put_same :
    (k : String) (loaded : LoadedPool) (m : List (String × LoadedPool))
    → get k (put k loaded m) ≡ some loaded
put_same k loaded m = get-put k k loaded m ∙ rw (beq_refl k) refl

module _ (crud : PoolCrud) (index : Index) where
  ok_of :
      (store store' : PoolStore) (s s' : State crud.Db OpLogPool)
      → Ends (ok store, s) store' s'
      → store ≡ store'
  ok_of store store' s s' e = cc

  -- A key that no pool of the list has keeps its entry.
  kept :
      (k : String) (pools : List PoolBase) (store store' : PoolStore)
      (s s' : State crud.Db OpLogPool)
      → has index.key k pools ≡ false
      → Ends (keep_pools crud pools store s) store' s'
      → get k (index.view store') ≡ get k (index.view store)
  unfolding keep_pools ◌>>=◌ set_services
  kept k [] store store' s s' absent e =
      ap (λ x. get k (index.view x)) (sym (ok_of store store' s s' e))
  kept k (p ∷ pools) store store' s s' absent e =
      let (services, s'', got, rest) =
        bind-ok (get_pool_bindings crud p.id false) _ s s' store' e in
      kept k pools (keep_pool (set_services services p) store) store' s'' s' (ground arith) rest
      ∙ ap (get k) (index.view_lem (set_services services p) store)
      ∙ put_other (index.key p) k (set_services services p) (index.view store) (ground arith)

  found :
      (p : PoolBase) (pools : List PoolBase) (store store' : PoolStore)
      (s s' : State crud.Db OpLogPool)
      → In p pools
      → Unique index.key pools
      → Ends (keep_pools crud pools store s) store' s'
      → Found (index.key p) p (index.view store')
  unfolding keep_pools ◌>>=◌ set_services
  found p [] store store' s s' is_in unique e = absurd is_in
  found p (q ∷ pools) store store' s s' (inl same) unique e =
      let (services, s'', got, rest) =
        bind-ok (get_pool_bindings crud q.id false) _ s s' store' e in
      (
        set_services services q,
        ap (λ x. get (index.key x) (index.view store')) same
            ∙ kept (index.key q) pools (keep_pool (set_services services q) store) store' s'' s'
                unique.0 rest
            ∙ ap (get (index.key q)) (index.view_lem (set_services services q) store)
            ∙ put_same (index.key q) (set_services services q) (index.view store),
        sym same,
      )
  found p (q ∷ pools) store store' s s' (inr later) unique e =
      let (services, s'', got, rest) =
        bind-ok (get_pool_bindings crud q.id false) _ s s' store' e in
      found p pools (keep_pool (set_services services q) store) store' s'' s' later unique.1 rest

module _ (crud : PoolCrud) where
  -- After a store has loaded pools with unique ids and names without an error, each of them is
  -- found in it by its id and by its name.
  pub keep_pools-Found :
      (p : PoolBase) (pools : List PoolBase) (store store' : PoolStore)
      (s s' : State crud.Db OpLogPool)
      → In p pools
      → Unique pool_ids pools
      → Unique pool_names pools
      → Ends (keep_pools crud pools store s) store' s'
      → Found p.id p store'.pools_by_id × Found p.name p store'.pools_by_name
  unfolding by_id by_name
  keep_pools-Found p pools store store' s s' is_in ids names e = (
    found crud by_id p pools store store' s s' is_in ids e,
    found crud by_name p pools store store' s s' is_in names e,
  )
