-- ===== src/Tenancy/Controller/Keeps/Operations.antt =====
-- The operations of the controller on a tenancy that is there
-- (pkg/multitenancy/tenancy_manager/tenancy_controller.go).
use evgo.Shared.{
  ◌≡◌, refl, sym, ◌∙◌, ap, ◌≢◌, inl, inr, Bool, true, false, ◌&&◌, List, [], ◌∷◌, String, string_eq,
  ◌==◌, Bool-cases, In, arith, get,
}
use mathlib.Core.Path.{subst}
use evgo.Crud.{text, flag, Fields}
use evgo.Crud.Rows.{
  any, change, without, has, Unique, Unique-change, Unique-change_row, Unique-without,
}
use evgo.Crud.Actions.{State, Action, ◌>>=◌, update_object}
use evgo.Crud.Hoare.{bind-wp, write_then}
use evgo.Pool.Consistency.Rows.{both_eq}
use evgo.Tenancy.{TenancyDb}
use evgo.Tenancy.Controller.{
  TenancyCrud, TenancyLog, tenancy_model, set_path, set_shadow_path, set_role, set_active, activate,
  deactivate, set_path_blocked, blocks, delete, add_ip_address, delete_ip_address,
}
use evgo.Tenancy.Controller.Conflicts.{
  tenancy_ids, conflicts, Pairwise, changed, Pairwise-changed, Pairwise-In, Unique-In, any-In,
  eq_sym,
}
use evgo.Tenancy.Controller.Keeps.{
  Valid, ControllerLaws, IsValid, After, IsFreePath, customer_role, find_tenancy-Post,
  fail_with-Post, check_duplicate_path-Post, check_duplicate_role-Post, update-After, logs-After,
}

change-ext :
    {O : Type 0} (p : O → Bool) (f g : O → O) (xs : List O)
    → ((x : O) → In x xs → p x ≡ true → f x ≡ g x)
    → change p f xs ≡ change p g xs
change-ext p f g [] h = refl
change-ext p f g (x ∷ xs) h =
    ground (arith, h x (inl refl), change-ext p f g xs (λ y later. h y (inr later)))

any-without :
    {O : Type 0} (q p : O → Bool) (xs : List O) → any q xs ≡ false → any q (without p xs) ≡ false
any-without q p [] h = refl
any-without q p (x ∷ xs) h = ground (arith, any-without q p xs)

module _ (ts : List TenancyDb) (v : Valid ts) (t : TenancyDb) (is_in : In t ts) where
  -- A row whose id is that of `t` is `t`.
  is_row : (x : TenancyDb) → In x ts → (x.id == t.id) ≡ true → x ≡ t
  is_row x hx same = Unique-In ts x t v.ids hx is_in ((string_eq.eqb_iff x.id t.id).0 same)

  -- The row in its new state is in no conflict with the others, and its role is free.
  pub row-Valid :
      (f : TenancyDb → TenancyDb)
      → ((x : TenancyDb) → tenancy_ids (f x) ≡ tenancy_ids x)
      → ((y : TenancyDb) → In y ts → t.id ≢ y.id → conflicts (f t) y ≡ false)
      → Unique customer_role (changed t.id f ts)
      → Valid (changed t.id f ts)
  row-Valid f same free roles = record {
    ids = Unique-change tenancy_ids (λ x. x.id == t.id) f ts same v.ids;
    paths =
        Pairwise-changed t.id f ts v.ids
          (λ x y hx hy is apart.
            ap (λ z. conflicts (f z) y) (is_row x hx is) ∙ free y hy (λ e. apart (sym e)))
          v.paths;
    roles = roles;
  }

  pub same_roles :
      (f : TenancyDb → TenancyDb)
      → ((x : TenancyDb) → customer_role (f x) ≡ customer_role x)
      → Unique customer_role (changed t.id f ts)
  same_roles f same = Unique-change customer_role (λ x. x.id == t.id) f ts same v.roles

  pub new_role :
      (f : TenancyDb → TenancyDb)
      → has customer_role (customer_role (f t)) ts ≡ false
      → Unique customer_role (changed t.id f ts)
  new_role f absent =
      subst (Unique customer_role)
        (sym (change-ext (λ x. x.id == t.id) f (λ x. f t) ts (λ x hx is. ap f (is_row x hx is))))
        (Unique-change_row tenancy_ids customer_role t.id (customer_role (f t)) (λ x. f t) ts
          (λ x. refl) absent v.ids v.roles)

  pub apart_rows : (y : TenancyDb) → In y ts → t.id ≢ y.id → conflicts t y ≡ false
  apart_rows y hy ne = Pairwise-In ts t y v.paths is_in hy ne

  pub free_path :
      (path : String)
      → IsFreePath t.pool_id path ts
      → (y : TenancyDb) → In y ts
      → t.id ≢ y.id
      → conflicts (record t { path = path }) y ≡ false
  free_path path free y hy ne = ground (
    arith,
    any-In (λ z. (z.pool_id == t.pool_id) && (z.path == path)) ts y free.0 hy,
    any-In (λ z. (z.pool_id == t.pool_id) && (z.shadow_path == path)) ts y free.1 hy,
    apart_rows y hy ne,
    eq_sym y.pool_id t.pool_id,
    eq_sym y.path path,
    eq_sym y.shadow_path path,
  )

  pub free_shadow_path :
      (path : String)
      → IsFreePath t.pool_id path ts
      → (y : TenancyDb) → In y ts
      → t.id ≢ y.id
      → conflicts (record t { shadow_path = path }) y ≡ false
  free_shadow_path path free y hy ne = ground (
    arith,
    any-In (λ z. (z.pool_id == t.pool_id) && (z.path == path)) ts y free.0 hy,
    any-In (λ z. (z.pool_id == t.pool_id) && (z.shadow_path == path)) ts y free.1 hy,
    apart_rows y hy ne,
    eq_sym y.pool_id t.pool_id,
    eq_sym y.path path,
    eq_sym y.shadow_path path,
  )

module _ (crud : TenancyCrud) (laws : ControllerLaws crud) where
  pub set_path-After :
      (id path : String) (id_is_display : Bool) (s : State crud.Db TenancyLog)
      → IsValid laws s
      → After crud laws (set_path crud id path id_is_display s)
  unfolding set_path get
  set_path-After id path id_is_display s v =
      bind-wp (IsValid laws) (λ x. IsValid laws) _ _ s
        (find_tenancy-Post crud laws _ id id_is_display s v (λ item is_in.
          bind-wp (IsValid laws) (λ x. IsValid laws) _ _ s
            (check_duplicate_path-Post crud laws _ item.row.pool_id path s v (λ free.
              update-After crud laws item.row (("path", text path) ∷ []) _ s v
                (row-Valid _ v item.row is_in (tenancy_model.set (("path", text path) ∷ []))
                  (λ x. refl) (free_path _ v item.row is_in path free)
                  (same_roles _ v item.row is_in _ (λ x. refl)))
                (λ after s' v'. logs-After crud laws _ _ s' v')))))

  pub set_shadow_path-After :
      (id path : String) (id_is_display : Bool) (s : State crud.Db TenancyLog)
      → IsValid laws s
      → After crud laws (set_shadow_path crud id path id_is_display s)
  unfolding set_shadow_path get
  set_shadow_path-After id path id_is_display s v =
      bind-wp (IsValid laws) (λ x. IsValid laws) _ _ s
        (find_tenancy-Post crud laws _ id id_is_display s v (λ item is_in.
          bind-wp (IsValid laws) (λ x. IsValid laws) _ _ s
            (check_duplicate_path-Post crud laws _ item.row.pool_id path s v (λ free.
              update-After crud laws item.row (("shadow_path", text path) ∷ []) _ s v
                (row-Valid _ v item.row is_in (tenancy_model.set (("shadow_path", text path) ∷ []))
                  (λ x. refl) (free_shadow_path _ v item.row is_in path free)
                  (same_roles _ v item.row is_in _ (λ x. refl)))
                (λ after s' v'. logs-After crud laws _ _ s' v')))))

  pub set_role-After :
      (id role : String) (id_is_display : Bool) (s : State crud.Db TenancyLog)
      → IsValid laws s
      → After crud laws (set_role crud id role id_is_display s)
  unfolding set_role get
  set_role-After id role id_is_display s v =
      bind-wp (IsValid laws) (λ x. IsValid laws) _ _ s
        (find_tenancy-Post crud laws _ id id_is_display s v (λ item is_in.
          bind-wp (IsValid laws) (λ x. IsValid laws) _ _ s
            (check_duplicate_role-Post crud laws _ item.row.customer_id role s v (λ free.
              update-After crud laws item.row (("role", text role) ∷ []) _ s v
                (row-Valid _ v item.row is_in (tenancy_model.set (("role", text role) ∷ []))
                  (λ x. refl) (apart_rows _ v item.row is_in) (new_role _ v item.row is_in _ free))
                (λ after s' v'. logs-After crud laws _ _ s' v')))))

  -- An update of fields that are neither paths nor the pool nor the role.
  pub other-After :
      (row : TenancyDb) (fields : Fields)
      (k : TenancyDb → Action (State crud.Db TenancyLog) (Unit {0})) (s : State crud.Db TenancyLog)
      → IsValid laws s
      → In row (laws.tenancies.rows s.db)
      → ((y : TenancyDb) → conflicts (tenancy_model.set fields row) y ≡ conflicts row y)
      → ((x : TenancyDb) → customer_role (tenancy_model.set fields x) ≡ customer_role x)
      → ((after : TenancyDb) (s' : State crud.Db TenancyLog)
          → IsValid laws s'
          → After crud laws (k after s'))
      → After crud laws ((update_object crud.tenancies row fields >>= k) s)
  other-After row fields k s v is_in same_paths same quiet =
      update-After crud laws row fields k s v
        (row-Valid _ v row is_in (tenancy_model.set fields) (λ x. refl)
          (λ y hy ne. same_paths y ∙ apart_rows _ v row is_in y hy ne)
          (same_roles _ v row is_in _ same))
        quiet

  set_active-After :
      (operation : String) (active : Bool) (id : String) (id_is_display : Bool)
      (s : State crud.Db TenancyLog)
      → IsValid laws s
      → After crud laws (set_active crud operation active id id_is_display s)
  unfolding get
  set_active-After operation active id id_is_display s v =
      bind-wp (IsValid laws) (λ x. IsValid laws) _ _ s
        (find_tenancy-Post crud laws _ id id_is_display s v (λ item is_in.
          other-After item.row (("active", flag active) ∷ []) _ s v is_in (λ y. refl) (λ x. refl)
            (λ after s' v'. logs-After crud laws _ _ s' v')))

  pub activate-After :
      (id : String) (id_is_display : Bool) (s : State crud.Db TenancyLog)
      → IsValid laws s
      → After crud laws (activate crud id id_is_display s)
  unfolding activate
  activate-After = set_active-After "activate" true

  pub deactivate-After :
      (id : String) (id_is_display : Bool) (s : State crud.Db TenancyLog)
      → IsValid laws s
      → After crud laws (deactivate crud id id_is_display s)
  unfolding deactivate
  deactivate-After = set_active-After "deactivate" false

  blocks-conflicts :
      (blocked : Bool) (mode : String) (row y : TenancyDb)
      → conflicts (tenancy_model.set (blocks blocked mode row) row) y ≡ conflicts row y
  unfolding get
  blocks-conflicts blocked mode row y = elim (Bool-cases (mode == "default")) [
    | inl default ↦ rw (default) refl
    | inr other ↦ elim (Bool-cases (mode == "shadow")) [
      | inl shadow ↦ rw (other, shadow) refl
      | inr both ↦ rw (other, both) refl
    ]
  ]

  blocks-roles :
      (blocked : Bool) (mode : String) (row x : TenancyDb)
      → customer_role (tenancy_model.set (blocks blocked mode row) x) ≡ customer_role x
  unfolding get
  blocks-roles blocked mode row x = elim (Bool-cases (mode == "default")) [
    | inl default ↦ rw (default) refl
    | inr other ↦ elim (Bool-cases (mode == "shadow")) [
      | inl shadow ↦ rw (other, shadow) refl
      | inr both ↦ rw (other, both) refl
    ]
  ]

  pub set_path_blocked-After :
      (id : String) (blocked : Bool) (mode : String) (id_is_display : Bool)
      (s : State crud.Db TenancyLog)
      → IsValid laws s
      → After crud laws (set_path_blocked crud id blocked mode id_is_display s)
  unfolding set_path_blocked
  set_path_blocked-After id blocked mode id_is_display s v =
      bind-wp (IsValid laws) (λ x. IsValid laws) _ _ s
        (find_tenancy-Post crud laws _ id id_is_display s v (λ item is_in.
          other-After item.row (blocks blocked mode item.row) _ s v is_in
            (blocks-conflicts blocked mode item.row) (blocks-roles blocked mode item.row)
            (λ after s' v'. logs-After crud laws _ _ s' v')))

  Pairwise-without :
      (p : TenancyDb → Bool) (xs : List TenancyDb) → Pairwise xs → Pairwise (without p xs)
  Pairwise-without p [] h = tt
  Pairwise-without p (x ∷ xs) h =
      ground (arith, Pairwise-without p xs, any-without (conflicts x) p xs)

  deleted-Valid : (p : TenancyDb → Bool) (ts : List TenancyDb) → Valid ts → Valid (without p ts)
  deleted-Valid p ts v = record {
    ids = Unique-without tenancy_ids p ts v.ids;
    paths = Pairwise-without p ts v.paths;
    roles = Unique-without customer_role p ts v.roles;
  }

  pub delete-After :
      (id : String) (with_database id_is_display : Bool) (s : State crud.Db TenancyLog)
      → IsValid laws s
      → After crud laws (delete crud id with_database id_is_display s)
  unfolding delete
  delete-After id true id_is_display s v =
      fail_with-Post crud laws (λ x. IsValid laws) "operation_unsupported" s v
  delete-After id false id_is_display s v =
      bind-wp (IsValid laws) (λ x. IsValid laws) _ _ s
        (find_tenancy-Post crud laws _ id id_is_display s v (λ item is_in.
          write_then (IsValid laws) (λ x. IsValid laws) _ _ s v
            (λ db e.
              logs-After crud laws _ _ (record s { db = db })
                (subst Valid (sym (laws.tenancies.delete_rows s.db db item.row e))
                  (deleted-Valid (λ x. x.id == item.row.id) _ v)))))

  pub add_ip_address-After :
      (id ip tag : String) (id_is_display : Bool) (s : State crud.Db TenancyLog)
      → IsValid laws s
      → After crud laws (add_ip_address crud id ip tag id_is_display s)
  unfolding add_ip_address
  add_ip_address-After id ip tag id_is_display s v =
      bind-wp (IsValid laws) (λ x. IsValid laws) _ _ s
        (find_tenancy-Post crud laws _ id id_is_display s v (λ item is_in.
          write_then (IsValid laws) (λ x. IsValid laws) _ _ s v
            (λ db e.
              logs-After crud laws _ _ (record s { db = db })
                (subst Valid (sym (laws.add_ip_keeps s.db db item.row.id _ e)) v))))

  pub delete_ip_address-After :
      (id ip tag : String) (id_is_display : Bool) (s : State crud.Db TenancyLog)
      → IsValid laws s
      → After crud laws (delete_ip_address crud id ip tag id_is_display s)
  unfolding delete_ip_address
  delete_ip_address-After id ip tag id_is_display s v =
      bind-wp (IsValid laws) (λ x. IsValid laws) _ _ s
        (find_tenancy-Post crud laws _ id id_is_display s v (λ item is_in.
          write_then (IsValid laws) (λ x. IsValid laws) _ _ s v
            (λ db e.
              logs-After crud laws _ _ (record s { db = db })
                (subst Valid (sym (laws.delete_ip_keeps s.db db item.row.id _ e)) v))))
