-- ===== src/Tenancy/Indexes.antt =====
-- The three maps of the tenancy manager (pkg/multitenancy/tenancy_manager/tenancy_manager.go).
use evgo.Shared.{
  ◌≡◌, refl, sym, ◌∙◌, ap, ◌≢◌, ◌⊎◌, inl, inr, Option, none, some, List, [], ◌∷◌, String, string_eq,
  ◌==◌, get, put, delete, get-put, get-delete_self, get-delete_ne, delete-Distinct, put-Distinct,
  Distinct, Bool-cases, arith, beq_refl,
}
use mathlib.Core.Path.{subst}
use evgo.Auth.Context.{Result, ok, err}
use evgo.Tenancy.{
  TenancyDb, Tenancy, TenancyManager, TenancyIpAddress, Environment, init, unload_tenancy, unloaded,
  unloaded_if, kept_if, loaded_if, is_ok, keep, load_tenancy_from_data, load_tenancy, handle,
  addresses_or_none, tenancy_by_path, tenancy_by_shadow_path,
}

abbrev path_of : Tenancy → String
path_of t = t.tenancy_db.path

abbrev shadow_path_of : Tenancy → String
shadow_path_of t = t.tenancy_db.shadow_path

-- An entry of an index by a path: it stands under its path, and the tenancy is loaded by its id.
abbrev IsIndex : (Tenancy → String) → List (String × Tenancy) → List (String × Tenancy) → Type 0
IsIndex key index by_id =
    (k : String) (t : Tenancy)
    → get k index ≡ some t
    → (key t ≡ k) × (get t.tenancy_db.id by_id ≡ some t)

-- The maps by path and by shadow path have loaded tenancies only, and no key stands twice.
pub record IsCoherent (m : TenancyManager) : Type 0 where
  pub ids : Distinct m.tenancies_by_id
  pub paths : Distinct m.tenancies_by_path
  pub shadow_paths : Distinct m.tenancies_by_shadow_path
  pub by_id : (id : String) (t : Tenancy) → get id m.tenancies_by_id ≡ some t → t.tenancy_db.id ≡ id
  pub by_path : IsIndex path_of m.tenancies_by_path m.tenancies_by_id
  pub by_shadow_path : IsIndex shadow_path_of m.tenancies_by_shadow_path m.tenancies_by_id

none_some : {A B : Type 0} {a : A} → none ≡ some a → B
none_some e = cc

some_eq : {A : Type 0} {a b : A} → some a ≡ some b → a ≡ b
some_eq e = cc

module _ (id : String) (t : Tenancy) (index by_id : List (String × Tenancy))
    (key : Tenancy → String) where
  -- The tenancy that goes takes its own entry with it.
  delete-IsIndex :
      get id by_id ≡ some t
      → Distinct index
      → ((i : String) (u : Tenancy) → get i by_id ≡ some u → u.tenancy_db.id ≡ i)
      → IsIndex key index by_id
      → IsIndex key (delete (key t) index) (delete id by_id)
  delete-IsIndex loaded distinct ids entries k u e = elim (Bool-cases (key t == k)) [
    | inl same ↦
        let here : key t ≡ k = (string_eq.eqb_iff (key t) k).0 same in
        none_some (
          sym (
            ap (λ x. get x (delete (key t) index)) (sym here)
            ∙ get-delete_self (key t) index distinct)
          ∙ e)
    | inr other ↦
        let ne : key t ≢ k = ground (arith, string_eq.eqb_iff (key t) k) in
        let old : get k index ≡ some u = sym (get-delete_ne (key t) k index ne) ∙ e in
        let (is_key, is_loaded) = entries k u old in
        (
          is_key,
          elim (Bool-cases (id == u.tenancy_db.id)) [
            | inl gone ↦
                let here : id ≡ u.tenancy_db.id = (string_eq.eqb_iff id u.tenancy_db.id).0 gone in
                let is_t : t ≡ u = some_eq (sym loaded ∙ ap (λ x. get x by_id) here ∙ is_loaded) in
                absurd (ne (ap key is_t ∙ is_key))
            | inr stays ↦
                let apart : id ≢ u.tenancy_db.id =
                  ground (arith, string_eq.eqb_iff id u.tenancy_db.id) in
                get-delete_ne id u.tenancy_db.id by_id apart ∙ is_loaded
          ],
        )
  ]

-- A tenancy whose id is not loaded is added under its path.
put-IsIndex :
    (t : Tenancy) (index by_id : List (String × Tenancy)) (key : Tenancy → String)
    → get t.tenancy_db.id by_id ≡ none
    → IsIndex key index by_id
    → IsIndex key (put (key t) t index) (put t.tenancy_db.id t by_id)
put-IsIndex t index by_id key fresh entries k u e = elim (Bool-cases (key t == k)) [
  | inl same ↦
      let is_t : t ≡ u = some_eq (sym (get-put (key t) k t index ∙ rw (same) refl) ∙ e) in
      (
        ap key (sym is_t) ∙ (string_eq.eqb_iff (key t) k).0 same,
        subst (λ x. get x.tenancy_db.id (put t.tenancy_db.id t by_id) ≡ some x) is_t
            (get-put t.tenancy_db.id t.tenancy_db.id t by_id ∙ rw (beq_refl t.tenancy_db.id) refl),
      )
  | inr other ↦
      let old : get k index ≡ some u = sym (get-put (key t) k t index ∙ rw (other) refl) ∙ e in
      let (is_key, is_loaded) = entries k u old in
      (
        is_key,
        elim (Bool-cases (t.tenancy_db.id == u.tenancy_db.id)) [
          | inl again ↦
              let here : t.tenancy_db.id ≡ u.tenancy_db.id =
                (string_eq.eqb_iff t.tenancy_db.id u.tenancy_db.id).0 again in
              none_some (sym fresh ∙ ap (λ x. get x by_id) here ∙ is_loaded)
          | inr apart ↦
              get-put t.tenancy_db.id u.tenancy_db.id t by_id ∙ rw (apart) refl ∙ is_loaded
        ],
      )
]

delete-by_id :
    (id : String) (by_id : List (String × Tenancy))
    → Distinct by_id
    → ((i : String) (u : Tenancy) → get i by_id ≡ some u → u.tenancy_db.id ≡ i)
    → (i : String) (u : Tenancy) → get i (delete id by_id) ≡ some u
    → u.tenancy_db.id ≡ i
delete-by_id id by_id distinct ids i u e = elim (Bool-cases (id == i)) [
  | inl same ↦
      let here : id ≡ i = (string_eq.eqb_iff id i).0 same in
      none_some
        (sym (ap (λ x. get x (delete id by_id)) (sym here) ∙ get-delete_self id by_id distinct) ∙ e)
  | inr other ↦
      let ne : id ≢ i = ground (arith, string_eq.eqb_iff id i) in
      ids i u (sym (get-delete_ne id i by_id ne) ∙ e)
]

put-by_id :
    (t : Tenancy) (by_id : List (String × Tenancy))
    → ((i : String) (u : Tenancy) → get i by_id ≡ some u → u.tenancy_db.id ≡ i)
    → (i : String) (u : Tenancy) → get i (put t.tenancy_db.id t by_id) ≡ some u
    → u.tenancy_db.id ≡ i
put-by_id t by_id ids i u e = elim (Bool-cases (t.tenancy_db.id == i)) [
  | inl same ↦
      let is_t : t ≡ u = some_eq (sym (get-put t.tenancy_db.id i t by_id ∙ rw (same) refl) ∙ e) in
      ap (λ x. x.tenancy_db.id) (sym is_t) ∙ (string_eq.eqb_iff t.tenancy_db.id i).0 same
  | inr other ↦ ids i u (sym (get-put t.tenancy_db.id i t by_id ∙ rw (other) refl) ∙ e)
]

module _ (m : TenancyManager) (c : IsCoherent m) where
  unloaded-IsCoherent :
      (id : String) (t : Tenancy) → get id m.tenancies_by_id ≡ some t → IsCoherent (unloaded id t m)
  unloaded-IsCoherent id t loaded = record {
    ids = delete-Distinct id m.tenancies_by_id c.ids;
    paths = delete-Distinct t.tenancy_db.path m.tenancies_by_path c.paths;
    shadow_paths =
        delete-Distinct t.tenancy_db.shadow_path m.tenancies_by_shadow_path c.shadow_paths;
    by_id = delete-by_id id m.tenancies_by_id c.ids c.by_id;
    by_path =
        delete-IsIndex id t m.tenancies_by_path m.tenancies_by_id path_of loaded c.paths c.by_id
          c.by_path;
    by_shadow_path =
        delete-IsIndex id t m.tenancies_by_shadow_path m.tenancies_by_id shadow_path_of loaded
          c.shadow_paths c.by_id c.by_shadow_path;
  }

  pub unload_tenancy-IsCoherent : (id : String) → IsCoherent (unload_tenancy id m)
  unfolding unload_tenancy
  unload_tenancy-IsCoherent id = after (get id m.tenancies_by_id) refl
    where
      after :
          (found : Option Tenancy)
          → get id m.tenancies_by_id ≡ found
          → IsCoherent (unloaded_if id found m)
      after none e = c
      after (some t) e = unloaded-IsCoherent id t e

  pub unload_tenancy_absent : (id : String) → get id (unload_tenancy id m).tenancies_by_id ≡ none
  unfolding unload_tenancy
  unload_tenancy_absent id = after (get id m.tenancies_by_id) refl
    where
      after :
          (found : Option Tenancy)
          → get id m.tenancies_by_id ≡ found
          → get id (unloaded_if id found m).tenancies_by_id ≡ none
      after none e = e
      after (some t) e = get-delete_self id m.tenancies_by_id c.ids

  keep-IsCoherent :
      (t : Tenancy) (addresses : List TenancyIpAddress)
      → get t.tenancy_db.id m.tenancies_by_id ≡ none
      → IsCoherent (keep t addresses m)
  unfolding keep
  keep-IsCoherent t addresses fresh = record {
    ids = put-Distinct t.tenancy_db.id t m.tenancies_by_id c.ids;
    paths = put-Distinct t.tenancy_db.path t m.tenancies_by_path c.paths;
    shadow_paths =
        put-Distinct t.tenancy_db.shadow_path t m.tenancies_by_shadow_path c.shadow_paths;
    by_id = put-by_id t m.tenancies_by_id c.by_id;
    by_path = put-IsIndex t m.tenancies_by_path m.tenancies_by_id path_of fresh c.by_path;
    by_shadow_path =
        put-IsIndex t m.tenancies_by_shadow_path m.tenancies_by_id shadow_path_of fresh
          c.by_shadow_path;
  }

-- `Init` keeps the row of the database.
pub init-row :
    (env : Environment) (row : TenancyDb) (t : Tenancy) → init env row ≡ ok t → t.tenancy_db ≡ row
unfolding init
init-row env row t e = ground arith

module _ (env : Environment) where
  load_from_data-IsCoherent :
      (row : TenancyDb) (m : TenancyManager)
      → IsCoherent m
      → get row.id m.tenancies_by_id ≡ none
      → IsCoherent (load_tenancy_from_data env row m).0
  unfolding load_tenancy_from_data
  load_from_data-IsCoherent row m c fresh = after (init env row) refl
    where
      after : (r : Result Tenancy) → init env row ≡ r → IsCoherent (kept_if env row m r).0
      after err e = c
      after (ok t) e =
          keep-IsCoherent m c t (addresses_or_none (env.list_ip_addresses row.id))
            (ap (λ x. get x.id m.tenancies_by_id) (init-row env row t e) ∙ fresh)

  is_ok-state : (x : TenancyManager × Result Tenancy) → (is_ok env x).0 ≡ x.0
  is_ok-state (m, err) = refl
  is_ok-state (m, ok t) = refl

  -- What the manager relies on of the controller's `Find`.
  abbrev pub FindsById : Type 0
  FindsById = (id : String) (row : TenancyDb) → env.find id ≡ ok row → row.id ≡ id

  load_tenancy-IsCoherent :
      (id : String) (m : TenancyManager)
      → FindsById
      → IsCoherent m
      → get id m.tenancies_by_id ≡ none
      → IsCoherent (load_tenancy env id m).0
  unfolding load_tenancy
  load_tenancy-IsCoherent id m finds c fresh = after (env.find id) refl
    where
      after : (r : Result TenancyDb) → env.find id ≡ r → IsCoherent (loaded_if env m r).0
      after err e = c
      after (ok row) e =
          load_from_data-IsCoherent row m c
            (ap (λ x. get x m.tenancies_by_id) (finds id row e) ∙ fresh)

  pub handle-IsCoherent :
      (id operation : String) (m : TenancyManager)
      → FindsById
      → IsCoherent m
      → IsCoherent (handle env id operation m).0
  unfolding handle
  handle-IsCoherent id operation m finds c = elim (Bool-cases (operation == "delete")) [
    | inl deleted ↦ rw (deleted) (unload_tenancy-IsCoherent m c id)
    | inr other ↦ rw (other) (
        subst IsCoherent (sym (is_ok-state (load_tenancy env id (unload_tenancy id m)))) (
          load_tenancy-IsCoherent id (unload_tenancy id m) finds (unload_tenancy-IsCoherent m c id)
            (unload_tenancy_absent m c id)))
  ]

  -- The notifications of the topic, one after the other.
  unfoldable pub handle_all : List (String × String) → TenancyManager → TenancyManager
  handle_all [] m = m
  handle_all ((id, operation) ∷ notes) m = handle_all notes (handle env id operation m).0

  -- If the controller finds tenancies by their ids, any sequence of notifications keeps the maps of
  -- the tenancy manager coherent: a tenancy that stands under a path or a shadow path has it, and
  -- is the one that is loaded under its id.
  pub handle_all-IsCoherent :
      (notes : List (String × String)) (m : TenancyManager)
      → FindsById
      → IsCoherent m
      → IsCoherent (handle_all notes m)
  unfolding handle_all
  handle_all-IsCoherent [] m finds c = c
  handle_all-IsCoherent ((id, operation) ∷ notes) m finds c =
      handle_all-IsCoherent notes (handle env id operation m).0 finds
        (handle-IsCoherent id operation m finds c)

  -- After a coherent tenancy manager has handled the notification that a tenancy is deleted, no
  -- tenancy that is found by a path or by a shadow path has its id.
  pub handle-delete :
      (id path : String) (t : Tenancy) (m : TenancyManager)
      → IsCoherent m
      → (tenancy_by_path path (handle env id "delete" m).0 ≡ some t)
        ⊎ (tenancy_by_shadow_path path (handle env id "delete" m).0 ≡ some t)
      → t.tenancy_db.id ≢ id
  unfolding handle tenancy_by_path tenancy_by_shadow_path
  handle-delete id path t m c (inl e) same = none_some (
      sym (unload_tenancy_absent m c id)
      ∙ ap (λ x. get x (unload_tenancy id m).tenancies_by_id) (sym same)
      ∙ ((unload_tenancy-IsCoherent m c id).by_path path t e).1)
  handle-delete id path t m c (inr e) same = none_some (
      sym (unload_tenancy_absent m c id)
      ∙ ap (λ x. get x (unload_tenancy id m).tenancies_by_id) (sym same)
      ∙ ((unload_tenancy-IsCoherent m c id).by_shadow_path path t e).1)
