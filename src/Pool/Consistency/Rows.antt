-- ===== src/Pool/Consistency/Rows.antt =====
-- The rows of the three tables, without the operations (pkg/pool).
use evgo.Shared.{
  ◌≡◌, ◌∙◌, ap, ◌↔◌, Bool, true, false, ◌&&◌, List, [], ◌∷◌, ◌++◌, String, string_eq, Eq, ◌==◌, All,
  arith,
}
use evgo.Crud.Rows.{any, without, change, has, Unique, has-snoc, Unique-snoc, Unique-without}
use evgo.Crud.Rows.{has-change, Unique-change, has-without_ne}
use evgo.Pool.{PoolBase, PoolService, PoolServiceAssociation}

abbrev pub pool_role : PoolServiceAssociation → String × String
pool_role a = (a.pool_id, a.role)

abbrev pub both_eqb : String × String → String × String → Bool
both_eqb (a, b) (c, d) = (a == c) && (b == d)

pub both_eqb_iff : (p q : String × String) → (both_eqb p q ≡ true) ↔ (p ≡ q)
both_eqb_iff (a, b) (c, d) = ground (arith, string_eq.eqb_iff a c, string_eq.eqb_iff b d)

instance abbrev pub both_eq : Eq (String × String)
both_eq = record { eqb = both_eqb; eqb_iff = both_eqb_iff }

abbrev pub pool_ids : PoolBase → String
pool_ids p = p.id

abbrev pub pool_names : PoolBase → String
pool_names p = p.name

abbrev pub service_ids : PoolService → String
service_ids p = p.id

abbrev pub service_names : PoolService → String
service_names p = p.name

-- The pool and the service of an association are there.
abbrev pub IsBound : List PoolBase → List PoolService → PoolServiceAssociation → Type 0
IsBound ps ss a = (has pool_ids a.pool_id ps ≡ true) × (has service_ids a.service_id ss ≡ true)

pub record Consistent (ps : List PoolBase) (ss : List PoolService)
    (bs : List PoolServiceAssociation) : Type 0 where
  pub ids_of_pools : Unique pool_ids ps
  pub names_of_pools : Unique pool_names ps
  pub ids_of_services : Unique service_ids ss
  pub names_of_services : Unique service_names ss
  pub roles : Unique pool_role bs
  pub bound : All (IsBound ps ss) bs

pub All-imply :
    {A : Type 0} (P Q : A → Type 0) (xs : List A) → ((x : A) → P x → Q x) → All P xs → All Q xs
All-imply P Q [] f h = tt
All-imply P Q (x ∷ xs) f h = (f x h.0, All-imply P Q xs f h.1)

pub All-without :
    {A : Type 0} (P : A → Type 0) (p : A → Bool) (xs : List A) → All P xs → All P (without p xs)
All-without P p [] h = tt
All-without P p (x ∷ xs) h = ground (arith, All-without P p xs)

pub All-snoc :
    {A : Type 0} (P : A → Type 0) (xs : List A) (x : A) → All P xs → P x → All P (xs ++ x ∷ [])
All-snoc P [] x h p = (p, tt)
All-snoc P (y ∷ xs) x h p = (h.0, All-snoc P xs x h.1 p)

-- An association that is not of the row that goes stays bound.
All-unless :
    {A : Type 0} (P Q : A → Type 0) (q : A → Bool) (xs : List A)
    → any q xs ≡ false
    → ((x : A) → q x ≡ false → P x → Q x)
    → All P xs
    → All Q xs
All-unless P Q q [] none_of f h = tt
All-unless P Q q (x ∷ xs) none_of f h =
    (f x (ground arith) h.0, All-unless P Q q xs (ground arith) f h.1)

module _ (ps : List PoolBase) (ss : List PoolService) (bs : List PoolServiceAssociation)
    (c : Consistent ps ss bs) where
  pub add_pool_rows :
      (p : PoolBase)
      → has pool_ids p.id ps ≡ false
      → has pool_names p.name ps ≡ false
      → Consistent (ps ++ p ∷ []) ss bs
  add_pool_rows p new_id new_name = record {
    ids_of_pools = Unique-snoc pool_ids ps p new_id c.ids_of_pools;
    names_of_pools = Unique-snoc pool_names ps p new_name c.names_of_pools;
    ids_of_services = c.ids_of_services;
    names_of_services = c.names_of_services;
    roles = c.roles;
    bound =
        All-imply (IsBound ps ss) (IsBound (ps ++ p ∷ []) ss) bs
          (λ a h. (ground (arith, h.0, has-snoc pool_ids a.pool_id ps p), h.1)) c.bound;
  }

  pub add_service_rows :
      (p : PoolService)
      → has service_ids p.id ss ≡ false
      → has service_names p.name ss ≡ false
      → Consistent ps (ss ++ p ∷ []) bs
  add_service_rows p new_id new_name = record {
    ids_of_pools = c.ids_of_pools;
    names_of_pools = c.names_of_pools;
    ids_of_services = Unique-snoc service_ids ss p new_id c.ids_of_services;
    names_of_services = Unique-snoc service_names ss p new_name c.names_of_services;
    roles = c.roles;
    bound =
        All-imply (IsBound ps ss) (IsBound ps (ss ++ p ∷ [])) bs
          (λ a h. (h.0, ground (arith, h.1, has-snoc service_ids a.service_id ss p))) c.bound;
  }

  pub change_pool_rows :
      (p : PoolBase → Bool) (f : PoolBase → PoolBase)
      → ((x : PoolBase) → pool_ids (f x) ≡ pool_ids x)
      → Unique pool_names (change p f ps)
      → Consistent (change p f ps) ss bs
  change_pool_rows p f same names = record {
    ids_of_pools = Unique-change pool_ids p f ps same c.ids_of_pools;
    names_of_pools = names;
    ids_of_services = c.ids_of_services;
    names_of_services = c.names_of_services;
    roles = c.roles;
    bound =
        All-imply (IsBound ps ss) (IsBound (change p f ps) ss) bs
          (λ a h. (has-change pool_ids a.pool_id p f ps same ∙ h.0, h.1)) c.bound;
  }

  pub change_service_rows :
      (p : PoolService → Bool) (f : PoolService → PoolService)
      → ((x : PoolService) → service_ids (f x) ≡ service_ids x)
      → Unique service_names (change p f ss)
      → Consistent ps (change p f ss) bs
  change_service_rows p f same names = record {
    ids_of_pools = c.ids_of_pools;
    names_of_pools = c.names_of_pools;
    ids_of_services = Unique-change service_ids p f ss same c.ids_of_services;
    names_of_services = names;
    roles = c.roles;
    bound =
        All-imply (IsBound ps ss) (IsBound ps (change p f ss)) bs
          (λ a h. (h.0, has-change service_ids a.service_id p f ss same ∙ h.1)) c.bound;
  }

  pub delete_pool_rows :
      (i : String)
      → any (λ a. a.pool_id == i) bs ≡ false
      → Consistent (without (λ x. x.id == i) ps) ss bs
  delete_pool_rows i unbound = record {
    ids_of_pools = Unique-without pool_ids (λ x. x.id == i) ps c.ids_of_pools;
    names_of_pools = Unique-without pool_names (λ x. x.id == i) ps c.names_of_pools;
    ids_of_services = c.ids_of_services;
    names_of_services = c.names_of_services;
    roles = c.roles;
    bound =
        All-unless (IsBound ps ss) (IsBound (without (λ x. x.id == i) ps) ss) (λ a. a.pool_id == i)
          bs unbound
          (λ a other h. (
            has-without_ne pool_ids a.pool_id (λ x. x.id == i) ps
                  (λ x e. ap (λ k. k == i) e ∙ other)
                ∙ h.0,
            h.1,
          ))
          c.bound;
  }

  pub delete_service_rows :
      (i : String)
      → any (λ a. a.service_id == i) bs ≡ false
      → Consistent ps (without (λ x. x.id == i) ss) bs
  delete_service_rows i unbound = record {
    ids_of_pools = c.ids_of_pools;
    names_of_pools = c.names_of_pools;
    ids_of_services = Unique-without service_ids (λ x. x.id == i) ss c.ids_of_services;
    names_of_services = Unique-without service_names (λ x. x.id == i) ss c.names_of_services;
    roles = c.roles;
    bound =
        All-unless (IsBound ps ss) (IsBound ps (without (λ x. x.id == i) ss))
          (λ a. a.service_id == i) bs unbound
          (λ a other h. (
            h.0,
            has-without_ne service_ids a.service_id (λ x. x.id == i) ss
                  (λ x e. ap (λ k. k == i) e ∙ other)
                ∙ h.1,
          ))
          c.bound;
  }

  pub add_association_rows :
      (a : PoolServiceAssociation)
      → IsBound ps ss a
      → has pool_role (pool_role a) bs ≡ false
      → Consistent ps ss (bs ++ a ∷ [])
  add_association_rows a is_bound new = record {
    ids_of_pools = c.ids_of_pools;
    names_of_pools = c.names_of_pools;
    ids_of_services = c.ids_of_services;
    names_of_services = c.names_of_services;
    roles = Unique-snoc pool_role bs a new c.roles;
    bound = All-snoc (IsBound ps ss) bs a c.bound is_bound;
  }

  pub delete_association_rows :
      (p : PoolServiceAssociation → Bool) → Consistent ps ss (without p bs)
  delete_association_rows p = record {
    ids_of_pools = c.ids_of_pools;
    names_of_pools = c.names_of_pools;
    ids_of_services = c.ids_of_services;
    names_of_services = c.names_of_services;
    roles = Unique-without pool_role p bs c.roles;
    bound = All-without (IsBound ps ss) p bs c.bound;
  }
