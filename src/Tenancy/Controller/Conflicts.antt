-- ===== src/Tenancy/Controller/Conflicts.antt =====
-- Rows of tenancies (pkg/multitenancy) whose paths do not conflict.
use evgo.Shared.{
  ◌≡◌, refl, sym, ◌∙◌, ap, ◌≢◌, inl, inr, Bool, true, false, ◌&&◌, ◌||◌, List, [], ◌∷◌, String,
  string_eq, ◌==◌, Bool-cases, In, arith,
}
use mathlib.Core.Path.{subst}
use evgo.Crud.Rows.{any, change, has, Unique}
use evgo.Tenancy.{TenancyDb}

abbrev pub tenancy_ids : TenancyDb → String
tenancy_ids t = t.id

-- Two tenancies of one pool with a path or shadow path in common.
abbrev pub conflicts : TenancyDb → TenancyDb → Bool
conflicts a b =
    (a.pool_id == b.pool_id)
    && ((a.path == b.path)
        || ((a.path == b.shadow_path)
            || ((a.shadow_path == b.path) || (a.shadow_path == b.shadow_path))))

abbrev pub Pairwise : List TenancyDb → Type 0
Pairwise [] = Unit
Pairwise (x ∷ xs) = (any (conflicts x) xs ≡ false) × Pairwise xs

pub eq_sym : (a b : String) → (a == b) ≡ (b == a)
eq_sym a b = ground (arith, string_eq.eqb_iff a b, string_eq.eqb_iff b a)

pub conflicts_sym : (a b : TenancyDb) → conflicts a b ≡ conflicts b a
conflicts_sym a b = ground (
  arith,
  eq_sym a.pool_id b.pool_id,
  eq_sym a.path b.path,
  eq_sym a.path b.shadow_path,
  eq_sym a.shadow_path b.path,
  eq_sym a.shadow_path b.shadow_path,
)

pub any-In :
    {A : Type 0} (p : A → Bool) (xs : List A) (y : A) → any p xs ≡ false → In y xs → p y ≡ false
any-In p [] y h is_in = absurd is_in
any-In p (x ∷ xs) y h (inl same) = subst (λ z. p z ≡ false) (sym same) (ground (arith, h))
any-In p (x ∷ xs) y h (inr later) = any-In p xs y (ground (arith, h)) later

any-false :
    {A : Type 0} (p : A → Bool) (xs : List A) → ((y : A) → In y xs → p y ≡ false) → any p xs ≡ false
any-false p [] h = refl
any-false p (x ∷ xs) h = ground (arith, h x (inl refl), any-false p xs (λ y later. h y (inr later)))

has-In :
    (i : String) (xs : List TenancyDb) (y : TenancyDb)
    → has tenancy_ids i xs ≡ false
    → In y xs
    → y.id ≢ i
has-In i xs y absent is_in e =
    let apart : (y.id == i) ≡ false = any-In (λ x. x.id == i) xs y absent is_in in
    ground (arith, apart, (string_eq.eqb_iff y.id i).1 e)

-- Two rows with one id are one row.
pub Unique-In :
    (xs : List TenancyDb) (x y : TenancyDb)
    → Unique tenancy_ids xs
    → In x xs
    → In y xs
    → x.id ≡ y.id
    → x ≡ y
Unique-In [] x y u hx hy e = absurd hx
Unique-In (z ∷ zs) x y u (inl x_is) (inl y_is) e = x_is ∙ sym y_is
Unique-In (z ∷ zs) x y u (inl x_is) (inr later) e =
    absurd (has-In z.id zs y u.0 later (sym e ∙ ap tenancy_ids x_is))
Unique-In (z ∷ zs) x y u (inr later) (inl y_is) e =
    absurd (has-In z.id zs x u.0 later (e ∙ ap tenancy_ids y_is))
Unique-In (z ∷ zs) x y u (inr hx) (inr hy) e = Unique-In zs x y u.1 hx hy e

pub Pairwise-In :
    (xs : List TenancyDb) (x y : TenancyDb)
    → Pairwise xs
    → In x xs
    → In y xs
    → x.id ≢ y.id
    → conflicts x y ≡ false
Pairwise-In [] x y p hx hy ne = absurd hx
Pairwise-In (z ∷ zs) x y p (inl x_is) (inl y_is) ne = absurd (ne (ap tenancy_ids (x_is ∙ sym y_is)))
Pairwise-In (z ∷ zs) x y p (inl x_is) (inr later) ne =
    ap (λ v. conflicts v y) x_is ∙ any-In (conflicts z) zs y p.0 later
Pairwise-In (z ∷ zs) x y p (inr later) (inl y_is) ne =
    ap (conflicts x) y_is ∙ conflicts_sym x z ∙ any-In (conflicts z) zs x p.0 later
Pairwise-In (z ∷ zs) x y p (inr hx) (inr hy) ne = Pairwise-In zs x y p.1 hx hy ne

module _ (i : String) (f : TenancyDb → TenancyDb) where
  abbrev pub changed : List TenancyDb → List TenancyDb
  changed xs = change (λ x. x.id == i) f xs

  changed_absent : (xs : List TenancyDb) → has tenancy_ids i xs ≡ false → changed xs ≡ xs
  changed_absent [] h = refl
  changed_absent (x ∷ xs) h = ground (arith, changed_absent xs)

  any-changed :
      (p : TenancyDb → Bool) (xs : List TenancyDb)
      → ((y : TenancyDb) → In y xs → (y.id == i) ≡ true → p (f y) ≡ false)
      → any p xs ≡ false
      → any p (changed xs) ≡ false
  any-changed p [] new h = refl
  any-changed p (y ∷ ys) new h = elim (Bool-cases (y.id == i)) [
    | inl same ↦ rw (same) (
        ground (
          arith,
          new y (inl refl) same,
          any-changed p ys (λ z later. new z (inr later)) (ground (arith, h)),
        ))
    | inr other ↦
        rw (other)
          (ground (arith, h, any-changed p ys (λ z later. new z (inr later)) (ground (arith, h))))
  ]

  -- One row changes, and in its new state it is in conflict with no other row.
  pub Pairwise-changed :
      (xs : List TenancyDb)
      → Unique tenancy_ids xs
      → ((x y : TenancyDb)
          → In x xs
          → In y xs
          → (x.id == i) ≡ true
          → y.id ≢ i
          → conflicts (f x) y ≡ false)
      → Pairwise xs
      → Pairwise (changed xs)
  Pairwise-changed [] u free p = tt
  Pairwise-changed (x ∷ xs) u free p = elim (Bool-cases (x.id == i)) [
    | inl same ↦
        let is_i : x.id ≡ i = (string_eq.eqb_iff x.id i).0 same in
        let absent : has tenancy_ids i xs ≡ false =
          subst (λ k. has tenancy_ids k xs ≡ false) is_i u.0 in
        rw (same, changed_absent xs absent)
          (
            any-false (conflicts (f x)) xs
                (λ y later. free x y (inl refl) (inr later) same (has-In i xs y absent later)),
            p.1,
          )
    | inr other ↦
        let apart : x.id ≢ i = ground (arith, string_eq.eqb_iff x.id i) in
        rw (other) (
          any-changed (conflicts x) xs
              (λ y later is. conflicts_sym x (f y) ∙ free y x (inr later) (inl refl) is apart) p.0,
          Pairwise-changed xs u.1 (λ v w hv hw. free v w (inr hv) (inr hw)) p.1,
        )
  ]
