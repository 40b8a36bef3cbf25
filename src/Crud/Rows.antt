-- ===== src/Crud/Rows.antt =====
-- The rows of a table as a list, and keys that are unique in it.
use evgo.Shared.{
  ◌≡◌, ◌≢◌, refl, ap, inl, inr, Bool, true, false, ◌||◌, Option, none, some, List, [], ◌∷◌, ◌++◌,
  Eq, if◌then◌else◌, Bool-cases, arith,
}
use mathlib.Core.Path.{subst}

module _ {O : Type 0} where
  abbrev pub any : (O → Bool) → List O → Bool
  any p [] = false
  any p (x ∷ xs) = p x || any p xs

  abbrev pub first : (O → Bool) → List O → Option O
  first p [] = none
  first p (x ∷ xs) = if p x then some x else first p xs

  abbrev pub without : (O → Bool) → List O → List O
  without p [] = []
  without p (x ∷ xs) = if p x then without p xs else x ∷ without p xs

  abbrev pub change : (O → Bool) → (O → O) → List O → List O
  change p f [] = []
  change p f (x ∷ xs) = (if p x then f x else x) ∷ change p f xs

  pub first-fits : (p : O → Bool) (xs : List O) (x : O) → first p xs ≡ some x → p x ≡ true
  first-fits p [] x h = cc
  first-fits p (y ∷ ys) x h = elim (Bool-cases (p y)) [
    | inl fits ↦ let same : y ≡ x = ground (arith, h, fits) in subst (λ z. p z ≡ true) same fits
    | inr other ↦
        let rest : first p ys ≡ some x = ground (arith, h, other) in first-fits p ys x rest
  ]

  pub any-ext : (p q : O → Bool) (xs : List O) → ((x : O) → p x ≡ q x) → any p xs ≡ any q xs
  any-ext p q [] h = refl
  any-ext p q (x ∷ xs) h = ground (arith, h x, any-ext p q xs h)

module _ {O K : Type 0} ⦃e : Eq K⦄ (key : O → K) where
  abbrev pub has : K → List O → Bool
  has k xs = any (λ x. e.eqb (key x) k) xs

  -- No two rows have the same key.
  abbrev pub Unique : List O → Type 0
  Unique [] = Unit
  Unique (x ∷ xs) = (has (key x) xs ≡ false) × Unique xs

  pub has-snoc :
      (k : K) (xs : List O) (o : O) → has k (xs ++ o ∷ []) ≡ (has k xs || e.eqb (key o) k)
  has-snoc k [] o = ground arith
  has-snoc k (x ∷ xs) o = ground (arith, has-snoc k xs o)

  pub Unique-snoc :
      (xs : List O) (o : O) → has (key o) xs ≡ false → Unique xs → Unique (xs ++ o ∷ [])
  Unique-snoc [] o absent u = (refl, tt)
  Unique-snoc (x ∷ xs) o absent u = ground (
    arith,
    Unique-snoc xs o,
    has-snoc (key x) xs o,
    e.eqb_iff (key x) (key o),
    e.eqb_iff (key o) (key x),
  )

  pub has-without :
      (k : K) (p : O → Bool) (xs : List O) → has k xs ≡ false → has k (without p xs) ≡ false
  has-without k p [] h = refl
  has-without k p (x ∷ xs) h = ground (arith, has-without k p xs)

  pub Unique-without : (p : O → Bool) (xs : List O) → Unique xs → Unique (without p xs)
  Unique-without p [] u = tt
  Unique-without p (x ∷ xs) u = ground (arith, Unique-without p xs, has-without (key x) p xs)

  -- A change that keeps the key keeps it unique.
  pub has-change :
      (k : K) (p : O → Bool) (f : O → O) (xs : List O)
      → ((x : O) → key (f x) ≡ key x)
      → has k (change p f xs) ≡ has k xs
  has-change k p f [] same = refl
  has-change k p f (x ∷ xs) same = ground (arith, same x, has-change k p f xs same)

  pub Unique-change :
      (p : O → Bool) (f : O → O) (xs : List O)
      → ((x : O) → key (f x) ≡ key x)
      → Unique xs
      → Unique (change p f xs)
  Unique-change p f [] same u = tt
  Unique-change p f (x ∷ xs) same u =
      ground (arith, same x, Unique-change p f xs same, has-change (key x) p f xs same)

  -- The rows that are left still have a key that the rows which go do not have.
  pub has-without_ne :
      (k : K) (p : O → Bool) (xs : List O)
      → ((x : O) → key x ≡ k → p x ≡ false)
      → has k (without p xs) ≡ has k xs
  has-without_ne k p [] other = refl
  has-without_ne k p (x ∷ xs) other =
      ground (arith, other x, e.eqb_iff (key x) k, has-without_ne k p xs other)

module _ {O K : Type 0} ⦃e : Eq K⦄ (key : O → K) where
  pub first-has :
      (p : O → Bool) (xs : List O) (x : O) → first p xs ≡ some x → has key (key x) xs ≡ true
  first-has p [] x h = cc
  first-has p (y ∷ ys) x h = elim (Bool-cases (p y)) [
    | inl fits ↦
        let same : y ≡ x = ground (arith, h, fits) in
        ground (arith, (e.eqb_iff (key y) (key x)).1 (ap key same))
    | inr other ↦
        let rest : first p ys ≡ some x = ground (arith, h, other) in
        ground (arith, first-has p ys x rest)
  ]

-- One row, found by its unique id, gets a new key that no row has.
module _ {O I K : Type 0} ⦃d : Eq I⦄ ⦃e : Eq K⦄ (id : O → I) (key : O → K) (i : I) where
  abbrev is_row : O → Bool
  is_row x = d.eqb (id x) i

  change_absent : (f : O → O) (xs : List O) → has id i xs ≡ false → change is_row f xs ≡ xs
  change_absent f [] h = refl
  change_absent f (x ∷ xs) h = ground (arith, change_absent f xs)

  has-change_row :
      (k n : K) (f : O → O) (xs : List O)
      → ((x : O) → key (f x) ≡ n)
      → k ≢ n
      → has key k xs ≡ false
      → has key k (change is_row f xs) ≡ false
  has-change_row k n f [] new ne h = refl
  has-change_row k n f (x ∷ xs) new ne h =
      ground (arith, new x, e.eqb_iff (key (f x)) k, has-change_row k n f xs new ne)

  pub Unique-change_row :
      (n : K) (f : O → O) (xs : List O)
      → ((x : O) → key (f x) ≡ n)
      → has key n xs ≡ false
      → Unique id xs
      → Unique key xs
      → Unique key (change is_row f xs)
  Unique-change_row n f [] new absent ids keys = tt
  Unique-change_row n f (x ∷ xs) new absent ids keys = ground (
    arith,
    new x,
    d.eqb_iff (id x) i,
    e.eqb_iff (key x) n,
    change_absent f xs,
    has-change_row (key x) n f xs new,
    Unique-change_row n f xs new,
  )
