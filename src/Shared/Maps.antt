-- ===== src/Shared/Maps.antt =====
-- Go maps as association lists. `put` keeps the place of a key that is there and appends a new one.

use mathlib.Core.Path.{◌≡◌, refl}
use mathlib.Core.Logic.{◌≢◌}
use Prim.Native.Nat.{◌+◌, ◌≤◌}
use mathlib.Core.Bool.{true, false}
use mathlib.Core.Option.{Option, none, some}
use mathlib.Core.List.{List, [], ◌∷◌, ◌++◌}
use native.Mathlib.Omega.{arith}
use evgo.Shared.Lists.{length}
use evgo.Shared.Tests.{Eq, ◌==◌, if◌then◌else◌}

pub beq_refl {ℓ} : {K : Type ℓ} ⦃e : Eq K⦄ (k : K) → e.eqb k k ≡ true
beq_refl ⦃e⦄ k = (e.eqb_iff k k).1 refl

module _ {ℓ κ} {K : Type ℓ} {V : Type κ} ⦃e : Eq K⦄ where
  -- `v, ok := m[k]`
  unfoldable pub get : K → List (K × V) → Option V
  get k [] = none
  get k ((j, v) ∷ m) = if j == k then some v else get k m

  -- `m[k] = v`
  unfoldable pub put : K → V → List (K × V) → List (K × V)
  put k v [] = (k, v) ∷ []
  put k v ((j, w) ∷ m) = if j == k then (j, v) ∷ m else (j, w) ∷ put k v m

  -- `delete(m, k)`
  unfoldable pub delete : K → List (K × V) → List (K × V)
  delete k [] = []
  delete k ((j, v) ∷ m) = if j == k then m else (j, v) ∷ delete k m

  -- Every key occurs once.
  abbrev pub Distinct : List (K × V) → Type κ
  Distinct [] = Unit
  Distinct ((k, v) ∷ m) = (get k m ≡ none) × Distinct m

  pub get-put :
      (k j : K) (v : V) (m : List (K × V))
      → get j (put k v m) ≡ (if k == j then some v else get j m)
  unfolding get put
  get-put k j v [] = refl
  get-put k j v ((i, w) ∷ m) =
      ground (arith, e.eqb_iff k j, e.eqb_iff i k, e.eqb_iff i j, get-put k j v m)

  pub get-delete_self : (k : K) (m : List (K × V)) → Distinct m → get k (delete k m) ≡ none
  unfolding get delete
  get-delete_self k [] d = refl
  get-delete_self k ((i, w) ∷ m) d = ground (arith, e.eqb_iff i k, get-delete_self k m)

  pub get-delete_ne : (k j : K) (m : List (K × V)) → k ≢ j → get j (delete k m) ≡ get j m
  unfolding get delete
  get-delete_ne k j [] h = refl
  get-delete_ne k j ((i, w) ∷ m) h =
      ground (arith, e.eqb_iff i k, e.eqb_iff i j, get-delete_ne k j m h)

  pub get-delete-none : (k j : K) (m : List (K × V)) → get j m ≡ none → get j (delete k m) ≡ none
  unfolding get delete
  get-delete-none k j [] h = refl
  get-delete-none k j ((i, w) ∷ m) h = ground (arith, get-delete-none k j m)

  pub put-Distinct : (k : K) (v : V) (m : List (K × V)) → Distinct m → Distinct (put k v m)
  unfolding get put
  put-Distinct k v [] d = (refl, tt)
  put-Distinct k v ((i, w) ∷ m) d =
      ground (arith, e.eqb_iff i k, e.eqb_iff k i, put-Distinct k v m, get-put k i v m)

  pub delete-Distinct : (k : K) (m : List (K × V)) → Distinct m → Distinct (delete k m)
  unfolding delete
  delete-Distinct k [] d = d
  delete-Distinct k ((i, w) ∷ m) d = ground (arith, delete-Distinct k m, get-delete-none k i m)

  pub put_new : (k : K) (v : V) (m : List (K × V)) → get k m ≡ none → put k v m ≡ m ++ (k, v) ∷ []
  unfolding get put
  put_new k v [] h = refl
  put_new k v ((i, w) ∷ m) h = ground (arith, put_new k v m)

  pub length-put_old :
      (k : K) (v : V) {w : V} (m : List (K × V)) → get k m ≡ some w → length (put k v m) ≡ length m
  unfolding get put
  length-put_old k v [] h = cc
  length-put_old k v {w} ((i, u) ∷ m) h = ground (arith, length-put_old k v {w = w} m)

  pub get_head : (k : K) (v : V) (m : List (K × V)) → get k ((k, v) ∷ m) ≡ some v
  unfolding get
  get_head k v m = rw (beq_refl k)

  pub delete_head : (k : K) (v : V) (m : List (K × V)) → delete k ((k, v) ∷ m) ≡ m
  unfolding delete
  delete_head k v m = rw (beq_refl k)

  pub delete_absent : (k : K) (m : List (K × V)) → get k m ≡ none → delete k m ≡ m
  unfolding get delete
  delete_absent k [] h = refl
  delete_absent k ((i, u) ∷ m) h = ground (arith, delete_absent k m)

  pub length-put-le : (k : K) (v : V) (m : List (K × V)) → length (put k v m) ≤ length m + 1
  unfolding put
  length-put-le k v [] = omega arith
  length-put-le k v ((i, u) ∷ m) = ground (arith, length-put-le k v m)

pub get-empty {ℓ κ} : {K : Type ℓ} {V : Type κ} ⦃e : Eq K⦄ (k : K) → get {V = V} k [] ≡ none
unfolding get
get-empty k = refl

module _ {ℓ κ} {K : Type ℓ} {V : Type κ} ⦃e : Eq K⦄ where
  pub delete-put_new :
      (k : K) (v : V) (m : List (K × V)) → get k m ≡ none → delete k (put k v m) ≡ m
  unfolding get put delete
  delete-put_new k v [] h = ground (arith, beq_refl k)
  delete-put_new k v ((i, u) ∷ m) h = ground (arith, delete-put_new k v m)

-- `get-put` with the test of the keys decided.
module _ {ℓ κ} {K : Type ℓ} {V : Type κ} ⦃e : Eq K⦄ where
  pub get-put_same :
      (k j : K) (v : V) (m : List (K × V)) → e.eqb k j ≡ true → get j (put k v m) ≡ some v
  get-put_same k j v m same = ground (arith, get-put k j v m, same)

  pub get-put_other :
      (k j : K) (v : V) (m : List (K × V)) → e.eqb k j ≡ false → get j (put k v m) ≡ get j m
  get-put_other k j v m other = ground (arith, get-put k j v m, other)
