-- ===== src/Queue/Spec.antt =====
-- What a RandomAccessQueue (message_queue/random_access_queue.go) promises: a list of entries in
-- which a key occurs once, oldest first.
use evgo.Shared.{
  ℕ, Bool, true, false, Option, none, some, List, [], ◌∷◌, Eq, length, get, put, delete,
  if◌then◌else◌,
}

pub data Call {ℓ} (K V : Type ℓ) : Type ℓ where
  enqueue : K → V → Call K V
  dequeue : Call K V
  front : Call K V
  get_value : K → Call K V
  update : K → V → Call K V
  remove : K → Call K V
  clear : Call K V
  depth : Call K V
  drop_front : Call K V

pub data Reply {ℓ} (V : Type ℓ) : Type ℓ where
  replaced : Bool → ℕ → Reply V
  value : Option V → Reply V
  flag : Bool → Reply V
  size : ℕ → Reply V
  nothing : Reply V

abbrev pub is_some {ℓ} : {A : Type ℓ} → Option A → Bool
is_some none = false
is_some (some a) = true

module _ {ℓ} {K V : Type ℓ} where
  abbrev pub tail : List (K × V) → List (K × V)
  tail [] = []
  tail (x ∷ xs) = xs

  abbrev pub first : List (K × V) → Option V
  first [] = none
  first ((k, v) ∷ xs) = some v

module _ {ℓ} {K V : Type ℓ} ⦃e : Eq K⦄ where
  -- A key that is there keeps its place and gets the new value; a new key goes to the back.
  abbrev pub perform : Call K V → List (K × V) → List (K × V) × Reply V
  perform (enqueue k v) xs = (put k v xs, replaced (is_some (get k xs)) (length (put k v xs)))
  perform dequeue xs = (tail xs, value (first xs))
  perform front xs = (xs, value (first xs))
  perform (get_value k) xs = (xs, value (get k xs))
  perform (update k v) xs =
      (if is_some (get k xs) then put k v xs else xs, flag (is_some (get k xs)))
  perform (remove k) xs = (delete k xs, flag (is_some (get k xs)))
  perform clear xs = ([], nothing)
  perform depth xs = (xs, size (length xs))
  perform drop_front xs = (tail xs, nothing)

  unfoldable pub perform_all : List (Call K V) → List (K × V) → List (K × V) × List (Reply V)
  perform_all [] xs = (xs, [])
  perform_all (c ∷ cs) xs =
      let (ys, r) = perform c xs in let (zs, rs) = perform_all cs ys in (zs, r ∷ rs)
