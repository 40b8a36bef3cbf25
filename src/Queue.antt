-- ===== src/Queue.antt =====
-- message_queue/replacing_queue.go: a FIFO queue in which a key occurs once. The elements of the
-- `container/list` list are entries under an address, and the table maps a key to its element.
pub mod Coherence
pub mod Spec
pub mod Refinement
pub mod Interface
use evgo.Shared.{
  ℕ, ◌+◌, Bool, true, false, Option, none, some, List, [], ◌∷◌, ◌++◌, Eq, nat_eq, length, get, put,
  delete, if◌then◌else◌,
}

-- `list` holds the elements in order, each under its address; `fresh` is the next address.
pub record ReplacingQueue {ℓ} (K V : Type ℓ) : Type ℓ where
  pub list : List (ℕ × (K × V))
  pub table : List (K × ℕ)
  pub fresh : ℕ

unfoldable pub new_replacing_queue {ℓ} : {K V : Type ℓ} → ReplacingQueue K V
new_replacing_queue = record { list = []; table = []; fresh = 0 }

module _ {ℓ} {K V : Type ℓ} ⦃e : Eq K⦄ where
  unfoldable pub enqueue : ReplacingQueue K V → K → V → ReplacingQueue K V × (Bool × ℕ)
  enqueue q key value = elim (get key q.table) [
    | some el ↦ (record q { list = put el (key, value) q.list }, (true, length q.table))
    | none ↦
        let table = put key q.fresh q.table in
        (
          record {
            list = q.list ++ (q.fresh, (key, value)) ∷ [];
            table = table;
            fresh = q.fresh + 1;
          },
          (false, length table),
        )
  ]

  abbrev pop_element : ReplacingQueue K V → List (ℕ × (K × V)) → ReplacingQueue K V × Option V
  pop_element q [] = (q, none)
  pop_element q ((el, (key, value)) ∷ rest) =
      (record q { list = delete el q.list; table = delete key q.table }, some value)

  unfoldable pub dequeue : ReplacingQueue K V → ReplacingQueue K V × Option V
  dequeue q = pop_element q q.list

  abbrev front_element : List (ℕ × (K × V)) → Option V
  front_element [] = none
  front_element ((el, (key, value)) ∷ rest) = some value

  unfoldable pub front : ReplacingQueue K V → Option V
  front q = front_element q.list

  abbrev entry_value : Option (K × V) → Option V
  entry_value none = none
  entry_value (some (k, v)) = some v

  -- a table entry with no element would be a nil dereference, which `entry_value` shows as `none`
  unfoldable pub get_value : ReplacingQueue K V → K → Option V
  get_value q key = elim (get key q.table) [ some el ↦ entry_value (get el q.list) | none ↦ none ]

  unfoldable pub update : ReplacingQueue K V → K → V → ReplacingQueue K V × Bool
  update q key value = elim (get key q.table) [
    | some el ↦ (record q { list = put el (key, value) q.list }, true)
    | none ↦ (q, false)
  ]

  unfoldable pub remove : ReplacingQueue K V → K → ReplacingQueue K V × Bool
  remove q key = elim (get key q.table) [
    | some el ↦ (record q { list = delete el q.list; table = delete key q.table }, true)
    | none ↦ (q, false)
  ]

  unfoldable pub clear : ReplacingQueue K V → ReplacingQueue K V
  clear q = record q { list = []; table = [] }

  unfoldable pub depth : ReplacingQueue K V → ℕ
  depth q = length q.table

  abbrev drop_element : ReplacingQueue K V → List (ℕ × (K × V)) → ReplacingQueue K V
  drop_element q [] = q
  drop_element q ((el, (key, value)) ∷ rest) = record q {
    table = delete key q.table;
    list = delete el q.list;
  }

  unfoldable pub drop_front : ReplacingQueue K V → ReplacingQueue K V
  drop_front q = drop_element q q.list
