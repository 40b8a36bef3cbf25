-- ===== src/Trie.antt =====
-- message_queue/attribute_registry.go, selector_trie.go and level_trie.go: a trie of selectors
-- under which the consumers of a message queue are registered.
pub mod Children
pub mod Laws
pub mod Removal
pub mod Search
pub mod Registry
use evgo.Shared.{
  ℕ, zero, suc, ◌+◌, ◌%◌, ◌^◌, Bool, true, false, Option, none, some, List, [], ◌∷◌, ◌++◌, Eq,
  nat_eq, length, get, put, delete, if◌then◌else◌, option_beq, ◌&&◌, ◌||◌, nat_beq,
}

-- The children of a node are its Go map, as an association list.
mutual
  pub data Node (K T : Type 0) : Type 0 where
    node : List (ℕ × T) → Branches K T → Node K T

  pub data Branches (K T : Type 0) : Type 0 where
    no_branches : Branches K T
    branch : Option K → Node K T → Branches K T → Branches K T

module _ {K T : Type 0} where
  abbrev pub objects : Node K T → List (ℕ × T)
  objects (node os cs) = os

  abbrev pub children : Node K T → Branches K T
  children (node os cs) = cs

  abbrev pub new_node : Node K T
  new_node = node [] no_branches

pub record SelectorTrie (K T : Type 0) : Type 0 where
  pub max_selectors : ℕ
  pub root : Node K T
  pub index_counter : ℕ

pub record RegistrySubscription (K : Type 0) : Type 0 where
  pub index : ℕ
  pub path : List (Option K)

module _ {K : Type 0} where
  abbrev pub any_remaining_set : List (Option K) → Bool
  any_remaining_set [] = false
  any_remaining_set (none ∷ s) = any_remaining_set s
  any_remaining_set (some a ∷ s) = true

  -- The path that `Register` descends: at most `max_selectors` selectors, up to the last set one.
  unfoldable pub path_of : ℕ → List (Option K) → List (Option K)
  path_of zero selectors = []
  path_of (suc n) [] = []
  path_of (suc n) (s ∷ selectors) =
      if any_remaining_set (s ∷ selectors) then s ∷ path_of n selectors else []

module _ {K T : Type 0} ⦃e : Eq K⦄ where
  -- `next, ok := curr.children[s]`
  unfoldable pub child : Option K → Branches K T → Option (Node K T)
  child s no_branches = none
  child s (branch r n cs) = if option_beq r s then some n else child s cs

  -- `curr.children[s] = n`
  unfoldable pub set_child : Option K → Node K T → Branches K T → Branches K T
  set_child s n no_branches = branch s n no_branches
  set_child s n (branch r m cs) =
      if option_beq r s then branch r n cs else branch r m (set_child s n cs)

  -- `delete(curr.children, s)`
  unfoldable pub drop_child : Option K → Branches K T → Branches K T
  drop_child s no_branches = no_branches
  drop_child s (branch r m cs) = if option_beq r s then cs else branch r m (drop_child s cs)

  abbrev pub or_new : Option (Node K T) → Node K T
  or_new none = new_node
  or_new (some n) = n

  -- The descent of `Register`, and its write to `objects`.
  unfoldable pub insert_at : List (Option K) → ℕ → T → Node K T → Node K T
  insert_at [] index obj (node os cs) = node (put index obj os) cs
  insert_at (s ∷ path) index obj (node os cs) =
      node os (set_child s (insert_at path index obj (or_new (child s cs))) cs)

  abbrev pub is_empty : Node K T → Bool
  is_empty (node [] no_branches) = true
  is_empty (node [] (branch s n cs)) = false
  is_empty (node (x ∷ os) cs) = false

  -- `Unregister` below a node: `none` if nothing is found; else the object and the pruned node.
  unfoldable pub remove_at : List (Option K) → ℕ → Node K T → Option (T × Node K T)
  remove_at [] index (node os cs) = elim (get index os) [
    | none ↦ none
    | some obj ↦ some (obj, node (delete index os) cs)
  ]
  remove_at (s ∷ path) index (node os cs) = elim (child s cs) [
    | none ↦ none
    | some next ↦ elim (remove_at path index next) [
      | none ↦ none
      | some (obj, next') ↦
          some (obj, node os (if is_empty next' then drop_child s cs else set_child s next' cs))
    ]
  ]

  unfoldable pub register :
      SelectorTrie K T → List (Option K) → T → SelectorTrie K T × RegistrySubscription K
  register st selectors obj =
      let index = (st.index_counter + 1) % 2 ^ 64 in
      let path = path_of st.max_selectors selectors in
      (
        record st { root = insert_at path index obj st.root; index_counter = index },
        record { index = index; path = path },
      )

  abbrev pub finish : SelectorTrie K T → Option (T × Node K T) → SelectorTrie K T × Option T
  finish st none = (st, none)
  finish st (some (obj, root)) = (record st { root = root }, some obj)

  unfoldable pub unregister :
      SelectorTrie K T → RegistrySubscription K → SelectorTrie K T × Option T
  unregister st subscription = finish st (remove_at subscription.path subscription.index st.root)

  -- the descent into a child, if it is there
  abbrev pub below : (Node K T → List (ℕ × T)) → Option (Node K T) → List (ℕ × T)
  below search none = []
  below search (some next) = search next

  abbrev pub specific_or_general : Option (Node K T) → Option (Node K T) → Option (Node K T)
  specific_or_general none general = general
  specific_or_general (some next) general = some next

  -- `SelectorTrie.Find`: one path down, the specific branch before the general one. The objects
  -- come with their index here; `Find` returns the objects alone.
  unfoldable pub find : ℕ → List (Option K) → Node K T → List (ℕ × T)
  find zero selectors (node os cs) = os
  find (suc n) [] (node os cs) = os
  find (suc n) (none ∷ selectors) (node os cs) = os ++ below (find n selectors) (child none cs)
  find (suc n) (some a ∷ selectors) (node os cs) =
      os ++ below (find n selectors) (specific_or_general (child (some a) cs) (child none cs))

  -- `LevelTrie.Find`: both branches at every level.
  unfoldable pub find_all : ℕ → List (Option K) → Node K T → List (ℕ × T)
  find_all zero selectors (node os cs) = os
  find_all (suc n) [] (node os cs) = os
  find_all (suc n) (none ∷ selectors) (node os cs) =
      os ++ below (find_all n selectors) (child none cs)
  find_all (suc n) (some a ∷ selectors) (node os cs) =
      os
      ++ (below (find_all n selectors) (child (some a) cs)
          ++ below (find_all n selectors) (child none cs))
