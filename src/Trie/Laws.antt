-- ===== src/Trie/Laws.antt =====
-- SelectorTrie.Register: what stands at each path.
use mathlib.Core.Path.{ap₂}
use evgo.Shared.{
  ℕ, ◌≡◌, refl, sym, ap, ◌∙◌, ◌≢◌, Option, none, some, List, [], ◌∷◌, Eq, nat_eq, put, option_beq,
  option_beq_iff, arith, put-Distinct, Bool-cases, Option-cases, inl, inr,
}
use evgo.Trie.{Node, Branches, node, child, set_child, or_new, insert_at, new_node}
use evgo.Trie.Children.{
  child-set_child_self, child-set_child_ne, IsWellFormed, AreWellFormed, child-IsWellFormed,
  set_child-AreWellFormed,
}

module _ {K T : Type 0} ⦃e : Eq K⦄ where
  -- The objects registered at a path below a node.
  unfoldable pub at : List (Option K) → Node K T → List (ℕ × T)
  at [] (node os cs) = os
  at (s ∷ path) (node os cs) = elim (child s cs) [ some next ↦ at path next | none ↦ [] ]

  pub at-new_node : (path : List (Option K)) → at path (new_node {K = K} {T = T}) ≡ []
  unfolding at child
  at-new_node [] = refl
  at-new_node (s ∷ path) = refl

  module _ (s : Option K) (path : List (Option K)) (os : List (ℕ × T)) (cs : Branches K T) where
    pub at-some : {n : Node K T} → child s cs ≡ some n → at (s ∷ path) (node os cs) ≡ at path n
    unfolding at
    at-some h = rw (h, at)

    pub at-none : child s cs ≡ none → at (s ∷ path) (node os cs) ≡ []
    unfolding at
    at-none h = rw (h, at)

    at-or_new : at path (or_new (child s cs)) ≡ at (s ∷ path) (node os cs)
    at-or_new = elim (Option-cases (child s cs)) [
      | inl absent ↦ ap (λ o. at path (or_new o)) absent ∙ at-new_node path ∙ sym (at-none absent)
      | inr (n, found) ↦ ap (λ o. at path (or_new o)) found ∙ sym (at-some found)
    ]

  -- At its own path the new object is added.
  pub at-insert_at_self :
      (path : List (Option K)) (i : ℕ) (x : T) (n : Node K T)
      → at path (insert_at path i x n) ≡ put i x (at path n)
  unfolding insert_at
  at-insert_at_self [] i x (node os cs) = unfold at in refl
  at-insert_at_self (s ∷ path) i x (node os cs) =
      let next = insert_at path i x (or_new (child s cs)) in
      at-some s path os (set_child s next cs) (child-set_child_self s next cs)
      ∙ at-insert_at_self path i x (or_new (child s cs))
      ∙ ap (put i x) (at-or_new s path os cs)

  pub at-same_child :
      (r : Option K) (path : List (Option K)) (os os' : List (ℕ × T)) (cs ds : Branches K T)
      → child r cs ≡ child r ds
      → at (r ∷ path) (node os cs) ≡ at (r ∷ path) (node os' ds)
  at-same_child r path os os' cs ds h = elim (Option-cases (child r ds)) [
    | inl absent ↦ at-none r path os cs (h ∙ absent) ∙ sym (at-none r path os' ds absent)
    | inr (n, found) ↦ at-some r path os cs (h ∙ found) ∙ sym (at-some r path os' ds found)
  ]

  -- At every other path nothing changes.
  pub at-insert_at_ne :
      (path other : List (Option K)) (i : ℕ) (x : T) (n : Node K T)
      → path ≢ other
      → at other (insert_at path i x n) ≡ at other n
  unfolding insert_at
  at-insert_at_ne [] [] i x (node os cs) h = absurd (h refl)
  at-insert_at_ne [] (r ∷ other) i x (node os cs) h =
      at-same_child r other (put i x os) os cs cs refl
  at-insert_at_ne (s ∷ path) [] i x (node os cs) h = unfold at in refl
  at-insert_at_ne (s ∷ path) (r ∷ other) i x (node os cs) h =
      let next = insert_at path i x (or_new (child s cs)) in
      elim (Bool-cases (option_beq s r)) [
        | inl same ↦
            let p : s ≡ r = (option_beq_iff s r).0 same in
            rw (← p) (
              at-some s other os (set_child s next cs) (child-set_child_self s next cs)
              ∙ at-insert_at_ne path other i x (or_new (child s cs)) (λ q. h (ap₂ ◌∷◌ p q))
              ∙ at-or_new s other os cs)
        | inr apart ↦
            at-same_child r other os os (set_child s next cs) cs
              (child-set_child_ne s r next cs (λ p. ground (arith, option_beq_iff s r)))
      ]

  or_new-IsWellFormed :
      (s : Option K) (cs : Branches K T) → AreWellFormed cs → IsWellFormed (or_new (child s cs))
  or_new-IsWellFormed s cs w = elim (Option-cases (child s cs)) [
    | inl absent ↦ rw absent (unfold IsWellFormed in (tt, tt))
    | inr (n, found) ↦ rw found (child-IsWellFormed s cs w found)
  ]

  pub insert_at-IsWellFormed :
      (path : List (Option K)) (i : ℕ) (x : T) (n : Node K T)
      → IsWellFormed n
      → IsWellFormed (insert_at path i x n)
  unfolding insert_at IsWellFormed
  insert_at-IsWellFormed [] i x (node os cs) w = (put-Distinct i x os w.0, w.1)
  insert_at-IsWellFormed (s ∷ path) i x (node os cs) w = (
    w.0,
    set_child-AreWellFormed s (insert_at path i x (or_new (child s cs))) cs
        (insert_at-IsWellFormed path i x (or_new (child s cs)) (or_new-IsWellFormed s cs w.1)) w.1,
  )
