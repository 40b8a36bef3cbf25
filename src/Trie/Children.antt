-- ===== src/Trie/Children.antt =====
-- The children of a trie node as a map from selectors to nodes.
use mathlib.Core.Path.{subst}
use evgo.Shared.{
  ◌≡◌, refl, ◌∙◌, ◌≢◌, Option, none, some, Eq, option_beq, option_beq_iff, arith, Distinct, nat_eq,
  Bool-cases, inl, inr,
}
use evgo.Trie.{Node, Branches, node, no_branches, branch, child, set_child, drop_child}

module _ {K T : Type 0} ⦃e : Eq K⦄ where
  pub child-set_child_self :
      (s : Option K) (n : Node K T) (cs : Branches K T) → child s (set_child s n cs) ≡ some n
  unfolding child set_child
  child-set_child_self s n no_branches = ground (arith, option_beq_iff s s)
  child-set_child_self s n (branch r m cs) =
      ground (arith, option_beq_iff s s, child-set_child_self s n cs)

  pub child-set_child_ne :
      (s r : Option K) (n : Node K T) (cs : Branches K T)
      → s ≢ r
      → child r (set_child s n cs) ≡ child r cs
  unfolding child set_child
  child-set_child_ne s r n no_branches h = ground (arith, option_beq_iff s r)
  child-set_child_ne s r n (branch t m cs) h =
      ground (arith, option_beq_iff t s, option_beq_iff t r, child-set_child_ne s r n cs h)

  pub child-drop_child_ne :
      (s r : Option K) (cs : Branches K T) → s ≢ r → child r (drop_child s cs) ≡ child r cs
  unfolding child drop_child
  child-drop_child_ne s r no_branches h = refl
  child-drop_child_ne s r (branch t m cs) h =
      ground (arith, option_beq_iff t s, option_beq_iff t r, child-drop_child_ne s r cs h)

  pub child-drop_child-none :
      (s r : Option K) (cs : Branches K T) → child r cs ≡ none → child r (drop_child s cs) ≡ none
  unfolding child drop_child
  child-drop_child-none s r no_branches h = refl
  child-drop_child-none s r (branch t m cs) h = ground (arith, child-drop_child-none s r cs)

  -- A node whose indices are distinct, and whose children have distinct selectors, at every level.
  unfoldable mutual
    pub IsWellFormed : Node K T → Type 0
    IsWellFormed (node os cs) = Distinct os × AreWellFormed cs

    pub AreWellFormed : Branches K T → Type 0
    AreWellFormed no_branches = Unit {0}
    AreWellFormed (branch s n cs) = (child s cs ≡ none) × IsWellFormed n × AreWellFormed cs

  pub child-drop_child_self :
      (s : Option K) (cs : Branches K T) → AreWellFormed cs → child s (drop_child s cs) ≡ none
  unfolding child drop_child AreWellFormed
  child-drop_child_self s no_branches w = refl
  child-drop_child_self s (branch t m cs) w =
      ground (arith, option_beq_iff t s, w.0, child-drop_child_self s cs w.2)

  pub child-IsWellFormed :
      (s : Option K) {n : Node K T} (cs : Branches K T)
      → AreWellFormed cs
      → child s cs ≡ some n
      → IsWellFormed n
  unfolding child AreWellFormed
  child-IsWellFormed s no_branches w h = cc
  child-IsWellFormed s {n} (branch t m cs) w h = elim (Bool-cases (option_beq t s)) [
    | inl same ↦ subst IsWellFormed (ground (arith, same)) w.1
    | inr other ↦ child-IsWellFormed s cs w.2 (rw other at h)
  ]

  pub set_child-AreWellFormed :
      (s : Option K) (n : Node K T) (cs : Branches K T)
      → IsWellFormed n
      → AreWellFormed cs
      → AreWellFormed (set_child s n cs)
  unfolding set_child AreWellFormed child
  set_child-AreWellFormed s n no_branches wn w = (refl, wn, tt)
  set_child-AreWellFormed s n (branch t m cs) wn w = elim (Bool-cases (option_beq t s)) [
    | inl same ↦ rw same (w.0, wn, w.2)
    | inr other ↦ rw other (
      child-set_child_ne s t n cs (λ p. ground (arith, option_beq_iff t s)) ∙ w.0,
      w.1,
      set_child-AreWellFormed s n cs wn w.2,
    )
  ]

  pub drop_child-AreWellFormed :
      (s : Option K) (cs : Branches K T) → AreWellFormed cs → AreWellFormed (drop_child s cs)
  unfolding drop_child AreWellFormed
  drop_child-AreWellFormed s no_branches w = w
  drop_child-AreWellFormed s (branch t m cs) w = elim (Bool-cases (option_beq t s)) [
    | inl same ↦ rw same w.2
    | inr other ↦
        rw other (child-drop_child-none s t cs w.0, w.1, drop_child-AreWellFormed s cs w.2)
  ]
