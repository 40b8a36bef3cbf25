-- ===== src/Trie/Removal.antt =====
-- SelectorTrie.Unregister: the removal and the pruning.
use mathlib.Core.Path.{ap₂, subst}
use evgo.Shared.{
  ℕ, ◌≡◌, refl, sym, ap, ◌∙◌, ◌≢◌, true, Option, none, some, List, [], ◌∷◌, Eq, nat_eq, get, delete,
  if◌then◌else◌, option_beq, option_beq_iff, arith, get-empty, delete-Distinct, Bool-cases,
  Option-cases, inl, inr,
}
use evgo.Trie.{
  Node, Branches, node, no_branches, branch, child, set_child, drop_child, is_empty, remove_at,
}
use evgo.Trie.Children.{
  child-set_child_self, child-set_child_ne, child-drop_child_self, child-drop_child_ne,
  IsWellFormed, AreWellFormed, child-IsWellFormed, set_child-AreWellFormed,
  drop_child-AreWellFormed,
}
use evgo.Trie.Laws.{at, at-some, at-none, at-same_child}

module _ {K T : Type 0} ⦃e : Eq K⦄ where
  at-is_empty : (path : List (Option K)) (n : Node K T) → is_empty n ≡ true → at path n ≡ []
  unfolding at child
  at-is_empty [] (node [] no_branches) h = refl
  at-is_empty (s ∷ path) (node [] no_branches) h = refl
  at-is_empty path (node [] (branch s n cs)) h = cc
  at-is_empty path (node (x ∷ os) cs) h = cc

  -- the children after the pruning of one of them
  abbrev pruned : Option K → Node K T → Branches K T → Branches K T
  pruned s next cs = if is_empty next then drop_child s cs else set_child s next cs

  at-pruned_self :
      (s : Option K) (path : List (Option K)) (next : Node K T) (os : List (ℕ × T))
      (cs : Branches K T)
      → AreWellFormed cs
      → at (s ∷ path) (node os (pruned s next cs)) ≡ at path next
  at-pruned_self s path next os cs w = elim (Bool-cases (is_empty next)) [
    | inl empty ↦ rw empty (
        at-none s path os (drop_child s cs) (child-drop_child_self s cs w)
        ∙ sym (at-is_empty path next empty))
    | inr full ↦ rw full (at-some s path os (set_child s next cs) (child-set_child_self s next cs))
  ]

  at-pruned_ne :
      (s r : Option K) (path : List (Option K)) (next : Node K T) (os : List (ℕ × T))
      (cs : Branches K T)
      → s ≢ r
      → at (r ∷ path) (node os (pruned s next cs)) ≡ at (r ∷ path) (node os cs)
  at-pruned_ne s r path next os cs h = elim (Bool-cases (is_empty next)) [
    | inl empty ↦
        rw empty (at-same_child r path os os (drop_child s cs) cs (child-drop_child_ne s r cs h))
    | inr full ↦
        rw full
          (at-same_child r path os os (set_child s next cs) cs (child-set_child_ne s r next cs h))
  ]

  pruned-AreWellFormed :
      (s : Option K) (next : Node K T) (cs : Branches K T)
      → IsWellFormed next
      → AreWellFormed cs
      → AreWellFormed (pruned s next cs)
  pruned-AreWellFormed s next cs wn w = elim (Bool-cases (is_empty next)) [
    | inl empty ↦ rw empty (drop_child-AreWellFormed s cs w)
    | inr full ↦ rw full (set_child-AreWellFormed s next cs wn w)
  ]

  -- What a removal of index `i` at a path returns and leaves.
  pub record Removed (path : List (Option K)) (i : ℕ) (n : Node K T) (x : T) (n' : Node K T)
      : Type 0 where
    pub well_formed : IsWellFormed n'
    pub found : get i (at path n) ≡ some x
    pub here : at path n' ≡ delete i (at path n)
    pub elsewhere : (other : List (Option K)) → path ≢ other → at other n' ≡ at other n

  -- the outcome of `remove_at`: nothing stands there, or what stands there is removed
  abbrev pub Outcome : List (Option K) → ℕ → Node K T → Option (T × Node K T) → Type 0
  Outcome path i n none = get i (at path n) ≡ none
  Outcome path i n (some (x, n')) = Removed path i n x n'

  leaf-Removed :
      (i : ℕ) (x : T) (os : List (ℕ × T)) (cs : Branches K T)
      → IsWellFormed (node os cs)
      → get i os ≡ some x
      → Removed [] i (node os cs) x (node (delete i os) cs)
  unfolding at IsWellFormed
  leaf-Removed i x os cs w h = record {
    well_formed = (delete-Distinct i os w.0, w.1);
    found = h;
    here = refl;
    elsewhere = λ other ne. elsewhere other ne;
  }
    where
      elsewhere :
          (other : List (Option K))
          → [] ≢ other
          → at other (node (delete i os) cs) ≡ at other (node os cs)
      elsewhere [] ne = absurd (ne refl)
      elsewhere (r ∷ other) ne = at-same_child r other (delete i os) os cs cs refl

  branch-Removed :
      (s : Option K) (path : List (Option K)) (i : ℕ) (x : T) (next next' : Node K T)
      (os : List (ℕ × T)) (cs : Branches K T)
      → IsWellFormed (node os cs)
      → child s cs ≡ some next
      → Removed path i next x next'
      → Removed (s ∷ path) i (node os cs) x (node os (pruned s next' cs))
  unfolding IsWellFormed
  branch-Removed s path i x next next' os cs w h r =
      let same = at-some s path os cs h in
      record {
        well_formed = (w.0, pruned-AreWellFormed s next' cs r.well_formed w.1);
        found = ap (get i) same ∙ r.found;
        here = at-pruned_self s path next' os cs w.1 ∙ r.here ∙ ap (delete i) (sym same);
        elsewhere = elsewhere;
      }
    where
      elsewhere :
          (other : List (Option K))
          → (s ∷ path) ≢ other
          → at other (node os (pruned s next' cs)) ≡ at other (node os cs)
      elsewhere [] ne = unfold at in refl
      elsewhere (t ∷ other) ne = elim (Bool-cases (option_beq s t)) [
        | inl equal ↦
            let p : s ≡ t = (option_beq_iff s t).0 equal in
            rw (← p) (
              at-pruned_self s other next' os cs w.1
              ∙ r.elsewhere other (λ q. ne (ap₂ ◌∷◌ p q))
              ∙ sym (at-some s other os cs h))
        | inr apart ↦ at-pruned_ne s t other next' os cs (λ p. ground (arith, option_beq_iff s t))
      ]

  -- Removal from a well-formed trie reports nothing if no object stands under the index at the
  -- path, else it returns that object, removes it alone, keeps the trie well-formed, and its
  -- pruning changes what stands at no other path.
  pub remove_at-Outcome :
      (path : List (Option K)) (i : ℕ) (n : Node K T)
      → IsWellFormed n
      → Outcome path i n (remove_at path i n)
  unfolding remove_at at IsWellFormed
  remove_at-Outcome [] i (node os cs) w = elim (Option-cases (get i os)) [
    | inl absent ↦ rw (absent, remove_at) absent
    | inr (x, found) ↦ rw (found, remove_at) (leaf-Removed i x os cs w found)
  ]
  remove_at-Outcome (s ∷ path) i (node os cs) w = elim (Option-cases (child s cs)) [
    | inl absent ↦ rw (absent, remove_at) (ap (get i) (at-none s path os cs absent) ∙ get-empty i)
    | inr (next, found) ↦
        let rec = remove_at-Outcome path i next (child-IsWellFormed s cs w.1 found) in
        elim (Option-cases (remove_at path i next)) [
          | inl nothing ↦
              rw (found, remove_at, nothing)
                (ap (get i) (at-some s path os cs found) ∙ subst (Outcome path i next) nothing rec)
          | inr ((x, next'), removed) ↦
              rw (found, remove_at, removed)
                (branch-Removed s path i x next next' os cs w found
                  (subst (Outcome path i next) removed rec))
        ]
  ]
