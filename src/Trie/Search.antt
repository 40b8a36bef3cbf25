-- ===== src/Trie/Search.antt =====
-- LevelTrie.Find and SelectorTrie.Find.
use mathlib.Core.Path.{subst}
use evgo.Shared.{
  ℕ, zero, suc, ◌≡◌, refl, sym, ◌⊎◌, ◌↔◌, Bool, true, false, Option, none, some, List, [], ◌∷◌,
  ◌++◌, Eq, nat_eq, option_beq, option_beq_iff, arith, Option-cases, inl, inr, ◌&&◌, ◌||◌, In,
}
use evgo.Trie.{below, specific_or_general, Node, Branches, node, child, find, find_all}
use evgo.Trie.Laws.{at, at-some, at-none}

In-left : {A : Type 0} (x : A) (xs ys : List A) → In x xs → In x (xs ++ ys)
In-left x (z ∷ xs) ys (inl h) = inl h
In-left x (z ∷ xs) ys (inr h) = inr (In-left x xs ys h)
In-left x [] ys h = absurd h

In-right : {A : Type 0} (x : A) (xs ys : List A) → In x ys → In x (xs ++ ys)
In-right x [] ys h = h
In-right x (z ∷ xs) ys h = inr (In-right x xs ys h)

In-append : {A : Type 0} (x : A) (xs ys : List A) → In x (xs ++ ys) → In x xs ⊎ In x ys
In-append x [] ys h = inr h
In-append x (z ∷ xs) ys (inl h) = inl (inl h)
In-append x (z ∷ xs) ys (inr h) = elim (In-append x xs ys h) [ inl l ↦ inl (inr l) | inr r ↦ inr r ]

and_parts : (a b : Bool) → (a && b) ≡ true → (a ≡ true) × (b ≡ true)
and_parts a b h = ground arith

module _ {K : Type 0} ⦃e : Eq K⦄ where
  -- A registered selector accepts a selector of the key.
  abbrev pub fits : Option K → Option K → Bool
  fits s k = option_beq s none || option_beq s k

  none-fits : (k : Option K) → fits none k ≡ true
  none-fits k = refl

  self_fits : (k : Option K) → fits k k ≡ true
  self_fits k = ground (arith, option_beq_iff k k)

  fits_cases : (s k : Option K) → fits s k ≡ true → (s ≡ none) ⊎ (s ≡ k)
  fits_cases s k h = ground (arith, option_beq_iff s none, option_beq_iff s k)

  -- A registered path accepts a lookup key: at each of its levels it is not set, or set as the key.
  abbrev pub accepts : List (Option K) → ℕ → List (Option K) → Bool
  accepts [] n key = true
  accepts (s ∷ path) zero key = false
  accepts (s ∷ path) (suc n) [] = false
  accepts (s ∷ path) (suc n) (k ∷ key) = fits s k && accepts path n key

module _ {K T : Type 0} ⦃e : Eq K⦄ where
  In-below :
      (x : ℕ × T) (search : Node K T → List (ℕ × T)) (o : Option (Node K T))
      → In x (below search o)
      → (next : Node K T) × (o ≡ some next) × In x (search next)
  In-below x search none h = absurd h
  In-below x search (some next) h = (next, refl, h)

  -- what stands at an accepting path
  abbrev pub Accepted : ℕ × T → ℕ → List (Option K) → Node K T → Type 0
  Accepted x n key nd = (path : List (Option K)) × (accepts path n key ≡ true) × In x (at path nd)

  here_Accepted :
      (x : ℕ × T) (n : ℕ) (key : List (Option K)) (os : List (ℕ × T)) (cs : Branches K T)
      → In x os
      → Accepted x n key (node os cs)
  unfolding at
  here_Accepted x n key os cs h = ([], refl, h)

  there_Accepted :
      (x : ℕ × T) (n : ℕ) (s k : Option K) (key : List (Option K)) (os : List (ℕ × T))
      (cs : Branches K T) {next : Node K T}
      → fits s k ≡ true
      → child s cs ≡ some next
      → Accepted x n key next
      → Accepted x (suc n) (k ∷ key) (node os cs)
  there_Accepted x n s k key os cs fits found (path, ok, h) =
      (s ∷ path, rw (fits, ok), rw (at-some s path os cs found) h)

  -- The search of the level trie returns only objects that stand at a path which accepts the lookup
  -- key.
  find_all_sound :
      (x : ℕ × T) (n : ℕ) (key : List (Option K)) (nd : Node K T)
      → In x (find_all n key nd)
      → Accepted x n key nd
  unfolding find_all
  find_all_sound x zero key (node os cs) h = here_Accepted x zero key os cs h
  find_all_sound x (suc n) [] (node os cs) h = here_Accepted x (suc n) [] os cs h
  find_all_sound x (suc n) (none ∷ key) (node os cs) h =
      elim (In-append x os (below (find_all n key) (child none cs)) h) [
        | inl here ↦ here_Accepted x (suc n) (none ∷ key) os cs here
        | inr there ↦
            let (next, found, h') = In-below x (find_all n key) (child none cs) there in
            there_Accepted x n none none key os cs (none-fits {K = K} none) found
              (find_all_sound x n key next h')
      ]
  find_all_sound x (suc n) (some a ∷ key) (node os cs) h =
      let specific = below (find_all n key) (child (some a) cs) in
      let general = below (find_all n key) (child none cs) in
      elim (In-append x os (specific ++ general) h) [
        | inl here ↦ here_Accepted x (suc n) (some a ∷ key) os cs here
        | inr there ↦ elim (In-append x specific general there) [
          | inl s ↦
              let (next, found, h') = In-below x (find_all n key) (child (some a) cs) s in
              there_Accepted x n (some a) (some a) key os cs (self_fits {K = K} (some a)) found
                (find_all_sound x n key next h')
          | inr g ↦
              let (next, found, h') = In-below x (find_all n key) (child none cs) g in
              there_Accepted x n none (some a) key os cs (none-fits {K = K} (some a)) found
                (find_all_sound x n key next h')
        ]
      ]

  here_found :
      (x : ℕ × T) (n : ℕ) (key : List (Option K)) (os : List (ℕ × T)) (cs : Branches K T)
      → In x os
      → In x (find_all n key (node os cs))
  unfolding find_all
  here_found x zero key os cs h = h
  here_found x (suc n) [] os cs h = h
  here_found x (suc n) (none ∷ key) os cs h = In-left x os _ h
  here_found x (suc n) (some a ∷ key) os cs h = In-left x os _ h

  general_found :
      (x : ℕ × T) (n : ℕ) (k : Option K) (key : List (Option K)) (os : List (ℕ × T))
      (cs : Branches K T)
      → In x (below (find_all n key) (child none cs))
      → In x (find_all (suc n) (k ∷ key) (node os cs))
  unfolding find_all
  general_found x n none key os cs h = In-right x os _ h
  general_found x n (some a) key os cs h =
      In-right x os _ (In-right x (below (find_all n key) (child (some a) cs)) _ h)

  specific_found :
      (x : ℕ × T) (n : ℕ) (k : Option K) (key : List (Option K)) (os : List (ℕ × T))
      (cs : Branches K T)
      → In x (below (find_all n key) (child k cs))
      → In x (find_all (suc n) (k ∷ key) (node os cs))
  unfolding find_all
  specific_found x n none key os cs h = In-right x os _ h
  specific_found x n (some a) key os cs h = In-right x os _ (In-left x _ _ h)

  child_found :
      (x : ℕ × T) (n : ℕ) (s k : Option K) (key : List (Option K)) (os : List (ℕ × T))
      (cs : Branches K T)
      → fits s k ≡ true
      → In x (below (find_all n key) (child s cs))
      → In x (find_all (suc n) (k ∷ key) (node os cs))
  child_found x n s k key os cs ok h = elim (fits_cases s k ok) [
    | inl general ↦
        general_found x n k key os cs
          (subst (λ r. In x (below (find_all n key) (child r cs))) general h)
    | inr specific ↦
        specific_found x n k key os cs
          (subst (λ r. In x (below (find_all n key) (child r cs))) specific h)
  ]

  -- The search of the level trie returns every object that stands at a path which accepts the
  -- lookup key.
  pub find_all_complete :
      (x : ℕ × T) (path : List (Option K)) (n : ℕ) (key : List (Option K)) (nd : Node K T)
      → accepts path n key ≡ true
      → In x (at path nd)
      → In x (find_all n key nd)
  find_all_complete x [] n key (node os cs) ok h = here_found x n key os cs (unfold at in h)
  find_all_complete x (s ∷ path) zero key (node os cs) ok h = cc
  find_all_complete x (s ∷ path) (suc n) [] (node os cs) ok h = cc
  find_all_complete x (s ∷ path) (suc n) (k ∷ key) (node os cs) ok h =
      elim (Option-cases (child s cs)) [
        | inl absent ↦ absurd (subst (In x) (at-none s path os cs absent) h)
        | inr (next, found) ↦
            let (fit, rest) = and_parts (fits s k) (accepts path n key) ok in
            let h' =
              find_all_complete x path n key next rest
                (subst (In x) (at-some s path os cs found) h) in
            child_found x n s k key os cs fit
              (subst (λ o. In x (below (find_all n key) o)) (sym found) h')
      ]

  -- The search of the level trie returns an object exactly if it stands at a path which accepts the
  -- lookup key.
  pub find_all_lem :
      (x : ℕ × T) (n : ℕ) (key : List (Option K)) (nd : Node K T)
      → In x (find_all n key nd) ↔ Accepted x n key nd
  find_all_lem x n key nd =
      (find_all_sound x n key nd, (λ (path, ok, h). find_all_complete x path n key nd ok h))

  which_branch :
      (o p : Option (Node K T)) (next : Node K T)
      → specific_or_general o p ≡ some next
      → (o ≡ some next) ⊎ (p ≡ some next)
  which_branch none p next h = inr h
  which_branch (some m) p next h = inl h

  -- The search of the selector trie returns only objects that the search of the level trie returns
  -- too.
  pub find-find_all :
      (x : ℕ × T) (n : ℕ) (key : List (Option K)) (nd : Node K T)
      → In x (find n key nd)
      → In x (find_all n key nd)
  unfolding find
  find-find_all x zero key (node os cs) h = here_found x zero key os cs h
  find-find_all x (suc n) [] (node os cs) h = here_found x (suc n) [] os cs h
  find-find_all x (suc n) (none ∷ key) (node os cs) h =
      elim (In-append x os (below (find n key) (child none cs)) h) [
        | inl here ↦ here_found x (suc n) (none ∷ key) os cs here
        | inr there ↦
            let (next, found, h') = In-below x (find n key) (child none cs) there in
            general_found x n none key os cs (
              subst (λ o. In x (below (find_all n key) o)) (sym found)
                (find-find_all x n key next h'))
      ]
  find-find_all x (suc n) (some a ∷ key) (node os cs) h =
      let taken = specific_or_general (child (some a) cs) (child none cs) in
      elim (In-append x os (below (find n key) taken) h) [
        | inl here ↦ here_found x (suc n) (some a ∷ key) os cs here
        | inr there ↦
            let (next, found, h') = In-below x (find n key) taken there in
            let h'' = find-find_all x n key next h' in
            elim (which_branch (child (some a) cs) (child none cs) next found) [
              | inl specific ↦
                  specific_found x n (some a) key os cs
                    (subst (λ o. In x (below (find_all n key) o)) (sym specific) h'')
              | inr general ↦
                  general_found x n (some a) key os cs
                    (subst (λ o. In x (below (find_all n key) o)) (sym general) h'')
            ]
      ]
