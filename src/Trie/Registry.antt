-- ===== src/Trie/Registry.antt =====
-- SelectorTrie: Register and Unregister as a pair, and lookups after them.
use evgo.Shared.{
  In, ℕ, ◌+◌, ◌%◌, ◌^◌, ◌≡◌, refl, sym, ap, ◌∙◌, ◌≢◌, ◌⊎◌, true, Option, none, some, List, [], ◌∷◌,
  Eq, nat_eq, get, put, delete, delete-put_new, get-put, arith, nat_beq, nat_beq_iff, option_beq,
  option_beq_iff, Bool-cases, inl, inr,
}
use mathlib.Core.Path.{subst, ap₂}
use evgo.Trie.{
  SelectorTrie, Node, path_of, insert_at, remove_at, register, unregister, finish, find_all,
}
use evgo.Trie.Children.{IsWellFormed}
use evgo.Trie.Laws.{at, at-insert_at_self, at-insert_at_ne, insert_at-IsWellFormed}
use evgo.Trie.Removal.{Outcome, remove_at-Outcome}
use evgo.Trie.Search.{accepts, find_all_complete}

none-some : {A : Type 0} {a : A} → none ≡ some a → ⊥
none-some h = cc

module _ {K : Type 0} ⦃e : Eq K⦄ where
  path_cases : (p q : List (Option K)) → (p ≡ q) ⊎ (p ≢ q)
  path_cases [] [] = inl refl
  path_cases [] (s ∷ q) = inr (λ h. cc)
  path_cases (r ∷ p) [] = inr (λ h. cc)
  path_cases (r ∷ p) (s ∷ q) = elim (Bool-cases (option_beq r s)) [
    | inl same ↦ elim (path_cases p q) [
      | inl rest ↦ inl (ap₂ ◌∷◌ ((option_beq_iff r s).0 same) rest)
      | inr apart ↦ inr (λ h. apart (cc))
    ]
    | inr apart ↦ inr (λ h. ground (arith, option_beq_iff r s))
  ]

module _ {T : Type 0} where
  In-put : (i : ℕ) (x : T) (m : List (ℕ × T)) → In (i, x) (put i x m)
  unfolding put
  In-put i x [] = inl refl
  In-put i x ((j, y) ∷ m) = elim (Bool-cases (nat_beq j i)) [
    | inl same ↦ rw same (inl (ap (λ k. (k, x)) (sym ((nat_beq_iff j i).0 same))))
    | inr other ↦ rw other (inr (In-put i x m))
  ]

  get-put_self : (i : ℕ) (x : T) (m : List (ℕ × T)) → get i (put i x m) ≡ some x
  get-put_self i x m = rw (get-put i i x m, (nat_beq_iff i i).1 refl)

module _ {K T : Type 0} ⦃e : Eq K⦄ where
  abbrev pub next_index : SelectorTrie K T → ℕ
  next_index st = (st.index_counter + 1) % 2 ^ 64

  -- The end of `Unregister`, against what stood at each path before the registration.
  finish_lem :
      (st : SelectorTrie K T) (path : List (Option K)) (i : ℕ) (x : T) (r : Option (T × Node K T))
      → Outcome path i st.root r
      → get i (at path st.root) ≡ some x
      → (before : List (Option K) → List (ℕ × T)) → delete i (at path st.root) ≡ before path
      → ((other : List (Option K)) → path ≢ other → at other st.root ≡ before other)
      → ((finish st r).1 ≡ some x)
        × ((other : List (Option K)) → at other (finish st r).0.root ≡ before other)
  finish_lem st path i x none outcome stands before own others =
      absurd (none-some (sym outcome ∙ stands))
  finish_lem st path i x (some (y, root')) removed stands before own others = (
    sym removed.found ∙ stands,
    λ other. elim (path_cases path other) [
      | inl same ↦ subst (λ q. at q root' ≡ before q) same (removed.here ∙ own)
      | inr apart ↦ removed.elsewhere other apart ∙ others other apart
    ],
  )

  module _ (st : SelectorTrie K T) (w : IsWellFormed st.root) (selectors : List (Option K))
      (x : T) where
    abbrev path : List (Option K)
    path = path_of st.max_selectors selectors

    -- An object that is registered in a well-formed trie is found by the level search for every key
    -- that its path accepts.
    pub register-find :
        (key : List (Option K))
        → accepts path st.max_selectors key ≡ true
        → let st' = (register st selectors x).0 in
          In (next_index st, x) (find_all st'.max_selectors key st'.root)
    unfolding register
    register-find key ok =
        find_all_complete (next_index st, x) path st.max_selectors key
          (insert_at path (next_index st) x st.root) ok
          (subst (In (next_index st, x)) (sym (at-insert_at_self path (next_index st) x st.root))
            (In-put (next_index st) x (at path st.root)))

    -- To register an object under an index that is not in use at its path and to unregister the
    -- subscription returns the object, and leaves at every path of a well-formed trie what stood
    -- there before.
    pub unregister-register :
        get (next_index st) (at path st.root) ≡ none
        → let (st', subscription) = register st selectors x in
          let (st'', found) = unregister st' subscription in
          (found ≡ some x) × ((other : List (Option K)) → at other st''.root ≡ at other st.root)
    unfolding register unregister
    unregister-register fresh =
        let i = next_index st in
        let root' = insert_at path i x st.root in
        let outcome = remove_at-Outcome path i root' (insert_at-IsWellFormed path i x st.root w) in
        finish_lem (register st selectors x).0 path i x (remove_at path i root') outcome
          (ap (get i) (at-insert_at_self path i x st.root) ∙ get-put_self i x (at path st.root))
          (λ other. at other st.root)
          (ap (delete i) (at-insert_at_self path i x st.root)
            ∙ delete-put_new i x (at path st.root) fresh)
          (λ other ne. at-insert_at_ne path other i x st.root ne)
