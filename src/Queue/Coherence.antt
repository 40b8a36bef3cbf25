-- ===== src/Queue/Coherence.antt =====
-- ReplacingQueue: the invariant of its list and its table.

use evgo.Shared.{
  ℕ, ◌≤◌, ◌<◌, ◌≡◌, refl, ap, ◌≢◌, false, none, some, List, [], ◌∷◌, map, Eq, ◌==◌, get, put,
  delete, arith, Distinct, All, Bool-cases, inl, inr, nat_beq, nat_beq_iff, nat_eq,
}
use evgo.Queue.{ReplacingQueue}

module _ {ℓ} {K V : Type ℓ} where
  -- the table entry of a list element
  abbrev pub index_of : ℕ × (K × V) → K × ℕ
  index_of (el, (k, v)) = (k, el)

  abbrev pub entry_of : ℕ × (K × V) → K × V
  entry_of (el, kv) = kv

  -- The queue as a client sees it: its entries in order.
  abbrev pub entries : List (ℕ × (K × V)) → List (K × V)
  entries = map entry_of

  abbrev pub indices : List (ℕ × (K × V)) → List (K × ℕ)
  indices = map index_of

  abbrev pub Below : ℕ → List (ℕ × (K × V)) → Type 0
  Below n = All (λ x. x.0 < n)

module _ {ℓ} {K V : Type ℓ} ⦃e : Eq K⦄ where
  pub record IsCoherent (q : ReplacingQueue K V) : Type ℓ where
    pub indexed : q.table ≡ indices q.list
    pub keys_distinct : Distinct (entries q.list)
    pub elements_distinct : Distinct q.list
    pub elements_below : Below q.fresh q.list

  pub get-indices-none :
      (k : K) (l : List (ℕ × (K × V))) → get k (indices l) ≡ none → get k (entries l) ≡ none
  unfolding get
  get-indices-none k [] h = refl
  get-indices-none k ((i, (j, v)) ∷ l) h = ground (arith, get-indices-none k l)

  pub get-entries-none :
      (k : K) (l : List (ℕ × (K × V))) → get k (entries l) ≡ none → get k (indices l) ≡ none
  unfolding get
  get-entries-none k [] h = refl
  get-entries-none k ((i, (j, v)) ∷ l) h = ground (arith, get-entries-none k l)

  -- The table's element of a key holds that key, and the value that a client sees.
  pub element_of_index :
      (k : K) {el : ℕ} (l : List (ℕ × (K × V)))
      → Distinct l
      → get k (indices l) ≡ some el
      → (v : V) × (get el l ≡ some (k, v)) × (get k (entries l) ≡ some v)
  unfolding get
  element_of_index k [] d h = cc
  element_of_index k {el} ((i, (j, w)) ∷ l) d h = elim (Bool-cases (j == k)) [
    | inl same ↦ (w, ground (arith, (e.eqb_iff j k).0 same), ground (arith, same))
    | inr other ↦
        let h' : get k (indices l) ≡ some el = ground (arith, other) in
        let (v, at_el, seen) = element_of_index k l d.1 h' in
        (v, ground (arith, nat_beq_iff i el, d.0), ground (arith, other))
  ]

  -- To write the element of a key is to write the key.
  pub entries-put :
      (k : K) (v : V) {el : ℕ} (l : List (ℕ × (K × V)))
      → Distinct l
      → get k (indices l) ≡ some el
      → entries (put el (k, v) l) ≡ put k v (entries l)
  unfolding get put
  entries-put k v [] d h = cc
  entries-put k v {el} ((i, (j, w)) ∷ l) d h = elim (Bool-cases (j == k)) [
    | inl same ↦ ground (arith, (e.eqb_iff j k).0 same)
    | inr other ↦
        let h' : get k (indices l) ≡ some el = ground (arith, other) in
        let (u, at_el, seen) = element_of_index k l d.1 h' in
        let apart : nat_beq i el ≡ false = ground (arith, nat_beq_iff i el, d.0, at_el) in
        rw (apart, other) (ap (◌∷◌ (j, w)) (entries-put k v l d.1 h'))
  ]

  pub indices-put :
      (k : K) (v : V) {el : ℕ} (l : List (ℕ × (K × V)))
      → Distinct l
      → get k (indices l) ≡ some el
      → indices (put el (k, v) l) ≡ indices l
  unfolding get put
  indices-put k v [] d h = cc
  indices-put k v {el} ((i, (j, w)) ∷ l) d h = elim (Bool-cases (j == k)) [
    | inl same ↦ ground (arith, (e.eqb_iff j k).0 same)
    | inr other ↦
        let h' : get k (indices l) ≡ some el = ground (arith, other) in
        let (u, at_el, seen) = element_of_index k l d.1 h' in
        ground (arith, nat_beq_iff i el, d.0, indices-put k v l d.1 h')
  ]

  pub entries-delete :
      (k : K) {el : ℕ} (l : List (ℕ × (K × V)))
      → Distinct l
      → get k (indices l) ≡ some el
      → entries (delete el l) ≡ delete k (entries l)
  unfolding get delete
  entries-delete k [] d h = cc
  entries-delete k {el} ((i, (j, w)) ∷ l) d h = elim (Bool-cases (j == k)) [
    | inl same ↦ ground (arith, same)
    | inr other ↦
        let h' : get k (indices l) ≡ some el = ground (arith, other) in
        let (u, at_el, seen) = element_of_index k l d.1 h' in
        let apart : nat_beq i el ≡ false = ground (arith, nat_beq_iff i el, d.0, at_el) in
        rw (apart, other) (ap (◌∷◌ (j, w)) (entries-delete k l d.1 h'))
  ]

  pub indices-delete :
      (k : K) {el : ℕ} (l : List (ℕ × (K × V)))
      → Distinct l
      → get k (indices l) ≡ some el
      → indices (delete el l) ≡ delete k (indices l)
  unfolding get delete
  indices-delete k [] d h = cc
  indices-delete k {el} ((i, (j, w)) ∷ l) d h = elim (Bool-cases (j == k)) [
    | inl same ↦ ground (arith, same)
    | inr other ↦
        let h' : get k (indices l) ≡ some el = ground (arith, other) in
        let (u, at_el, seen) = element_of_index k l d.1 h' in
        let apart : nat_beq i el ≡ false = ground (arith, nat_beq_iff i el, d.0, at_el) in
        rw (apart, other) (ap (◌∷◌ (j, i)) (indices-delete k l d.1 h'))
  ]

  pub Below-weaken : {m n : ℕ} (l : List (ℕ × (K × V))) → m ≤ n → Below m l → Below n l
  Below-weaken [] h b = tt
  Below-weaken (x ∷ l) h b = (omega arith, Below-weaken l h b.1)

  -- An address at or above the bound is the address of no element.
  pub get_of_Below : (n : ℕ) (l : List (ℕ × (K × V))) → Below n l → get n l ≡ none
  unfolding get
  get_of_Below n [] b = refl
  get_of_Below n ((i, x) ∷ l) b = ground (arith, nat_beq_iff i n, get_of_Below n l b.1)

  pub put-Below :
      (n i : ℕ) (x : K × V) (l : List (ℕ × (K × V))) → i < n → Below n l → Below n (put i x l)
  unfolding put
  put-Below n i x [] h b = (h, tt)
  put-Below n i x ((j, y) ∷ l) h b = elim (Bool-cases (nat_beq j i)) [
    | inl same ↦ rw same b
    | inr other ↦ rw other (b.0, put-Below n i x l h b.1)
  ]

  pub get-lt_of_Below : (n i : ℕ) (l : List (ℕ × (K × V))) → Below n l → get i l ≢ none → i < n
  unfolding get
  get-lt_of_Below n i [] b h = absurd (h refl)
  get-lt_of_Below n i ((j, y) ∷ l) b h = elim (Bool-cases (nat_beq j i)) [
    | inl same ↦ ground (arith, (nat_beq_iff j i).0 same)
    | inr other ↦ get-lt_of_Below n i l b.1 (rw other at h)
  ]

  pub delete-Below : (n i : ℕ) (l : List (ℕ × (K × V))) → Below n l → Below n (delete i l)
  unfolding delete
  delete-Below n i [] b = b
  delete-Below n i ((j, y) ∷ l) b = elim (Bool-cases (nat_beq j i)) [
    | inl same ↦ rw same b.1
    | inr other ↦ rw other (b.0, delete-Below n i l b.1)
  ]
