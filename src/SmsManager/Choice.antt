-- ===== src/SmsManager/Choice.antt =====
-- SmsManagerBase.Init and Send: the order of the destinations, and the chosen provider.
use Prim.Native.String.{len}
use text.Mathlib.Text.{starts_with}
use mathlib.Core.Path.{subst}
use evgo.Shared.{
  ℕ, ◌≤◌, ◌≡◌, refl, ◌∙◌, ◌⊎◌, inl, inr, true, false, List, [], ◌∷◌, String, All, In, arith,
  Bool-cases,
}
use evgo.SmsManager.{SmsDestination, insert, sort_destinations, longer_or_equal, find_provider}

module _ {P : Type 0} where
  -- The destination does not fit the recipient, or its prefix is no longer than the given length.
  abbrev pub Within : String → ℕ → SmsDestination P → Type 0
  Within recipient n d = (starts_with recipient d.prefix ≡ false) ⊎ (len d.prefix ≤ n)

  abbrev IsSorted : List (SmsDestination P) → Type 0
  IsSorted [] = Unit {0}
  IsSorted (d ∷ ds) = All (λ (e : SmsDestination P). len e.prefix ≤ len d.prefix) ds × IsSorted ds

  weaken :
      (n m : ℕ) (ds : List (SmsDestination P))
      → n ≤ m
      → All (λ (e : SmsDestination P). len e.prefix ≤ n) ds
      → All (λ (e : SmsDestination P). len e.prefix ≤ m) ds
  weaken n m [] h a = tt
  weaken n m (d ∷ ds) h a = (omega arith, weaken n m ds h a.1)

  insert-All :
      (Q : SmsDestination P → Type 0) (d : SmsDestination P) (ds : List (SmsDestination P))
      → Q d
      → All Q ds
      → All Q (insert d ds)
  unfolding insert
  insert-All Q d [] q a = (q, tt)
  insert-All Q d (e ∷ es) q a = elim (Bool-cases (longer_or_equal d e)) [
    | inl first ↦ rw (insert, first) (q, a)
    | inr behind ↦ rw (insert, behind) (a.0, insert-All Q d es q a.1)
  ]

  All-insert :
      (Q : SmsDestination P → Type 0) (d : SmsDestination P) (ds : List (SmsDestination P))
      → All Q (insert d ds)
      → Q d × All Q ds
  unfolding insert
  All-insert Q d [] a = a
  All-insert Q d (e ∷ es) a = elim (Bool-cases (longer_or_equal d e)) [
    | inl first ↦
        let same : insert d (e ∷ es) ≡ d ∷ e ∷ es = rw (insert, first) refl in subst (All Q) same a
    | inr behind ↦
        let same : insert d (e ∷ es) ≡ e ∷ insert d es = rw (insert, behind) refl in
        let (here, rest) = subst (All Q) same a in
        let (q, others) = All-insert Q d es rest in (q, (here, others))
  ]

  insert-IsSorted :
      (d : SmsDestination P) (ds : List (SmsDestination P)) → IsSorted ds → IsSorted (insert d ds)
  unfolding insert
  insert-IsSorted d [] s = (tt, tt)
  insert-IsSorted d (e ∷ es) s = elim (Bool-cases (longer_or_equal d e)) [
    | inl first ↦
        let le : len e.prefix ≤ len d.prefix = ground arith in
        rw (insert, first) ((le, weaken (len e.prefix) (len d.prefix) es le s.0), s)
    | inr behind ↦
        let le : len d.prefix ≤ len e.prefix = ground arith in
        rw (insert, behind)
          (insert-All (λ x. len x.prefix ≤ len e.prefix) d es le s.0, insert-IsSorted d es s.1)
  ]

  sort-IsSorted : (ds : List (SmsDestination P)) → IsSorted (sort_destinations ds)
  unfolding sort_destinations
  sort-IsSorted [] = tt
  sort-IsSorted (d ∷ ds) = insert-IsSorted d (sort_destinations ds) (sort-IsSorted ds)

  All-sort :
      (Q : SmsDestination P → Type 0) (ds : List (SmsDestination P))
      → All Q (sort_destinations ds)
      → All Q ds
  unfolding sort_destinations
  All-sort Q [] a = a
  All-sort Q (d ∷ ds) a =
      let (q, rest) = All-insert Q d (sort_destinations ds) a in (q, All-sort Q ds rest)

  In-insert :
      (x d : SmsDestination P) (ds : List (SmsDestination P))
      → In x (insert d ds)
      → (x ≡ d) ⊎ In x ds
  unfolding insert
  In-insert x d [] h = h
  In-insert x d (e ∷ es) h = elim (Bool-cases (longer_or_equal d e)) [
    | inl first ↦
        let same : insert d (e ∷ es) ≡ d ∷ e ∷ es = rw (insert, first) refl in subst (In x) same h
    | inr behind ↦
        let same : insert d (e ∷ es) ≡ e ∷ insert d es = rw (insert, behind) refl in
        elim (subst (In x) same h) [
          | inl here ↦ inr (inl here)
          | inr later ↦ elim (In-insert x d es later) [
            | inl is ↦ inl is
            | inr there ↦ inr (inr there)
          ]
        ]
  ]

  In-sort :
      (x : SmsDestination P) (ds : List (SmsDestination P)) → In x (sort_destinations ds) → In x ds
  unfolding sort_destinations
  In-sort x [] h = h
  In-sort x (d ∷ ds) h = elim (In-insert x d (sort_destinations ds) h) [
    | inl is ↦ inl is
    | inr later ↦ inr (In-sort x ds later)
  ]

  -- The provider is that of a destination of the list which fits, and no longer prefix fits.
  pub record IsLongest (recipient : String) (ds : List (SmsDestination P)) (provider : P)
      : Type 0 where
    destination : SmsDestination P
    member : In destination ds
    fits : starts_with recipient destination.prefix ≡ true
    same : provider ≡ destination.provider
    longest : All (Within recipient (len destination.prefix)) ds

  All-Within :
      (recipient : String) (n : ℕ) (ds : List (SmsDestination P))
      → All (λ (e : SmsDestination P). len e.prefix ≤ n) ds
      → All (Within recipient n) ds
  All-Within recipient n [] a = tt
  All-Within recipient n (d ∷ ds) a = (inr a.0, All-Within recipient n ds a.1)

  -- what the loop finds in a sorted list
  find_sorted :
      (provider : P) (ds : List (SmsDestination P)) (recipient : String)
      → IsSorted ds
      → ((find_provider provider ds recipient ≡ provider)
          × All (λ (d : SmsDestination P). starts_with recipient d.prefix ≡ false) ds)
        ⊎ IsLongest recipient ds (find_provider provider ds recipient)
  unfolding find_provider
  find_sorted provider [] recipient s = inl (refl, tt)
  find_sorted provider (d ∷ ds) recipient s = elim (Bool-cases (starts_with recipient d.prefix)) [
    | inl fits ↦ inr (record {
      destination = d;
      member = inl refl;
      fits = fits;
      same = rw (find_provider, fits) refl;
      longest = (inr (omega arith), All-Within recipient (len d.prefix) ds s.0);
    })
    | inr passed ↦
        let next : find_provider provider (d ∷ ds) recipient ≡ find_provider provider ds recipient =
          rw (find_provider, passed) refl in
        elim (find_sorted provider ds recipient s.1) [
          | inl (default_, missing) ↦ inl (next ∙ default_, (passed, missing))
          | inr found ↦ inr (record {
            destination = found.destination;
            member = inr found.member;
            fits = found.fits;
            same = next ∙ found.same;
            longest = (inl passed, found.longest);
          })
        ]
  ]

  -- From the sorted destinations the provider of a message is that of a destination whose prefix
  -- the recipient has, while no longer prefix of the destinations fits, or the default provider, if
  -- no destination fits.
  pub find_provider-IsLongest :
      (provider : P) (ds : List (SmsDestination P)) (recipient : String)
      → let chosen = find_provider provider (sort_destinations ds) recipient in
        ((chosen ≡ provider)
          × All (λ (d : SmsDestination P). starts_with recipient d.prefix ≡ false) ds)
        ⊎ IsLongest recipient ds chosen
  find_provider-IsLongest provider ds recipient =
      elim (find_sorted provider (sort_destinations ds) recipient (sort-IsSorted ds)) [
        | inl (default_, missing) ↦
            inl (default_, All-sort (λ d. starts_with recipient d.prefix ≡ false) ds missing)
        | inr found ↦ inr (record {
          destination = found.destination;
          member = In-sort found.destination ds found.member;
          fits = found.fits;
          same = found.same;
          longest = All-sort (Within recipient (len found.destination.prefix)) ds found.longest;
        })
      ]
