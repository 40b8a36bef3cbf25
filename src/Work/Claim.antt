-- ===== src/Work/Claim.antt =====
-- WorkSchedule.ClaimDueWorks: two claims, one after the other.
use evgo.Shared.{
  ℕ, ◌+◌, ◌-◌, ◌*◌, ◌<◌, ◌≡◌, refl, ap, sym, ◌∙◌, ◌≢◌, ◌⊎◌, inl, inr, false, some, List, [], ◌∷◌,
  String, string_eq, leb, arith, In, Bool-cases, All,
}
use evgo.Auth.Context.{Result-cases, ok}
use mathlib.Core.Path.{subst, ap₂}
use evgo.Work.{
  Work, WorkScheduleConfig, WorkCrud, Locker, State, commit, hold_works, read_held, hold_time, used,
  claim_due_works, nanoseconds,
}
use evgo.Work.Lease.{WorkCrudLaws, ok_some, IsDue, IsLeased, hold-IsLeased, hold-IsDue, hold_found}

module _ (crud : WorkCrud) (laws : WorkCrudLaws crud) (locker : Locker)
    (config : WorkScheduleConfig) where
  commit-shown :
      (s t : State crud locker) (db : crud.Db) (found works : List Work)
      → commit crud locker config s (ok (db, found)) ≡ ok (t, works)
      → (db ≡ t.db) × (found ≡ works)
  commit-shown s t db found works e = ground arith

  committed :
      (now : ℕ) (s t : State crud locker) (works : List Work) (candidates : List String)
      (db : crud.Db) (ids : List String) (db1 : crud.Db) (found : List Work)
      → claim_due_works crud locker config now s ≡ ok (t, works)
      → crud.list_due s.db now (config.bucket_size - used crud locker config s) ≡ ok candidates
      → leb config.bucket_size (used crud locker config s) ≡ false
      → hold_works crud now (hold_time crud locker config now) candidates s.db ≡ ok (db, ids)
      → read_held crud (ok (db, ids)) ≡ ok (db1, found)
      → read_held crud (ok (db, ids)) ≡ ok (t.db, works)
  unfolding claim_due_works
  committed now s t works candidates db ids db1 found run listed room held shown =
      let as_commit : claim_due_works crud locker config now s
          ≡ commit crud locker config s (ok (db1, found)) =
        rw (claim_due_works, room, listed, held, shown) refl in
      let (same_db, same_works) = commit-shown s t db1 found works (sym as_commit ∙ run) in
      shown ∙ ap₂ (λ d ws. ok (d, ws)) same_db same_works

  -- A claim that succeeds hands nothing out, or it has committed what the loop has held.
  claim_cases :
      (now : ℕ) (s t : State crud locker) (works : List Work)
      → claim_due_works crud locker config now s ≡ ok (t, works)
      → (works ≡ [])
        ⊎ ((candidates : List String) × (db : crud.Db) × (ids : List String) × (hold_works crud now
                (hold_time crud locker config now)
                candidates
                s.db
              ≡ ok (db, ids))
            × (read_held crud (ok (db, ids)) ≡ ok (t.db, works)))
  unfolding claim_due_works
  claim_cases now s t works run =
      elim (Result-cases
        (crud.list_due s.db now (config.bucket_size - used crud locker config s))) [
          | inl failed ↦ ground arith
          | inr (candidates, listed) ↦
              elim (Result-cases
                (hold_works crud now (hold_time crud locker config now) candidates s.db)) [
                  | inl failed ↦ ground arith
                  | inr ((db, ids), held) ↦ elim (Result-cases (read_held crud (ok (db, ids)))) [
                    | inl failed ↦ ground arith
                    | inr ((db1, found), shown) ↦
                        elim (Bool-cases (leb config.bucket_size (used crud locker config s))) [
                          | inl full ↦ ground arith
                          | inr room ↦ inr (
                            candidates,
                            db,
                            ids,
                            held,
                            committed now s t works candidates db ids db1 found run listed room held
                                shown,
                          )
                        ]
                  ]
                ]
        ]

  claim_lem :
      (now : ℕ) (s t : State crud locker) (works : List Work) (w : Work)
      → claim_due_works crud locker config now s ≡ ok (t, works)
      → In w works
      → IsDue crud laws now w.id s.db
        × IsLeased crud laws (hold_time crud locker config now) w.id t.db
  claim_lem now s t works w run member = elim (claim_cases now s t works run) [
    | inl e ↦ absurd (subst (In w) e member)
    | inr (candidates, db, ids, held, shown) ↦
        let next_time = hold_time crud locker config now in
        let (member_id, same) = hold_found crud laws ids db works t.db w shown member in
        (
          hold-IsDue crud laws now next_time candidates s.db db ids w.id held member_id,
          subst (IsLeased crud laws next_time w.id) (sym same) (
              hold-IsLeased crud laws now next_time candidates s.db db ids w.id held
                (inr member_id)),
        )
  ]

  lease_lem :
      (now later : ℕ) (s t t' u : State crud locker) (works others : List Work) (w w' : Work)
      → claim_due_works crud locker config now s ≡ ok (t, works)
      → In w works
      → t'.db ≡ t.db
      → claim_due_works crud locker config later t' ≡ ok (u, others)
      → later < now + config.hold_work_seconds * nanoseconds
      → In w' others
      → w'.id ≢ w.id
  lease_lem now later s t t' u works others w w' run member kept again early member' =
      let (due, leased) = claim_lem now s t works w run member in
      let (due', leased') = claim_lem later t' u others w' again member' in
      λ same.
        let there : crud.read t.db w.id ≡ ok (some due'.work) =
          ap (crud.read t.db) (sym same) ∙ ap (λ d. crud.read d w'.id) (sym kept) ∙ due'.there in
        let row : leased.work ≡ due'.work = ok_some (sym leased.there ∙ there) in
        let time : due'.work.next_time ≡ now + config.hold_work_seconds * nanoseconds =
          ap (λ r. r.next_time) (sym row) ∙ leased.until in
        let past = due'.due in ground (arith, time, past, early)

  every : (P : Work → Type 0) (works : List Work) → ((w : Work) → In w works → P w) → All P works
  every P [] h = tt
  every P (w ∷ works) h = (h w (inl refl), every P works (λ v later. h v (inr later)))

  -- With a table of works that obeys its laws, a work that a claim hands out was due, and a later
  -- claim that starts from the table which the first one left, before the time of the first plus
  -- HOLD_WORK_SECONDS, does not hand it out again.
  pub claim-Leases :
      (now later : ℕ) (s t t' u : State crud locker) (works others : List Work) (w : Work)
      → claim_due_works crud locker config now s ≡ ok (t, works)
      → In w works
      → t'.db ≡ t.db
      → claim_due_works crud locker config later t' ≡ ok (u, others)
      → later < now + config.hold_work_seconds * nanoseconds
      → IsDue crud laws now w.id s.db × All (λ w'. w'.id ≢ w.id) others
  claim-Leases now later s t t' u works others w run member kept again early =
      let (due, leased) = claim_lem now s t works w run member in
      (
        due,
        every (λ w'. w'.id ≢ w.id) others
            (λ w' member'.
              lease_lem now later s t t' u works others w w' run member kept again early member'),
      )
