-- ===== src/Work/Run.antt =====
-- WorkSchedule.DoWork: its locks and its count.
use evgo.Shared.{
  ℕ, ◌+◌, ◌≡◌, refl, ap, sym, ◌∙◌, inl, inr, Bool, true, false, not, ◌&&◌, ◌||◌, none, some, String,
  string_eq, ◌==◌, arith, Bool-cases, Option-cases,
}
use mathlib.Core.Path.{subst}
use evgo.Auth.Context.{Result, Result-cases, ok, err}
use evgo.Work.{
  Work, WorkError, work_locked, read_failed, WorkScheduleConfig, WorkCrud, Locker, State,
  Environment, Outcome, lock_key, release_lock, abandon, reset_flag, verify_work, acquire_work,
  release_work, commit, with_unit, update_processed_work, finish_work, set_next_work_time, run_work,
  acquired, do_work,
}

-- What the schedule relies on: a lock is obtained only while nobody holds it, and a release, which
-- does not fail, frees that lock alone.
pub record LockerLaws (locker : Locker) : Type 0 where
  pub holds : locker.Store → String → Bool
  pub lock-refused :
      (st st' : locker.Store) (k : String) (ttl : ℕ) (j : String)
      → locker.lock st k ttl ≡ ok (st', false)
      → holds st' j ≡ holds st j
  pub lock-obtained :
      (st st' : locker.Store) (k : String) (ttl : ℕ) (j : String)
      → locker.lock st k ttl ≡ ok (st', true)
      → (holds st k ≡ false) × (holds st' j ≡ (k == j || holds st j))
  pub release_lem :
      (st : locker.Store) (k : String)
      → (st' : locker.Store) × (locker.release st k ≡ ok st')
        × ((j : String) → holds st' j ≡ (not (k == j) && holds st j))

module _ (crud : WorkCrud) (locker : Locker) (laws : LockerLaws locker)
    (config : WorkScheduleConfig) where
  -- The same locks are held, and the same number of works runs.
  pub record IsBalanced (s t : State crud locker) : Type 0 where
    pub count : t.running_work_count ≡ s.running_work_count
    pub locks : (j : String) → laws.holds t.locks j ≡ laws.holds s.locks j

  -- One work more runs, under the lock.
  record HasTaken (k : String) (s t : State crud locker) : Type 0 where
    count : t.running_work_count ≡ s.running_work_count + 1
    free : laws.holds s.locks k ≡ false
    locks : (j : String) → laws.holds t.locks j ≡ (k == j || laws.holds s.locks j)

  untake :
      (k j : String) (before : Bool)
      → (k ≡ j → before ≡ false)
      → (not (k == j) && (k == j || before)) ≡ before
  untake k j before free = elim (Bool-cases (k == j)) [
    | inl same ↦ let now_free = free ((string_eq.eqb_iff k j).0 same) in rw (same, now_free) refl
    | inr other ↦ rw (other) refl
  ]

  release-locks :
      (k : String) (s t : State crud locker) (st' : locker.Store) (j : String)
      → HasTaken k s t
      → laws.holds st' j ≡ (not (k == j) && laws.holds t.locks j)
      → laws.holds st' j ≡ laws.holds s.locks j
  release-locks k s t st' j taken released =
      released
      ∙ ap (λ b. not (k == j) && b) (taken.locks j)
      ∙ untake k j (laws.holds s.locks j) (λ e. ap (laws.holds s.locks) (sym e) ∙ taken.free)

  release_lock-IsBalanced :
      (work : Work) (s t : State crud locker)
      → HasTaken (lock_key work.reference_id) s t
      → IsBalanced s (release_lock crud locker config work t).0
  unfolding release_lock
  release_lock-IsBalanced work s t taken =
      let (st', released, after) = laws.release_lem t.locks (lock_key work.reference_id) in
      rw (release_lock, released)
        record {
          count = ground (arith, taken.count);
          locks = λ j. release-locks (lock_key work.reference_id) s t st' j taken (after j);
        }

  release_work-IsBalanced :
      (work : Work) (s t : State crud locker)
      → work.lock ≡ true
      → HasTaken (lock_key work.reference_id) s t
      → IsBalanced s (release_work crud locker config work t).0
  unfolding release_work
  release_work-IsBalanced work s t locked taken =
      let (st', released, after) = laws.release_lem t.locks (lock_key work.reference_id) in
      rw (release_work, locked, released)
        record {
          count = ground (arith, taken.count);
          locks = λ j. release-locks (lock_key work.reference_id) s t st' j taken (after j);
        }

  -- An outcome of `acquire_work`: the lock is taken, or all is as before.
  abbrev IsAcquired : State crud locker → String → Outcome crud locker config → Type 0
  IsAcquired s reference_id (t, work, none) =
      HasTaken (lock_key reference_id) s t × (work.lock ≡ true) × (work.reference_id ≡ reference_id)
  IsAcquired s reference_id (t, work, some e) = IsBalanced s t

  abandon_lem :
      (e : WorkError) (work : Work) (s t : State crud locker)
      → HasTaken (lock_key work.reference_id) s t
      → IsAcquired s work.reference_id (abandon crud locker config e work t)
  abandon_lem e work s t taken = release_lock-IsBalanced work s t taken

  reset_flag_lem :
      (work : Work) (s t : State crud locker)
      → work.lock ≡ true
      → HasTaken (lock_key work.reference_id) s t
      → IsAcquired s work.reference_id (reset_flag crud locker config work t)
  unfolding reset_flag
  reset_flag_lem work s t locked taken = elim (Result-cases (crud.update t.db work.id none false)) [
    | inl failed ↦ rw (reset_flag, failed) (release_lock-IsBalanced work s t taken)
    | inr (db, written) ↦
        rw (reset_flag, written)
          (record { count = taken.count; free = taken.free; locks = taken.locks }, locked, refl)
  ]

  verify_work_lem :
      (work : Work) (s t : State crud locker)
      → work.lock ≡ true
      → HasTaken (lock_key work.reference_id) s t
      → IsAcquired s work.reference_id (verify_work crud locker config work t)
  unfolding verify_work
  verify_work_lem work s t locked taken =
      let given_up = λ (e : WorkError). abandon crud locker config e work t in
      let checked = verify_work crud locker config work t in
      let reset = reset_flag crud locker config work t in
      elim (Result-cases (crud.read t.db work.id)) [
        | inl failed ↦ elim (Bool-cases work.no_db) [
          | inl transient ↦
              let e : checked ≡ reset = ground arith in
              subst (IsAcquired s work.reference_id) (sym e) (reset_flag_lem work s t locked taken)
          | inr durable ↦
              let e : checked ≡ given_up read_failed = ground arith in
              subst (IsAcquired s work.reference_id) (sym e)
                (abandon_lem read_failed work s t taken)
        ]
        | inr (none, gone) ↦ elim (Bool-cases work.no_db) [
          | inl transient ↦
              let e : checked ≡ reset = ground arith in
              subst (IsAcquired s work.reference_id) (sym e) (reset_flag_lem work s t locked taken)
          | inr durable ↦
              let e : checked ≡ given_up work_locked = ground arith in
              subst (IsAcquired s work.reference_id) (sym e)
                (abandon_lem work_locked work s t taken)
        ]
        | inr (some probe, found) ↦
            let e : checked ≡ reset = ground arith in
            subst (IsAcquired s work.reference_id) (sym e) (reset_flag_lem work s t locked taken)
      ]

  acquire_work_lem :
      (work : Work) (s : State crud locker)
      → IsAcquired s work.reference_id (acquire_work crud locker config work s)
  unfolding acquire_work
  acquire_work_lem work s =
      let k = lock_key work.reference_id in
      elim (Result-cases (locker.lock s.locks k config.lock_ttl_seconds)) [
        | inl failed ↦ rw (acquire_work, failed) record { count = refl; locks = λ j. refl }
        | inr ((st, false), refused) ↦
            rw (acquire_work, refused)
              record {
                count = refl;
                locks = λ j. laws.lock-refused s.locks st k config.lock_ttl_seconds j refused;
              }
        | inr ((st, true), obtained) ↦
            let t : State crud locker = record s {
              locks = st;
              running_work_count = s.running_work_count + 1;
            } in
            rw (acquire_work, obtained)
              (verify_work_lem (record work { lock = true }) s t refl
                record {
                  count = refl;
                  free = (laws.lock-obtained s.locks st k config.lock_ttl_seconds k obtained).0;
                  locks =
                      λ j. (laws.lock-obtained s.locks st k config.lock_ttl_seconds j obtained).1;
                })
      ]

  commit_lem :
      {A : Type 0} (s t : State crud locker) (r : Result (crud.Db × A)) (a : A)
      → commit crud locker config s r ≡ ok (t, a)
      → (t.locks ≡ s.locks) × (t.running_work_count ≡ s.running_work_count)
  commit_lem s t err a e = ground arith
  commit_lem s t (ok (db, b)) a e = ground arith

  finish_work-IsBalanced :
      (done failed : Bool) (work : Work) (s t : State crud locker)
      → work.lock ≡ true
      → HasTaken (lock_key work.reference_id) s t
      → IsBalanced s (finish_work crud locker config done failed work t).0
  unfolding finish_work
  finish_work-IsBalanced done failed work s t locked taken =
      let r = with_unit crud (update_processed_work crud work done t.db) in
      elim (Result-cases (commit crud locker config t r)) [
        | inl rolled_back ↦
            rw (finish_work, rolled_back) (release_work-IsBalanced work s t locked taken)
        | inr ((t', written), committed) ↦
            let (same_locks, same_count) = commit_lem t t' r written committed in
            rw (finish_work, committed)
              (release_work-IsBalanced work s t' locked record {
                count = same_count ∙ taken.count;
                free = taken.free;
                locks = λ j. ap (λ st. laws.holds st j) same_locks ∙ taken.locks j;
              })
      ]

  set_next_work_time_lem :
      (now : ℕ) (reset : Bool) (work : Work)
      → ((set_next_work_time crud locker config now reset work).lock ≡ work.lock)
        × ((set_next_work_time crud locker config now reset work).reference_id ≡ work.reference_id)
  unfolding set_next_work_time
  set_next_work_time_lem now reset work = ground arith

  run_work-IsBalanced :
      (env : Environment crud) (run : Work → crud.Db → crud.Db × Work × Bool × Bool) (work : Work)
      (s t : State crud locker)
      → work.lock ≡ true
      → HasTaken (lock_key work.reference_id) s t
      → IsBalanced s (run_work crud locker config env run work t).0
  unfolding run_work
  run_work-IsBalanced env run work s t locked taken =
      let (db, left, done, failed) = run (record work { next_time = 0 }) t.db in
      let work' : Work = record left {
        id = work.id;
        reference_id = work.reference_id;
        lock = work.lock;
      } in
      let next = set_next_work_time crud locker config env.now false work' in
      let (same_lock, same_reference) = set_next_work_time_lem env.now false work' in
      finish_work-IsBalanced done failed next s (record t { db = db }) (same_lock ∙ locked)
        (subst (λ r. HasTaken (lock_key r) s (record t { db = db })) (sym same_reference)
          record { count = taken.count; free = taken.free; locks = taken.locks })

  acquired-IsBalanced :
      (env : Environment crud) (run : Work → crud.Db → crud.Db × Work × Bool × Bool)
      (reference_id : String) (s : State crud locker) (o : Outcome crud locker config)
      → IsAcquired s reference_id o
      → IsBalanced s (acquired crud locker config env run o).0
  acquired-IsBalanced env run reference_id s (t, work, none) (taken, locked, same) =
      run_work-IsBalanced env run work s t locked
        (subst (λ r. HasTaken (lock_key r) s t) (sym same) taken)
  acquired-IsBalanced env run reference_id s (t, work, some work_locked) h = h
  acquired-IsBalanced env run reference_id s (t, work, some e) h = h

  -- With a locker that obeys its laws, DoWork leaves exactly the locks held that were held before
  -- and the number of running works as it was, on every way out.
  pub do_work-IsBalanced :
      (env : Environment crud) (work : Work) (s : State crud locker)
      → IsBalanced s (do_work crud locker config env work s).0
  unfolding do_work
  do_work-IsBalanced env work s = elim (Option-cases env.runner) [
    | inl missing ↦ rw (do_work, missing) record { count = refl; locks = λ j. refl }
    | inr (run, there) ↦
        rw (do_work, there)
          (acquired-IsBalanced env run work.reference_id s (acquire_work crud locker config work s)
            (acquire_work_lem work s))
  ]

  -- With a locker that obeys its laws, DoWork on a work whose lock is held changes neither the
  -- database nor the work.
  pub do_work_excluded :
      (env : Environment crud) (work : Work) (s : State crud locker)
      → laws.holds s.locks (lock_key work.reference_id) ≡ true
      → ((do_work crud locker config env work s).0.db ≡ s.db)
        × ((do_work crud locker config env work s).1 ≡ work)
  unfolding do_work acquire_work
  do_work_excluded env work s held = elim (Option-cases env.runner) [
    | inl missing ↦ ground arith
    | inr (run, there) ↦
        let k = lock_key work.reference_id in
        elim (Result-cases (locker.lock s.locks k config.lock_ttl_seconds)) [
          | inl failed ↦ ground arith
          | inr ((st, false), refused) ↦ ground arith
          | inr ((st, true), obtained) ↦
              let free = (laws.lock-obtained s.locks st k config.lock_ttl_seconds k obtained).0 in
              ground (arith, free)
        ]
  ]
