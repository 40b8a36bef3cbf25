-- ===== src/Tests/Scheduling.antt =====
-- The work schedule (pkg/work_schedule) at concrete inputs.
use evgo.Shared.{
  ℕ, ◌+◌, ◌≡◌, refl, ap, sym, ◌∙◌, ◌≢◌, inl, inr, Bool, true, false, not, ◌&&◌, ◌||◌, Option, none,
  some, List, [], ◌∷◌, String, string_eq, ◌==◌, if◌then◌else◌, Bool-cases, beq_refl, arith, All, In,
}
use mathlib.Core.Path.{subst}
use evgo.Auth.Context.{Result, ok, err}
use evgo.Work.{
  Work, WorkScheduleConfig, WorkCrud, Locker, State, Environment, context_done, lock_key,
  claim_due_works, hold_works, do_work,
}
use evgo.Work.Lease.{WorkCrudLaws, IsDue}
use evgo.Work.Claim.{claim-Leases}
use evgo.Work.Run.{LockerLaws, IsBalanced, do_work-IsBalanced, do_work_excluded}

abbrev work : ℕ → Work
work next_time = record {
  id = "w1";
  reference_id = "r1";
  reference_type = "mail";
  next_time = next_time;
  lock = false;
  initial_delay = 0;
  no_db = false;
}

abbrev new_time : Option ℕ → ℕ → ℕ
new_time none old = old
new_time (some t) old = t

abbrev listed : ℕ → List String → List Work
listed db [] = []
listed db (id ∷ ids) = if id == "w1" then work db ∷ [] else []

-- A table with one work, whose time is the state.
abbrev one_work : WorkCrud
one_work = record {
  Db = ℕ;
  read = λ db id. if id == "w1" then ok (some (work db)) else ok none;
  update = λ db id t set. ok (if id == "w1" then new_time t db else db);
  reschedule = λ db id t. ok (if id == "w1" then t else db);
  delete = λ db id. err;
  delete_by_reference = λ db id type_. err;
  create_dup = λ db w. ok db;
  list_due = λ db now limit. ok ("w1" ∷ []);
  list_ids = λ db ids. ok (listed db ids);
  commits = λ db. true;
}

listed-In : (db : ℕ) (ids : List String) (w : Work) → In w (listed db ids) → In w.id ids
listed-In db [] w h = h
listed-In db (id ∷ ids) w h = elim (Bool-cases (id == "w1")) [
  | inl same ↦
      let e : listed db (id ∷ ids) ≡ work db ∷ [] = rw (listed, same) refl in
      elim (subst (In w) e h) [
        | inl is ↦ inl (ap (λ x. x.id) is ∙ sym ((string_eq.eqb_iff id "w1").0 same))
        | inr empty ↦ absurd empty
      ]
  | inr other ↦
      let e : listed db (id ∷ ids) ≡ [] = rw (listed, other) refl in absurd (subst (In w) e h)
]

works_of : {a b : List Work} → ok a ≡ ok b → a ≡ b
works_of e = ground (arith, e)

one_work-WorkCrudLaws : WorkCrudLaws one_work
one_work-WorkCrudLaws = record {
  read-update = λ db db' id t set w r u. ground arith;
  read-update_ne = λ db db' id other t set ne u.
      ground (
        arith,
        string_eq.eqb_iff id "w1",
        string_eq.eqb_iff other "w1",
        string_eq.eqb_iff id other,
      );
  list_ids_in = λ db ids works w l h. listed-In db ids w (subst (In w) (sym (works_of l)) h);
}

abbrev memory_locker : Locker
memory_locker = record {
  Store = String → Bool;
  lock = λ st k ttl. if st k then ok (st, false) else ok (λ j. k == j || st j, true);
  release = λ st k. ok (λ j. not (k == j) && st j);
}

abbrev obtained : Result ((String → Bool) × Bool) → String → Bool × Bool
obtained (ok (st, done)) j = (st j, done)
obtained err j = (false, false)

lock_free :
    (st : String → Bool) (k j : String)
    → st k ≡ false
    → obtained (memory_locker.lock st k 0) j ≡ (k == j || st j, true)
lock_free st k j free = rw (free) refl

lock_held :
    (st : String → Bool) (k j : String)
    → st k ≡ true
    → obtained (memory_locker.lock st k 0) j ≡ (st j, false)
lock_held st k j held = rw (held) refl

memory_locker-LockerLaws : LockerLaws memory_locker
memory_locker-LockerLaws = record {
  holds = λ st j. st j;
  lock-refused = λ st st' k ttl j e. elim (Bool-cases (st k)) [
    | inl held ↦ ap (λ p. p.0) (sym (ap (λ r. obtained r j) e) ∙ lock_held st k j held)
    | inr free ↦
        let wrong : false ≡ true =
          ap (λ p. p.1) (sym (ap (λ r. obtained r j) e) ∙ lock_free st k j free) in
        ground (arith, wrong)
  ];
  lock-obtained = λ st st' k ttl j e. elim (Bool-cases (st k)) [
    | inl held ↦
        let wrong : true ≡ false =
          ap (λ p. p.1) (sym (ap (λ r. obtained r j) e) ∙ lock_held st k j held) in
        ground (arith, wrong)
    | inr free ↦ (free, ap (λ p. p.0) (sym (ap (λ r. obtained r j) e) ∙ lock_free st k j free))
  ];
  release_lem = λ st k. (λ j. not (k == j) && st j, refl, λ j. refl);
}

abbrev config : WorkScheduleConfig
config = record {
  bucket_size = 2;
  invokation_interval_seconds = 300;
  hold_work_seconds = 900;
  lock_ttl_seconds = 900;
}

abbrev state : ℕ → (String → Bool) → State one_work memory_locker
state time locks = record {
  db = time;
  locks = locks;
  running_work_count = 0;
  work_queue_size = 0;
  queue = [];
  woken = false;
  in_transaction = false;
}

abbrev nothing_held : String → Bool
nothing_held j = false

abbrev held_r1 : String → Bool
held_r1 j = lock_key "r1" == j

abbrev env : Environment one_work
env = record {
  now = 1000;
  new_id = "w2";
  runner = some (λ w db. (db, w, false, false));
  selected = context_done;
}

-- the time at which a lease that is taken at 1000 ends
abbrev lease : ℕ
lease = 900_000_001_000

claim_runs :
    (claim_due_works one_work memory_locker config 1000 (state 500 nothing_held)
      ≡ ok (state lease nothing_held, work lease ∷ []))
    × (claim_due_works one_work memory_locker config 2000 (state lease nothing_held)
        ≡ ok (state lease nothing_held, []))
    × (claim_due_works one_work memory_locker config lease (state lease nothing_held)
        ≡ ok (state (lease + 900_000_000_000) nothing_held, work (lease + 900_000_000_000) ∷ []))
unfolding claim_due_works hold_works
claim_runs = (refl, refl, refl)

claim-Leases_example :
    IsDue one_work one_work-WorkCrudLaws 1000 "w1" 500 × All (λ (w' : Work). w'.id ≢ "w1") []
claim-Leases_example =
    claim-Leases one_work one_work-WorkCrudLaws memory_locker config 1000 2000
      (state 500 nothing_held) (state lease nothing_held) (state lease nothing_held)
      (state lease nothing_held) (work lease ∷ []) [] (work lease) claim_runs.0 (inl refl) refl
      claim_runs.1 (omega arith)

do_work-IsBalanced_example :
    IsBalanced one_work memory_locker memory_locker-LockerLaws config
      (state 500 nothing_held)
      (do_work one_work memory_locker config env (work 500) (state 500 nothing_held)).0
do_work-IsBalanced_example =
    do_work-IsBalanced one_work memory_locker memory_locker-LockerLaws config env (work 500)
      (state 500 nothing_held)

do_work_excluded_example :
    ((do_work one_work memory_locker config env (work 500) (state 500 held_r1)).0.db ≡ 500)
    × ((do_work one_work memory_locker config env (work 500) (state 500 held_r1)).1 ≡ work 500)
unfolding memory_locker-LockerLaws
do_work_excluded_example =
    do_work_excluded one_work memory_locker memory_locker-LockerLaws config env (work 500)
      (state 500 held_r1) (beq_refl (lock_key "r1"))

abbrev transient : Work
transient = record (work 0) { no_db = true }
