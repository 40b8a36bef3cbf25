-- ===== src/Work.antt =====
-- pkg/work_schedule/work_schedule.go: works that are stored with the time they are due, claimed in
-- batches, run under a lock and rescheduled. The database, the locker (pkg/cache/global_lock.go), the
-- runner and the invoker are parameters; times are nanoseconds, and 0 is the zero time.
pub mod Lease
pub mod Claim
pub mod Post
pub mod Run
use evgo.Shared.{
  ℕ, ◌+◌, ◌-◌, ◌*◌, Bool, true, false, not, ◌&&◌, ◌||◌, Option, none, some, List, [], ◌∷◌, ◌++◌,
  String, string_eq, ◌==◌, if◌then◌else◌, ltb, leb, nat_beq,
}
use Prim.Native.String.{◌++◌ as str_append}
use evgo.Auth.Context.{Result, ok, err}

pub data PostMode : Type 0 where
  schedule direct queued : PostMode

unfoldable pub mode : String → PostMode
mode m =
    if m == "schedule"
    then schedule
    else if m == "direct"
    then direct
    else if m == "queued"
    then queued
    else schedule

-- WorkBase; `lock` tells whether the work has a lock
pub record Work : Type 0 where
  pub id : String
  pub reference_id : String
  pub reference_type : String
  pub next_time : ℕ
  pub lock : Bool
  pub initial_delay : ℕ
  pub no_db : Bool

pub data WorkError : Type 0 where
  work_locked lock_failed read_failed update_failed release_failed invalid_runner run_failed :
      WorkError
  transaction_failed create_failed invoke_failed delete_failed : WorkError

pub record WorkScheduleConfig : Type 0 where
  pub bucket_size : ℕ
  pub invokation_interval_seconds : ℕ
  pub hold_work_seconds : ℕ
  pub lock_ttl_seconds : ℕ

-- The CRUD object on the table of works: reads by id, an update of the time and of the flag
-- next_time_set, the works that are due (sorted and limited), and a commit.
pub record WorkCrud : Type 1 where
  pub Db : Type 0
  pub read : Db → String → Result (Option Work)
  pub update : Db → String → Option ℕ → Bool → Result Db
  pub reschedule : Db → String → ℕ → Result Db
  pub delete : Db → String → Result Db
  pub delete_by_reference : Db → String → String → Result Db
  pub create_dup : Db → Work → Result Db
  pub list_due : Db → ℕ → ℕ → Result (List String)
  pub list_ids : Db → List String → Result (List Work)
  pub commits : Db → Bool

-- cache.Locker: `lock` says whether the lock is obtained
pub record Locker : Type 1 where
  pub Store : Type 0
  pub lock : Store → String → ℕ → Result (Store × Bool)
  pub release : Store → String → Result Store

abbrev pub nanoseconds : ℕ
nanoseconds = 1_000_000_000

-- `LockObject` with the prefix of the works
abbrev pub lock_key : String → String
lock_key reference_id = str_append "work_lock_" reference_id

-- `queue` is the channel of the workers, `woken` whether `readNextWorks` holds a signal, and
-- `in_transaction` whether the context is inside a transaction of its caller.
pub record State (crud : WorkCrud) (locker : Locker) : Type 0 where
  pub db : crud.Db
  pub locks : locker.Store
  pub running_work_count : ℕ
  pub work_queue_size : ℕ
  pub queue : List Work
  pub woken : Bool
  pub in_transaction : Bool

-- how the `select` of `enqueuWork` ends
pub data Selected : Type 0 where
  sent context_done stopped : Selected

-- What is outside: the time, a new id, the runner (the work as it leaves it, whether it is done, and
-- whether there was an error), and the outcome of a wait for the channel of the workers.
pub record Environment (crud : WorkCrud) : Type 0 where
  pub now : ℕ
  pub new_id : String
  pub runner : Option (Work → crud.Db → crud.Db × Work × Bool × Bool)
  pub selected : Selected

module _ (crud : WorkCrud) where
  abbrev pub add : String → Result (crud.Db × List String) → Result (crud.Db × List String)
  add id err = err
  add id (ok (db, ids)) = ok (db, id ∷ ids)

  -- The loop that leases the works which are still due under the lock of their rows.
  unfoldable pub hold_works : ℕ → ℕ → List String → crud.Db → Result (crud.Db × List String)
  hold_works now next_time [] db = ok (db, [])
  hold_works now next_time (id ∷ ids) db = elim (crud.read db id) [
    | err ↦ err
    | ok none ↦ hold_works now next_time ids db
    | ok (some work) ↦ elim (ltb now work.next_time) [
      | true ↦ hold_works now next_time ids db
      | false ↦ elim (crud.update db id (some next_time) false) [
        | err ↦ err
        | ok db' ↦ add id (hold_works now next_time ids db')
      ]
    ]
  ]

  abbrev pub read_held : Result (crud.Db × List String) → Result (crud.Db × List Work)
  read_held err = err
  read_held (ok (db, [])) = ok (db, [])
  read_held (ok (db, id ∷ ids)) = elim (crud.list_ids db (id ∷ ids)) [
    | err ↦ err
    | ok works ↦ ok (db, works)
  ]

  -- `updateProcessedWork` of `DoWork`, inside its transaction
  unfoldable pub update_processed_work : Work → Bool → crud.Db → Result crud.Db
  update_processed_work work done db = elim (crud.read db work.id) [
    | err ↦ err
    | ok none ↦ ok db
    | ok (some db_work) ↦
        if done then crud.delete db db_work.id else crud.reschedule db work.id work.next_time
  ]

  abbrev pub with_unit : Result crud.Db → Result (crud.Db × Bool)
  with_unit err = err
  with_unit (ok db) = ok (db, true)

module _ (crud : WorkCrud) (locker : Locker) (config : WorkScheduleConfig) where
  abbrev pub Outcome : Type 0
  Outcome = State crud locker × Work × Option WorkError

  -- `releaseLock`, which drops an error; the count was raised before, so the source does not go
  -- below 0 either
  unfoldable pub release_lock : Work → State crud locker → State crud locker × Work
  release_lock work s =
      let s = record s { running_work_count = s.running_work_count - 1 } in
      let work' = record work { lock = false } in
      elim (locker.release s.locks (lock_key work.reference_id)) [
        | err ↦ (s, work')
        | ok locks ↦ (record s { locks = locks }, work')
      ]

  abbrev pub abandon : WorkError → Work → State crud locker → Outcome
  abandon e work s = let (s', work') = release_lock work s in (s', work', some e)

  unfoldable pub reset_flag : Work → State crud locker → Outcome
  reset_flag work s = elim (crud.update s.db work.id none false) [
    | err ↦ abandon update_failed work s
    | ok db ↦ (record s { db = db }, work, none)
  ]

  unfoldable pub verify_work : Work → State crud locker → Outcome
  verify_work work s = if work.no_db then reset_flag work s else elim (crud.read s.db work.id) [
    | err ↦ abandon read_failed work s
    | ok none ↦ abandon work_locked work s
    | ok (some probe) ↦ reset_flag work s
  ]

  unfoldable pub acquire_work : Work → State crud locker → Outcome
  acquire_work work s =
      elim (locker.lock s.locks (lock_key work.reference_id) config.lock_ttl_seconds) [
        | err ↦ (s, work, some lock_failed)
        | ok (locks, false) ↦ (record s { locks = locks }, work, some work_locked)
        | ok (locks, true) ↦
            verify_work (record work { lock = true })
              (record s { locks = locks; running_work_count = s.running_work_count + 1 })
      ]

  -- the lock stays at the work
  unfoldable pub release_work : Work → State crud locker → Outcome
  release_work work s =
      if work.lock
      then (let s = record s { running_work_count = s.running_work_count - 1 } in
          elim (locker.release s.locks (lock_key work.reference_id)) [
            | err ↦ (s, work, some release_failed)
            | ok locks ↦ (record s { locks = locks }, work, none)
          ])
      else (s, work, none)

  unfoldable pub set_next_work_time : ℕ → Bool → Work → Work
  set_next_work_time now reset work =
      if reset || nat_beq work.initial_delay 0 && nat_beq work.next_time 0
      then record work { next_time = now + config.invokation_interval_seconds * nanoseconds }
      else if nat_beq work.next_time 0 && not (nat_beq work.initial_delay 0)
      then record work { next_time = now + work.initial_delay * nanoseconds }
      else work

  -- The transaction `ExecDbTransaction`: its changes are kept only if it ends without an error.
  abbrev pub commit :
      {A : Type 0} → State crud locker → Result (crud.Db × A) → Result (State crud locker × A)
  commit s err = err
  commit s (ok (db, a)) =
      if s.in_transaction
      then err
      else if crud.commits db
      then ok (record s { db = db }, a)
      else err

  abbrev pub hold_time : ℕ → ℕ
  hold_time now = now + config.hold_work_seconds * nanoseconds

  -- a limit of 0 or less stops the claim
  abbrev pub used : State crud locker → ℕ
  used s = s.running_work_count + s.work_queue_size

  unfoldable pub claim_due_works : ℕ → State crud locker → Result (State crud locker × List Work)
  claim_due_works now s =
      if leb config.bucket_size (used s)
      then ok (s, [])
      else commit s (elim (crud.list_due s.db now (config.bucket_size - used s)) [
        | err ↦ err
        | ok candidates ↦ read_held crud (hold_works crud now (hold_time now) candidates s.db)
      ])

  -- `Wake`: the channel holds one signal
  unfoldable pub wake : State crud locker → State crud locker
  wake s = record s { woken = true }

  -- `enqueuWork`
  unfoldable pub enqueue_work : Selected → Work → State crud locker → State crud locker × Bool
  enqueue_work selected work s =
      let s = record s { work_queue_size = s.work_queue_size + 1 } in
      elim selected [
        | sent ↦ (record s { queue = s.queue ++ work ∷ [] }, true)
        | context_done ↦ (s, false)
        | stopped ↦ (s, false)
      ]

  abbrev after_release : Option WorkError → Outcome → Outcome
  after_release e (s, work, ignored) = (s, work, e)

  -- The end of `DoWork`: the outcome of the run is written, and the work is released. An error of the
  -- run is returned only where the update fails too.
  unfoldable pub finish_work : Bool → Bool → Work → State crud locker → Outcome
  finish_work done failed work s =
      elim (commit s (with_unit crud (update_processed_work crud work done s.db))) [
        | err ↦
            after_release (some (if failed then run_failed else transaction_failed))
              (release_work work s)
        | ok (s', written) ↦ after_release none (release_work work s')
      ]

  unfoldable pub run_work :
      Environment crud
      → (Work → crud.Db → crud.Db × Work × Bool × Bool)
      → Work
      → State crud locker
      → Outcome
  run_work env run work s =
      let (db, left, done, failed) = run (record work { next_time = 0 }) s.db in
      let work' = record left {
        id = work.id;
        reference_id = work.reference_id;
        lock = work.lock;
      } in
      finish_work done failed (set_next_work_time env.now false work') (record s { db = db })

  abbrev pub acquired :
      Environment crud → (Work → crud.Db → crud.Db × Work × Bool × Bool) → Outcome → Outcome
  acquired env run (s, work, none) = run_work env run work s
  acquired env run (s, work, some work_locked) = (s, work, none)
  acquired env run (s, work, some e) = (s, work, some e)

  unfoldable pub do_work : Environment crud → Work → State crud locker → Outcome
  do_work env work s = elim env.runner [
    | none ↦ (s, work, some invalid_runner)
    | some run ↦ acquired env run (acquire_work work s)
  ]

  -- `InvokeWork`, the invoker if no other is configured; the outcome of `enqueuWork` is dropped
  unfoldable pub invoke_work : Environment crud → PostMode → Work → State crud locker → Outcome
  invoke_work env schedule work s = (s, work, none)
  invoke_work env direct work s = do_work env work s
  invoke_work env queued work s = ((enqueue_work env.selected work s).0, work, none)

  abbrev pub is_schedule : PostMode → Bool
  is_schedule schedule = true
  is_schedule _ = false

  abbrev pub prepared : Environment crud → PostMode → Work → Work
  prepared env schedule work = set_next_work_time env.now false work
  prepared env _ work = if work.no_db then work else record work { next_time = env.now }

  abbrev pub with_id : Environment crud → Work → Work
  with_id env work = if work.id == "" then record work { id = env.new_id } else work

  -- what follows the creation of the row
  unfoldable pub announce : Environment crud → PostMode → Work → State crud locker → Outcome
  announce env post_mode work s =
      if is_schedule post_mode
      then (wake s, work, none)
      else if s.in_transaction
      then (s, work, none)
      else invoke_work env post_mode work s

  unfoldable pub post_work : Environment crud → PostMode → Work → State crud locker → Outcome
  post_work env post_mode work s =
      let work = prepared env post_mode work in
      if work.no_db
      then invoke_work env post_mode work s
      else let work = with_id env work in
        elim (crud.create_dup s.db work) [
          | err ↦ (s, work, some create_failed)
          | ok db ↦ announce env post_mode work (record s { db = db })
        ]

  unfoldable pub remove_work :
      String → String → State crud locker → State crud locker × Option WorkError
  remove_work reference_id reference_type s =
      elim (crud.delete_by_reference s.db reference_id reference_type) [
        | err ↦ (s, some delete_failed)
        | ok db ↦ (record s { db = db }, none)
      ]

  unfoldable pub update_work_next_time :
      Work → State crud locker → State crud locker × Option WorkError
  update_work_next_time work s = elim (crud.update s.db work.id (some work.next_time) true) [
    | err ↦ (s, some update_failed)
    | ok db ↦ (record s { db = db }, none)
  ]
