-- ===== src/Work/Lease.antt =====
-- WorkSchedule.ClaimDueWorks: the loop that leases the rows which are still due.
use evgo.Shared.{
  ℕ, ◌≡◌, refl, ap, sym, ◌∙◌, ◌⊎◌, inl, inr, Bool, false, none, some, List, [], ◌∷◌, String,
  string_eq, ◌==◌, ltb, arith, In, Bool-cases,
}
use evgo.Auth.Context.{Result-cases, ok}
use mathlib.Core.Path.{subst}
use evgo.Work.{Work, WorkCrud, hold_works, read_held}

-- What the claim relies on: an update sets the time of one row and leaves the others, and a list by
-- ids returns rows with these ids only.
pub record WorkCrudLaws (crud : WorkCrud) : Type 0 where
  pub read-update :
      (db db' : crud.Db) (id : String) (t : ℕ) (set : Bool) (work : Work)
      → crud.read db id ≡ ok (some work)
      → crud.update db id (some t) set ≡ ok db'
      → crud.read db' id ≡ ok (some (record work { next_time = t }))
  pub read-update_ne :
      (db db' : crud.Db) (id other : String) (t : ℕ) (set : Bool)
      → (id == other) ≡ false
      → crud.update db id (some t) set ≡ ok db'
      → crud.read db' other ≡ crud.read db other
  pub list_ids_in :
      (db : crud.Db) (ids : List String) (works : List Work) (work : Work)
      → crud.list_ids db ids ≡ ok works
      → In work works
      → In work.id ids

pub ok_some : {a b : Work} → ok (some a) ≡ ok (some b) → a ≡ b
ok_some e = ground (arith, e)

module _ (crud : WorkCrud) (laws : WorkCrudLaws crud) where
  -- The row under the id is due.
  pub record IsDue (now : ℕ) (id : String) (db : crud.Db) : Type 0 where
    pub work : Work
    pub there : crud.read db id ≡ ok (some work)
    pub due : ltb now work.next_time ≡ false

  -- The row under the id has the given time.
  pub record IsLeased (next_time : ℕ) (id : String) (db : crud.Db) : Type 0 where
    pub work : Work
    pub there : crud.read db id ≡ ok (some work)
    pub until : work.next_time ≡ next_time

  module _ (now next_time : ℕ) where
    update-IsLeased :
        (db db' : crud.Db) (id x : String) (work : Work)
        → crud.read db id ≡ ok (some work)
        → crud.update db id (some next_time) false ≡ ok db'
        → IsLeased next_time x db
        → IsLeased next_time x db'
    update-IsLeased db db' id x work there written leased = elim (Bool-cases (id == x)) [
      | inl same ↦
          let e : id ≡ x = (string_eq.eqb_iff id x).0 same in
          record {
            work = record work { next_time = next_time };
            there =
                ap (crud.read db') (sym e)
                ∙ laws.read-update db db' id next_time false work there written;
            until = refl;
          }
      | inr other ↦ record {
        work = leased.work;
        there = laws.read-update_ne db db' id x next_time false other written ∙ leased.there;
        until = leased.until;
      }
    ]

    update-IsDue :
        (db db' : crud.Db) (id x : String) (work : Work)
        → crud.read db id ≡ ok (some work)
        → ltb now work.next_time ≡ false
        → crud.update db id (some next_time) false ≡ ok db'
        → IsDue now x db'
        → IsDue now x db
    update-IsDue db db' id x work there due written after = elim (Bool-cases (id == x)) [
      | inl same ↦
          let e : id ≡ x = (string_eq.eqb_iff id x).0 same in
          record { work = work; there = ap (crud.read db) (sym e) ∙ there; due = due }
      | inr other ↦ record {
        work = after.work;
        there = sym (laws.read-update_ne db db' id x next_time false other written) ∙ after.there;
        due = after.due;
      }
    ]

    -- One step of the loop: the row is passed over, or it is leased and the loop goes on.
    hold_step :
        (id : String) (ids : List String) (db db' : crud.Db) (held : List String)
        → hold_works crud now next_time (id ∷ ids) db ≡ ok (db', held)
        → (hold_works crud now next_time ids db ≡ ok (db', held))
          ⊎ ((work : Work) × (db1 : crud.Db) × (rest : List String) × (crud.read db id
                ≡ ok (some work))
              × (ltb now work.next_time ≡ false)
              × (crud.update db id (some next_time) false ≡ ok db1)
              × (hold_works crud now next_time ids db1 ≡ ok (db', rest))
              × (held ≡ id ∷ rest))
    unfolding hold_works
    hold_step id ids db db' held run = elim (Result-cases (crud.read db id)) [
      | inl failed ↦ ground arith
      | inr (none, missing) ↦ ground arith
      | inr (some work, there) ↦ elim (Result-cases (crud.update db id (some next_time) false)) [
        | inl failed ↦ ground arith
        | inr (db1, written) ↦ elim (Result-cases (hold_works crud now next_time ids db1)) [
          | inl failed ↦ ground arith
          | inr ((db2, rest), runs) ↦ ground arith
        ]
      ]
    ]

    held_none :
        (db db' : crud.Db) (held : List String) (x : String)
        → hold_works crud now next_time [] db ≡ ok (db', held)
        → In x held
        → ⊥
    unfolding hold_works
    held_none db db' held x run h = let e : held ≡ [] = ground arith in subst (In x) e h

    hold_nil :
        (db db' : crud.Db) (held : List String)
        → hold_works crud now next_time [] db ≡ ok (db', held)
        → db ≡ db'
    unfolding hold_works
    hold_nil db db' held run = ground arith

    -- after a row is leased, what is leased before or by this step is leased
    step-IsLeased :
        (db db1 : crud.Db) (id x : String) (rest held : List String) (work : Work)
        → crud.read db id ≡ ok (some work)
        → crud.update db id (some next_time) false ≡ ok db1
        → held ≡ id ∷ rest
        → IsLeased next_time x db ⊎ In x held
        → IsLeased next_time x db1 ⊎ In x rest
    step-IsLeased db db1 id x rest held work there written e (inl leased) =
        inl (update-IsLeased db db1 id x work there written leased)
    step-IsLeased db db1 id x rest held work there written e (inr member) =
        elim (subst (In x) e member) [
          | inl same ↦ inl (record {
            work = record work { next_time = next_time };
            there =
                ap (crud.read db1) same
                ∙ laws.read-update db db1 id next_time false work there written;
            until = refl;
          })
          | inr later ↦ inr later
        ]

    pub hold-IsLeased :
        (ids : List String) (db db' : crud.Db) (held : List String) (x : String)
        → hold_works crud now next_time ids db ≡ ok (db', held)
        → IsLeased next_time x db ⊎ In x held
        → IsLeased next_time x db'
    hold-IsLeased [] db db' held x run h =
        let e : db ≡ db' = hold_nil db db' held run in
        elim h [
          | inl leased ↦ subst (IsLeased next_time x) e leased
          | inr member ↦ absurd (held_none db db' held x run member)
        ]
    hold-IsLeased (id ∷ ids) db db' held x run h = elim (hold_step id ids db db' held run) [
      | inl passed ↦ hold-IsLeased ids db db' held x passed h
      | inr (work, db1, rest, there, due, written, runs, e) ↦
          hold-IsLeased ids db1 db' rest x runs
            (step-IsLeased db db1 id x rest held work there written e h)
    ]

    pub hold-IsDue :
        (ids : List String) (db db' : crud.Db) (held : List String) (x : String)
        → hold_works crud now next_time ids db ≡ ok (db', held)
        → In x held
        → IsDue now x db
    hold-IsDue [] db db' held x run h = absurd (held_none db db' held x run h)
    hold-IsDue (id ∷ ids) db db' held x run h = elim (hold_step id ids db db' held run) [
      | inl passed ↦ hold-IsDue ids db db' held x passed h
      | inr (work, db1, rest, there, due, written, runs, e) ↦ elim (subst (In x) e h) [
        | inl same ↦ record { work = work; there = ap (crud.read db) same ∙ there; due = due }
        | inr later ↦
            update-IsDue db db1 id x work there due written
              (hold-IsDue ids db1 db' rest x runs later)
      ]
    ]

  pub hold_found :
      (ids : List String) (db : crud.Db) (works : List Work) (db1 : crud.Db) (w : Work)
      → read_held crud (ok (db, ids)) ≡ ok (db1, works)
      → In w works
      → In w.id ids × (db1 ≡ db)
  hold_found [] db works db1 w run member =
      let e : works ≡ [] = ground arith in absurd (subst (In w) e member)
  hold_found (id ∷ ids) db works db1 w run member =
      elim (Result-cases (crud.list_ids db (id ∷ ids))) [
        | inl failed ↦ ground arith
        | inr (listed, found) ↦
            let e : listed ≡ works = ground arith in
            (laws.list_ids_in db (id ∷ ids) works w (found ∙ ap ok e) member, ground arith)
      ]
