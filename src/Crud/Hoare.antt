-- ===== src/Crud/Hoare.antt =====
-- Rules for what holds after an action (pkg/crud/crud.go), each with what is left to show for the
-- state that the action leaves.
use evgo.Shared.{◌≡◌, refl, Option, none, some, [], ◌∷◌, ◌++◌, String, inl, inr}
use evgo.Auth.Context.{Result, ok, err, Result-cases}
use evgo.Crud.{Fields, Crud}
use evgo.Crud.Actions.{
  State, Action, Post, and_then, ◌>>=◌, reading, writing, written, set_generic_error_code,
  clear_error, oplog, update_object,
}

pub bind-wp :
    {S A B : Type 0} (E : S → Type 0) (Q : B → S → Type 0) (m : Action S A) (f : A → Action S B)
    (s : S)
    → Post E (λ a s'. Post E Q (f a s')) (m s)
    → Post E Q ((m >>= f) s)
unfolding ◌>>=◌
bind-wp E Q m f s h = after (m s) h
  where
    after : (x : Result _ × _) → Post E (λ a s'. Post E Q (f a s')) x → Post E Q (and_then f x)
    after (ok a, s') h = h
    after (err, s') h = h

module _ {Db L : Type 0} (E : State Db L → Type 0) where
  pub reading-Post :
      {A : Type 0} (Q : A → State Db L → Type 0) (f : Db → Result A) (s : State Db L)
      → E s
      → ((a : A) → f s.db ≡ ok a → Q a s)
      → Post E Q (reading f s)
  unfolding reading
  reading-Post Q f s e q = after (f s.db) q
    where
      after : (x : Result _) → ((a : _) → x ≡ ok a → Q a s) → Post E Q (x, s)
      after (ok a) q = q a refl
      after err q = e

  pub writing-Post :
      (Q : Unit {0} → State Db L → Type 0) (f : Db → Result Db) (s : State Db L)
      → E s
      → ((db : Db) → f s.db ≡ ok db → Q tt (record s { db = db }))
      → Post E Q (writing f s)
  unfolding writing
  writing-Post Q f s e q = after (f s.db) q
    where
      after :
          (x : Result Db)
          → ((db : Db) → x ≡ ok db → Q tt (record s { db = db }))
          → Post E Q (written s x)
      after (ok db) q = q db refl
      after err q = e

  -- A write, and what follows it.
  pub write_then :
      {A : Type 0} (Q : A → State Db L → Type 0) (f : Db → Result Db)
      (k : Unit {0} → Action (State Db L) A) (s : State Db L)
      → E s
      → ((db : Db) → f s.db ≡ ok db → Post E Q (k tt (record s { db = db })))
      → Post E Q ((writing f >>= k) s)
  write_then Q f k s e q =
      bind-wp E Q (writing f) k s (writing-Post (λ a s'. Post E Q (k a s')) f s e q)

  pub oplog_then :
      {A : Type 0} (Q : A → State Db L → Type 0) (entry : L) (k : Unit {0} → Action (State Db L) A)
      (s : State Db L)
      → Post E Q (k tt (record s { oplogs = s.oplogs ++ entry ∷ [] }))
      → Post E Q ((oplog entry >>= k) s)
  unfolding ◌>>=◌ oplog
  oplog_then Q entry k s h = h

  pub oplog-Post :
      (Q : Unit {0} → State Db L → Type 0) (entry : L) (s : State Db L)
      → Q tt (record s { oplogs = s.oplogs ++ entry ∷ [] })
      → Post E Q (oplog entry s)
  unfolding oplog
  oplog-Post Q entry s h = h

  pub clear_error-Post :
      (Q : Unit {0} → State Db L → Type 0) (s : State Db L)
      → Q tt (record s { generic_error = none })
      → Post E Q (clear_error s)
  unfolding clear_error
  clear_error-Post Q s h = h

  pub update_object-Post :
      {O : Type 0} (Q : O → State Db L → Type 0) (crud : Crud Db O) (object : O) (fields : Fields)
      (s : State Db L)
      → E s
      → ((db : Db) (after : O)
          → crud.update s.db object fields ≡ ok (db, after)
          → Q after (record s { db = db }))
      → Post E Q (update_object crud object fields s)
  unfolding update_object
  update_object-Post Q crud object fields s e q =
      elim (Result-cases (crud.update s.db object fields)) [
        | inl failed ↦ rw (failed) e
        | inr ((db, after), done) ↦ rw (done) (q db after done)
      ]

  pub set_code-Post :
      (Q : Unit {0} → State Db L → Type 0) (code : String) (s : State Db L)
      → ((s' : State Db L) → s'.db ≡ s.db → Q tt s')
      → Post E Q (set_generic_error_code code s)
  unfolding set_generic_error_code
  set_code-Post Q code s q = after s.generic_error
    where
      after :
          (x : Option String)
          → Post E Q (elim x [
            | none ↦ (ok tt, record s { generic_error = some code })
            | some old ↦ (ok tt, s)
          ])
      after none = q (record s { generic_error = some code }) refl
      after (some old) = q s refl

-- An action that has ended without an error.
abbrev pub Ends : {S A : Type 0} → Result A × S → A → S → Type 0
Ends x a s = x ≡ (ok a, s)

-- A chain that has a result: what its first action gave.
pub bind-ok :
    {S A B : Type 0} (m : Action S A) (f : A → Action S B) (s s' : S) (b : B)
    → Ends ((m >>= f) s) b s'
    → (a : A) × (s'' : S) × Ends (m s) a s'' × Ends (f a s'') b s'
unfolding ◌>>=◌
bind-ok {S} {A} {B} m f s s' b e = after (m s) e
  where
    after :
        (x : Result A × S)
        → Ends (and_then f x) b s'
        → (a : A) × (s'' : S) × Ends x a s'' × Ends (f a s'') b s'
    after (ok a, s'') e = (a, s'', refl, e)
    after (err, s'') e = cc
