-- ===== src/Tests/Tables.antt =====
-- Tables (pkg/db) that are kept as lists, as the parameters of the models of pools and tenancies.
use evgo.Shared.{
  ◌≡◌, sym, ap, ◌∙◌, false, List, [], ◌∷◌, ◌++◌, string_eq, ◌==◌, if◌then◌else◌, arith,
}
use evgo.Auth.Context.{ok, err}
use evgo.Crud.{Fields, Model, matches, Crud}
use evgo.Crud.Rows.{any, first, without, change, has}
use evgo.Pool.Tables.{TableLaws, Keeps}

pub ok-injective : {A : Type 0} {a b : A} → ok a ≡ ok b → a ≡ b
ok-injective e = cc

module _ {Db O : Type 0} (model : Model O) (rows : Db → List O) (put : List O → Db → Db) where
  abbrev pub table : Crud Db O
  table = record {
    create = λ db object.
        if has model.id (model.id object) (rows db)
        then err
        else ok (put (rows db ++ object ∷ []) db);
    create_dup = λ db object. ok (put (rows db ++ object ∷ []) db, false);
    read = λ db fields. ok (first (matches model fields) (rows db));
    read_by_field = λ db name v. ok (first (matches model ((name, v) ∷ [])) (rows db));
    read_for_update = λ db fields. ok (first (matches model fields) (rows db));
    read_for_share = λ db fields. ok (first (matches model fields) (rows db));
    update = λ db object fields. ok (
      put (change (λ x. model.id x == model.id object) (model.set fields) (rows db)) db,
      model.set fields object,
    );
    update_month_object = λ db object fields. ok db;
    update_multi = λ db filter fields. ok db;
    delete = λ db object. ok (put (without (λ x. model.id x == model.id object) (rows db)) db);
    delete_by_fields = λ db fields. ok (put (without (matches model fields) (rows db)) db);
    list = λ db fields. ok (rows db);
    exists = λ db fields. ok (any (matches model fields) (rows db));
  }

  module _ (rows-put : (xs : List O) (db : Db) → rows (put xs db) ≡ xs)
      (id-set : (fields : Fields) (x : O) → model.id (model.set fields x) ≡ model.id x) where
    pub create_ok :
        (db db' : Db) (object : O)
        → table.create db object ≡ ok db'
        → (has model.id (model.id object) (rows db) ≡ false)
          × (put (rows db ++ object ∷ []) db ≡ db')
    create_ok db db' object e = ground arith

    unfoldable pub table_laws : TableLaws model table
    table_laws = record {
      rows = rows;
      exists_rows = λ db fields found e. sym (ok-injective e);
      read_rows = λ db fields found e. sym (ok-injective e);
      read_by_field_rows = λ db name v found e. sym (ok-injective e);
      create_rows = λ db db' object e. ap rows (sym (create_ok db db' object e).1) ∙ rows-put _ db;
      create_new = λ db db' object e. (create_ok db db' object e).0;
      update_rows = λ db db' object after fields e.
          ap rows (sym (ap (λ p. p.0) (ok-injective e))) ∙ rows-put _ db;
      update_id = λ db db' object after fields e.
          ap model.id (sym (ap (λ p. p.1) (ok-injective e))) ∙ id-set fields object;
      delete_rows = λ db db' object e. ap rows (sym (ok-injective e)) ∙ rows-put _ db;
      delete_by_fields_rows = λ db db' fields e. ap rows (sym (ok-injective e)) ∙ rows-put _ db;
    }

  module _ {V : Type 0} (view : Db → V)
      (view-put : (xs : List O) (db : Db) → view (put xs db) ≡ view db) where
    kept_after_create :
        (db db' : Db) (object : O) → table.create db object ≡ ok db' → view db' ≡ view db
    kept_after_create db db' object e =
        let put_is : put (rows db ++ object ∷ []) db ≡ db' = ground arith in
        ap view (sym put_is) ∙ view-put _ db

    pub table-Keeps : Keeps table view
    table-Keeps = record {
      create_keeps = kept_after_create;
      update_keeps = λ db db' object after fields e.
          ap view (sym (ap (λ p. p.0) (ok-injective e))) ∙ view-put _ db;
      delete_keeps = λ db db' object e. ap view (sym (ok-injective e)) ∙ view-put _ db;
      delete_by_fields_keeps = λ db db' fields e. ap view (sym (ok-injective e)) ∙ view-put _ db;
    }
