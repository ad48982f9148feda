-- ===== src/Db/Start/Program/Rows.antt =====
-- The schema on a file that may have tables already: no row is changed.
use smart_fridge.Prelude.{
  ℕ, zero, suc, ◌≡◌, refl, sym, ◌∙◌, Bytes, Option, none, some, [], ◌∷◌, ◌++◌, Bool-cases, inl, inr,
  length, length-append, append_assoc, arith,
}
use mathlib.Core.Path.{subst}
use smart_fridge.Db.Start.{is_accepted, next_statement, create_tables, create_db}
use smart_fridge.Db.Start.Creation.{Advances, create_db-ends}
use smart_fridge.Db.Start.Program.{Database, schema_of}

-- What is documented of a schema of CREATE TABLE IF NOT EXISTS between BEGIN and END: the text behind a statement is an end of the
-- text that it was found in, and no statement changes a row.
pub record SchemaLaw (d : Database) (text : Bytes) : Type 0 where
  pub tail_in :
      (db : d.sqlite.Db) (b : ℕ) (sql tail : Bytes) (stmt : Option d.Stmt)
      → d.prepare_text db (b ∷ sql) ≡ some (stmt, tail)
      → (statement : Bytes) × (sql ≡ statement ++ tail)
  pub rows_kept :
      (db : d.sqlite.Db) (before sql tail : Bytes) (stmt : Option d.Stmt)
      → before ++ sql ≡ text
      → d.prepare_text db sql ≡ some (stmt, tail)
      → d.sqlite.tables (d.step_text db stmt).1 ≡ d.sqlite.tables db

module _ (d : Database) (text : Bytes) (law : SchemaLaw d text) where
  abbrev Db : Type 0
  Db = d.sqlite.Db

  pub shorter : Advances (schema_of d)
  shorter db b sql tail stmt e =
      let (part, f) = law.tail_in db b sql tail stmt e in
      rw (f, length-append part tail) (omega arith)

  next-rows :
      (o : Option (Option d.Stmt × Bytes)) (before : Bytes) (b : ℕ) (sql : Bytes) (db : Db)
      (next : Bytes → Db → Option (ℕ × Db)) {r : ℕ} {db' : Db}
      → before ++ (b ∷ sql) ≡ text
      → d.prepare_text db (b ∷ sql) ≡ o
      → ((behind tail : Bytes) (mid : Db)
          → behind ++ tail ≡ text
          → next tail mid ≡ some (r, db')
          → d.sqlite.tables db' ≡ d.sqlite.tables mid)
      → next_statement (schema_of d) o db next ≡ some (r, db')
      → d.sqlite.tables db' ≡ d.sqlite.tables db
  next-rows none before b sql db next whole p h e = cc
  next-rows (some (stmt, tail)) before b sql db next {r} {db'} whole p h e =
      let kept = law.rows_kept db before (b ∷ sql) tail stmt whole p in
      elim (Bool-cases (is_accepted (d.step_text db stmt).0)) [
        | inl a ↦
            let (part, f) = law.tail_in db b sql tail stmt p in
            let split : (before ++ (b ∷ part)) ++ tail ≡ text =
              append_assoc before (b ∷ part) tail ∙ rw (sym f) whole in
            h (before ++ (b ∷ part)) tail (d.step_text db stmt).1 split
              (rw (next_statement, a) at e)
            ∙ kept
        | inr a ↦
            let f = rw (next_statement, a) at e in
            let same : (d.step_text db stmt).1 ≡ db' = cc in
            subst (λ x. d.sqlite.tables x ≡ d.sqlite.tables db) same kept
      ]

  tables-rows :
      (n : ℕ) (before sql : Bytes) (db : Db) {r : ℕ} {db' : Db}
      → before ++ sql ≡ text
      → create_tables (schema_of d) n sql db ≡ some (r, db')
      → d.sqlite.tables db' ≡ d.sqlite.tables db
  unfolding create_tables
  tables-rows n before [] db whole e = cc
  tables-rows zero before (b ∷ sql) db whole e = absurd (cc)
  tables-rows (suc n) before (b ∷ sql) db whole e =
      next-rows _ before b sql db _ whole refl
        (λ behind tail mid split f. tables-rows n behind tail mid split f) e

  -- `create_db` ends, and changes no row, whether it succeeds or not.
  pub create_db-rows :
      (db : Db)
      → (r : ℕ) × (db' : Db) × (create_db (schema_of d) text db ≡ some (r, db'))
        × (d.sqlite.tables db' ≡ d.sqlite.tables db)
  unfolding create_db
  create_db-rows db =
      let ((r, db'), e) = create_db-ends (schema_of d) text db shorter in
      (
        r,
        db',
        e,
        elim (Bool-cases (d.create_v2 db)) [
          | inl o ↦ tables-rows (length text) [] text db refl (rw o at e)
          | inr o ↦
              let f = rw o at e in
              let same : db ≡ db' = cc in
              subst (λ x. d.sqlite.tables x ≡ d.sqlite.tables db) same refl
        ],
      )
