-- ===== src/Db/Start/Creation.antt =====
-- The loop of `create_db`: that it ends, and when it succeeds.
use smart_fridge.Prelude.{
  ℕ, zero, suc, ◌≤◌, ◌≡◌, ◌≢◌, ◌↔◌, refl, Bytes, Option, none, some, [], ◌∷◌, true, length, arith,
  Bool-cases, inl, inr,
}
use mathlib.Core.Path.{subst}
use smart_fridge.Db.Start.{
  Schema, SchemaCode, misuse, row, completed, other, is_accepted, next_statement, create_tables,
  create_db,
}

is_accepted-unless_other : (code : SchemaCode) → code ≢ other → is_accepted code ≡ true
is_accepted-unless_other misuse a = refl
is_accepted-unless_other row a = refl
is_accepted-unless_other completed a = refl
is_accepted-unless_other other a = absurd (a refl)

is_accepted-not_other : (code : SchemaCode) → is_accepted code ≡ true → code ≢ other
is_accepted-not_other code e f = absurd (let g = rw f at e in cc)

module _ (s : Schema) where
  open s use {Db, Stmt, open_v2, prepare_v2, step}

  -- A text is left shorter by the statement that was found in it.
  abbrev pub Advances : Type 0
  Advances =
      (db : Db) (b : ℕ) (sql tail : Bytes) (stmt : Option Stmt)
      → prepare_v2 db (b ∷ sql) ≡ some (stmt, tail)
      → length tail ≤ length sql

  -- Each statement of the text is prepared and ends with SQLITE_MISUSE, SQLITE_ROW or SQLITE_DONE, one after the other, and leads to `d`.
  pub data Accepts : Bytes → Db → Db → Type 0 where
    all_done : {db : Db} → Accepts [] db db
    then_next :
        {b : ℕ} {sql tail : Bytes} {stmt : Option Stmt} {db d : Db}
        → prepare_v2 db (b ∷ sql) ≡ some (stmt, tail)
        → (step db stmt).0 ≢ other
        → Accepts tail (step db stmt).1 d
        → Accepts (b ∷ sql) db d

  Ends : Option (ℕ × Db) → Type 0
  Ends o = (r : ℕ × Db) × (o ≡ some r)

  next-Ends :
      (o : Option (Option Stmt × Bytes)) (db : Db) (next : Bytes → Db → Option (ℕ × Db))
      → ((stmt : Option Stmt) (tail : Bytes) (db' : Db)
          → o ≡ some (stmt, tail)
          → Ends (next tail db'))
      → Ends (next_statement s o db next)
  unfolding Ends
  next-Ends none db next h = ((1, db), refl)
  next-Ends (some (stmt, tail)) db next h = elim (Bool-cases (is_accepted (step db stmt).0)) [
    | inl e ↦ let (r, f) = h stmt tail (step db stmt).1 refl in (r, rw (next_statement, e) f)
    | inr e ↦ ((1, (step db stmt).1), rw (next_statement, e))
  ]

  tables-Ends :
      Advances → (n : ℕ) (sql : Bytes) (db : Db) → length sql ≤ n → Ends (create_tables s n sql db)
  unfolding create_tables Ends
  tables-Ends shorter n [] db h = ((0, db), refl)
  tables-Ends shorter zero (b ∷ sql) db h = absurd (omega arith)
  tables-Ends shorter (suc n) (b ∷ sql) db h =
      next-Ends (prepare_v2 db (b ∷ sql)) db (λ tail db'. create_tables s n tail db')
        (λ stmt tail db' e.
          tables-Ends shorter n tail db' (omega (arith, shorter db b sql tail stmt e)))

  -- If each statement leaves the text shorter, `create_db` ends within its rounds.
  pub create_db-ends :
      (sql : Bytes) (db : Db) → Advances → (r : ℕ × Db) × (create_db s sql db ≡ some r)
  unfolding create_db Ends
  create_db-ends sql db shorter = elim (Bool-cases (open_v2 db)) [
    | inl e ↦ let (r, f) = tables-Ends shorter (length sql) sql db (omega arith) in (r, rw e f)
    | inr e ↦ ((1, db), rw e)
  ]

  Accepts-eq :
      Advances
      → (n : ℕ) (sql : Bytes) (db : Db) {d : Db} → length sql ≤ n
      → Accepts sql db d
      → create_tables s n sql db ≡ some (0, d)
  unfolding create_tables
  Accepts-eq shorter n [] db h all_done = refl
  Accepts-eq shorter zero (b ∷ sql) db h (then_next p a k) = absurd (omega arith)
  Accepts-eq shorter (suc n) (b ∷ sql) db h (then_next {tail = tail} {stmt = stmt} p a k) =
      rw (p, next_statement, is_accepted-unless_other _ a)
        (Accepts-eq shorter n tail _ (omega (arith, shorter db b sql tail stmt p)) k)

  next-Accepts :
      (o : Option (Option Stmt × Bytes)) (b : ℕ) (sql : Bytes) (db : Db)
      (next : Bytes → Db → Option (ℕ × Db)) {d : Db}
      → prepare_v2 db (b ∷ sql) ≡ o
      → next_statement s o db next ≡ some (0, d)
      → ((tail : Bytes) (db' : Db) → next tail db' ≡ some (0, d) → Accepts tail db' d)
      → Accepts (b ∷ sql) db d
  next-Accepts none b sql db next p e h = absurd (ground (arith, e))
  next-Accepts (some (stmt, tail)) b sql db next p e h =
      elim (Bool-cases (is_accepted (step db stmt).0)) [
        | inl a ↦ then_next p (is_accepted-not_other _ a) (h tail _ (rw (next_statement, a) at e))
        | inr a ↦ absurd (ground (arith, rw (next_statement, a) at e))
      ]

  tables-Accepts :
      (n : ℕ) (sql : Bytes) (db : Db) {d : Db}
      → create_tables s n sql db ≡ some (0, d)
      → Accepts sql db d
  unfolding create_tables
  tables-Accepts n [] db {d} e =
      let same : db ≡ d = cc in subst (λ x. Accepts [] db x) same all_done
  tables-Accepts zero (b ∷ sql) db e = absurd (ground (arith, e))
  tables-Accepts (suc n) (b ∷ sql) db e =
      next-Accepts (prepare_v2 db (b ∷ sql)) b sql db _ refl e
        (λ tail db' f. tables-Accepts n tail db' f)

  -- If the file of the database can be opened and each statement leaves the text shorter, create_db
  -- returns 0 exactly if each statement of the schema, in turn, is prepared and its step ends with
  -- SQLITE_MISUSE, SQLITE_ROW or SQLITE_DONE.
  pub create_db-Accepts :
      (sql : Bytes) (db d : Db)
      → Advances
      → open_v2 db ≡ true
      → (create_db s sql db ≡ some (0, d)) ↔ Accepts sql db d
  unfolding create_db
  create_db-Accepts sql db d shorter opened =
      rw opened
        (tables-Accepts (length sql) sql db, Accepts-eq shorter (length sql) sql db (omega arith))
