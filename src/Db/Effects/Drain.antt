-- ===== src/Db/Effects/Drain.antt =====
-- A product that is stored with n elements is gone after n removals.
use smart_fridge.Prelude.{
  ℕ, zero, suc, ◌+◌, ◌<◌, ◌≡◌, refl, ◌∙◌, ap, Bytes, Option, none, some, List, [], ◌∷◌, ◌++◌, true,
  false, arith, str_eq_iff,
}
use smart_fridge.Prelude.Int.{pos, eq_ℤ, ◌-ℤ◌}
use smart_fridge.Decoder.{Product}
use smart_fridge.Sql.{Tables, ProductRow, violates, apply, sql_eq, update_where, delete_where}
use smart_fridge.Sql.Engine.{Sqlite, SqliteLaw, Works}
use smart_fridge.Db.{product_row, db_insert, db_remove}
use smart_fridge.Db.Effects.{db_remove-effect}
use smart_fridge.Db.Effects.Rows.{Fresh, db_insert-Fresh}

-- Every row has another code, and some elements.
abbrev pub Others : Option Bytes → List ProductRow → Type 0
Others code [] = Unit
Others code (x ∷ xs) =
    (sql_eq x.code code ≡ false) × (eq_ℤ x.elements (pos 0) ≡ false) × Others code xs

-- The row of the product with `m` elements left, and no row for 0.
abbrev pub left_over : Product → ℕ → List ProductRow
left_over p zero = []
left_over p (suc m) = record (product_row p) { elements = pos (suc m) } ∷ []

less_one : (n : ℕ) → pos (suc n) -ℤ pos 1 ≡ pos n
unfolding ◌-ℤ◌
less_one n = ground arith

not_zero : (n : ℕ) → eq_ℤ (pos (suc n)) (pos 0) ≡ false
not_zero n = ground arith

removal :
    (p : Product) (rows : List ProductRow) (m : ℕ)
    → sql_eq p.code p.code ≡ true
    → Others p.code rows
    → delete_where
        (λ x. eq_ℤ x.elements (pos 0))
        (update_where
          (λ x. sql_eq x.code p.code)
          (λ x. record x { elements = x.elements -ℤ pos 1 })
          (rows ++ left_over p (suc m)))
      ≡ rows ++ left_over p m
unfolding delete_where update_where
removal p [] zero same h = rw (same, less_one)
removal p [] (suc m) same h = rw (same, less_one, not_zero m)
removal p (x ∷ rows) m same (code, elements, h) =
    rw (code, elements) (ap (λ l. x ∷ l) (removal p rows m same h))

sql_eq_self : (a : Bytes) → sql_eq (some a) (some a) ≡ true
sql_eq_self a = (str_eq_iff a a).1 refl

-- A product whose row breaks no constraint has a code, which is no other row's.
Fresh-code : (p : Product) (t : Tables) → Fresh p t → sql_eq p.code p.code ≡ true
unfolding violates
Fresh-code p t h = cases p.code refl
  where
    cases : (o : Option Bytes) → p.code ≡ o → sql_eq o o ≡ true
    cases none e = ground (arith, h, e)
    cases (some a) e = sql_eq_self a

module _ (s : Sqlite) where
  -- `n` deletion requests for one product
  unfoldable pub remove_times : ℕ → Product → s.Db → s.Db
  remove_times zero p db = db
  remove_times (suc n) p db = remove_times n p (db_remove s p db).1

module _ (s : Sqlite) (law : SqliteLaw s) (works : Works s) where
  open s use {Db, tables}

  remove_times-left :
      (n m : ℕ) (p : Product) (rows : List ProductRow) (db : Db)
      → sql_eq p.code p.code ≡ true
      → Others p.code rows
      → (tables db).products_data ≡ rows ++ left_over p (n + m)
      → (tables (remove_times s n p db)).products_data ≡ rows ++ left_over p m
  unfolding remove_times apply
  remove_times-left zero m p rows db same others h =
      h ∙ ap (λ k. rows ++ left_over p k) (omega arith)
  remove_times-left (suc n) m p rows db same others h =
      remove_times-left n m p rows (db_remove s p db).1 same others (
        ap (λ t. t.products_data) (db_remove-effect s law works p db).1
        ∙ rw (h, suc_sum) (removal p rows (n + m) same others))
    where
      suc_sum : suc n + m ≡ suc (n + m)
      suc_sum = omega arith

  -- Where SQLite works, and each row that is there has another code and some elements: a product
  -- that breaks no constraint and is stored with `n + m` elements has `m` left after `n` deletion
  -- requests, with no row for 0, and the other rows are as they were.
  pub db_insert-remove_times :
      (n m : ℕ) (p : Product) (db : Db)
      → p.number ≡ pos (n + m)
      → 0 < n + m
      → Fresh p (tables db)
      → Others p.code (tables db).products_data
      → (tables (remove_times s n p (db_insert s p db).1)).products_data
        ≡ (tables db).products_data ++ left_over p m
  db_insert-remove_times n m p db number some_left fresh others =
      remove_times-left n m p (tables db).products_data (db_insert s p db).1
        (Fresh-code p (tables db) fresh) others
        ((db_insert-Fresh s law works p db fresh).1
          ∙ ap (λ l. (tables db).products_data ++ l) (row (n + m) number some_left))
    where
      row : (k : ℕ) → p.number ≡ pos k → 0 < k → product_row p ∷ [] ≡ left_over p k
      row zero e h = absurd (omega arith)
      row (suc k) e h = rw (← e)
