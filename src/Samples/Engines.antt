-- ===== src/Samples/Engines.antt =====
-- An SQLite whose connection is its tables, and which never fails.
use smart_fridge.Prelude.{◌≡◌, refl, codes, some, [], ◌∷◌, Bool, true, false, Bool-cases, inl, inr}
use smart_fridge.Prelude.Int.{pos}
use smart_fridge.Decoder.{Product, cleared}
use smart_fridge.Sql.{Tables, Statement, violates, apply}
use smart_fridge.Sql.Engine.{Sqlite, StepCode, done, constraint, SqliteLaw, Steps, Works}

abbrev pub run_statement : Statement → Tables → Bool → StepCode × Tables
run_statement st t true = (constraint, t)
run_statement st t false = (done, apply st t)

abbrev pub engine : Sqlite
engine = record {
  Db = Tables;
  tables = λ t. t;
  open_v2 = λ t. true;
  prepare_v2 = λ t q. true;
  step = λ t st. run_statement st t (violates st t);
}

run-law :
    (t : Tables) (st : Statement) (b : Bool)
    → violates st t ≡ b
    → Steps engine t st (run_statement st t b).0 (run_statement st t b).1
run-law t st true e = (e, refl)
run-law t st false e = (e, refl)

pub engine-law : SqliteLaw engine
engine-law t st = run-law t st (violates st t) refl

pub engine-works : Works engine
engine-works = record {
  opens = λ t. refl;
  prepares = λ t q. refl;
  no_failure =
      λ t st. elim (Bool-cases (violates st t)) [ inl e ↦ rw e (λ f. cc) | inr e ↦ rw e (λ f. cc) ];
}

abbrev pub no_tables : Tables
no_tables = record {
  products_data = [];
  ingredients_tags = [];
  allergens_tags = [];
  additives_tags = [];
  images = [];
}

abbrev pub salt : Product
salt = record cleared {
  name = some (codes "Salt");
  code = some (codes "84");
  timestamp = some (codes "now");
  quantity = some (codes "1g");
  number = pos 3;
  ingredients_tags = some (codes "en:salt" ∷ codes "sea" ∷ []);
}
