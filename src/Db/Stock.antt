-- ===== src/Db/Stock.antt =====
-- What PRODUCTS_DATA stands for where each code has its name: how many elements there are of each code.
pub mod Shelf
pub mod Refine
use smart_fridge.Prelude.{
  ℕ, suc, ◌+◌, ◌-◌, ◌≡◌, refl, Bytes, Option, some, List, [], ◌∷◌, Bool, true, false, str_eq,
  if◌then◌else◌, ◌&&◌,
}
use smart_fridge.Prelude.Int.{pos, pos_part}
use smart_fridge.Sql.{ProductRow, sql_eq, any_row}

-- The specification: a number for each code, that is raised and lowered.
abbrev pub Stock : Type 0
Stock = Bytes → ℕ

pub data Request : Type 0 where
  store : Bytes → ℕ → Request
  take : Bytes → Request

abbrev pub serve_request : Request → Stock → Stock
serve_request (store code n) stock j = stock j + (if str_eq code j then n else 0)
serve_request (take code) stock j = stock j - (if str_eq code j then 1 else 0)

abbrev pub serve_requests : List Request → Stock → Stock
serve_requests [] stock = stock
serve_requests (r ∷ rs) stock = serve_requests rs (serve_request r stock)

abbrev pub has : Bytes → List ProductRow → Bool
has code rows = any_row (λ x. sql_eq x.code (some code)) rows

-- The elements of the first row with the code.
abbrev pub count : List ProductRow → Stock
count [] j = 0
count (r ∷ rs) j =
    let rest = count rs j in if sql_eq r.code (some j) then pos_part r.elements else rest

module _ (name_of : Bytes → Bytes) where
  -- A row has a code, the code's name and some elements, and no later row has its code.
  pub record IsStocked (r : ProductRow) (rs : List ProductRow) : Type 0 where
    pub key : Bytes
    pub more : ℕ
    pub code : r.code ≡ some key
    pub name : r.name ≡ some (name_of key)
    pub elements : r.elements ≡ pos (suc more)
    pub alone : has key rs ≡ false

  abbrev pub Shelf : List ProductRow → Type 0
  Shelf [] = Unit
  Shelf (r ∷ rs) = IsStocked r rs × Shelf rs
