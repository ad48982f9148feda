-- ===== src/Db/Stock/Refine.antt =====
-- The daemon as a stock: what a connection does to the number of elements of each code.
use smart_fridge.Prelude.{
  ℕ, suc, ◌≡◌, refl, sym, ◌∙◌, Bytes, some, List, [], ◌∷◌, ◌++◌, Bool, true, false, str_eq, is_some,
  Bool-cases, inl, inr, arith, ◌&&◌,
}
use mathlib.Core.Path.{subst, fun_ext}
use smart_fridge.Prelude.Int.{pos}
use smart_fridge.Json.{CJson}
use smart_fridge.Decoder.{Product}
use smart_fridge.Sql.{ProductRow, any_row, Tables, insert_product, violates, apply}
use smart_fridge.Sql.Engine.{Sqlite, SqliteLaw, Works}
use smart_fridge.Db.{product_row, db_insert, db_remove}
use smart_fridge.Db.Effects.{insert_effect, remove_effect, db_insert-effect, db_remove-effect}
use smart_fridge.Db.Effects.Rows.{insert_effect-products}
use smart_fridge.Db.Messages.{serve}
use smart_fridge.Db.Messages.Serve.{Carries, serve-Carries}
use smart_fridge.Db.Stock.{
  Stock, Request, store, take, serve_request, serve_requests, has, count, IsStocked, Shelf,
}
use smart_fridge.Db.Stock.Shelf.{
  raised, by_name, Shelf-raised, count-raised, Shelf-taken, count-taken, Shelf-added, count-added,
}

module _ (name_of : Bytes → Bytes) where
  -- A product with a code, the code's name, and some elements, whose row is whole.
  pub record IsStock (p : Product) (key : Bytes) (more : ℕ) : Type 0 where
    pub code : p.code ≡ some key
    pub name : p.name ≡ some (name_of key)
    pub quantity : is_some p.quantity ≡ true
    pub timestamp : is_some p.timestamp ≡ true
    pub number : p.number ≡ pos (suc more)

module _ (name_of : Bytes → Bytes)
    (names : (a b : Bytes) → str_eq (name_of a) (name_of b) ≡ str_eq a b) where
  -- The rows stand for this stock.
  abbrev pub Stands : List ProductRow → Stock → Type 0
  Stands rows stock = Shelf name_of rows × ((j : Bytes) → count rows j ≡ stock j)

  and_true : (b : Bool) → (b && true) ≡ b
  and_true b = ground arith

  none_later : (key : Bytes) → has key [] ≡ false
  none_later key = unfold any_row in refl

  violates-has :
      (p : Product) (key : Bytes) (more : ℕ) (t : Tables)
      → IsStock name_of p key more
      → violates (insert_product (product_row p)) t ≡ has key t.products_data
  unfolding violates
  violates-has p key more t s = rw (s.code, s.name, s.quantity, s.timestamp)

  insert-Stands :
      (p : Product) (key : Bytes) (more : ℕ) (t : Tables)
      → IsStock name_of p key more
      → Shelf name_of t.products_data
      → Stands
          (insert_effect p t).products_data
          (serve_request (store key (suc more)) (count t.products_data))
  unfolding apply
  insert-Stands p key more t s h = elim (Bool-cases (has key t.products_data)) [
    | inl there ↦
        let e = violates-has p key more t s ∙ there in
        let rows : (insert_effect p t).products_data ≡ raised key (suc more) t.products_data =
          insert_effect-products p t
          ∙ rw (e, s.name, s.number) (by_name name_of names key _ t.products_data h) in
        rw rows (
          Shelf-raised name_of names key (suc more) t.products_data h,
          λ j.
              rw (there, and_true (str_eq key j)) at
                (count-raised name_of names j key (suc more) t.products_data h),
        )
    | inr new ↦
        let e = violates-has p key more t s ∙ new in
        let rows : (insert_effect p t).products_data ≡ t.products_data ++ product_row p ∷ [] =
          insert_effect-products p t ∙ rw e in
        let row : IsStocked name_of (product_row p) [] = record {
          key = key;
          more = more;
          code = s.code;
          name = s.name;
          elements = s.number;
          alone = none_later key;
        } in
        rw rows (
          Shelf-added name_of names t.products_data (product_row p) h row new,
          λ j. count-added name_of names j t.products_data (product_row p) h row new,
        )
  ]

  remove-Stands :
      (p : Product) (key : Bytes) (t : Tables)
      → p.code ≡ some key
      → Shelf name_of t.products_data
      → Stands (remove_effect p t).products_data (serve_request (take key) (count t.products_data))
  unfolding apply
  remove-Stands p key t e h = rw e (
    Shelf-taken name_of names key t.products_data h,
    λ j. count-taken name_of names j key t.products_data h,
  )

  module _ (c : CJson) (s : Sqlite) (law : SqliteLaw s) (works : Works s) where
    open s use {Db, tables}

    -- The chunks of a connection bring these requests, one each.
    pub data Brings (header : Bytes) : List (Bytes × ℕ) → List Request → Type 0 where
      no_more : Brings header [] []
      brings_product :
          {text : Bytes} {sent : ℕ} {p : Product} {key : Bytes} {more : ℕ}
          {chunks : List (Bytes × ℕ)} {rs : List Request}
          → Carries c header text p false
          → IsStock name_of p key more
          → Brings header chunks rs
          → Brings header ((header ++ text, sent) ∷ chunks) (store key (suc more) ∷ rs)
      brings_removal :
          {text : Bytes} {sent : ℕ} {p : Product} {key : Bytes} {chunks : List (Bytes × ℕ)}
          {rs : List Request}
          → Carries c header text p true
          → p.code ≡ some key
          → Brings header chunks rs
          → Brings header ((header ++ text, sent) ∷ chunks) (take key ∷ rs)

    abbrev rows_of : Db → List ProductRow
    rows_of db = (tables db).products_data

    insert-rows :
        (p : Product) (key : Bytes) (more : ℕ) (db : Db)
        → IsStock name_of p key more
        → Shelf name_of (rows_of db)
        → Stands
            (rows_of (db_insert s p db).1)
            (serve_request (store key (suc more)) (count (rows_of db)))
    insert-rows p key more db k h =
        subst
          (λ t. Stands t.products_data (serve_request (store key (suc more)) (count (rows_of db))))
          (sym (db_insert-effect s law works p db).1) (insert-Stands p key more (tables db) k h)

    remove-rows :
        (p : Product) (key : Bytes) (db : Db)
        → p.code ≡ some key
        → Shelf name_of (rows_of db)
        → Stands (rows_of (db_remove s p db).1) (serve_request (take key) (count (rows_of db)))
    remove-rows p key db e h =
        subst (λ t. Stands t.products_data (serve_request (take key) (count (rows_of db))))
          (sym (db_remove-effect s law works p db).1) (remove-Stands p key (tables db) e h)

    -- Where SQLite works and different codes have different names: if the tables hold whole rows of different codes, each with
    -- its code's name and some elements, and a connection brings products and deletion requests, each product being
    -- whole, with its code's name and some elements, then all are served, and the number of elements of each code
    -- is raised and lowered as they say.
    pub serve-Stands :
        (header : Bytes) (chunks : List (Bytes × ℕ)) (rs : List Request) (db : Db)
        → Brings header chunks rs
        → Shelf name_of (rows_of db)
        → (d : Db) × (serve c s header chunks db ≡ some d)
          × Stands (rows_of d) (serve_requests rs (count (rows_of db)))
    unfolding serve
    serve-Stands header _ _ db no_more h = (db, refl, (h, λ j. refl))
    serve-Stands header _ _ db
          (brings_product {text = text} {sent = sent} {p = p} {key = key} {more = more}
            {chunks = chunks} {rs = rs} m k b)
          h =
        let (h', counts) = insert-rows p key more db k h in
        let (d, e, (shelf, stock)) = serve-Stands header chunks rs (db_insert s p db).1 b h' in
        (
          d,
          serve-Carries c s header text sent chunks p false db m ∙ e,
          (
            shelf,
            subst (λ f. (j : Bytes) → count (rows_of d) j ≡ serve_requests rs f j) (fun_ext counts)
                stock,
          ),
        )
    serve-Stands header _ _ db
          (brings_removal {text = text} {sent = sent} {p = p} {key = key} {chunks = chunks}
            {rs = rs} m k b)
          h =
        let (h', counts) = remove-rows p key db k h in
        let (d, e, (shelf, stock)) = serve-Stands header chunks rs (db_remove s p db).1 b h' in
        (
          d,
          serve-Carries c s header text sent chunks p true db m ∙ e,
          (
            shelf,
            subst (λ f. (j : Bytes) → count (rows_of d) j ≡ serve_requests rs f j) (fun_ext counts)
                stock,
          ),
        )
