-- ===== src/Json/Objects.antt =====
-- The objects that are built item by item, and what is found in them, where cJSON behaves as documented.
use smart_fridge.Prelude.{
  ◌≡◌, sym, Option, none, some, List, [], ◌∷◌, ◌++◌, Bool, true, false, not, ◌||◌, ◌&&◌, Bytes,
  str_eq, str_eq_iff, Bool-cases, inl, inr, if◌then◌else◌, arith,
}
use mathlib.Core.Path.{subst}
use smart_fridge.Prelude.Int.{ℤ, IsInt}
use smart_fridge.Json.{CJson}
use smart_fridge.Json.Laws.{CJsonLaws, same_key}

module _ (c : CJson) where
  open c use {
    Node, get_object_item, children, valuestring, valueint, create_object, create_string,
    add_string_to_object, add_number_to_object, add_item_to_object, add_item_to_array,
  }

  -- The field of `n` under `key` holds the text `s`.
  pub record Text (n : Node) (key s : Bytes) : Type 0 where
    pub item : Node
    pub found : get_object_item (some n) key ≡ some item
    pub holds : valuestring item ≡ some s

  pub record Number (n : Node) (key : Bytes) (i : ℤ) : Type 0 where
    pub item : Node
    pub found : get_object_item (some n) key ≡ some item
    pub holds : valueint item ≡ i

  -- The nodes are texts, and these are their texts.
  abbrev pub Texts : List Node → List Bytes → Type 0
  Texts [] [] = Unit
  Texts (n ∷ ns) (s ∷ ss) = (valuestring n ≡ some s) × Texts ns ss
  Texts _ _ = ⊥

  -- The field under `key` is an array of these texts.
  pub record Array (n : Node) (key : Bytes) (texts : List Bytes) : Type 0 where
    pub item : Node
    pub found : get_object_item (some n) key ≡ some item
    pub holds : Texts (children item) texts

  -- What is added to an object.
  pub data Entry : Type 0 where
    str : Bytes → Entry
    num : ℤ → Entry
    sub : Node → Entry

  -- The items of an object with their keys, the last one first.
  abbrev pub Fields : Type 0
  Fields = List (Bytes × Entry)

  abbrev pub add : Node → Bytes → Entry → Node
  add o k (str s) = add_string_to_object o k (some s)
  add o k (num i) = add_number_to_object o k i
  add o k (sub n) = add_item_to_object o k n

  abbrev pub build : Fields → Node
  build [] = create_object
  build ((k, e) ∷ fields) = add (build fields) k e

  abbrev pub lookup : Bytes → Fields → Option Entry
  lookup j [] = none
  lookup j ((k, e) ∷ fields) = let rest = lookup j fields in if str_eq j k then some e else rest

  -- No key is the given one in another spelling.
  abbrev pub apart : Bytes → Fields → Bool
  apart j [] = true
  apart j ((k, e) ∷ fields) = (str_eq j k || not (same_key j k)) && apart j fields

  abbrev pub Fits : Entry → Type 0
  Fits (num i) = IsInt i
  Fits _ = Unit

  -- Every item is added under a new key.
  abbrev pub Distinct : Fields → Type 0
  Distinct [] = Unit
  Distinct ((k, e) ∷ fields) =
      (lookup k fields ≡ none) × (apart k fields ≡ true) × Fits e × Distinct fields

  -- What is found is what was added.
  abbrev pub Shows : Option Entry → Option Node → Type 0
  Shows none o = o ≡ none
  Shows (some (str s)) o = (n : Node) × (o ≡ some n) × (valuestring n ≡ some s)
  Shows (some (num i)) o = (n : Node) × (o ≡ some n) × (valueint n ≡ i)
  Shows (some (sub n)) o = o ≡ some n

module _ (c : CJson) (laws : CJsonLaws c) where
  open c use {Node, get_object_item, children, valuestring, create_string, add_item_to_array}

  added :
      (o : Node) (k : Bytes) (e : Entry c)
      → Fits c e
      → get_object_item (some o) k ≡ none
      → Shows c (some e) (get_object_item (some (add c o k e)) k)
  added o k (str s) fits new = laws.get_string o k s new
  added o k (num i) fits new = laws.get_number o k i fits new
  added o k (sub n) fits new = laws.get_item o n k new

  kept :
      (o : Node) (j k : Bytes) (e : Entry c)
      → same_key j k ≡ false
      → get_object_item (some (add c o k e)) j ≡ get_object_item (some o) j
  kept o j k (str s) d = laws.get_string_other o j k (some s) d
  kept o j k (num i) d = laws.get_number_other o j k i d
  kept o j k (sub n) d = laws.get_item_other o n j k d

  -- Where every item is added under a new key, a key whose other spellings were not used finds what was added.
  pub build-Shows :
      (j : Bytes) (fields : Fields c)
      → Distinct c fields
      → apart c j fields ≡ true
      → Shows c (lookup c j fields) (get_object_item (some (build c fields)) j)
  build-Shows j [] d a = laws.get_empty j
  build-Shows j ((k, e) ∷ fields) (new, other, fits, d) a = elim (Bool-cases (str_eq j k)) [
    | inl same ↦
        let eq : j ≡ k = (str_eq_iff j k).0 same in
        let absent : get_object_item (some (build c fields)) k ≡ none =
          rw new at (build-Shows k fields d other) in
        rw same (
          subst (λ x. Shows c (some e) (get_object_item (some (build c ((k, e) ∷ fields))) x))
            (sym eq) (added (build c fields) k e fits absent))
    | inr differs ↦
        let apart_here : same_key j k ≡ false = ground arith in
        let rest : apart c j fields ≡ true = ground arith in
        rw (differs, kept (build c fields) j k e apart_here) (build-Shows j fields d rest)
  ]

  -- A text more in an array.
  pub Texts-snoc :
      (ns : List Node) (ss : List Bytes) (n : Node) (s : Bytes)
      → Texts c ns ss
      → valuestring n ≡ some s
      → Texts c (ns ++ n ∷ []) (ss ++ s ∷ [])
  Texts-snoc [] [] n s h e = (e, tt)
  Texts-snoc (m ∷ ns) (t ∷ ss) n s (g, h) e = (g, Texts-snoc ns ss n s h e)
  Texts-snoc [] (t ∷ ss) n s h e = absurd h
  Texts-snoc (m ∷ ns) [] n s h e = absurd h
