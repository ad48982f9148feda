-- ===== src/Json/Laws.antt =====
-- The documented behaviour of cJSON.
use smart_fridge.Prelude.{
  ℕ, ◌+◌, ◌≡◌, Option, none, some, Bool, false, Bytes, map, str_eq, leb, ◌&&◌, if◌then◌else◌, ◌++◌,
  [], ◌∷◌,
}
use smart_fridge.Prelude.Int.{ℤ, IsInt}
use smart_fridge.Json.{CJson}

-- `tolower` of the C locale
abbrev pub tolower : ℕ → ℕ
tolower c = if leb b'A' c && leb c b'Z' then c + 32 else c

-- Keys are compared without regard to case.
abbrev pub same_key : Bytes → Bytes → Bool
same_key j k = str_eq (map tolower j) (map tolower k)

pub record CJsonLaws (c : CJson) : Type 0 where
  pub get_null : (k : Bytes) → c.get_object_item none k ≡ none
  pub get_empty : (k : Bytes) → c.get_object_item (some c.create_object) k ≡ none
  -- An item added under a new key is found there, and the other keys keep their items.
  pub get_item :
      (o n : c.Node) (k : Bytes)
      → c.get_object_item (some o) k ≡ none
      → c.get_object_item (some (c.add_item_to_object o k n)) k ≡ some n
  pub get_item_other :
      (o n : c.Node) (j k : Bytes)
      → same_key j k ≡ false
      → c.get_object_item (some (c.add_item_to_object o k n)) j ≡ c.get_object_item (some o) j
  pub get_string :
      (o : c.Node) (k s : Bytes)
      → c.get_object_item (some o) k ≡ none
      → (n : c.Node) × (c.get_object_item (some (c.add_string_to_object o k (some s))) k ≡ some n)
        × (c.valuestring n ≡ some s)
  pub get_string_other :
      (o : c.Node) (j k : Bytes) (s : Option Bytes)
      → same_key j k ≡ false
      → c.get_object_item (some (c.add_string_to_object o k s)) j ≡ c.get_object_item (some o) j
  pub get_number :
      (o : c.Node) (k : Bytes) (i : ℤ)
      → IsInt i
      → c.get_object_item (some o) k ≡ none
      → (n : c.Node) × (c.get_object_item (some (c.add_number_to_object o k i)) k ≡ some n)
        × (c.valueint n ≡ i)
  pub get_number_other :
      (o : c.Node) (j k : Bytes) (i : ℤ)
      → same_key j k ≡ false
      → c.get_object_item (some (c.add_number_to_object o k i)) j ≡ c.get_object_item (some o) j
  pub children_array : c.children c.create_array ≡ []
  pub children_added :
      (a : c.Node) (s : Bytes)
      → (n : c.Node) × (c.children (c.add_item_to_array a (c.create_string (some s)))
          ≡ c.children a ++ n ∷ [])
        × (c.valuestring n ≡ some s)
