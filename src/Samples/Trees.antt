-- ===== src/Samples/Trees.antt =====
-- A cJSON whose nodes are trees, and which parses the sample texts.
use smart_fridge.Prelude.{
  Bytes, codes, Option, none, some, List, [], ◌∷◌, ◌++◌, true, str_eq, if◌then◌else◌,
}
use smart_fridge.Prelude.Int.{ℤ, pos}
use smart_fridge.Json.{CJson, Memory}
use smart_fridge.Json.Laws.{same_key}

-- A container is `empty` or has a last item, under a key that an array does not look at.
pub data Tree : Type 0 where
  empty : Tree
  text : Bytes → Tree
  number : ℤ → Tree
  item : Tree → Bytes → Tree → Tree

abbrev pub or_else : Option Tree → Option Tree → Option Tree
or_else (some t) other = some t
or_else none other = other

-- The first item of the key.
abbrev pub find : Tree → Bytes → Option Tree
find (item rest k v) key = or_else (find rest key) (if same_key key k then some v else none)
find _ key = none

abbrev pub find_in : Option Tree → Bytes → Option Tree
find_in none key = none
find_in (some t) key = find t key

abbrev pub items : Tree → List Tree
items (item rest k v) = items rest ++ v ∷ []
items _ = []

abbrev pub text_of : Tree → Option Bytes
text_of (text s) = some s
text_of _ = none

abbrev pub number_of : Tree → ℤ
number_of (number i) = i
number_of _ = pos 0

abbrev pub text_node : Option Bytes → Option Tree
text_node none = none
text_node (some s) = some (text s)

-- An item is added only where its text is not NULL.
abbrev pub add_text : Tree → Bytes → Option Bytes → Tree
add_text o k none = o
add_text o k (some s) = item o k (text s)

abbrev pub add_node : Tree → Option Tree → Tree
add_node a none = a
add_node a (some n) = item a [] n

-- Everything is printed as the text of `stored`, the only object that a test prints.
abbrev pub print : Option Tree → Option Bytes
print none = none
print (some t) = some (codes "{\"name\":\"Salt\"}")

abbrev pub field : Tree → Bytes → Bytes → Tree
field o k s = item o k (text s)

-- A deletion request, one whose code is a number, an image, and an answer of the food API that has
-- no product.
abbrev pub removal : Tree
removal = field (field empty (codes "code") (codes "84")) (codes "remove") (codes "yes")

abbrev pub numbered : Tree
numbered = item empty (codes "code") (number (pos 84))

abbrev pub not_found : Tree
not_found =
    field (field empty (codes "code") (codes "84")) (codes "status_verbose")
      (codes "product not found")

abbrev pub tags : Tree
tags =
    item (item (item empty (codes "additives") empty) (codes "allergens") empty)
      (codes "ingredients") (item empty [] (text (codes "en:salt")))

-- The message of a product, as the reader builds it.
abbrev pub stored : Tree
stored =
    let named =
      item (field empty (codes "name") (codes "Salt")) (codes "number") (number (pos 2)) in
    let texts =
      field
        (field
          (field
            (field (field named (codes "quantity") (codes "1g")) (codes "ingredients")
              (codes "salt"))
            (codes "brands") (codes ""))
          (codes "expiration_date") (codes ""))
        (codes "labels") (codes "") in
    field
      (field
        (item (item texts (codes "tags") tags) (codes "images")
          (field empty (codes "front") (codes "http://i/1")))
        (codes "timestamp") (codes "now"))
      (codes "code") (codes "84")

-- The product of an answer of the food API, from which that message is built, and the answer.
abbrev pub answer_product : Tree
answer_product =
    let image = item empty (codes "display") (field empty (codes "es") (codes "http://i/1")) in
    let texts =
      field
        (field
          (field
            (field
              (field (field empty (codes "product_name") (codes "Salt"))
                (codes "nutrition_data_per") (codes "1g"))
              (codes "ingredients_text") (codes "salt"))
            (codes "brands") [])
          (codes "expiration_date") [])
        (codes "labels") [] in
    let tagged =
      item (item (item texts (codes "additives_tags") empty) (codes "allergens_tags") empty)
        (codes "ingredients_tags") (item empty [] (text (codes "en:salt"))) in
    item tagged (codes "selected_images") (item empty (codes "front") image)

abbrev pub answer : Tree
answer = item empty (codes "product") answer_product

abbrev pub answer_text : Bytes
answer_text = codes "{\"product\":{}}"

abbrev pub removal_text : Bytes
removal_text = codes "{\"code\":\"84\",\"remove\":\"yes\"}"

abbrev pub numbered_text : Bytes
numbered_text = codes "{\"code\":84}"

abbrev pub not_found_text : Bytes
not_found_text = codes "{\"code\":\"84\",\"status_verbose\":\"product not found\"}"

-- The texts of `stored` and of `answer` stand for longer ones: no test looks into them.
abbrev pub stored_text : Bytes
stored_text = codes "{\"name\":\"Salt\"}"

abbrev pub parse : Bytes → Option Tree
parse s =
    if str_eq s removal_text
    then some removal
    else if str_eq s numbered_text
    then some numbered
    else if str_eq s not_found_text
    then some not_found
    else if str_eq s stored_text
    then some stored
    else if str_eq s answer_text
    then some answer
    else none

abbrev pub trees : CJson
trees = record {
  Node = Tree;
  parse = parse;
  print_unformatted = print;
  get_object_item = find_in;
  children = items;
  valuestring = text_of;
  valueint = number_of;
  create_object = empty;
  create_array = empty;
  create_string = text_node;
  add_string_to_object = add_text;
  add_number_to_object = λ o k i. item o k (number i);
  add_item_to_object = item;
  add_item_to_array = add_node;
}

abbrev pub room : Memory
room = record { for_decoded = true; for_tags = true; for_images = true }
