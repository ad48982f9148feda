-- ===== src/Samples/Lawful.antt =====
-- The trees behave as cJSON is documented to.
use smart_fridge.Prelude.{
  ◌≡◌, refl, Bytes, Option, none, some, true, false, str_eq_iff, if◌then◌else◌, map,
}
use smart_fridge.Json.Laws.{CJsonLaws, same_key, tolower}
use smart_fridge.Samples.Trees.{Tree, text, number, find, or_else, trees}

same_key_self : (k : Bytes) → same_key k k ≡ true
same_key_self k = (str_eq_iff (map tolower k) (map tolower k)).1 refl

or_else-none : (o : Option Tree) → or_else o none ≡ o
or_else-none none = refl
or_else-none (some t) = refl

find-new :
    (o n : Tree) (k : Bytes)
    → find o k ≡ none
    → or_else (find o k) (if same_key k k then some n else none) ≡ some n
find-new o n k e = rw (e, same_key_self k)

find-other :
    (o n : Tree) (j k : Bytes)
    → same_key j k ≡ false
    → or_else (find o j) (if same_key j k then some n else none) ≡ find o j
find-other o n j k e = rw e (or_else-none (find o j))

string-other :
    (o : Tree) (j k : Bytes) (s : Option Bytes)
    → same_key j k ≡ false
    → trees.get_object_item (some (trees.add_string_to_object o k s)) j ≡ find o j
string-other o j k none e = refl
string-other o j k (some s) e = find-other o (text s) j k e

pub trees-CJsonLaws : CJsonLaws trees
trees-CJsonLaws = record {
  get_null = λ k. refl;
  get_empty = λ k. refl;
  get_item = λ o n k e. find-new o n k e;
  get_item_other = λ o n j k e. find-other o n j k e;
  get_string = λ o k s e. (text s, find-new o (text s) k e, refl);
  get_string_other = λ o j k s e. string-other o j k s e;
  get_number = λ o k i r e. (number i, find-new o (number i) k e, refl);
  get_number_other = λ o j k i e. find-other o (number i) j k e;
  children_array = refl;
  children_added = λ a s. (text s, refl, refl);
}
