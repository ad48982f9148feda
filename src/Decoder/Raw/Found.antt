-- ===== src/Decoder/Raw/Found.antt =====
-- What is found in the objects of a message: its texts, its arrays of tags and its images.
use smart_fridge.Prelude.{
  ◌≡◌, refl, Option, none, some, List, [], ◌∷◌, ◌++◌, true, Bytes, codes, str_eq, append_assoc,
  append-nil,
}
use smart_fridge.Prelude.Int.{ℤ}
use smart_fridge.Json.{CJson}
use smart_fridge.Json.Laws.{CJsonLaws}
use smart_fridge.Json.Objects.{
  Text, Number, Array, Texts, Entry, str, num, sub, Fields, build, lookup, apart, Distinct,
  build-Shows, Texts-snoc,
}
use smart_fridge.Decoder.Stored.Fields.{Picture}
use smart_fridge.Decoder.Raw.{copy_strings}
use smart_fridge.Decoder.Raw.Answer.{copied, pictures, fields}

module _ (c : CJson) (laws : CJsonLaws c) where
  open c use {
    Node, parse, get_object_item, children, valuestring, create_array, create_string,
    add_item_to_array,
  }

  copy_strings-Texts :
      (items : List Node) (ss : List Bytes) (a : Node) (done : List Bytes)
      → Texts c items ss
      → Texts c (children a) done
      → Texts c (children (copy_strings c a items)) (done ++ ss)
  unfolding copy_strings
  copy_strings-Texts [] [] a done h k = rw (append-nil done) k
  copy_strings-Texts (n ∷ ns) (s ∷ ss) a done (e, h) k =
      let (m, added, text) = laws.children_added a s in
      rw (e, ← append_assoc done (s ∷ []) ss)
        (copy_strings-Texts ns ss _ (done ++ s ∷ []) h
          (rw added (Texts-snoc c laws (children a) done m s k text)))
  copy_strings-Texts [] (s ∷ ss) a done h k = absurd h
  copy_strings-Texts (n ∷ ns) [] a done h k = absurd h

  copied-Texts :
      (ss : List Bytes) (item : Node)
      → Texts c (children item) ss
      → Texts c (children (copied c item)) ss
  copied-Texts ss item h =
      copy_strings-Texts (children item) ss create_array [] h (rw laws.children_array tt)

  -- what is found in an object that was built
  pub build-Text :
      (k s : Bytes) (fields : Fields c)
      → Distinct c fields
      → apart c k fields ≡ true
      → lookup c k fields ≡ some (str s)
      → Text c (build c fields) k s
  build-Text k s fields d a e =
      let (n, found, holds) = rw e at (build-Shows c laws k fields d a) in
      record { item = n; found = found; holds = holds }

  pub build-Number :
      (k : Bytes) (i : ℤ) (fields : Fields c)
      → Distinct c fields
      → apart c k fields ≡ true
      → lookup c k fields ≡ some (num i)
      → Number c (build c fields) k i
  build-Number k i fields d a e =
      let (n, found, holds) = rw e at (build-Shows c laws k fields d a) in
      record { item = n; found = found; holds = holds }

  pub build_item :
      (k : Bytes) (n : Node) (fields : Fields c)
      → Distinct c fields
      → apart c k fields ≡ true
      → lookup c k fields ≡ some (sub n)
      → get_object_item (some (build c fields)) k ≡ some n
  build_item k n fields d a e = rw e at (build-Shows c laws k fields d a)

  pub build_absent :
      (k : Bytes) (fields : Fields c)
      → Distinct c fields
      → apart c k fields ≡ true
      → lookup c k fields ≡ none
      → get_object_item (some (build c fields)) k ≡ none
  build_absent k fields d a e = rw e at (build-Shows c laws k fields d a)

  pub build-Array :
      (k : Bytes) (item : Node) (ss : List Bytes) (fields : Fields c)
      → Texts c (children item) ss
      → Distinct c fields
      → apart c k fields ≡ true
      → lookup c k fields ≡ some (sub (copied c item))
      → Array c (build c fields) k ss
  build-Array k item ss fields h d a e = record {
    item = copied c item;
    found = build_item k (copied c item) fields d a e;
    holds = copied-Texts ss item h;
  }

  abbrev pub entry : Option Bytes → Option (Entry c)
  entry none = none
  entry (some url) = some (str url)

  pub build-Picture :
      (k : Bytes) (url : Option Bytes) (fields : Fields c)
      → Distinct c fields
      → apart c k fields ≡ true
      → lookup c k fields ≡ entry url
      → Picture c (build c fields) k url
  build-Picture k none fields d a e = build_absent k fields d a e
  build-Picture k (some url) fields d a e = build-Text k url fields d a e

  abbrev pub Found : Fields c → Option Bytes → Option Bytes → Option Bytes → Type 0
  Found fields front nutrition ingredients =
      Distinct c fields
      × (apart c (codes "front") fields ≡ true)
      × (apart c (codes "nutrition") fields ≡ true)
      × (apart c (codes "ingredients") fields ≡ true)
      × (lookup c (codes "front") fields ≡ entry front)
      × (lookup c (codes "nutrition") fields ≡ entry nutrition)
      × (lookup c (codes "ingredients") fields ≡ entry ingredients)

  pub pictures-Found :
      (f n i : Option Bytes)
      → Found (pictures c (record { front = f; nutrition = n; ingredients = i })) f n i
  unfolding str_eq
  pictures-Found none none none = (tt, refl, refl, refl, refl, refl, refl)
  pictures-Found none none (some w) = ((refl, refl, tt, tt), refl, refl, refl, refl, refl, refl)
  pictures-Found none (some v) none = ((refl, refl, tt, tt), refl, refl, refl, refl, refl, refl)
  pictures-Found none (some v) (some w) =
      ((refl, refl, tt, (refl, refl, tt, tt)), refl, refl, refl, refl, refl, refl)
  pictures-Found (some u) none none = ((refl, refl, tt, tt), refl, refl, refl, refl, refl, refl)
  pictures-Found (some u) none (some w) =
      ((refl, refl, tt, (refl, refl, tt, tt)), refl, refl, refl, refl, refl, refl)
  pictures-Found (some u) (some v) none =
      ((refl, refl, tt, (refl, refl, tt, tt)), refl, refl, refl, refl, refl, refl)
  pictures-Found (some u) (some v) (some w) =
      ((refl, refl, tt, (refl, refl, tt, (refl, refl, tt, tt))), refl, refl, refl, refl, refl, refl)
