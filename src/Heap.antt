-- ===== src/Heap.antt =====
-- Blocks of memory, and `free` of the C library: what the program frees of what it has allocated.
pub mod Freed
pub mod Fields
pub mod Product
pub mod Conf
pub mod Pass
pub mod Node
mod Tests
use smart_fridge.Prelude.{ℕ, ◌≡◌, Option, none, some, List, ◌==◌, if◌then◌else◌}

-- The pointers of `struct product`, of which NULL is `none`.
pub record ProductPointers : Type 0 where
  pub front : Option ℕ
  pub nutrition : Option ℕ
  pub image_ingredients : Option ℕ
  pub name : Option ℕ
  pub code : Option ℕ
  pub timestamp : Option ℕ
  pub quantity : Option ℕ
  pub ingredients : Option ℕ
  pub brands : Option ℕ
  pub expiration_date : Option ℕ
  pub labels : Option ℕ
  pub ingredients_tags : Option ℕ
  pub allergens_tags : Option ℕ
  pub additives_tags : Option ℕ

-- Those of `struct reader_conf` and `struct db_conf`.
pub record ReaderPointers : Type 0 where
  pub test_repeat : Option ℕ
  pub device : Option ℕ
  pub log_location : Option ℕ

pub record DbPointers : Type 0 where
  pub internal_header : Option ℕ
  pub internal_address : Option ℕ
  pub log_location : Option ℕ

-- What a block that was allocated holds: a string, an array of strings, or a structure.
pub data Block : Type 0 where
  text : Block
  array : List (Option ℕ) → Block
  product : ProductPointers → Block
  node : Option ℕ → Block
  reader_conf : ReaderPointers → Block
  db_conf : DbPointers → Block

-- The blocks that are allocated, by their addresses.
abbrev pub Heap : Type 0
Heap = ℕ → Option Block

abbrev pub release : ℕ → Heap → Heap
release p h q = if p == q then none else h q

-- `free`; `none` is the free of a block that is not, or no longer, allocated.
abbrev pub free_block : Option Block → ℕ → Heap → Option Heap
free_block none p h = none
free_block (some b) p h = some (release p h)

unfoldable pub free : Option ℕ → Heap → Option Heap
free none h = some h
free (some p) h = free_block (h p) p h

-- One call behind the other.
abbrev pub then_free : Option Heap → (Heap → Option Heap) → Option Heap
then_free none next = none
then_free (some h) next = next h
