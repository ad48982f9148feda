-- ===== src/Heap/Conf.antt =====
-- tools/config.c: `free_reader_conf` and `free_db_conf`.
use smart_fridge.Prelude.{ℕ, ◌≡◌, sym, ap, Option, none, some, List, [], ◌∷◌, ◌++◌, false}
use smart_fridge.Heap.{Block, reader_conf, db_conf, ReaderPointers, DbPointers, Heap, then_free}
use smart_fridge.Heap.Freed.{member, without, freed, Fresh, freed-append, Fresh-parts, still}
use smart_fridge.Heap.Fields.{Field, blocks_of, OnlyFreed, only-freed, free_struct, struct-freed}

abbrev pub reader_in : Option Block → Option ReaderPointers
reader_in (some (reader_conf s)) = some s
reader_in _ = none

abbrev pub db_in : Option Block → Option DbPointers
db_in (some (db_conf s)) = some s
db_in _ = none

abbrev pub reader_fields : List (Field ReaderPointers)
reader_fields = (λ s. s.test_repeat) ∷ (λ s. s.log_location) ∷ []

abbrev pub db_fields : List (Field DbPointers)
db_fields = (λ s. s.internal_header) ∷ (λ s. s.internal_address) ∷ (λ s. s.log_location) ∷ []

unfoldable pub free_reader_conf : Option ℕ → Heap → Option Heap
free_reader_conf none h = some h
free_reader_conf (some conf) h = free_struct reader_in reader_fields conf h

unfoldable pub free_db_conf : Option ℕ → Heap → Option Heap
free_db_conf none h = some h
free_db_conf (some conf) h = free_struct db_in db_fields conf h

-- The end of `main` of the reader.
pub free_confs : Option ℕ → Option ℕ → Heap → Option Heap
free_confs config config_db h = then_free (free_reader_conf config h) (free_db_conf config_db)

-- Let the blocks that the two configurations of the reader are made of be allocated and different from each other. Then the end of `main` frees each of
-- them, once, but for that of the device, which stays allocated.
pub free_confs-leaks :
    (h : Heap) (r d device : ℕ) (reader : ReaderPointers) (db : DbPointers)
    → h r ≡ some (reader_conf reader)
    → h d ≡ some (db_conf db)
    → reader.device ≡ some device
    → let blocks =
        (blocks_of reader reader_fields ++ r ∷ []) ++ (blocks_of db db_fields ++ d ∷ []) in
      Fresh h (blocks ++ device ∷ []) []
      → (h' : Heap) × (free_confs (some r) (some d) h ≡ some h')
        × OnlyFreed blocks h h'
        × (h' device ≡ h device)
unfolding free_confs free_reader_conf free_db_conf member
free_confs-leaks h r d device reader db pr pd dev f =
    let first = blocks_of reader reader_fields ++ r ∷ [] in
    let second = blocks_of db db_fields ++ d ∷ [] in
    let (fresh, last) = Fresh-parts h (first ++ second) (device ∷ []) [] f in
    let (fr, fd) = Fresh-parts h first second [] fresh in
    let only = only-freed h (first ++ second) in
    let new : member device (freed (first ++ second) []) ≡ false = last.0 in
    (
      without (freed (first ++ second) []) h,
      rw
          (
            struct-freed reader_in h r reader (rw pr) reader_fields [] fr,
            struct-freed db_in h d db (rw pd) db_fields (freed first []) fd,
          )
          (ap (λ l. some (without l h)) (sym (freed-append first second []))),
      only,
      still h device (freed (first ++ second) []) new,
    )
