-- ===== src/Heap/Fields.antt =====
-- The calls of `free` on fields of a structure, which is read again for each of them. A read of a block that is not
-- allocated, or not such a structure, is a fault.
use smart_fridge.Prelude.{
  ℕ, ◌≡◌, refl, ap, ◌∙◌, Option, none, some, List, [], ◌∷◌, ◌++◌, Bool, false, ◌||◌, if◌then◌else◌,
  arith,
}
use smart_fridge.Heap.{Block, Heap, free, then_free}
use smart_fridge.Heap.Freed.{
  member, without, freed, Fresh, freed-append, Fresh-parts, not_yet, member-freed, still, free-next,
}

abbrev pub Field : Type 0 → Type 0
Field S = S → Option ℕ

abbrev pub free_loaded : {S : Type 0} → Option S → Field S → Heap → Option Heap
free_loaded none field h = none
free_loaded (some s) field h = free (field s) h

-- The blocks of fields that are not NULL.
abbrev pub add_block : Option ℕ → List ℕ → List ℕ
add_block none ps = ps
add_block (some p) ps = p ∷ ps

abbrev pub blocks_of : {S : Type 0} → S → List (Field S) → List ℕ
blocks_of s [] = []
blocks_of s (field ∷ fields) = add_block (field s) (blocks_of s fields)

-- When each block of the list was freed, and nothing else.
abbrev pub OnlyFreed : List ℕ → Heap → Heap → Type 0
OnlyFreed blocks h h' = (q : ℕ) → h' q ≡ (if member q blocks then none else h q)

pub only-freed : (h : Heap) (blocks : List ℕ) → OnlyFreed blocks h (without (freed blocks []) h)
unfolding member
only-freed h blocks q =
    ap (λ b. if b then none else h q) (member-freed q blocks [] ∙ ends (member q blocks))
  where
    ends : (b : Bool) → (b || false) ≡ b
    ends b = ground arith

pub untouched : (h : Heap) → h ≡ without [] h
unfolding member
untouched h = refl

module _ {S : Type 0} (load : Option Block → Option S) where
  abbrev pub free_field : ℕ → Field S → Heap → Option Heap
  free_field p field h = free_loaded (load (h p)) field h

  unfoldable pub free_fields : ℕ → List (Field S) → Heap → Option Heap
  free_fields p [] h = some h
  free_fields p (field ∷ fields) h = then_free (free_field p field h) (free_fields p fields)

  -- The fields, and then the structure itself.
  abbrev pub free_struct : List (Field S) → ℕ → Heap → Option Heap
  free_struct fields p h = then_free (free_fields p fields h) (free (some p))

  module _ (h : Heap) (p : ℕ) (s : S) (pointed : load (h p) ≡ some s) where
    pub loaded : (done : List ℕ) → member p done ≡ false → load (without done h p) ≡ some s
    loaded done new = rw (still h p done new) pointed

    pub field-freed :
        (field : Field S) (done : List ℕ)
        → member p done ≡ false
        → free_field p field (without done h) ≡ free (field s) (without done h)
    field-freed field done new = rw (loaded done new)

    next-freed :
        (o : Option ℕ) (ps done : List ℕ) (next : Heap → Option Heap)
        → Fresh h (add_block o ps) done
        → ((done' : List ℕ)
            → Fresh h ps done'
            → freed (add_block o ps) done ≡ freed ps done'
            → next (without done' h) ≡ some (without (freed ps done') h))
        → then_free (free o (without done h)) next ≡ some (without (freed (add_block o ps) done) h)
    unfolding free
    next-freed none ps done next f k = k done f refl
    next-freed (some q) ps done next (new, live, f) k =
        rw (free-next h q done (new, live, tt)) (k (q ∷ done) f refl)

    pub fields-freed :
        (fields : List (Field S)) (done : List ℕ)
        → Fresh h (blocks_of s fields) done
        → member p (freed (blocks_of s fields) done) ≡ false
        → free_fields p fields (without done h) ≡ some (without (freed (blocks_of s fields) done) h)
    unfolding free_fields
    fields-freed [] done f new = refl
    fields-freed (field ∷ fields) done f new =
        rw (field-freed field done (not_yet p (blocks_of s (field ∷ fields)) done new)) (
          next-freed (field s) (blocks_of s fields) done (free_fields p fields) f
            (λ done' f' same. fields-freed fields done' f' (rw same at new)))

    pub struct-freed :
        (fields : List (Field S)) (done : List ℕ)
        → Fresh h (blocks_of s fields ++ p ∷ []) done
        → free_struct fields p (without done h)
          ≡ some (without (freed (blocks_of s fields ++ p ∷ []) done) h)
    struct-freed fields done f =
        let (first, last) = Fresh-parts h (blocks_of s fields) (p ∷ []) done f in
        rw (fields-freed fields done first last.0, freed-append (blocks_of s fields) (p ∷ []) done)
          (free-next h p (freed (blocks_of s fields) done) last)

    -- A structure of blocks that are allocated and different from each other.
    pub struct-frees :
        (fields : List (Field S))
        → Fresh h (blocks_of s fields ++ p ∷ []) []
        → (h' : Heap) × (free_struct fields p h ≡ some h')
          × OnlyFreed (blocks_of s fields ++ p ∷ []) h h'
    struct-frees fields f = (
      without (freed (blocks_of s fields ++ p ∷ []) []) h,
      ap (λ g. free_struct fields p g) (untouched h) ∙ struct-freed fields [] f,
      only-freed h (blocks_of s fields ++ p ∷ []),
    )
