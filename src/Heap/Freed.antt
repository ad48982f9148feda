-- ===== src/Heap/Freed.antt =====
-- What is left when blocks are freed one after the other, each of which was allocated and not yet freed.
use smart_fridge.Prelude.{
  ℕ, ◌≡◌, refl, ◌∙◌, none, some, List, [], ◌∷◌, ◌++◌, Bool, false, ◌==◌, ◌||◌, if◌then◌else◌, arith,
}
use mathlib.Core.Path.{fun_ext}
use smart_fridge.Heap.{Block, Heap, release, free}

unfoldable pub member : ℕ → List ℕ → Bool
member q [] = false
member q (p ∷ ps) = (p == q) || member q ps

-- The heap without these blocks.
abbrev pub without : List ℕ → Heap → Heap
without ps h q = if member q ps then none else h q

-- The blocks that are freed when those of `ps` were freed behind `done`.
abbrev pub freed : List ℕ → List ℕ → List ℕ
freed [] done = done
freed (p ∷ ps) done = freed ps (p ∷ done)

-- Each block is allocated, and not freed before its turn.
abbrev pub Fresh : Heap → List ℕ → List ℕ → Type 0
Fresh h [] done = Unit
Fresh h (p ∷ ps) done =
    (member p done ≡ false) × ((b : Block) × (h p ≡ some b)) × Fresh h ps (p ∷ done)

pub Fresh-fewer :
    (h : Heap) (ps more done : List ℕ)
    → ((x : ℕ) → member x more ≡ false → member x done ≡ false)
    → Fresh h ps more
    → Fresh h ps done
unfolding member
Fresh-fewer h [] more done fewer f = tt
Fresh-fewer h (p ∷ ps) more done fewer (new, live, f) =
    (fewer p new, live, Fresh-fewer h ps (p ∷ more) (p ∷ done) (λ x e. ground (arith, fewer x)) f)

pub freed-append : (ps qs done : List ℕ) → freed (ps ++ qs) done ≡ freed qs (freed ps done)
freed-append [] qs done = refl
freed-append (p ∷ ps) qs done = freed-append ps qs (p ∷ done)

pub Fresh-parts :
    (h : Heap) (ps qs done : List ℕ)
    → Fresh h (ps ++ qs) done
    → Fresh h ps done × Fresh h qs (freed ps done)
Fresh-parts h [] qs done f = (tt, f)
Fresh-parts h (p ∷ ps) qs done (new, live, f) =
    let (first, last) = Fresh-parts h ps qs (p ∷ done) f in ((new, live, first), last)

-- What is not freed in the end was not freed before.
pub not_yet : (q : ℕ) (ps done : List ℕ) → member q (freed ps done) ≡ false → member q done ≡ false
unfolding member
not_yet q [] done e = e
not_yet q (p ∷ ps) done e = ground (arith, not_yet q ps (p ∷ done) e)

pub member-freed :
    (q : ℕ) (ps done : List ℕ) → member q (freed ps done) ≡ (member q ps || member q done)
unfolding member
member-freed q [] done = refl
member-freed q (p ∷ ps) done = ground (arith, member-freed q ps (p ∷ done))

pub still : (h : Heap) (q : ℕ) (done : List ℕ) → member q done ≡ false → without done h q ≡ h q
still h q done e = rw e

-- The last block is not among those that are freed before it.
pub last_new :
    (h : Heap) (ps : List ℕ) (q : ℕ) (done : List ℕ)
    → Fresh h (ps ++ q ∷ []) done
    → member q (freed ps done) ≡ false
last_new h ps q done f = (Fresh-parts h ps (q ∷ []) done f).1.0

pub free-next :
    (h : Heap) (p : ℕ) (done : List ℕ)
    → Fresh h (p ∷ []) done
    → free (some p) (without done h) ≡ some (without (p ∷ done) h)
unfolding free member
free-next h p done (new, (b, live), f) =
    let here : without done h p ≡ some b = still h p done new ∙ live in
    let same : release p (without done h) ≡ without (p ∷ done) h = fun_ext (λ q. ground arith) in
    rw here (rw same)

pub gone : (h : Heap) (p : ℕ) (done : List ℕ) → without (p ∷ done) h p ≡ none
unfolding member
gone h p done = ground arith
