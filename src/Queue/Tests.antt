-- ===== src/Queue/Tests.antt =====
-- The theorems on tools/queue.c at a table of five slots.
use smart_fridge.Prelude.{ℕ, ◌≡◌, refl, List, [], ◌∷◌, none, some, arith, ◌⊎◌}
use smart_fridge.Prelude.Int.{pos, ◌≤ℤ◌}
use smart_fridge.Queue.{Queue, sf_queue_set, sf_queue_add, sf_queue_get}
use smart_fridge.Queue.Spec
use smart_fridge.Queue.Spec.{Op, add, get}
use smart_fridge.Queue.Holds.{Holds}
use smart_fridge.Queue.Add.{empty, empty-Holds, set-Holds}
use smart_fridge.Queue.Refine
use smart_fridge.Queue.Refine.{add_refines, get_refines, run_refines, get-none}

abbrev five : Queue ℕ
five = record {
  data_queue = none ∷ none ∷ none ∷ none ∷ none ∷ [];
  size = 5;
  current = 0;
  write_p = 0;
}

five-Holds : Holds five []
five-Holds = unfold empty in empty-Holds 5 (omega arith)

abbrev held : List ℕ
held = 7 ∷ []

abbrev more : List ℕ
more = 8 ∷ 7 ∷ []

abbrev one : Queue ℕ
one = (sf_queue_add five (some 7)).1

one-Holds : Holds one held
unfolding Spec.push
one-Holds = (add_refines five [] 7 five-Holds).1

abbrev nothing_held : List ℕ
nothing_held = []

-- Six items are too many, and then the oldest comes first.
abbrev calls : List (Op ℕ)
calls = add 1 ∷ add 2 ∷ add 3 ∷ add 4 ∷ add 5 ∷ add 6 ∷ get ∷ get ∷ []

run_refines_example : Refine.run five calls ≡ Spec.run 5 [] calls
run_refines_example = run_refines calls five [] five-Holds

get-none_example : nothing_held ≡ []
get-none_example = get-none five [] five-Holds (unfold sf_queue_get in refl)

set-Holds_example :
    (pos 7 ≤ℤ pos 4) × (sf_queue_set five (pos 7) ≡ (1, five))
    ⊎ (pos 201 ≤ℤ pos 7) × (sf_queue_set five (pos 7) ≡ (2, five))
    ⊎ (pos 5 ≤ℤ pos 7)
      × (pos 7 ≤ℤ pos 200)
      × ((sf_queue_set five (pos 7)).0 ≡ 0)
      × Holds (sf_queue_set five (pos 7)).1 []
      × (pos (sf_queue_set five (pos 7)).1.size ≡ pos 7)
set-Holds_example = set-Holds five (pos 7)
