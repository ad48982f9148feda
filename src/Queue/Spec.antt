-- ===== src/Queue/Spec.antt =====
-- What the table of tools/queue.c amounts to: a list, the newest item first, of at most `cap` items.
-- `pop` takes the newest item, but from a full list it takes the oldest.
use smart_fridge.Prelude.{
  ℕ, List, [], ◌∷◌, Option, none, some, ltb, ◌==◌, if◌then◌else◌, get_elem?, take, length,
}

pub data Op {ℓ} (A : Type ℓ) : Type ℓ where
  add : A → Op A
  get : Op A

pub data Reply {ℓ} (A : Type ℓ) : Type ℓ where
  added : ℕ → Reply A
  got : Option A → Reply A

module _ {ℓ} {A : Type ℓ} (cap : ℕ) where
  unfoldable pub push : List A → A → ℕ × List A
  push xs v = if ltb (length xs) cap then (0, v ∷ xs) else (1, xs)

  unfoldable pub pop : List A → Option A × List A
  pop [] = (none, [])
  pop (x ∷ xs) =
      if length (x ∷ xs) == cap
      then (get_elem? (x ∷ xs) (length xs), take (length xs) (x ∷ xs))
      else (some x, xs)

  unfoldable pub run : List A → List (Op A) → List (Reply A)
  run xs [] = []
  run xs (add v ∷ ops) = let (r, xs') = push xs v in added r ∷ run xs' ops
  run xs (get ∷ ops) = let (r, xs') = pop xs in got r ∷ run xs' ops
