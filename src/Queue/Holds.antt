-- ===== src/Queue/Holds.antt =====
-- The representation: which list the table of a queue stands for.
use smart_fridge.Prelude.{
  ℕ, suc, ◌+◌, ◌-◌, ◌%◌, ◌≤◌, ◌<◌, ◌≡◌, List, none, length, get_or, get_elem?, arith, dec_lt, ◌⊎◌,
  inl, inr, ◌≢◌,
}
use native.Mathlib.Nat.{mod-eq_of_lt, mod-eq-sub-mod}
use smart_fridge.Queue.{Queue}

-- An index that went round the table once.
pub mod_wrap : (b n : ℕ) → n ≤ b → b < n + n → b % n ≡ b - n
mod_wrap b n h k =
    omega (arith, mod-eq-sub-mod {n = b} {m = n} h, mod-eq_of_lt {n = b - n} {m = n} (omega arith))

-- The slot `k + 1` places behind the write position.
abbrev pub behind : ℕ → ℕ → ℕ → ℕ
behind size w k = (w + size - suc k) % size

-- `xs` is what the queue holds, the item behind the write position first. All other slots are NULL,
-- no index is out of range, and `current` counts the items.
pub record Holds {ℓ} {A : Type ℓ} (q : Queue A) (xs : List A) : Type ℓ where
  pub table : length q.data_queue ≡ q.size
  pub write_in : q.write_p < q.size
  pub counted : q.current ≡ length xs
  pub fits : length xs ≤ q.size
  pub slots :
      (k : ℕ) → k < q.size → get_or q.data_queue (behind q.size q.write_p k) none ≡ get_elem? xs k

module _ (size w : ℕ) (w_in : w < size) where
  -- The slot, with the step round the table's end told apart.
  pub behind_cases :
      (k : ℕ)
      → k < size
      → (k < w) × (behind size w k ≡ w - suc k) ⊎ (w ≤ k) × (behind size w k ≡ w + size - suc k)
  behind_cases k h = elim (dec_lt k w) [
    | yes l ↦ inl (l, omega (arith, mod_wrap (w + size - suc k) size (omega arith) (omega arith)))
    | no g ↦ inr (omega arith, mod-eq_of_lt (omega arith))
  ]

  pub next_cases : (suc w < size) × ((w + 1) % size ≡ w + 1) ⊎ (suc w ≡ size) × ((w + 1) % size ≡ 0)
  next_cases = elim (dec_lt (suc w) size) [
    | yes l ↦ inl (l, mod-eq_of_lt (omega arith))
    | no g ↦ inr (omega arith, omega (arith, mod_wrap (w + 1) size (omega arith) (omega arith)))
  ]

  -- The slot of the write position is the farthest behind it.
  pub behind_last : behind size w (size - 1) ≡ w
  behind_last = omega (arith, behind_cases (size - 1) (omega arith))

  pub behind-lt : (k : ℕ) → k < size → behind size w k < size
  behind-lt k h = omega (arith, behind_cases k h)

  -- Different distances lead to different slots.
  pub behind_ne : (j k : ℕ) → j < size → k < size → j ≢ k → behind size w j ≢ behind size w k
  behind_ne j k hj hk ne = omega (arith, behind_cases j hj, behind_cases k hk)

-- One step forward moves each slot one place farther behind.
pub behind-next :
    (size w k : ℕ)
    → w < size
    → suc k < size
    → behind size ((w + 1) % size) (suc k) ≡ behind size w k
behind-next size w k hw hk = omega (
  arith,
  next_cases size w hw,
  behind_cases size w hw k (omega arith),
  behind_cases size ((w + 1) % size) (omega (arith, next_cases size w hw)) (suc k) hk,
)

pub behind-next_zero : (size w : ℕ) → w < size → behind size ((w + 1) % size) 0 ≡ w
behind-next_zero size w hw = omega (
  arith,
  next_cases size w hw,
  behind_cases size ((w + 1) % size) (omega (arith, next_cases size w hw)) 0 (omega arith),
)

-- One step back moves each slot one place nearer.
pub behind-back :
    (size w k : ℕ)
    → w < size
    → suc k < size
    → behind size (behind size w 0) k ≡ behind size w (suc k)
behind-back size w k hw hk = omega (
  arith,
  behind_cases size w hw 0 (omega arith),
  behind_cases size w hw (suc k) hk,
  behind_cases size (behind size w 0) (behind-lt size w hw 0 (omega arith)) k (omega arith),
)
