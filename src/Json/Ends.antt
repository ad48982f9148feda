-- ===== src/Json/Ends.antt =====
-- Rules on how a piece of a decoder ends.
use smart_fridge.Prelude.{ℕ, ◌≡◌, refl, Option, none, some}
use smart_fridge.Json.{Outcome, go, leave, crash, ◌>>=◌, deref, need}

-- If it jumps to `end`, then with the code `r`.
pub data LeavesBy {ℓ} (r : ℕ) {A : Type ℓ} : Outcome A → Type ℓ where
  goes : {a : A} → LeavesBy r (go a)
  leaves : {s : ℕ} → s ≡ r → LeavesBy r (leave s)
  crashes : LeavesBy r crash

module _ {ℓ κ} {A : Type ℓ} {B : Type κ} where
  -- A bind that went on, taken apart.
  pub bind-eq-go :
      (m : Outcome A) (f : A → Outcome B) {b : B}
      → (m >>= f) ≡ go b
      → (a : A) × (m ≡ go a) × (f a ≡ go b)
  bind-eq-go (go a) f h = (a, refl, h)
  bind-eq-go (leave r) f h = cc
  bind-eq-go crash f h = cc

  pub LeavesBy-bind :
      {r : ℕ} {m : Outcome A} (f : A → Outcome B)
      → LeavesBy r m
      → ((a : A) → LeavesBy r (f a))
      → LeavesBy r (m >>= f)
  LeavesBy-bind f (goes {a}) h = h a
  LeavesBy-bind f (leaves e) h = leaves e
  LeavesBy-bind f crashes h = crashes

module _ {ℓ} {A : Type ℓ} where
  pub LeavesBy-deref : (r : ℕ) (p : Option A) → LeavesBy r (deref p)
  LeavesBy-deref r none = crashes
  LeavesBy-deref r (some a) = goes

  pub LeavesBy-need : (r : ℕ) (p : Option A) → LeavesBy r (need r p)
  LeavesBy-need r none = leaves refl
  LeavesBy-need r (some a) = goes

pub ruleset leaving = (goes, leaves, LeavesBy-bind, LeavesBy-deref, LeavesBy-need)
