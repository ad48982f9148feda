-- ===== src/Json/Safe.antt =====
-- Rules on which pieces of a decoder read through NULL, which `valuestring` is in an item that is no text.
use smart_fridge.Prelude.{ℕ, ◌≡◌, refl, Option, none, some, Bytes}
use smart_fridge.Json.{CJson, Outcome, go, leave, ◌>>=◌, need}

-- It reads through no NULL.
pub data Safe {ℓ} {A : Type ℓ} : Outcome A → Type ℓ where
  goes : {a : A} → Safe (go a)
  leaves : {s : ℕ} → Safe (leave s)

pub Safe-bind {ℓ κ} :
    {A : Type ℓ} {B : Type κ} {m : Outcome A} (f : A → Outcome B)
    → Safe m
    → ((a : A) → Safe (f a))
    → Safe (m >>= f)
Safe-bind f (goes {a}) h = h a
Safe-bind f leaves h = leaves

pub Safe-need {ℓ} : {A : Type ℓ} (r : ℕ) (p : Option A) → Safe (need r p)
Safe-need r none = leaves
Safe-need r (some a) = goes

pub ruleset safety = (goes, leaves, Safe-bind, Safe-need)

-- a bind on an item that has to be there
pub found-Safe {ℓ κ} :
    {N : Type κ} {A : Type ℓ} (r : ℕ) (o : Option N) (f : N → Outcome A)
    → ((it : N) → o ≡ some it → Safe (f it))
    → Safe (need r o >>= f)
found-Safe r none f h = leaves
found-Safe r (some it) f h = h it refl

module _ (c : CJson) where
  open c use {Node, get_object_item, valuestring}

  abbrev pub IsText : Node → Type 0
  IsText n = (s : Bytes) × (valuestring n ≡ some s)

  -- What is found under the key, if anything, is a text.
  abbrev pub TextAt : Node → Bytes → Type 0
  TextAt n k = (it : Node) → get_object_item (some n) k ≡ some it → IsText it
