-- ===== src/Json.antt =====
-- What the program uses of cJSON (`cJSON.h`), which is not part of the repository, as an interface;
-- and how a function that reads JSON ends.
pub mod Laws
pub mod Ends
pub mod Safe
pub mod Objects
use smart_fridge.Prelude.{ℕ, List, Option, none, some, Bool, true, false, Bytes}
use smart_fridge.Prelude.Int.{ℤ}

pub record CJson : Type 1 where
  pub Node : Type 0
  -- `cJSON_Parse`, `cJSON_PrintUnformatted`
  pub parse : Bytes → Option Node
  pub print_unformatted : Option Node → Option Bytes
  -- `cJSON_GetObjectItem`, which may be handed NULL
  pub get_object_item : Option Node → Bytes → Option Node
  -- the items met from `child` along `next`
  pub children : Node → List Node
  pub valuestring : Node → Option Bytes
  pub valueint : Node → ℤ
  -- `cJSON_CreateObject`, `cJSON_CreateArray` and `cJSON_CreateString`, where memory suffices
  pub create_object : Node
  pub create_array : Node
  pub create_string : Option Bytes → Option Node
  pub add_string_to_object : Node → Bytes → Option Bytes → Node
  pub add_number_to_object : Node → Bytes → ℤ → Node
  pub add_item_to_object : Node → Bytes → Node → Node
  pub add_item_to_array : Node → Option Node → Node

-- Whether `cJSON_Create…` finds memory, at the three places where the decoder asks.
pub record Memory : Type 0 where
  pub for_decoded : Bool
  pub for_tags : Bool
  pub for_images : Bool

-- How a piece of a decoder ends: it goes on with a value, it sets `retval` and jumps to `end`, or it
-- reads through NULL.
pub data Outcome {ℓ} (A : Type ℓ) : Type ℓ where
  go : A → Outcome A
  leave : ℕ → Outcome A
  crash : Outcome A

infixl 5 ◌>>=◌ ◌>>◌
abbrev pub ◌>>=◌ {ℓ κ} : {A : Type ℓ} {B : Type κ} → Outcome A → (A → Outcome B) → Outcome B
go a >>= f = f a
leave r >>= f = leave r
crash >>= f = crash

-- `*p`, of a pointer that may be NULL
abbrev pub deref {ℓ} : {A : Type ℓ} → Option A → Outcome A
deref none = crash
deref (some a) = go a

-- `if (!p) { retval = r; goto end; }`
abbrev pub need {ℓ} : {A : Type ℓ} → ℕ → Option A → Outcome A
need r none = leave r
need r (some a) = go a

abbrev pub ◌>>◌ {ℓ} : {B : Type ℓ} → Outcome (Unit {0}) → Outcome B → Outcome B
m >> k = m >>= λ _. k

-- The same, of a test.
abbrev pub check : ℕ → Bool → Outcome (Unit {0})
check r true = go tt
check r false = leave r
