-- ===== src/Prelude/Text.antt =====
-- C strings as lists of bytes, without the closing NUL, and the functions of string.h on them.
use Prim.Native.Nat.{ℕ}
use Prim.Native.Char.{code}
use Prim.Native.String.{String}
use mathlib.Core.Path.{◌≡◌, refl}
use mathlib.Core.Logic.{◌↔◌}
use mathlib.Core.Bool.{Bool, true, false, ◌&&◌}
use mathlib.Core.Option.{Option, none, some}
use mathlib.Core.List.{List, [], ◌∷◌, ◌++◌}
use native.Mathlib.Omega.{arith}
use smart_fridge.Prelude.Tests.{◌==◌, if◌then◌else◌}

abbrev pub Bytes : Type 0
Bytes = List ℕ

-- The bytes of an ASCII literal.
abbrev pub codes : String → Bytes
codes String.[] = []
codes (String.◌∷◌ c s) = code c ∷ codes s

-- `!strcmp(a, b)`
unfoldable pub str_eq : Bytes → Bytes → Bool
str_eq [] [] = true
str_eq (x ∷ xs) (y ∷ ys) = x == y && str_eq xs ys
str_eq _ _ = false

pub str_eq_iff : (a b : Bytes) → (str_eq a b ≡ true) ↔ (a ≡ b)
unfolding str_eq
str_eq_iff (x ∷ a) (y ∷ b) = ground (arith, str_eq_iff a b)
str_eq_iff _ _ = ground arith

-- `!strncmp(s, prefix, strlen(prefix))`
unfoldable pub starts_with : Bytes → Bytes → Bool
starts_with s [] = true
starts_with [] (y ∷ ys) = false
starts_with (x ∷ xs) (y ∷ ys) = x == y && starts_with xs ys

-- Cut at the first `c`: the bytes before it and, if there is one, the bytes behind it. This is
-- `found = strchr(s, c)` with `*found++ = '\0'`.
unfoldable pub cut_at : ℕ → Bytes → Bytes × Option Bytes
cut_at c [] = ([], none)
cut_at c (x ∷ xs) =
    let (before, rest) = cut_at c xs in if x == c then ([], some xs) else (x ∷ before, rest)

-- A string without the byte `c`.
abbrev pub Without : ℕ → Bytes → Type 0
Without c [] = Unit
Without c (x ∷ xs) = ((x == c) ≡ false) × Without c xs

pub Without-append : (c : ℕ) (a b : Bytes) → Without c a → Without c b → Without c (a ++ b)
Without-append c [] b h k = k
Without-append c (x ∷ a) b h k = (h.0, Without-append c a b h.1 k)

pub cut_at-append : (c : ℕ) (a b : Bytes) → Without c a → cut_at c (a ++ c ∷ b) ≡ (a, some b)
unfolding cut_at
cut_at-append c [] b h = ground arith
cut_at-append c (x ∷ a) b h = ground (arith, cut_at-append c a b)

pub cut_at-Without : (c : ℕ) (a : Bytes) → Without c a → cut_at c a ≡ (a, none)
unfolding cut_at
cut_at-Without c [] h = refl
cut_at-Without c (x ∷ a) h = ground (arith, cut_at-Without c a)

pub starts_with-append : (a b : Bytes) → starts_with (a ++ b) a ≡ true
unfolding starts_with
starts_with-append [] [] = refl
starts_with-append [] (y ∷ b) = refl
starts_with-append (x ∷ a) b = ground (arith, starts_with-append a b)
