-- ===== src/Prelude/Number.antt =====
-- `strtol(s, NULL, 10)`, and the conversion of its result to a narrower type.
use smart_fridge.Prelude.Tests.{◌==◌, leb, ltb, if◌then◌else◌}
use smart_fridge.Prelude.Text.{Bytes}
use smart_fridge.Prelude.Int.{ℤ, pos, negsuc, sub_ℕ}
use Prim.Native.Nat.{ℕ, ◌+◌, ◌-◌, ◌*◌, ◌%◌, ◌^◌, min}
use mathlib.Core.Bool.{Bool, ◌&&◌, ◌||◌}
use mathlib.Core.List.{[], ◌∷◌}

-- `isspace` of the C locale
abbrev pub is_space : ℕ → Bool
is_space b = b == 32 || leb 9 b && leb b 13

abbrev pub is_digit : ℕ → Bool
is_digit b = leb b'0' b && leb b b'9'

-- The number that the leading digits write, behind the digits that `n` stands for.
unfoldable pub digits_value : ℕ → Bytes → ℕ
digits_value n [] = n
digits_value n (b ∷ s) =
    let rest = digits_value (n * 10 + (b - b'0')) s in if is_digit b then rest else n

-- The value, clamped to the range of `long`.
unfoldable pub signed_value : Bytes → ℤ
unfolding digits_value
signed_value [] = pos 0
signed_value (b ∷ s) =
    if b == b'-'
    then sub_ℕ 0 (min (digits_value 0 s) (2 ^ 63))
    else if b == b'+'
    then pos (min (digits_value 0 s) (2 ^ 63 - 1))
    else pos (min (digits_value 0 (b ∷ s)) (2 ^ 63 - 1))

unfoldable pub strtol : Bytes → ℤ
unfolding signed_value
strtol [] = pos 0
strtol (b ∷ s) = let rest = strtol s in if is_space b then rest else signed_value (b ∷ s)

-- The `unsigned int` with the low 32 bits of an integer.
unfoldable pub to_uint : ℤ → ℕ
to_uint (pos n) = n % 2 ^ 32
to_uint (negsuc n) = 2 ^ 32 - 1 - n % 2 ^ 32

-- The `int` with those bits.
unfoldable pub to_int : ℤ → ℤ
unfolding to_uint
to_int i = if ltb (to_uint i) (2 ^ 31) then pos (to_uint i) else sub_ℕ (to_uint i) (2 ^ 32)
