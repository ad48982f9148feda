-- ===== src/Messages/Conversions.antt =====
-- When what `vsnprintf` makes of a format and its arguments is defined.
use smart_fridge.Prelude.{
  ℕ, ◌≡◌, refl, sym, ◌∙◌, Bytes, Option, none, some, List, [], ◌∷◌, Bool, true, false, ◌==◌, ◌||◌,
  not, is_some, map,
}
use mathlib.Core.Path.{subst}
use smart_fridge.Log.{IndTag}
use smart_fridge.Messages.{
  Message, format, Argument, text, number, Conversion, string, integer, other, before, conversion,
  print_argument, print_plain, print_from, print_format,
}

abbrev pub kind : Argument → Conversion
kind (text s) = string
kind (number i) = integer

abbrev pub is_null : Argument → Bool
is_null (text none) = true
is_null _ = false

abbrev pub has_null : List Argument → Bool
has_null [] = false
has_null (a ∷ arguments) = is_null a || has_null arguments

-- What a format reads, in order.
unfoldable pub conversions_from : Bool → Bytes → List Conversion
conversions_from false [] = []
conversions_from true [] = other ∷ []
conversions_from true (c ∷ rest) = conversion c ∷ conversions_from false rest
conversions_from false (b ∷ rest) = conversions_from (b == b'%') rest

abbrev pub conversions : Bytes → List Conversion
conversions = conversions_from false

is_some-before : (s : Bytes) (o : Option Bytes) → is_some (before s o) ≡ is_some o
is_some-before s none = refl
is_some-before s (some t) = refl

-- An argument that is what the conversion reads.
print-argument :
    (a : Argument) (arguments : List Argument) (next : List Argument → Option Bytes)
    → is_some (next arguments) ≡ not (has_null arguments)
    → is_some (print_argument (kind a) (a ∷ arguments) next) ≡ not (has_null (a ∷ arguments))
print-argument (text none) arguments next e = refl
print-argument (text (some s)) arguments next e = rw (is_some-before s (next arguments)) e
print-argument (number i) arguments next e = rw (is_some-before _ (next arguments)) e

is_some-plain : (t : Bool) (b : ℕ) (o : Option Bytes) → is_some (print_plain t b o) ≡ is_some o
is_some-plain true b o = refl
is_some-plain false b o = is_some-before (b ∷ []) o

print_from-defined :
    (percent : Bool) (f : Bytes) (arguments : List Argument)
    → conversions_from percent f ≡ map kind arguments
    → is_some (print_from percent f arguments) ≡ not (has_null arguments)
unfolding conversions_from print_from
print_from-defined false [] [] e = refl
print_from-defined false [] (a ∷ arguments) e = absurd (cc)
print_from-defined true [] [] e = absurd (cc)
print_from-defined true [] (text s ∷ arguments) e = absurd (cc)
print_from-defined true [] (number i ∷ arguments) e = absurd (cc)
print_from-defined true (c ∷ rest) [] e = absurd (cc)
print_from-defined true (c ∷ rest) (a ∷ arguments) e =
    let first : conversion c ≡ kind a = cc in
    let others : conversions_from false rest ≡ map kind arguments = cc in
    subst
      (λ x.
        is_some (print_argument x (a ∷ arguments) (print_from false rest))
        ≡ not (has_null (a ∷ arguments)))
      (sym first)
      (print-argument a arguments (print_from false rest)
        (print_from-defined false rest arguments others))
print_from-defined false (b ∷ rest) arguments e =
    is_some-plain (b == b'%') b (print_from (b == b'%') rest arguments)
    ∙ print_from-defined (b == b'%') rest arguments e

-- Where the arguments are what the format reads, printing is defined exactly if none of them is NULL.
pub print_format-defined :
    (f : Bytes) (arguments : List Argument)
    → conversions f ≡ map kind arguments
    → is_some (print_format f arguments) ≡ not (has_null arguments)
print_format-defined = print_from-defined false

-- A call of a log function: its level, its message and its arguments.
abbrev pub Called : Type 0
Called = IndTag × Message × List Argument

abbrev pub Reads : Called → Type 0
Reads (ind, message, arguments) = conversions (format message) ≡ map kind arguments
