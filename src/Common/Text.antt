-- ===== src/Common/Text.antt =====
-- The text operations of Python that the program uses: `str(n)`, `sep.join(xs)`, truth of an
-- optional text, and the last character.
use Prim.Native.Nat.{ℕ, zero, suc, ◌/◌, ◌%◌}
use Prim.Native.Char.{code}
use Prim.Native.String.{String, ◌++◌}
use mathlib.Core.Path.{◌≡◌, refl}
use mathlib.Core.Bool.{Bool, false, not, ◌&&◌}
use mathlib.Core.Option.{Option, none, some}
use mathlib.Core.List.{List, [], ◌∷◌}
use nas_os.Common.{◌==◌, string_eq, nat_eq, if◌then◌else◌, ltb, leb}

-- `bool(s)` of a text that may be `None`
unfoldable pub truthy : Option String → Bool
unfolding string_eq
truthy none = false
truthy (some s) = not (s == "")

pub truthy-none : truthy none ≡ false
unfolding truthy
truthy-none = refl

digit : ℕ → String
unfolding nat_eq
digit n =
    if n == 0
    then "0"
    else if n == 1
    then "1"
    else if n == 2
    then "2"
    else if n == 3
    then "3"
    else if n == 4
    then "4"
    else if n == 5
    then "5"
    else if n == 6
    then "6"
    else if n == 7
    then "7"
    else if n == 8
    then "8"
    else "9"

digits : ℕ → ℕ → String → String
digits zero n acc = acc
digits (suc fuel) n acc =
    let rest = digits fuel (n / 10) (digit (n % 10) ++ acc) in
    if ltb n 10 then digit n ++ acc else rest

-- `str(n)`; a number has at most n + 1 decimal digits
unfoldable pub str : ℕ → String
unfolding digits digit
str n = digits (suc n) n ""

unfoldable pub join : String → List String → String
join sep [] = ""
join sep (x ∷ []) = x
join sep (x ∷ y ∷ xs) = x ++ (sep ++ join sep (y ∷ xs))

-- `s and s[-1].isdigit()`, for the ASCII digits
unfoldable pub ends_in_digit : String → Bool
ends_in_digit String.[] = false
ends_in_digit (String.◌∷◌ c String.[]) = leb 48 (code c) && leb (code c) 57
ends_in_digit (String.◌∷◌ c (String.◌∷◌ d s)) = ends_in_digit (String.◌∷◌ d s)
