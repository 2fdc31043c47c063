-- ===== src/Prelude/Text.antt =====
-- Texts: `std::string` concatenation, `std::to_string` on integers, and the search for a character.
use Prim.Native.Char.{code}
use Prim.Native.String.{String, ◌++◌ as append}
use Prim.Native.Nat.{ℕ, zero, suc, ◌/◌, ◌%◌}
use mathlib.Core.Path.{◌≡◌}
use mathlib.Core.Logic.{◌↔◌}
use mathlib.Core.Bool.{Bool, true, false, ◌||◌}
use text.Mathlib.Text.{◌==◌ as str_eq}
use text.Mathlib.TextEquality.{eq_iff}
use litearm_ros.Prelude.Tests.{ltb, ◌==◌, if◌then◌else◌}
use litearm_ros.Prelude.Int.{ℤ, pos, negsuc}

infixr 65 ◌<>◌
abbrev pub ◌<>◌ : String → String → String
s <> t = append s t

abbrev pub is_empty : String → Bool
is_empty String.[] = true
is_empty (String.◌∷◌ c s) = false

abbrev pub same_text : String → String → Bool
same_text = str_eq

pub same_text_iff : (s t : String) → (same_text s t ≡ true) ↔ (s ≡ t)
same_text_iff = eq_iff

digit : ℕ → String
digit d =
    if d == 0
    then "0"
    else if d == 1
    then "1"
    else if d == 2
    then "2"
    else if d == 3
    then "3"
    else if d == 4
    then "4"
    else if d == 5
    then "5"
    else if d == 6
    then "6"
    else if d == 7
    then "7"
    else if d == 8
    then "8"
    else "9"

-- The decimal digits of `n`, most significant first; a number has fewer digits than `n + 1`.
decimal : ℕ → ℕ → String → String
decimal zero n tail = tail
decimal (suc fuel) n tail =
    let rest = decimal fuel (n / 10) (digit (n % 10) <> tail) in
    if ltb n 10 then digit n <> tail else rest

unfoldable pub to_string : ℕ → String
unfolding digit decimal
to_string n = decimal (suc n) n ""

abbrev pub int_to_string : ℤ → String
int_to_string (pos n) = to_string n
int_to_string (negsuc n) = "-" <> to_string (suc n)

-- `text.find(c) != std::string::npos`, for the character of code `c`.
unfoldable pub has_char : ℕ → String → Bool
has_char c String.[] = false
has_char c (String.◌∷◌ d s) = code d == c || has_char c s
