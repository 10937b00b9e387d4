-- ===== src/Prelude/Format.antt =====
-- strings.Split, strings.Contains, strings.Join and fmt's `%d` of Go, as far as the program calls them.
use Prim.Native.Nat.{ℕ, zero, suc, ◌/◌, ◌%◌}
use Prim.Native.Char.{code}
use Prim.Native.String.{String, ◌++◌, find as String_find, len as String_len}
use mathlib.Core.Path.{◌≡◌, refl}
use mathlib.Core.Bool.{Bool, true}
use mathlib.Core.List.{List, [], ◌∷◌}
use ispo_shedule_backend.Prelude.Int.{ℤ, pos, negsuc}
use ispo_shedule_backend.Prelude.Tests.{leb, nat_beq, if◌then◌else◌}

-- strings.Split at a comma
unfoldable pub split_comma : String → List String
split_comma String.[] = "" ∷ []
split_comma (String.◌∷◌ c s) =
    let rest = split_comma s in
    if nat_beq (code c) (code ",")
    then "" ∷ rest
    else elim rest [ [] ↦ String.◌∷◌ c String.[] ∷ [] | part ∷ parts ↦ String.◌∷◌ c part ∷ parts ]

split_comma_test : split_comma "gym,pool,," ≡ "gym" ∷ "pool" ∷ "" ∷ "" ∷ []
unfolding split_comma
split_comma_test = refl

-- strings.Contains: `find` answers one more than the length if the text is not there
unfoldable pub contains_text : String → String → Bool
contains_text s part = leb (String_find s part) (String_len s)

abbrev digit : ℕ → String
digit n =
    if nat_beq n 0
    then "0"
    else if nat_beq n 1
    then "1"
    else if nat_beq n 2
    then "2"
    else if nat_beq n 3
    then "3"
    else if nat_beq n 4
    then "4"
    else if nat_beq n 5
    then "5"
    else if nat_beq n 6
    then "6"
    else if nat_beq n 7
    then "7"
    else if nat_beq n 8
    then "8"
    else "9"

digits : ℕ → ℕ → String → String
digits zero n rest = rest
digits (suc fuel) n rest =
    let more = digits fuel (n / 10) (digit (n % 10) ++ rest) in
    if leb n 9 then digit n ++ rest else more

-- fmt's `%d` of a number that is not negative; it has at most as many digits as itself and one
unfoldable pub decimal : ℕ → String
unfolding digits
decimal n = digits (suc n) n ""

contains_text_test : contains_text "учебная практика" "практик" ≡ true
unfolding contains_text
contains_text_test = refl

decimal_test : decimal 1042 ≡ "1042"
unfolding decimal
decimal_test = refl

-- strings.Join with a comma and a space
unfoldable pub join_comma : List String → String
join_comma [] = ""
join_comma (s ∷ []) = s
join_comma (s ∷ t ∷ rest) = s ++ ", " ++ join_comma (t ∷ rest)

-- `+` on strings
infixr 6 ◌⊕◌
abbrev pub ◌⊕◌ : String → String → String
s ⊕ t = s ++ t

-- `%d` on an integer
abbrev pub decimal_ℤ : ℤ → String
decimal_ℤ (pos n) = decimal n
decimal_ℤ (negsuc n) = "-" ⊕ decimal (suc n)
