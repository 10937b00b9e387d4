-- ===== src/Prelude/Text.antt =====
-- The functions of Go's packages strings and unicode that the program calls, on valid UTF-8.
-- Letters other than those of ASCII and of the Russian alphabet are left as they are, except for
-- the two whose lower case is an ASCII letter.
use Prim.Native.Nat.{ℕ}
use Prim.Native.Char.{Char, code}
use Prim.Native.String.{String}
use mathlib.Core.Path.{◌≡◌, refl}
use mathlib.Core.Bool.{Bool, true, false, ◌&&◌, ◌||◌}
use mathlib.Core.List.{List, [], ◌∷◌}
use native.Mathlib.Omega.{arith}
use ispo_shedule_backend.Prelude.Tests.{leb, nat_beq, if◌then◌else◌, ◌==◌, string_eq}

-- unicode.IsSpace
pub is_space : ℕ → Bool
is_space c =
    leb 9 c && leb c 13
    || nat_beq c 32
    || nat_beq c 0x85
    || nat_beq c 0xa0
    || nat_beq c 0x1680
    || leb 0x2000 c && leb c 0x200a
    || nat_beq c 0x2028
    || nat_beq c 0x2029
    || nat_beq c 0x202f
    || nat_beq c 0x205f
    || nat_beq c 0x3000

trim_left : String → String
trim_left String.[] = String.[]
trim_left (String.◌∷◌ c s) =
    let rest = trim_left s in if is_space (code c) then rest else String.◌∷◌ c s

is_empty : String → Bool
is_empty String.[] = true
is_empty (String.◌∷◌ c s) = false

trim_right : String → String
trim_right String.[] = String.[]
trim_right (String.◌∷◌ c s) =
    let rest = trim_right s in
    if is_space (code c) && is_empty rest then String.[] else String.◌∷◌ c rest

-- strings.TrimSpace
unfoldable pub trim_space : String → String
unfolding trim_left trim_right is_empty is_space
trim_space s = trim_right (trim_left s)

abbrev case_pairs : List (Char × Char)
case_pairs =
    ("A", "a")
    ∷ ("B", "b")
    ∷ ("C", "c")
    ∷ ("D", "d")
    ∷ ("E", "e")
    ∷ ("F", "f")
    ∷ ("G", "g")
    ∷ ("H", "h")
    ∷ ("I", "i")
    ∷ ("J", "j")
    ∷ ("K", "k")
    ∷ ("L", "l")
    ∷ ("M", "m")
    ∷ ("N", "n")
    ∷ ("O", "o")
    ∷ ("P", "p")
    ∷ ("Q", "q")
    ∷ ("R", "r")
    ∷ ("S", "s")
    ∷ ("T", "t")
    ∷ ("U", "u")
    ∷ ("V", "v")
    ∷ ("W", "w")
    ∷ ("X", "x")
    ∷ ("Y", "y")
    ∷ ("Z", "z")
    ∷ ("А", "а")
    ∷ ("Б", "б")
    ∷ ("В", "в")
    ∷ ("Г", "г")
    ∷ ("Д", "д")
    ∷ ("Е", "е")
    ∷ ("Ж", "ж")
    ∷ ("З", "з")
    ∷ ("И", "и")
    ∷ ("Й", "й")
    ∷ ("К", "к")
    ∷ ("Л", "л")
    ∷ ("М", "м")
    ∷ ("Н", "н")
    ∷ ("О", "о")
    ∷ ("П", "п")
    ∷ ("Р", "р")
    ∷ ("С", "с")
    ∷ ("Т", "т")
    ∷ ("У", "у")
    ∷ ("Ф", "ф")
    ∷ ("Х", "х")
    ∷ ("Ц", "ц")
    ∷ ("Ч", "ч")
    ∷ ("Ш", "ш")
    ∷ ("Щ", "щ")
    ∷ ("Ъ", "ъ")
    ∷ ("Ы", "ы")
    ∷ ("Ь", "ь")
    ∷ ("Э", "э")
    ∷ ("Ю", "ю")
    ∷ ("Я", "я")
    ∷ ("Ё", "ё")
    ∷ []

find_lower : List (Char × Char) → Char → Char
find_lower [] c = c
find_lower ((upper, lower) ∷ rest) c =
    let next = find_lower rest c in if nat_beq (code upper) (code c) then lower else next

find_upper : List (Char × Char) → Char → Char
find_upper [] c = c
find_upper ((upper, lower) ∷ rest) c =
    let next = find_upper rest c in if nat_beq (code lower) (code c) then upper else next

map_char : (Char → Char) → String → String
map_char f String.[] = String.[]
map_char f (String.◌∷◌ c s) = String.◌∷◌ (f c) (map_char f s)

-- strings.ToLower; U+0130 and U+212A are the two letters beyond ASCII with an ASCII lower case
unfoldable pub to_lower : String → String
unfolding find_lower map_char
to_lower = map_char (find_lower (("İ", "i") ∷ ("K", "k") ∷ case_pairs))

-- strings.ToUpper; U+0131 and U+017F are the two letters beyond ASCII with an ASCII upper case
unfoldable pub to_upper : String → String
unfolding find_upper map_char
to_upper = map_char (find_upper (("I", "ı") ∷ ("S", "ſ") ∷ case_pairs))

-- strings.EqualFold; U+212A and U+017F are the two letters beyond ASCII that fold to ASCII
unfoldable pub equal_fold : String → String → Bool
unfolding find_lower map_char
equal_fold s t = fold s == fold t
  where
    fold : String → String
    fold = map_char (find_lower (("K", "k") ∷ ("ſ", "s") ∷ case_pairs))

trim_right-trim_right : (s : String) → trim_right (trim_right s) ≡ trim_right s
unfolding trim_right is_empty
trim_right-trim_right String.[] = refl
trim_right-trim_right (String.◌∷◌ c s) = ground (arith, trim_right-trim_right s)

trim_left-trim_right :
    (s : String) → trim_left (trim_right (trim_left s)) ≡ trim_right (trim_left s)
unfolding trim_left trim_right is_empty
trim_left-trim_right String.[] = refl
trim_left-trim_right (String.◌∷◌ c s) = ground (arith, trim_left-trim_right s)

pub trim_space-trim_space : (s : String) → trim_space (trim_space s) ≡ trim_space s
unfolding trim_space
trim_space-trim_space s = rw (trim_left-trim_right s) (trim_right-trim_right (trim_left s))

trim_space_test : trim_space " \t Online \n" ≡ "Online"
unfolding trim_space
trim_space_test = refl

to_lower_test : to_lower "OnLINE Пара" ≡ "online пара"
unfolding to_lower
to_lower_test = refl
