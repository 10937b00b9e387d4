-- ===== src/Prelude/TextOrder.antt =====
-- `<` on Go's strings: by the bytes, which on valid UTF-8 is by the code points.
use Prim.Native.Char.{code}
use Prim.Native.String.{String}
use mathlib.Core.Path.{◌≡◌, refl}
use mathlib.Core.Bool.{Bool, true, false, ◌&&◌, ◌||◌}
use native.Mathlib.Omega.{arith}
use text.Mathlib.TextEquality.{Char-path}
use ispo_shedule_backend.Prelude.Tests.{ltb, nat_beq}

unfoldable pub string_ltb : String → String → Bool
string_ltb s String.[] = false
string_ltb String.[] (String.◌∷◌ d t) = true
string_ltb (String.◌∷◌ c s) (String.◌∷◌ d t) =
    ltb (code c) (code d) || nat_beq (code c) (code d) && string_ltb s t

pub string_ltb-asym : (s t : String) → string_ltb s t ≡ true → string_ltb t s ≡ false
unfolding string_ltb
string_ltb-asym s String.[] h = cc
string_ltb-asym String.[] (String.◌∷◌ d t) h = refl
string_ltb-asym (String.◌∷◌ c s) (String.◌∷◌ d t) h = ground (arith, h, string_ltb-asym s t)

pub string_ltb_trans :
    (s t u : String) → string_ltb t s ≡ false → string_ltb u t ≡ false → string_ltb u s ≡ false
unfolding string_ltb
string_ltb_trans String.[] t u h k = refl
string_ltb_trans (String.◌∷◌ c s) String.[] u h k = cc
string_ltb_trans (String.◌∷◌ c s) (String.◌∷◌ d t) String.[] h k = cc
string_ltb_trans (String.◌∷◌ c s) (String.◌∷◌ d t) (String.◌∷◌ e u) h k =
    ground (arith, h, k, string_ltb_trans s t u)

pub string_ltb-total : (s t : String) → string_ltb s t ≡ false → string_ltb t s ≡ false → s ≡ t
unfolding string_ltb
string_ltb-total String.[] String.[] h k = refl
string_ltb-total String.[] (String.◌∷◌ d t) h k = cc
string_ltb-total (String.◌∷◌ c s) String.[] h k = cc
string_ltb-total (String.◌∷◌ c s) (String.◌∷◌ d t) h k =
    let p : code c ≡ code d = ground (arith, h, k) in
    λ i.
      String.◌∷◌ (Char-path c d p i)
        (string_ltb-total s t (ground (arith, h, k, p)) (ground (arith, h, k, p)) i)
