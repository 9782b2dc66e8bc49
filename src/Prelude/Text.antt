-- ===== src/Prelude/Text.antt =====
-- Python's `str` methods that the code calls, over the code points of a text.
-- `lower` is exact wherever its result is compared with ASCII text: beside A-Z it maps U+0130 and
-- U+212A, the only other characters whose lower case has an ASCII letter; all others stay.
use Prim.Native.Nat.{ℕ, ◌+◌}
use Prim.Native.Char.{code}
use Prim.Native.String.{String}
use mathlib.Core.Path.{◌≡◌, refl}
use mathlib.Core.Bool.{Bool, true, false, ◌&&◌, ◌||◌}
use mathlib.Core.List.{List, [], ◌∷◌, reverse}
use insta.Prelude.Tests.{leb, ◌==◌, if◌then◌else◌}

abbrev pub codes : String → List ℕ
codes String.[] = []
codes (String.◌∷◌ c s) = code c ∷ codes s

-- `str.isspace` of one character
unfoldable pub is_space : ℕ → Bool
is_space c =
    (leb 9 c && leb c 13)
    || (leb 28 c && leb c 32)
    || (c == 133)
    || (c == 160)
    || (c == 5760)
    || (leb 8192 c && leb c 8202)
    || (c == 8232)
    || (c == 8233)
    || (c == 8239)
    || (c == 8287)
    || (c == 12288)

unfoldable pub lstrip : List ℕ → List ℕ
unfolding is_space
lstrip [] = []
lstrip (c ∷ s) = let rest = lstrip s in if is_space c then rest else c ∷ s

unfoldable pub strip : List ℕ → List ℕ
unfolding lstrip
strip s = reverse (lstrip (reverse (lstrip s)))

unfoldable pub lower : List ℕ → List ℕ
lower [] = []
lower (c ∷ s) =
    let rest = lower s in
    if leb 65 c && leb c 90
    then (c + 32) ∷ rest
    else if c == 304
    then 105 ∷ 775 ∷ rest
    else if c == 8490
    then 107 ∷ rest
    else c ∷ rest

unfoldable pub is_empty : List ℕ → Bool
is_empty [] = true
is_empty (c ∷ s) = false

-- `s == t`
unfoldable pub same_text : List ℕ → List ℕ → Bool
same_text [] [] = true
same_text [] (d ∷ t) = false
same_text (c ∷ s) [] = false
same_text (c ∷ s) (d ∷ t) = (c == d) && same_text s t

-- `s.startswith(t)`
unfoldable pub startswith : List ℕ → List ℕ → Bool
startswith s [] = true
startswith [] (d ∷ t) = false
startswith (c ∷ s) (d ∷ t) = (c == d) && startswith s t

-- `s.endswith(t)`
unfoldable pub endswith : List ℕ → List ℕ → Bool
unfolding startswith
endswith s t = startswith (reverse s) (reverse t)

-- `t in s`
unfoldable pub contains : List ℕ → List ℕ → Bool
unfolding startswith
contains t [] = startswith [] t
contains t (c ∷ s) = startswith (c ∷ s) t || contains t s

strip_example : strip (codes " \t ok go  ") ≡ codes "ok go"
unfolding strip
strip_example = refl

contains_example : contains (codes "_from_") (lower (codes "A_FROM_b")) ≡ true
unfolding contains lower
contains_example = refl
