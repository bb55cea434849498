-- ===== src/Prelude/Text.antt =====
-- Go's `strings` functions, on the code points of a text. ToLower changes the ASCII letters and the
-- two other letters whose lower case is ASCII (U+0130 and U+212A); it takes any other letter to a
-- letter outside ASCII or leaves it, which no comparison with an ASCII text can tell apart.
use Prim.Native.Char.{code}
use Prim.Native.Nat.{ℕ, ◌+◌}
use Prim.Native.String.{String}
use mathlib.Core.Bool.{Bool, true, false, ◌&&◌, ◌||◌}
use mathlib.Core.Path.{◌≡◌, refl}
use mathlib.Core.Logic.{◌↔◌}
use mathlib.Core.List.{List, [], ◌∷◌, reverse, map}
use native.Mathlib.Omega.{arith}
use ai_governance_orchestrat.Prelude.Tests.{leb, nat_eq, if◌then◌else◌}

abbrev pub codes : String → List ℕ
codes String.[] = []
codes (String.◌∷◌ c s) = code c ∷ codes s

unfoldable pub same_text : List ℕ → List ℕ → Bool
same_text [] [] = true
same_text [] (y ∷ ys) = false
same_text (x ∷ xs) [] = false
same_text (x ∷ xs) (y ∷ ys) = nat_eq x y && same_text xs ys

pub same_text_iff : (xs ys : List ℕ) → (same_text xs ys ≡ true) ↔ (xs ≡ ys)
unfolding same_text
same_text_iff [] [] = ground arith
same_text_iff [] (y ∷ ys) = ground arith
same_text_iff (x ∷ xs) [] = ground arith
same_text_iff (x ∷ xs) (y ∷ ys) = ground (arith, same_text_iff xs ys)

pub same_text_refl : (xs : List ℕ) → same_text xs xs ≡ true
same_text_refl xs = (same_text_iff xs xs).1 refl

lower : ℕ → ℕ
lower c =
    if leb b'A' c && leb c b'Z'
    then c + 32
    else if nat_eq c 0x130
    then b'i'
    else if nat_eq c 0x212a
    then b'k'
    else c

unfoldable pub to_lower : List ℕ → List ℕ
unfolding lower
to_lower = map lower

-- unicode.IsSpace
unfoldable pub is_space : ℕ → Bool
is_space c =
    leb 9 c && leb c 13
    || nat_eq c 32
    || nat_eq c 0x85
    || nat_eq c 0xa0
    || nat_eq c 0x1680
    || leb 0x2000 c && leb c 0x200a
    || nat_eq c 0x2028
    || nat_eq c 0x2029
    || nat_eq c 0x202f
    || nat_eq c 0x205f
    || nat_eq c 0x3000

trim_left : List ℕ → List ℕ
unfolding is_space
trim_left [] = []
trim_left (c ∷ cs) = let rest = trim_left cs in if is_space c then rest else c ∷ cs

unfoldable pub trim_space : List ℕ → List ℕ
unfolding trim_left
trim_space s = reverse (trim_left (reverse (trim_left s)))

unfoldable pub has_prefix : List ℕ → List ℕ → Bool
has_prefix s [] = true
has_prefix [] (p ∷ ps) = false
has_prefix (c ∷ cs) (p ∷ ps) = nat_eq c p && has_prefix cs ps

unfoldable pub contains : List ℕ → List ℕ → Bool
unfolding has_prefix
contains [] sub = has_prefix [] sub
contains (c ∷ cs) sub = has_prefix (c ∷ cs) sub || contains cs sub

prepend : ℕ → List (List ℕ) → List (List ℕ)
prepend c [] = (c ∷ []) ∷ []
prepend c (part ∷ parts) = (c ∷ part) ∷ parts

-- strings.Split by one ASCII character; the result is never empty.
unfoldable pub split : ℕ → List ℕ → List (List ℕ)
unfolding prepend
split sep [] = [] ∷ []
split sep (c ∷ cs) =
    let parts = split sep cs in if nat_eq c sep then [] ∷ parts else prepend c parts

trimmed : trim_space (to_lower (codes "  Restricted ")) ≡ codes "restricted"
unfolding trim_space to_lower
trimmed = refl
