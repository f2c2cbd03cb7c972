-- ===== src/Common/Text.antt =====
-- Text as a list of code points, and tests on it.
use Prim.Native.Char.{code}
use Prim.Native.String.{String}
use Prim.Native.Nat.{ℕ, ◌+◌}
use mathlib.Core.Bool.{Bool, true, false, ◌&&◌, ◌||◌}
use mathlib.Core.List.{List, [], ◌∷◌, map, reverse}
use mathlib.Core.Path.{◌≡◌, refl}
use native.Mathlib.Omega.{arith}
use electrs_cash.Common.Tests.{◌==◌, leb, if◌then◌else◌}

abbrev pub codes : String → List ℕ
codes String.[] = []
codes (String.◌∷◌ c s) = code c ∷ codes s

abbrev pub text_eq : List ℕ → List ℕ → Bool
text_eq [] [] = true
text_eq [] (y ∷ ys) = false
text_eq (x ∷ xs) [] = false
text_eq (x ∷ xs) (y ∷ ys) = x == y && text_eq xs ys

pub text_eq_refl : (xs : List ℕ) → text_eq xs xs ≡ true
text_eq_refl [] = refl
text_eq_refl (x ∷ xs) = ground (arith, text_eq_refl xs)

-- `to_ascii_lowercase` on one code point.
abbrev pub to_lower : ℕ → ℕ
to_lower c = if leb b'A' c && leb c b'Z' then c + 32 else c

abbrev pub to_ascii_lowercase : List ℕ → List ℕ
to_ascii_lowercase = map to_lower

abbrev pub eq_ignore_ascii_case : List ℕ → List ℕ → Bool
eq_ignore_ascii_case a b = text_eq (to_ascii_lowercase a) (to_ascii_lowercase b)

-- White space within ASCII, as `trim` takes it.
abbrev pub is_space : ℕ → Bool
is_space c = c == 32 || (leb 9 c && leb c 13)

abbrev pub trim_start : List ℕ → List ℕ
trim_start [] = []
trim_start (c ∷ cs) = if is_space c then trim_start cs else c ∷ cs

unfoldable pub trim : List ℕ → List ℕ
trim s = reverse (trim_start (reverse (trim_start s)))

-- `split`, by one code point; `cur` is the current piece, reversed.
unfoldable pub split_from : ℕ → List ℕ → List ℕ → List (List ℕ)
split_from sep cur [] = reverse cur ∷ []
split_from sep cur (c ∷ cs) =
    let next = split_from sep [] cs in
    let same = split_from sep (c ∷ cur) cs in if c == sep then reverse cur ∷ next else same

pub to_lower_twice : (c : ℕ) → to_lower (to_lower c) ≡ to_lower c
to_lower_twice c = ground arith
