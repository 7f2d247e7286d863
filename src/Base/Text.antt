-- ===== src/Base/Text.antt =====
-- Texts: as lists of code points where the code walks them, and compared whole elsewhere.
use Prim.Native.Char.{code}
use Prim.Native.Nat.{ℕ, ◌+◌}
use Prim.Native.String.{String}
use mathlib.Core.List.{List, [], ◌∷◌}
use mathlib.Core.Bool.{Bool, true, false, ◌&&◌, ◌||◌}
use webperf_selfhosted.Base.Tests.{ltb, leb, ◌==◌, if◌then◌else◌}

abbrev pub codes : String → List ℕ
codes String.[] = []
codes (String.◌∷◌ c s) = code c ∷ codes s

-- `text.length` in JavaScript: UTF-16 units, two for a code point past the basic plane.
units : List ℕ → ℕ
units [] = 0
units (c ∷ cs) = (if ltb 65535 c then 2 else 1) + units cs

unfoldable pub text_length : String → ℕ
unfolding units
text_length s = units (codes s)

abbrev pub is_upper : ℕ → Bool
is_upper c = leb b'A' c && leb c b'Z'

-- `toLowerCase` of a text of ASCII.
abbrev pub to_lower : ℕ → ℕ
to_lower c = if is_upper c then c + 32 else c

-- `===` on texts
unfoldable pub same_text : List ℕ → List ℕ → Bool
same_text [] [] = true
same_text (c ∷ cs) (d ∷ ds) = c == d && same_text cs ds
same_text _ _ = false

-- `s.startsWith(start)`
unfoldable pub starts_with : List ℕ → List ℕ → Bool
starts_with [] s = true
starts_with (c ∷ cs) [] = false
starts_with (c ∷ cs) (d ∷ ds) = c == d && starts_with cs ds

-- `s.endsWith(end)`
unfoldable pub ends_with : List ℕ → List ℕ → Bool
unfolding same_text
ends_with end [] = same_text end []
ends_with end (c ∷ cs) = same_text end (c ∷ cs) || ends_with end cs

-- `s.split(separator)`, for a separator of one unit
unfoldable pub split : ℕ → List ℕ → List (List ℕ)
split separator [] = [] ∷ []
split separator (c ∷ cs) =
    let rest = split separator cs in if c == separator then [] ∷ rest else on_first c rest
  where
    on_first : ℕ → List (List ℕ) → List (List ℕ)
    on_first c [] = (c ∷ []) ∷ []
    on_first c (p ∷ ps) = (c ∷ p) ∷ ps
