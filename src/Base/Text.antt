-- ===== src/Base/Text.antt =====
-- The string operations of the source's standard library. A text is searched as the list of its
-- code points; `to_lower_case` is exact on ASCII texts and leaves other letters alone.
use Prim.Native.Nat.{ℕ, ◌+◌}
use Prim.Native.Char.{code}
use Prim.Native.String.{String}
use mathlib.Core.Bool.{Bool, true, false, ◌&&◌, ◌||◌}
use mathlib.Core.List.{List, [], ◌∷◌}
use text.Mathlib.Text
use demo_t.Base.Tests.{leb, ◌==◌, if◌then◌else◌}

-- `===` on strings.
infix 50 ◌===◌
abbrev pub ◌===◌ : String → String → Bool
◌===◌ = Text.◌==◌

-- The code points of a text.
abbrev pub codes : String → List ℕ
codes String.[] = []
codes (String.◌∷◌ c s) = code c ∷ codes s

unfoldable pub to_lower_case : List ℕ → List ℕ
to_lower_case [] = []
to_lower_case (c ∷ s) = (if leb b'A' c && leb c b'Z' then c + 32 else c) ∷ to_lower_case s

unfoldable pub starts_with : List ℕ → List ℕ → Bool
starts_with s [] = true
starts_with [] (p ∷ ps) = false
starts_with (c ∷ s) (p ∷ ps) = c == p && starts_with s ps

-- `s.includes(part)`.
unfoldable pub includes : List ℕ → List ℕ → Bool
unfolding starts_with
includes [] part = starts_with [] part
includes (c ∷ s) part = starts_with (c ∷ s) part || includes s part
