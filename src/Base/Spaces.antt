-- ===== src/Base/Spaces.antt =====
-- Spaces and the parts of a text: `unicode.IsSpace`, `strings.TrimSpace` and what they keep.
use Prim.Native.Nat.{ℕ}
use Prim.Native.Char.{code}
use Prim.Native.String.{String}
use mathlib.Core.Path.{◌≡◌, refl}
use mathlib.Core.Bool.{Bool, ◌&&◌, ◌||◌}
use mathlib.Core.List.{[], ◌∷◌}
use nebari_landing.Base.Tests.{leb, ◌==◌, if◌then◌else◌}
use nebari_landing.Base.Text.{is_blank}
use nebari_landing.Base.Lists.{any}

-- `unicode.IsSpace`
abbrev pub is_space : ℕ → Bool
is_space c =
    (leb 9 c && leb c 13)
    || any (λ d. c == d)
        (32 ∷ 0x85 ∷ 0xa0 ∷ 0x1680 ∷ 0x2028 ∷ 0x2029 ∷ 0x202f ∷ 0x205f ∷ 0x3000 ∷ [])
    || (leb 0x2000 c && leb c 0x200a)

-- The text without the spaces at its end.
unfoldable pub trim_end : String → String
trim_end String.[] = ""
trim_end (String.◌∷◌ c s) =
    let rest = trim_end s in if is_blank rest && is_space (code c) then "" else String.◌∷◌ c rest

unfoldable pub trim_start : String → String
trim_start String.[] = ""
trim_start (String.◌∷◌ c s) =
    let rest = trim_start s in if is_space (code c) then rest else String.◌∷◌ c s

-- `strings.TrimSpace`
unfoldable pub trim_space : String → String
trim_space s = trim_end (trim_start s)

trim_space_test : trim_space "  a b " ≡ "a b"
unfolding trim_space trim_start trim_end any
trim_space_test = refl
