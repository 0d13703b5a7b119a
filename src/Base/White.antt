-- ===== src/Base/White.antt =====
-- The white space of `trim` and of `\s` on texts as lists of their UTF-16 units.
use Prim.Native.Nat.{ℕ, suc, ◌-◌}
use mathlib.Core.Bool.{Bool, true, ◌||◌, ◌&&◌}
use mathlib.Core.List.{List, [], ◌∷◌}
use senecial.Base.Tests.{◌==◌, leb, if◌then◌else◌}
use senecial.Base.Lists.{length, slice}

unfoldable pub is_white : ℕ → Bool
is_white c =
    (leb 9 c && leb c 13)
    || c == 32
    || c == 160
    || c == 0x1680
    || (leb 0x2000 c && leb c 0x200a)
    || c == 0x2028
    || c == 0x2029
    || c == 0x202f
    || c == 0x205f
    || c == 0x3000
    || c == 0xfeff

-- `s.length - s.trimStart().length`
unfoldable pub leading_white : List ℕ → ℕ
unfolding is_white
leading_white [] = 0
leading_white (c ∷ s) = let rest = leading_white s in if is_white c then suc rest else 0

-- `s.trim().length === 0`
unfoldable pub is_blank : List ℕ → Bool
unfolding is_white
is_blank [] = true
is_blank (c ∷ s) = is_white c && is_blank s

-- `s.length - s.trimEnd().length`
unfoldable pub trailing_white : List ℕ → ℕ
unfolding is_blank
trailing_white [] = 0
trailing_white (c ∷ s) = let rest = trailing_white s in if is_blank (c ∷ s) then suc rest else rest

-- `s.trim()`
unfoldable pub trim : List ℕ → List ℕ
unfolding leading_white trailing_white
trim s = slice s (leading_white s) (length s - trailing_white s)
