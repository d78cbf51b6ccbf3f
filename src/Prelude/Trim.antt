-- ===== src/Prelude/Trim.antt =====
-- `strings.TrimSpace` over code points.
use Prim.Native.Nat.{ℕ}
use mathlib.Core.Bool.{Bool, ◌&&◌, ◌||◌}
use mathlib.Core.List.{[], ◌∷◌}
use cim_backend.Prelude.Tests.{leb, ◌==◌, if◌then◌else◌}
use cim_backend.Prelude.Lists.{Text, any}

-- `unicode.IsSpace`
unfoldable pub is_space : ℕ → Bool
is_space c =
    (leb 9 c && leb c 13)
    || (leb 0x2000 c && leb c 0x200a)
    || any (λ d. c == d)
        (32 ∷ 0x85 ∷ 0xa0 ∷ 0x1680 ∷ 0x2028 ∷ 0x2029 ∷ 0x202f ∷ 0x205f ∷ 0x3000 ∷ [])

abbrev trim_left : Text → Text
trim_left [] = []
trim_left (c ∷ cs) = let rest = trim_left cs in if is_space c then rest else c ∷ cs

abbrev cons_trimmed : ℕ → Text → Text
cons_trimmed c [] = if is_space c then [] else c ∷ []
cons_trimmed c (d ∷ ds) = c ∷ d ∷ ds

abbrev trim_right : Text → Text
trim_right [] = []
trim_right (c ∷ cs) = cons_trimmed c (trim_right cs)

unfoldable pub trim_space : Text → Text
unfolding is_space
trim_space t = trim_right (trim_left t)
