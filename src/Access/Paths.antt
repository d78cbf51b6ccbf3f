-- ===== src/Access/Paths.antt =====
-- The path functions that internal/middleware/authorization.go uses, over code points.
use Prim.Native.Char.{code}
use Prim.Native.String.{String, [], ◌∷◌}
use cim_backend.Prelude.{
  split, ℕ, Bool, true, false, ◌&&◌, ◌||◌, not, ◌==◌, Option, none, some, List, [], ◌∷◌, Text,
  text_eq, length, if◌then◌else◌,
}

abbrev pub slash : ℕ
slash = 47

-- The code points of a text.
abbrev pub points : String → Text
points [] = []
points (c ∷ s) = code c ∷ points s

-- `strings.Trim(s, "/")`
abbrev trim_left : Text → Text
trim_left [] = []
trim_left (c ∷ cs) = let rest = trim_left cs in if c == slash then rest else c ∷ cs

abbrev keep : ℕ → Text → Text
keep c [] = if c == slash then [] else c ∷ []
keep c (d ∷ ds) = c ∷ d ∷ ds

abbrev trim_right : Text → Text
trim_right [] = []
trim_right (c ∷ cs) = keep c (trim_right cs)

unfoldable pub trim_slashes : Text → Text
trim_slashes s = trim_right (trim_left s)

-- `strings.TrimPrefix(s, prefix)`: what is left after the prefix, or all of it.
abbrev pub after_prefix : Text → Text → Option Text
after_prefix [] s = some s
after_prefix (p ∷ ps) [] = none
after_prefix (p ∷ ps) (c ∷ cs) = let rest = after_prefix ps cs in if p == c then rest else none

unfoldable pub trim_prefix : Text → Text → Text
trim_prefix prefix s = elim (after_prefix prefix s) [ none ↦ s | some rest ↦ rest ]

abbrev pub wildcard : Text
wildcard = 42 ∷ []

-- The loop of `matchPathPattern`, where both have the same length.
unfoldable pub match_parts : List Text → List Text → Bool
match_parts (part ∷ parts) (pattern ∷ patterns) =
    (text_eq pattern wildcard || text_eq pattern part) && match_parts parts patterns
match_parts _ _ = true

unfoldable pub match_path_pattern : Text → Text → Bool
match_path_pattern path pattern =
    let path_parts = split slash (trim_slashes path) in
    let pattern_parts = split slash (trim_slashes pattern) in
    if not (length path_parts == length pattern_parts)
    then false
    else match_parts path_parts pattern_parts
