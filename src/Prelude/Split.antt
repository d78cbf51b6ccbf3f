-- ===== src/Prelude/Split.antt =====
-- `strings.Split` at a character, over code points.
use Prim.Native.Nat.{ℕ}
use mathlib.Core.List.{List, [], ◌∷◌}
use cim_backend.Prelude.Tests.{◌==◌, if◌then◌else◌}
use cim_backend.Prelude.Lists.{Text}

abbrev onto_first : ℕ → List Text → List Text
onto_first c [] = (c ∷ []) ∷ []
onto_first c (part ∷ parts) = (c ∷ part) ∷ parts

unfoldable pub split : ℕ → Text → List Text
split mark [] = [] ∷ []
split mark (c ∷ cs) = let rest = split mark cs in if c == mark then [] ∷ rest else onto_first c rest
