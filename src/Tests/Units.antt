-- ===== src/Tests/Units.antt =====
-- Grams, kilograms and a cycle.
use cim_backend.Prelude.{
  ℕ, ◌≡◌, refl, arith, false, none, some, List, [], ◌∷◌, ◌==◌, All, ok, err, text_eq,
}
use cim_backend.Units.{
  Primitives, MeasureUnit, UnitStore, stack_overflow, get_by_id, get_root_base_unit_id, check_loop,
  check_circular_reference,
}
use cim_backend.Units.Chains.{Reaches, check_circular_reference-acyclic}
use cim_backend.Units.Accepts.{check_circular_reference-accepts}
use cim_backend.Units.Service.{get_or_create_unit}
use cim_backend.Units.Levels.{IsLevelled, root, derived, get_or_create_unit-IsLevelled}

abbrev plain : Primitives ℕ
plain = record {
  one = 1;
  is_one = λ n. n == 1;
  less_than_one = λ n. n == 0;
  inverse = λ n. n;
  conflicts = λ c conversions. false;
  equal_fold = text_eq;
  to_upper = λ t. t;
}

abbrev gram : MeasureUnit ℕ
gram = record {
  id = 1;
  unit_type = 1 ∷ [];
  name = 71 ∷ [];
  symbol = 103 ∷ [];
  conversion_factor = 1;
  level = 1;
  base_unit_id = none;
}

abbrev kilogram : MeasureUnit ℕ
kilogram = record gram {
  id = 2;
  name = 75 ∷ [];
  symbol = 107 ∷ [];
  conversion_factor = 1000;
  level = 2;
  base_unit_id = some 1;
}

-- Two units that are counted in each other.
abbrev cyclic : List (MeasureUnit ℕ)
cyclic = record gram { base_unit_id = some 2 } ∷ kilogram ∷ []

-- GetByID dies on a unit of a cycle, before the cycle is reported.
dies_on_cycle : check_circular_reference cyclic 5 1 ≡ some (err stack_overflow)
unfolding check_circular_reference check_loop get_by_id get_root_base_unit_id
dies_on_cycle = refl

kilogram_in_gram : check_circular_reference (gram ∷ kilogram ∷ []) 2 1 ≡ some (ok tt)
unfolding check_circular_reference check_loop get_by_id get_root_base_unit_id
kilogram_in_gram = refl

check_circular_reference-acyclic_example : ¬ (Reaches (gram ∷ kilogram ∷ []) 1 2)
check_circular_reference-acyclic_example =
    check_circular_reference-acyclic (gram ∷ kilogram ∷ []) 2 1 refl refl kilogram_in_gram

abbrev two_units : UnitStore ℕ
two_units = record {
  units = gram ∷ kilogram ∷ [];
  conversions = [];
  product_units = [];
  next_id = 3;
}

two_units-IsLevelled : All (IsLevelled two_units.units) two_units.units
two_units-IsLevelled = (root refl refl, (derived gram 1 refl refl refl (omega arith), tt))

-- Nothing is above the gram.
gram_apart : ¬ (Reaches two_units.units 1 2)
gram_apart = check_circular_reference-acyclic two_units.units 2 1 refl refl kilogram_in_gram

check_circular_reference-accepts_example :
    check_circular_reference two_units.units 2 1 ≡ some (ok tt)
check_circular_reference-accepts_example =
    check_circular_reference-accepts two_units.units 2 1 two_units-IsLevelled gram_apart

abbrev tonne : MeasureUnit ℕ
tonne = record kilogram { id = 0; name = 84 ∷ []; symbol = 116 ∷ []; base_unit_id = some 2 }

get_or_create_unit-IsLevelled_example :
    All
      (IsLevelled (get_or_create_unit plain tonne two_units).1.units)
      (get_or_create_unit plain tonne two_units).1.units
get_or_create_unit-IsLevelled_example =
    get_or_create_unit-IsLevelled plain tonne two_units two_units-IsLevelled
