-- ===== src/Units.antt =====
-- internal/models/unit.go and internal/services/unit_service.go: units of measure, each with the
-- unit that it is counted in, up to four levels.
pub mod Chains
pub mod Service
pub mod Levels
pub mod Loads
pub mod Accepts
pub mod Endless
use cim_backend.Prelude.{
  ℕ, zero, suc, ◌+◌, Bool, true, false, ◌&&◌, ◌||◌, not, ltb, ◌==◌, Option, none, some, List, [],
  ◌∷◌, ◌++◌, Text, text_eq, trim_space, length, any, find, map, select, Outcome, ok, err,
  if◌then◌else◌,
}

-- A row of unit_conversions.
pub record UnitConversion (F : Type 0) : Type 0 where
  pub from_unit_id : ℕ
  pub to_unit_id : ℕ
  pub factor : F

-- The operations on factors (float64 values, decimals in the conversions), whether the database
-- refuses a conversion, and the case functions of the package strings.
pub record Primitives (F : Type 0) : Type 0 where
  pub one : F
  pub is_one : F → Bool
  pub less_than_one : F → Bool
  pub inverse : F → F
  pub conflicts : UnitConversion F → List (UnitConversion F) → Bool
  pub equal_fold : Text → Text → Bool
  pub to_upper : Text → Text

pub record MeasureUnit (F : Type 0) : Type 0 where
  pub id : ℕ
  pub unit_type : Text
  pub name : Text
  pub symbol : Text
  pub conversion_factor : F
  pub level : ℕ
  pub base_unit_id : Option ℕ

-- The rows that are not deleted.
pub record UnitStore (F : Type 0) : Type 0 where
  pub units : List (MeasureUnit F)
  pub conversions : List (UnitConversion F)
  pub product_units : List ℕ
  pub next_id : ℕ

pub data UnitError : Type 0 where
  base_factor_not_one base_is_itself base_not_found base_type_differs : UnitError
  circular_reference too_deep unit_id_required unit_not_found : UnitError
  unit_already_exists conversion_already_exists unit_in_use : UnitError
  -- The process dies in a recursion without an end.
  stack_overflow : UnitError

-- What `GetByID` does.
pub data Lookup (F : Type 0) : Type 0 where
  absent endless : Lookup F
  loaded : MeasureUnit F → Lookup F

abbrev pub max_unit_hierarchy_depth : ℕ
max_unit_hierarchy_depth = 4

module _ {F : Type 0} where
  -- The query `First(&unit, "id = ?", id)`.
  abbrev pub unit_by_id : ℕ → List (MeasureUnit F) → Option (MeasureUnit F)
  unit_by_id id units = find (λ u. u.id == id) units

  -- `GetRootBaseUnitID` on a unit with its base units loaded, a call for each unit of fuel; none
  -- where it runs out.
  unfoldable pub get_root_base_unit_id : ℕ → List (MeasureUnit F) → MeasureUnit F → Option ℕ
  get_root_base_unit_id zero units unit = none
  get_root_base_unit_id (suc fuel) units unit = elim unit.base_unit_id [
    | none ↦ some unit.id
    | some base ↦ elim (unit_by_id base units) [
      | none ↦ some unit.id
      | some base_unit ↦ get_root_base_unit_id fuel units base_unit
    ]
  ]

  -- `GetByID`: the row, once the hierarchy above it is loaded, which is a cycle of pointers where
  -- the base units are a cycle. Fuel for one call more than there are units. The derived units and
  -- the conversion factors that are filled in afterwards are left out.
  unfoldable pub get_by_id : ℕ → List (MeasureUnit F) → Lookup F
  get_by_id id units = elim (unit_by_id id units) [
    | none ↦ absent
    | some unit ↦ elim (get_root_base_unit_id (suc (length units)) units unit) [
      | none ↦ endless
      | some _ ↦ loaded unit
    ]
  ]

  -- The loop of `checkCircularReference`, a round for each unit of fuel; none where it runs out.
  unfoldable pub check_loop :
      ℕ → List (MeasureUnit F) → ℕ → List ℕ → ℕ → Option (Outcome UnitError (Unit {0}))
  check_loop zero units unit_id visited current = none
  check_loop (suc fuel) units unit_id visited current =
      if current == 0
      then some (ok tt)
      else if any (λ v. v == current) visited
      then some (err circular_reference)
      else if current == unit_id
      then some (err circular_reference)
      else elim (get_by_id current units) [
        | absent ↦ some (ok tt)
        | endless ↦ some (err stack_overflow)
        | loaded unit ↦ elim unit.base_unit_id [
          | none ↦ some (ok tt)
          | some base ↦ check_loop fuel units unit_id (current ∷ visited) base
        ]
      ]

  -- Fuel for one round more than there are units.
  unfoldable pub check_circular_reference :
      List (MeasureUnit F) → ℕ → ℕ → Option (Outcome UnitError (Unit {0}))
  check_circular_reference units unit_id base_unit_id =
      check_loop (suc (length units)) units unit_id [] base_unit_id
