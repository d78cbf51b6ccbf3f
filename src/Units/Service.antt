-- ===== src/Units/Service.antt =====
-- The operations of internal/services/unit_service.go that write, with those of
-- internal/repository/unit_repository.go that they call.
use cim_backend.Prelude.{
  ℕ, ◌+◌, Bool, ◌&&◌, ◌||◌, not, ltb, ◌==◌, Option, none, some, List, [], ◌∷◌, ◌++◌, Text, text_eq,
  trim_space, any, find, map, select, Outcome, ok, err, and_then, if◌then◌else◌,
}
use cim_backend.Units.{
  Primitives, MeasureUnit, UnitConversion, UnitStore, UnitError, base_factor_not_one,
  base_is_itself, base_not_found, base_type_differs, circular_reference, too_deep, unit_id_required,
  unit_not_found, unit_already_exists, conversion_already_exists, unit_in_use,
  max_unit_hierarchy_depth, stack_overflow, absent, endless, loaded, get_by_id,
  check_circular_reference,
}

module _ {F : Type 0} (prims : Primitives F) where
  -- The level below a base unit.
  unfoldable pub below : MeasureUnit F → MeasureUnit F → Outcome UnitError (MeasureUnit F)
  below base unit =
      if ltb max_unit_hierarchy_depth (base.level + 1)
      then err too_deep
      else ok (record unit { level = base.level + 1 })

  -- The check of a unit that is counted in the unit `base_id`. The fuel of the walk is enough.
  unfoldable pub check_base :
      List (MeasureUnit F) → MeasureUnit F → ℕ → Outcome UnitError (MeasureUnit F)
  check_base units unit base_id =
      if not (unit.id == 0) && base_id == unit.id
      then err base_is_itself
      else elim (get_by_id base_id units) [
        | absent ↦ err base_not_found
        | endless ↦ err stack_overflow
        | loaded base ↦
            if not (prims.equal_fold base.unit_type unit.unit_type)
            then err base_type_differs
            else elim (check_circular_reference units unit.id base_id) [
              | none ↦ err circular_reference
              | some checked ↦ elim checked [ err e ↦ err e | ok _ ↦ below base unit ]
            ]
      ]

  -- `ensureBaseUnitRelationship`: the unit with its level.
  unfoldable pub ensure_base_unit_relationship :
      List (MeasureUnit F) → MeasureUnit F → Outcome UnitError (MeasureUnit F)
  ensure_base_unit_relationship units unit = elim unit.base_unit_id [
    | none ↦
        if not (prims.is_one unit.conversion_factor)
        then err base_factor_not_one
        else ok (record unit { level = 1 })
    | some base_id ↦ check_base units unit base_id
  ]

  -- `StandardizeName`
  abbrev pub standardize_name : MeasureUnit F → MeasureUnit F
  standardize_name unit = record unit { name = prims.to_upper (trim_space unit.name) }

  -- `DeduceDefaultsFromBaseUnit`
  abbrev pub deduce_defaults_from_base_unit : MeasureUnit F → MeasureUnit F
  deduce_defaults_from_base_unit unit = elim unit.base_unit_id [
    | none ↦ record unit { level = 1; conversion_factor = prims.one }
    | some _ ↦ unit
  ]

  abbrev pub prepared : MeasureUnit F → MeasureUnit F
  prepared unit = deduce_defaults_from_base_unit (standardize_name unit)

  -- `txnCreateConversion`: a factor below 1 is turned round.
  unfoldable pub create_conversion :
      UnitConversion F → List (UnitConversion F) → Outcome UnitError (List (UnitConversion F))
  create_conversion c conversions =
      let stored : UnitConversion F =
        if prims.less_than_one c.factor
        then record {
          from_unit_id = c.to_unit_id;
          to_unit_id = c.from_unit_id;
          factor = prims.inverse c.factor;
        }
        else c in
      if prims.conflicts stored conversions
      then err conversion_already_exists
      else ok (conversions ++ stored ∷ [])

  -- The conversion that `Create` and `Update` record for a unit with a base unit.
  unfoldable pub add_conversion :
      ℕ → MeasureUnit F → List (UnitConversion F) → Outcome UnitError (List (UnitConversion F))
  add_conversion id unit conversions = elim unit.base_unit_id [
    | none ↦ ok conversions
    | some base ↦
        create_conversion
          (record { from_unit_id = id; to_unit_id = base; factor = unit.conversion_factor })
          conversions
  ]

  -- The unique index on the type and the name.
  abbrev pub name_taken : ℕ → MeasureUnit F → List (MeasureUnit F) → Bool
  name_taken id unit units =
      any (λ u. not (u.id == id) && text_eq u.unit_type unit.unit_type && text_eq u.name unit.name)
        units

  -- `Create` of the repository, in one transaction.
  unfoldable pub create_unit :
      MeasureUnit F → UnitStore F → Outcome UnitError (MeasureUnit F × UnitStore F)
  create_unit unit s =
      let row : MeasureUnit F = record unit { id = s.next_id } in
      if name_taken s.next_id unit s.units
      then err unit_already_exists
      else and_then (add_conversion s.next_id unit s.conversions) (λ conversions. ok (
        row,
        record s {
          units = s.units ++ row ∷ [];
          conversions = conversions;
          next_id = s.next_id + 1;
        },
      ))

  -- `Update` of the repository, in one transaction.
  unfoldable pub save_unit : MeasureUnit F → UnitStore F → Outcome UnitError (UnitStore F)
  save_unit row s =
      if name_taken row.id row s.units
      then err unit_already_exists
      else and_then (add_conversion row.id row s.conversions) (λ conversions. ok (record s {
        units = map (λ u. if u.id == row.id then row else u) s.units;
        conversions = conversions;
      }))

  -- `GetByTypeAndName`: the name is matched against the names and the symbols.
  abbrev pub unit_by_type_and_name : Text → Text → List (MeasureUnit F) → Option (MeasureUnit F)
  unit_by_type_and_name type name units =
      find (λ u. text_eq u.unit_type type && (text_eq u.name name || text_eq u.symbol name)) units

-- What `GetOrCreateUnit` returns: an existing unit comes with an error.
pub data Creation (F : Type 0) : Type 0 where
  created existing : MeasureUnit F → Creation F
  refused : UnitError → Creation F

module _ {F : Type 0} (prims : Primitives F) where
  -- `GetOrCreateUnit`, for a unit without an id
  unfoldable pub get_or_create_unit : MeasureUnit F → UnitStore F → Creation F × UnitStore F
  get_or_create_unit unit s = elim (ensure_base_unit_relationship prims s.units unit) [
    | err e ↦ (refused e, s)
    | ok levelled ↦
        let named = standardize_name prims levelled in
        elim (unit_by_type_and_name prims named.unit_type named.name s.units) [
          | some found ↦ (existing found, s)
          | none ↦ elim (create_unit prims (deduce_defaults_from_base_unit prims named) s) [
            | err e ↦ (refused e, s)
            | ok (row, t) ↦ (created row, t)
          ]
        ]
  ]

  -- `UpdateUnit`
  unfoldable pub update_unit : MeasureUnit F → UnitStore F → Outcome UnitError (UnitStore F)
  update_unit unit s =
      if unit.id == 0 then err unit_id_required else elim (get_by_id unit.id s.units) [
        | absent ↦ err unit_not_found
        | endless ↦ err stack_overflow
        | loaded _ ↦ elim (ensure_base_unit_relationship prims s.units unit) [
          | err e ↦ err e
          | ok levelled ↦ save_unit prims (prepared prims levelled) s
        ]
      ]

  -- `DeleteUnit`
  unfoldable pub delete_unit : ℕ → UnitStore F → Outcome UnitError (UnitStore F)
  delete_unit id s =
      if id == 0
      then err unit_id_required
      else if any (λ u. u == id) s.product_units
      then err unit_in_use
      else ok (record s { units = select (λ u. not (u.id == id)) s.units })
