-- ===== src/Units/Levels.antt =====
-- The levels of the units.
use cim_backend.Prelude.{
  ℕ, ◌+◌, ◌≤◌, ◌≡◌, refl, ap, subst, inl, inr, not, ◌&&◌, Bool-cases, ◌==◌, ltb, none, some,
  Option-cases, List, [], ◌∷◌, ◌++◌, All, Outcome, ok, err, Outcome-cases, ok-injective,
  if◌then◌else◌, arith,
}
use cim_backend.Units.{
  Primitives, MeasureUnit, UnitStore, UnitError, base_type_differs, circular_reference, unit_by_id,
  check_circular_reference,
}
use cim_backend.Units.Loads.{Load-cases, missing, cycles, loads}
use cim_backend.Units.Service.{
  below, check_base, ensure_base_unit_relationship, standardize_name,
  deduce_defaults_from_base_unit, add_conversion, name_taken, create_unit, unit_by_type_and_name,
  get_or_create_unit,
}

module _ {F : Type 0} where
  -- A base unit has level 1, and every other unit is one level below its base unit, at most at 4.
  pub data IsLevelled (us : List (MeasureUnit F)) (u : MeasureUnit F) : Type 0 where
    root : u.base_unit_id ≡ none → u.level ≡ 1 → IsLevelled us u
    derived :
        (base : MeasureUnit F) (id : ℕ)
        → u.base_unit_id ≡ some id
        → unit_by_id id us ≡ some base
        → u.level ≡ base.level + 1
        → u.level ≤ 4
        → IsLevelled us u

  find-append :
      (id : ℕ) (us : List (MeasureUnit F)) (u row : MeasureUnit F)
      → unit_by_id id us ≡ some u
      → unit_by_id id (us ++ row ∷ []) ≡ some u
  find-append id [] u row h = absurd (cc)
  find-append id (x ∷ xs) u row h = elim (Bool-cases (x.id == id)) [
    | inl here ↦ rw here (rw here at h)
    | inr later ↦ rw later (find-append id xs u row (rw later at h))
  ]

  IsLevelled-append :
      (us : List (MeasureUnit F)) (u row : MeasureUnit F)
      → IsLevelled us u
      → IsLevelled (us ++ row ∷ []) u
  IsLevelled-append us u row (root none_above one) = root none_above one
  IsLevelled-append us u row (derived base id above found level most) =
      derived base id above (find-append id us base row found) level most

  All-append :
      (us xs : List (MeasureUnit F)) (row : MeasureUnit F)
      → All (IsLevelled us) xs
      → IsLevelled (us ++ row ∷ []) row
      → All (IsLevelled (us ++ row ∷ [])) (xs ++ row ∷ [])
  All-append us [] row all last = (last, tt)
  All-append us (x ∷ xs) row (h, all) last =
      (IsLevelled-append us x row h, All-append us xs row all last)

module _ {F : Type 0} (prims : Primitives F) where
  below-IsLevelled :
      (us : List (MeasureUnit F)) (unit v base : MeasureUnit F) (id : ℕ)
      → unit.base_unit_id ≡ some id
      → unit_by_id id us ≡ some base
      → below prims base unit ≡ ok v
      → IsLevelled us v
  unfolding below
  below-IsLevelled us unit v base id above found h = elim (Bool-cases (ltb 4 (base.level + 1))) [
    | inl deep ↦ absurd (cc (rw deep at h))
    | inr fine ↦
        let e = ok-injective (rw fine at h) in
        subst (IsLevelled us) e (derived base id above found refl (ground (arith, fine)))
  ]

  -- What is left of the check once the base unit is found.
  abbrev last_checks :
      List (MeasureUnit F) → MeasureUnit F → MeasureUnit F → ℕ → Outcome UnitError (MeasureUnit F)
  last_checks us unit base id =
      if not (prims.equal_fold base.unit_type unit.unit_type)
      then err base_type_differs
      else elim (check_circular_reference us unit.id id) [
        | none ↦ err circular_reference
        | some checked ↦ elim checked [ err e ↦ err e | ok _ ↦ below prims base unit ]
      ]

  last_check :
      (us : List (MeasureUnit F)) (unit v base : MeasureUnit F) (id : ℕ)
      → last_checks us unit base id ≡ ok v
      → below prims base unit ≡ ok v
  last_check us unit v base id h =
      elim (Bool-cases (prims.equal_fold base.unit_type unit.unit_type)) [
        | inr other ↦ absurd (cc (rw other at h))
        | inl same ↦
            let h1 = rw same at h in
            elim (Option-cases (check_circular_reference us unit.id id)) [
              | inl endless ↦ absurd (cc (rw endless at h1))
              | inr (err e, bad) ↦ absurd (cc (rw bad at h1))
              | inr (ok _, good) ↦ rw good at h1
            ]
      ]

  -- The unit that the check of the base unit returns has its level, and keeps its base unit.
  ensure_base_unit_relationship-IsLevelled :
      (us : List (MeasureUnit F)) (unit v : MeasureUnit F)
      → ensure_base_unit_relationship prims us unit ≡ ok v
      → IsLevelled us v
  unfolding ensure_base_unit_relationship check_base below
  ensure_base_unit_relationship-IsLevelled us unit v h = elim (Option-cases unit.base_unit_id) [
    | inl top ↦
        let h1 = rw top at h in
        elim (Bool-cases (prims.is_one unit.conversion_factor)) [
          | inr wrong ↦ absurd (cc (rw wrong at h1))
          | inl one ↦
              let e = ok-injective (rw one at h1) in subst (IsLevelled us) e (root refl refl)
        ]
    | inr (id, above) ↦
        let h1 = rw above at h in
        elim (Bool-cases (not (unit.id == 0) && id == unit.id)) [
          | inl itself ↦ absurd (cc (rw itself at h1))
          | inr apart ↦
              let h2 = rw apart at h1 in
              elim (Load-cases us id) [
                | missing _ gone ↦ absurd (cc (rw gone at h2))
                | cycles base _ _ dies ↦ absurd (cc (rw dies at h2))
                | loads base found read ↦
                    let h3 = rw read at h2 in
                    let same : MeasureUnit F = record unit { base_unit_id = some id } in
                    below-IsLevelled us same v base id refl found (last_check us same v base id h3)
              ]
        ]
  ]

  deduced-IsLevelled :
      (us : List (MeasureUnit F)) (u : MeasureUnit F) (id : ℕ)
      → IsLevelled us u
      → IsLevelled us
          (record (deduce_defaults_from_base_unit prims (standardize_name prims u)) { id = id })
  deduced-IsLevelled us u id (root top level) = rw top (root refl refl)
  deduced-IsLevelled us u id (derived base k above found level most) =
      rw above (derived base k refl found level most)

  create_unit-IsLevelled :
      (u row : MeasureUnit F) (s t : UnitStore F)
      → IsLevelled s.units (record u { id = s.next_id })
      → All (IsLevelled s.units) s.units
      → create_unit prims u s ≡ ok (row, t)
      → All (IsLevelled t.units) t.units
  unfolding create_unit
  create_unit-IsLevelled u row s t levelled all h =
      let made : MeasureUnit F = record u { id = s.next_id } in
      elim (Bool-cases (name_taken prims s.next_id u s.units)) [
        | inl taken ↦ absurd (cc (rw taken at h))
        | inr free ↦
            let h1 = rw free at h in
            elim (Outcome-cases (add_conversion prims s.next_id u s.conversions)) [
              | inr (e, bad) ↦ absurd (cc (rw bad at h1))
              | inl (conversions, added) ↦
                  let e : s.units ++ made ∷ [] ≡ t.units =
                    ap (λ p. p.1.units) (ok-injective (rw added at h1)) in
                  subst (λ us. All (IsLevelled us) us) e
                    (All-append s.units s.units made all
                      (IsLevelled-append s.units made made levelled))
            ]
      ]

  -- Where every unit has level 1 if it is a base unit, and otherwise the level after that of its base
  -- unit and at most 4, this is so again after GetOrCreateUnit, whatever it answers.
  pub get_or_create_unit-IsLevelled :
      (unit : MeasureUnit F) (s : UnitStore F)
      → All (IsLevelled s.units) s.units
      → let t = (get_or_create_unit prims unit s).1 in All (IsLevelled t.units) t.units
  unfolding get_or_create_unit create_unit
  get_or_create_unit-IsLevelled unit s all =
      elim (Outcome-cases (ensure_base_unit_relationship prims s.units unit)) [
        | inr (e, bad) ↦ rw (bad, get_or_create_unit) all
        | inl (v, good) ↦
            let named = standardize_name prims v in
            elim (Option-cases (unit_by_type_and_name prims named.unit_type named.name s.units)) [
              | inr (found, there) ↦ rw (good, get_or_create_unit, there) all
              | inl new ↦
                  let u = deduce_defaults_from_base_unit prims named in
                  elim (Outcome-cases (create_unit prims u s)) [
                    | inr (e, bad) ↦ rw (good, get_or_create_unit, new, bad) all
                    | inl ((row, t), made) ↦
                        let levelled =
                          deduced-IsLevelled s.units v s.next_id
                            (ensure_base_unit_relationship-IsLevelled s.units unit v good) in
                        rw (good, get_or_create_unit, new, made)
                          (create_unit-IsLevelled u row s t levelled all made)
                  ]
            ]
      ]
