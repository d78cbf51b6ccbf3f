-- ===== src/Units/Accepts.antt =====
-- Where every unit has its level, GetByID and checkCircularReference end, and the check refuses
-- only a base unit that is counted in the unit itself.
use cim_backend.Prelude.{
  ℕ, zero, suc, ◌+◌, ◌≤◌, ◌<◌, ◌≡◌, ◌≢◌, refl, subst, sym, ◌∙◌, inl, inr, false, Bool-cases, ◌==◌,
  ==_iff, ltb, none, some, Option-cases, List, [], ◌∷◌, length, any, All, ok, if◌then◌else◌, arith,
}
use cim_backend.Units.{
  MeasureUnit, unit_by_id, endless, get_by_id, get_root_base_unit_id, check_loop,
  check_circular_reference,
}
use cim_backend.Units.Loads.{Load-cases, missing, cycles, loads}
use cim_backend.Units.Levels.{IsLevelled, root, derived}
use cim_backend.Units.Chains.{Reaches, arrived, climbs}

module _ {F : Type 0} where
  -- The units above a level.
  abbrev above : ℕ → List (MeasureUnit F) → ℕ
  above level [] = 0
  above level (u ∷ us) = (if ltb u.level level then 1 else 0) + above level us

  above-bound : (level : ℕ) (us : List (MeasureUnit F)) → above level us ≤ length us
  above-bound level [] = omega arith
  above-bound level (u ∷ us) = ground (arith, above-bound level us)

  above-le : (k : ℕ) (us : List (MeasureUnit F)) → above k us ≤ above (k + 1) us
  above-le k [] = omega arith
  above-le k (u ∷ us) = ground (arith, above-le k us)

  -- A unit of the level is one more below the next level.
  above-less :
      (id : ℕ) (us : List (MeasureUnit F)) (u : MeasureUnit F)
      → unit_by_id id us ≡ some u
      → above u.level us < above (u.level + 1) us
  above-less id [] u found = absurd (cc)
  above-less id (x ∷ xs) u found = elim (Bool-cases (x.id == id)) [
    | inl here ↦
        let there = rw here at found in
        let same : x ≡ u = cc in rw same (ground (arith, above-le u.level xs))
    | inr later ↦ ground (arith, above-less id xs u (rw later at found), later)
  ]

  unit_by_id-IsLevelled :
      (id : ℕ) (all us : List (MeasureUnit F)) (u : MeasureUnit F)
      → All (IsLevelled all) us
      → unit_by_id id us ≡ some u
      → IsLevelled all u
  unit_by_id-IsLevelled id all [] u h found = absurd (cc)
  unit_by_id-IsLevelled id all (x ∷ xs) u (h, hs) found = elim (Bool-cases (x.id == id)) [
    | inl here ↦
        let there = rw here at found in let same : x ≡ u = cc in subst (IsLevelled all) same h
    | inr later ↦ unit_by_id-IsLevelled id all xs u hs (rw later at found)
  ]

  get_root_base_unit_id-ends :
      (fuel : ℕ) (us : List (MeasureUnit F)) (u : MeasureUnit F)
      → All (IsLevelled us) us
      → IsLevelled us u
      → above u.level us < fuel
      → get_root_base_unit_id fuel us u ≢ none
  unfolding get_root_base_unit_id
  get_root_base_unit_id-ends zero us u all h enough = absurd (omega arith)
  get_root_base_unit_id-ends (suc fuel) us u all (root top one) enough =
      λ e. absurd (cc (rw top at e))
  get_root_base_unit_id-ends (suc fuel) us u all (derived base id up found level most) enough =
      let less = above-less id us base found in
      let enough' = rw level at enough in
      λ e.
        get_root_base_unit_id-ends fuel us base all (unit_by_id-IsLevelled id us us base all found)
          (omega (arith, less, enough')) (rw (get_root_base_unit_id, up, found) at e)

  -- GetByID ends on units with levels.
  pub get_by_id-ends :
      (us : List (MeasureUnit F)) (id : ℕ) → All (IsLevelled us) us → get_by_id id us ≢ endless
  get_by_id-ends us id all = elim (Load-cases us id) [
    | missing _ gone ↦ λ e. absurd (cc)
    | loads u _ read ↦ λ e. absurd (cc)
    | cycles u found dies _ ↦ λ e.
        get_root_base_unit_id-ends (suc (length us)) us u all
          (unit_by_id-IsLevelled id us us u all found) (omega (arith, above-bound u.level us)) dies
  ]

  abbrev level_at : List (MeasureUnit F) → ℕ → ℕ
  level_at us id = elim (unit_by_id id us) [ none ↦ 0 | some u ↦ u.level ]

  not_seen :
      (us : List (MeasureUnit F)) (visited : List ℕ) (current : ℕ) (u : MeasureUnit F)
      → unit_by_id current us ≡ some u
      → All (λ v. u.level < level_at us v) visited
      → any (λ v. v == current) visited ≡ false
  not_seen us [] current u found lower = refl
  not_seen us (v ∷ vs) current u found (h, hs) = elim (Bool-cases (v == current)) [
    | inr other ↦ rw other (not_seen us vs current u found hs)
    | inl same ↦
        let e : v ≡ current = (==_iff v current).0 same in
        let h' : u.level < level_at us current = subst (λ i. u.level < level_at us i) e h in
        let at_it : level_at us current ≡ u.level = rw (level_at, found) refl in
        absurd (omega (arith, h', at_it))
  ]

  lower_still :
      (us : List (MeasureUnit F)) (visited : List ℕ) (k n : ℕ)
      → k ≤ n
      → All (λ v. n < level_at us v) visited
      → All (λ v. k < level_at us v) visited
  lower_still us [] k n le h = tt
  lower_still us (v ∷ vs) k n le (h, hs) = (omega (arith, le, h), lower_still us vs k n le hs)

  check_loop-accepts :
      (fuel : ℕ) (us : List (MeasureUnit F)) (unit_id : ℕ) (visited : List ℕ) (current : ℕ)
      (u : MeasureUnit F)
      → All (IsLevelled us) us
      → unit_by_id current us ≡ some u
      → All (λ v. u.level < level_at us v) visited
      → above u.level us < fuel
      → ¬ (Reaches us current unit_id)
      → check_loop fuel us unit_id visited current ≡ some (ok tt)
  unfolding check_loop
  check_loop-accepts zero us unit_id visited current u all found lower enough free =
      absurd (omega arith)
  check_loop-accepts (suc fuel) us unit_id visited current u all found lower enough free =
      elim (Bool-cases (current == 0)) [
        | inl stop ↦ rw stop refl
        | inr more ↦ elim (Bool-cases (current == unit_id)) [
          | inl cycle ↦ absurd (
              free
                (subst (Reaches us current) ((==_iff current unit_id).0 cycle) (arrived current)))
          | inr other ↦
              let new = not_seen us visited current u found lower in
              elim (Load-cases us current) [
                | missing gone _ ↦ let both : none ≡ some u = sym gone ∙ found in absurd (cc)
                | cycles _ _ _ dies ↦ absurd (get_by_id-ends us current all dies)
                | loads x there read ↦
                    let both : some x ≡ some u = sym there ∙ found in
                    let same : x ≡ u = cc in
                    elim (unit_by_id-IsLevelled current us us u all found) [
                      | root top _ ↦ rw (more, new, other, read, same, top) refl
                      | derived base id up above_it level most ↦
                          let less = above-less id us base above_it in
                          let here : level_at us current ≡ u.level = rw (level_at, found) refl in
                          rw (more, new, other, read, same, up)
                            (check_loop-accepts fuel us unit_id (current ∷ visited) id base all
                              above_it
                              (
                                rw here (omega (arith, level)),
                                lower_still us visited base.level u.level (omega (arith, level))
                                    lower,
                              )
                              (let e' = rw level at enough in omega (arith, less, e'))
                              (λ r. free (climbs current id unit_id u found up r)))
                    ]
              ]
        ]
      ]

  -- Where every unit has level 1 if it is a base unit, and otherwise the level after that of its base
  -- unit and at most 4, checkCircularReference accepts every base unit from which following base
  -- units does not lead to the unit.
  pub check_circular_reference-accepts :
      (us : List (MeasureUnit F)) (unit_id base_unit_id : ℕ)
      → All (IsLevelled us) us
      → ¬ (Reaches us base_unit_id unit_id)
      → check_circular_reference us unit_id base_unit_id ≡ some (ok tt)
  unfolding check_circular_reference check_loop
  check_circular_reference-accepts us unit_id base_unit_id all free =
      elim (Option-cases (unit_by_id base_unit_id us)) [
        | inr (u, found) ↦
            check_loop-accepts (suc (length us)) us unit_id [] base_unit_id u all found tt
              (omega (arith, above-bound u.level us)) free
        | inl none_there ↦ elim (Bool-cases (base_unit_id == 0)) [
          | inl stop ↦ rw stop refl
          | inr more ↦ elim (Bool-cases (base_unit_id == unit_id)) [
            | inl cycle ↦ absurd (
                free (
                  subst (Reaches us base_unit_id) ((==_iff base_unit_id unit_id).0 cycle)
                    (arrived base_unit_id)))
            | inr other ↦ elim (Load-cases us base_unit_id) [
              | missing _ gone ↦ rw (more, other, gone) refl
              | cycles _ _ _ dies ↦ absurd (get_by_id-ends us base_unit_id all dies)
              | loads x there _ ↦ let both : none ≡ some x = sym none_there ∙ there in absurd (cc)
            ]
          ]
        ]
      ]
