-- ===== src/Units/Chains.antt =====
-- The walk of checkCircularReference up the base units: its fuel, and the cycles that it refuses.
use cim_backend.Prelude.{
  ℕ, zero, suc, ◌+◌, ◌≤◌, ◌<◌, ◌≡◌, ◌≢◌, refl, ap, sym, ◌∙◌, ◌⊎◌, inl, inr, true, false, Bool-cases,
  ◌==◌, ==_iff, ==_refl, none, some, Option-cases, List, [], ◌∷◌, length, any, ok, if◌then◌else◌,
  arith,
}
use cim_backend.Units.{MeasureUnit, unit_by_id, check_loop, check_circular_reference}
use cim_backend.Units.Loads.{Load-cases, missing, cycles, loads}

module _ {F : Type 0} where
  -- The units that the walk has not seen.
  abbrev unseen : List ℕ → List (MeasureUnit F) → ℕ
  unseen visited [] = 0
  unseen visited (u ∷ us) = (if any (λ v. v == u.id) visited then 0 else 1) + unseen visited us

  unseen-bound : (visited : List ℕ) (us : List (MeasureUnit F)) → unseen visited us ≤ length us
  unseen-bound visited [] = omega arith
  unseen-bound visited (u ∷ us) = ground (arith, unseen-bound visited us)

  unseen-more :
      (visited : List ℕ) (current : ℕ) (us : List (MeasureUnit F))
      → unseen (current ∷ visited) us ≤ unseen visited us
  unseen-more visited current [] = omega arith
  unseen-more visited current (u ∷ us) = ground (arith, unseen-more visited current us)

  -- Seeing a unit for the first time leaves fewer unseen.
  unseen-less :
      (visited : List ℕ) (current : ℕ) (us : List (MeasureUnit F)) (u : MeasureUnit F)
      → any (λ v. v == current) visited ≡ false
      → unit_by_id current us ≡ some u
      → unseen (current ∷ visited) us < unseen visited us
  unseen-less visited current [] u new found = absurd (cc)
  unseen-less visited current (x ∷ xs) u new found = elim (Bool-cases (x.id == current)) [
    | inl here ↦
        let e : x.id ≡ current = (==_iff x.id current).0 here in
        rw (e, ==_refl current, new) (omega (arith, unseen-more visited current xs))
    | inr later ↦ ground (arith, unseen-less visited current xs u new (rw later at found), later)
  ]

  check_loop-ends :
      (fuel : ℕ) (us : List (MeasureUnit F)) (unit_id : ℕ) (visited : List ℕ) (current : ℕ)
      → unseen visited us < fuel
      → check_loop fuel us unit_id visited current ≢ none
  unfolding check_loop
  check_loop-ends zero us unit_id visited current h = absurd (omega arith)
  check_loop-ends (suc fuel) us unit_id visited current h = elim (Bool-cases (current == 0)) [
    | inl stop ↦ λ e. absurd (cc (rw stop at e))
    | inr more ↦ elim (Bool-cases (any (λ v. v == current) visited)) [
      | inl seen ↦ λ e. absurd (cc (rw (more, seen) at e))
      | inr new ↦ elim (Bool-cases (current == unit_id)) [
        | inl cycle ↦ λ e. absurd (cc (rw (more, new, cycle) at e))
        | inr other ↦ elim (Load-cases us current) [
          | missing _ gone ↦ λ e. absurd (cc (rw (more, new, other, gone) at e))
          | cycles u _ _ dies ↦ λ e. absurd (cc (rw (more, new, other, dies) at e))
          | loads u found read ↦ elim (Option-cases u.base_unit_id) [
            | inl root ↦ λ e. absurd (cc (rw (more, new, other, read, root) at e))
            | inr (base, up) ↦
                rw (more, new, other, read, up)
                  (check_loop-ends fuel us unit_id (current ∷ visited) base
                    (omega (arith, h, unseen-less visited current us u new found)))
          ]
        ]
      ]
    ]
  ]

  -- The fuel of check_circular_reference is enough for any units.
  pub check_circular_reference-ends :
      (us : List (MeasureUnit F)) (unit_id base_unit_id : ℕ)
      → check_circular_reference us unit_id base_unit_id ≢ none
  unfolding check_circular_reference
  check_circular_reference-ends us unit_id base_unit_id =
      check_loop-ends (suc (length us)) us unit_id [] base_unit_id
        (omega (arith, unseen-bound [] us))

  -- A unit is reached from a unit by following base units.
  pub data Reaches (us : List (MeasureUnit F)) : ℕ → ℕ → Type 0 where
    arrived : (a : ℕ) → Reaches us a a
    climbs :
        (a b c : ℕ) (u : MeasureUnit F)
        → unit_by_id a us ≡ some u
        → u.base_unit_id ≡ some b
        → Reaches us b c
        → Reaches us a c

  -- The first step of a climb.
  record Climb (us : List (MeasureUnit F)) (a c : ℕ) : Type 0 where
    unit : MeasureUnit F
    base : ℕ
    found : unit_by_id a us ≡ some unit
    up : unit.base_unit_id ≡ some base
    rest : Reaches us base c

  Reaches-cases : (us : List (MeasureUnit F)) {a c : ℕ} → Reaches us a c → (a ≡ c) ⊎ Climb us a c
  Reaches-cases us (arrived a) = inl refl
  Reaches-cases us (climbs a b c u found up rest) =
      inr (record { unit = u; base = b; found = found; up = up; rest = rest })

  check_loop-acyclic :
      (fuel : ℕ) (us : List (MeasureUnit F)) (unit_id : ℕ) (visited : List ℕ) (current : ℕ)
      → unit_id == 0 ≡ false
      → unit_by_id 0 us ≡ none
      → check_loop fuel us unit_id visited current ≡ some (ok tt)
      → ¬ (Reaches us current unit_id)
  unfolding check_loop
  check_loop-acyclic zero us unit_id visited current hu h0 h r = absurd (cc)
  check_loop-acyclic (suc fuel) us unit_id visited current hu h0 h r = elim (Reaches-cases us r) [
    | inl same ↦
        let self : current == unit_id ≡ true = (==_iff current unit_id).1 same in
        let more : current == 0 ≡ false = rw same hu in
        elim (Bool-cases (any (λ v. v == current) visited)) [
          | inl seen ↦ cc (rw (more, seen) at h)
          | inr new ↦ cc (rw (more, new, self) at h)
        ]
    | inr c ↦ elim (Bool-cases (current == 0)) [
      | inl stop ↦
          let e : current ≡ 0 = (==_iff current 0).0 stop in
          let none_there : unit_by_id 0 us ≡ some c.unit =
            ap (λ a. unit_by_id a us) (sym e) ∙ c.found in
          cc
      | inr more ↦ elim (Bool-cases (any (λ v. v == current) visited)) [
        | inl seen ↦ cc (rw (more, seen) at h)
        | inr new ↦ elim (Bool-cases (current == unit_id)) [
          | inl cycle ↦ cc (rw (more, new, cycle) at h)
          | inr other ↦ elim (Load-cases us current) [
            | missing gone _ ↦ let apart : none ≡ some c.unit = sym gone ∙ c.found in absurd (cc)
            | cycles u _ _ dies ↦ cc (rw (more, new, other, dies) at h)
            | loads u found read ↦
                let there : some u ≡ some c.unit = sym found ∙ c.found in
                let same : u ≡ c.unit = cc in
                check_loop-acyclic fuel us unit_id (current ∷ visited) c.base hu h0
                  (rw (more, new, other, read, same, c.up) at h) c.rest
          ]
        ]
      ]
    ]
  ]

  -- Where checkCircularReference accepts a base unit for a unit whose id is not 0, and no unit has
  -- the id 0, the unit is not the base unit or one that the base unit is counted in, so that the
  -- new link closes no cycle.
  pub check_circular_reference-acyclic :
      (us : List (MeasureUnit F)) (unit_id base_unit_id : ℕ)
      → unit_id == 0 ≡ false
      → unit_by_id 0 us ≡ none
      → check_circular_reference us unit_id base_unit_id ≡ some (ok tt)
      → ¬ (Reaches us base_unit_id unit_id)
  unfolding check_circular_reference
  check_circular_reference-acyclic us unit_id base_unit_id hu h0 h =
      check_loop-acyclic (suc (length us)) us unit_id [] base_unit_id hu h0 h
