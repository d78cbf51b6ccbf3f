-- ===== src/Units/Endless.antt =====
-- The fuel of GetRootBaseUnitID: where one call more than there are units is not enough, no number
-- of calls is.
use cim_backend.Prelude.{
  ℕ, zero, suc, ◌+◌, ◌≤◌, ◌<◌, ◌≡◌, refl, ap, sym, ◌∙◌, inl, inr, Bool, true, false, Bool-cases,
  ◌==◌, find, none, some, Option-cases, List, [], ◌∷◌, length, if◌then◌else◌, arith,
}
use cim_backend.Units.{MeasureUnit, unit_by_id, get_root_base_unit_id}

module _ {F : Type 0} (us : List (MeasureUnit F)) where
  -- Whether a number of calls is enough for a unit.
  abbrev ends : ℕ → MeasureUnit F → Bool
  ends n u = elim (get_root_base_unit_id n us u) [ none ↦ false | some _ ↦ true ]

  -- One call more takes its unit to its base unit.
  ends-base :
      (n id : ℕ) (u base : MeasureUnit F)
      → u.base_unit_id ≡ some id
      → unit_by_id id us ≡ some base
      → ends (suc n) u ≡ ends n base
  unfolding get_root_base_unit_id
  ends-base n id u base up found = rw (ends, get_root_base_unit_id, up, found) refl

  ends-root : (n : ℕ) (u : MeasureUnit F) → u.base_unit_id ≡ none → ends (suc n) u ≡ true
  unfolding get_root_base_unit_id
  ends-root n u top = rw (ends, get_root_base_unit_id, top) refl

  ends-lost :
      (n id : ℕ) (u : MeasureUnit F)
      → u.base_unit_id ≡ some id
      → unit_by_id id us ≡ none
      → ends (suc n) u ≡ true
  unfolding get_root_base_unit_id
  ends-lost n id u up lost = rw (ends, get_root_base_unit_id, up, lost) refl

  ends-more : (n : ℕ) (u : MeasureUnit F) → ends n u ≡ true → ends (suc n) u ≡ true
  unfolding get_root_base_unit_id
  ends-more zero u h = absurd (cc)
  ends-more (suc n) u h = elim (Option-cases u.base_unit_id) [
    | inl top ↦ ends-root (suc n) u top
    | inr (id, up) ↦ elim (Option-cases (unit_by_id id us)) [
      | inl lost ↦ ends-lost (suc n) id u up lost
      | inr (base, found) ↦
          ends-base (suc n) id u base up found
          ∙ ends-more n base (sym (ends-base n id u base up found) ∙ h)
    ]
  ]

  ends-most : (n m : ℕ) (u : MeasureUnit F) → n ≤ m → ends n u ≡ true → ends m u ≡ true
  ends-most n zero u le h = let e : n ≡ 0 = omega (arith, le) in ap (λ k. ends k u) (sym e) ∙ h
  ends-most n (suc m) u le h = elim (Bool-cases (n == suc m)) [
    | inl last ↦ let e : n ≡ suc m = ground (arith, last) in ap (λ k. ends k u) (sym e) ∙ h
    | inr less ↦ ends-more m u (ends-most n m u (ground (arith, le, less)) h)
  ]

  -- The units for which a number of calls is enough.
  abbrev ending : ℕ → List (MeasureUnit F) → ℕ
  ending n [] = 0
  ending n (x ∷ xs) = (if ends n x then 1 else 0) + ending n xs

  ending-bound : (n : ℕ) (xs : List (MeasureUnit F)) → ending n xs ≤ length xs
  ending-bound n [] = omega arith
  ending-bound n (x ∷ xs) = elim (Bool-cases (ends n x)) [
    | inl done ↦ rw done (omega (arith, ending-bound n xs))
    | inr open_end ↦ rw open_end (omega (arith, ending-bound n xs))
  ]

  ending-more : (n : ℕ) (xs : List (MeasureUnit F)) → ending n xs ≤ ending (suc n) xs
  ending-more n [] = omega arith
  ending-more n (x ∷ xs) = elim (Bool-cases (ends n x)) [
    | inl done ↦ rw (done, ends-more n x done) (omega (arith, ending-more n xs))
    | inr open_end ↦ rw open_end (omega (arith, ending-more n xs))
  ]

  ending-less :
      (n id : ℕ) (xs : List (MeasureUnit F)) (u : MeasureUnit F)
      → find (λ x. x.id == id) xs ≡ some u
      → ends n u ≡ false
      → ends (suc n) u ≡ true
      → ending n xs < ending (suc n) xs
  ending-less n id [] u found before after = absurd (cc)
  ending-less n id (x ∷ xs) u found before after = elim (Bool-cases (x.id == id)) [
    | inl here ↦
        let there = rw here at found in
        let same : x ≡ u = cc in rw (same, before, after) (omega (arith, ending-more n xs))
    | inr later ↦
        let rest = ending-less n id xs u (rw later at found) before after in
        elim (Bool-cases (ends n x)) [
          | inl done ↦ rw (done, ends-more n x done) (omega (arith, rest))
          | inr open_end ↦ rw open_end (omega (arith, rest))
        ]
  ]

  -- A unit that needs n + 1 calls leads through n units for which fewer are enough.
  needed : (n : ℕ) (u : MeasureUnit F) → ends n u ≡ false → ends (suc n) u ≡ true → n ≤ ending n us
  unfolding get_root_base_unit_id
  needed zero u before after = omega arith
  needed (suc n) u before after = elim (Option-cases u.base_unit_id) [
    | inl top ↦ absurd (cc (before, ends-root n u top))
    | inr (id, up) ↦ elim (Option-cases (unit_by_id id us)) [
      | inl lost ↦ absurd (cc (before, ends-lost n id u up lost))
      | inr (base, found) ↦
          let b = sym (ends-base n id u base up found) ∙ before in
          let a = sym (ends-base (suc n) id u base up found) ∙ after in
          omega (arith, needed n base b a, ending-less n id us base found b a)
    ]
  ]

  enough : (n : ℕ) (u : MeasureUnit F) → ends n u ≡ true → ends (suc (length us)) u ≡ true
  unfolding get_root_base_unit_id
  enough zero u h = absurd (cc)
  enough (suc n) u h = elim (Bool-cases (ends n u)) [
    | inl sooner ↦ enough n u sooner
    | inr before ↦
        ends-most (suc n) (suc (length us)) u
          (omega (arith, needed n u before h, ending-bound n us)) h
  ]

  -- Where GetRootBaseUnitID does not end within one call more than there are units, it does not end
  -- within any number of calls.
  pub get_root_base_unit_id-endless :
      (u : MeasureUnit F)
      → get_root_base_unit_id (suc (length us)) us u ≡ none
      → (n : ℕ) → get_root_base_unit_id n us u ≡ none
  get_root_base_unit_id-endless u h n = elim (Option-cases (get_root_base_unit_id n us u)) [
    | inl never ↦ never
    | inr (root, done) ↦
        let e : ends (suc (length us)) u ≡ true = enough n u (rw (ends, done) refl) in
        let e' : ends (suc (length us)) u ≡ false = rw (ends, h) refl in absurd (cc (e, e'))
  ]
