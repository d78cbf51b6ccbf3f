-- ===== src/Import/Labels.antt =====
-- The unit that holds the stock of a row: it is live and answers to the row's label.
use cim_backend.Prelude.{
  ◌≡◌, subst, inl, inr, true, false, Bool-cases, ◌&&◌, not, ltb, Option, none, some, Option-cases,
  List, [], ◌∷◌, Text, text_eq, length, select, select-holds, All, ok, ok-injective, arith,
}
use cim_backend.Import.{SheetRow, upper_trim}
use cim_backend.Import.Lookups.{StockUnit, unit_lookup, answers, unit_label_matches, resolve_unit}
use cim_backend.Import.Plan.{unit_symbol_max_len, general_unit, effective_unit}

module _ (to_upper : Text → Text) where
  -- A unit that may hold the row's stock: it is live and answers to the row's label.
  abbrev pub Answers : SheetRow → Option StockUnit → Type 0
  Answers row effective = elim effective [
    | none ↦ Unit
    | some u ↦
        (u.is_deleted ≡ false)
        × (unit_label_matches to_upper (upper_trim to_upper row.unit) u ≡ true)
  ]

  unit_lookup-live :
      (P : StockUnit → Type 0) (live : List StockUnit) (blocker : Option StockUnit) (u : StockUnit)
      → All P live
      → (unit_lookup live blocker).match ≡ some u
      → P u
  unit_lookup-live P [] blocker u all h = absurd (cc)
  unit_lookup-live P (v ∷ []) blocker u (here, all) h = subst P (cc (h)) here
  unit_lookup-live P (v ∷ w ∷ us) blocker u all h = absurd (cc)

  resolve_unit-live :
      (units : List StockUnit) (label : Text) (u : StockUnit)
      → (resolve_unit to_upper units label).match ≡ some u
      → (not u.is_deleted && answers to_upper label u) ≡ true
  unfolding resolve_unit
  resolve_unit-live units label u h = elim (Bool-cases (text_eq label [])) [
    | inl empty ↦ absurd (cc (rw (resolve_unit, empty) at h))
    | inr full ↦
        let p = λ (v : StockUnit). not v.is_deleted && answers to_upper label v in
        unit_lookup-live (λ v. p v ≡ true) (select p units) _ u (select-holds p units)
          (rw (resolve_unit, full) at h)
  ]

  general_unit-Answers :
      (units : List StockUnit) (row : SheetRow) (effective : Option StockUnit)
      → general_unit to_upper units row ≡ ok effective
      → Answers row effective
  unfolding general_unit
  general_unit-Answers units row effective h =
      let label = upper_trim to_upper row.unit in
      let found = resolve_unit to_upper units label in
      elim (Bool-cases (ltb 0 found.ambiguous)) [
        | inl many ↦ absurd (cc (rw (general_unit, many) at h))
        | inr single ↦
            let h1 = rw (general_unit, single) at h in
            elim (Option-cases found.match) [
              | inr (u, there) ↦
                  subst (Answers row) (ok-injective (rw there at h1))
                    (ground (arith, resolve_unit-live units label u there))
              | inl missing ↦
                  let h2 = rw missing at h1 in
                  elim (Option-cases found.deleted_id) [
                    | inr (id, blocks) ↦ absurd (cc (rw blocks at h2))
                    | inl nothing ↦
                        let h3 = rw nothing at h2 in
                        elim (Bool-cases (ltb unit_symbol_max_len (length row.unit))) [
                          | inl long ↦ absurd (cc (rw long at h3))
                          | inr short ↦ subst (Answers row) (ok-injective (rw short at h3)) tt
                        ]
                  ]
            ]
      ]

  pub effective_unit-Answers :
      (units : List StockUnit) (governing : Option StockUnit) (row : SheetRow)
      (effective : Option StockUnit)
      → effective_unit to_upper units governing row ≡ ok effective
      → Answers row effective
  unfolding effective_unit
  effective_unit-Answers units none row effective h = general_unit-Answers units row effective h
  effective_unit-Answers units (some u) row effective h = elim (Bool-cases u.is_deleted) [
    | inl deleted ↦ absurd (cc (simp deleted at h))
    | inr live ↦
        let h1 = simp live at h in
        elim (Bool-cases (unit_label_matches to_upper (upper_trim to_upper row.unit) u)) [
          | inr other ↦ absurd (cc (simp other at h1))
          | inl same ↦ subst (Answers row) (ok-injective (simp same at h1)) (live, same)
        ]
  ]
