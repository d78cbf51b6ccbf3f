-- ===== src/Import/Planned.antt =====
-- What a planned row of an import is: it fits what it is written to.
use cim_backend.Prelude.{
  ℕ, ◌≤◌, ◌≡◌, refl, subst, inl, inr, Bool, false, Bool-cases, ltb, Option, none, some,
  Option-cases, List, [], ◌∷◌, Text, length, All, Map, lookup, Outcome-cases, passed_test, ok,
  and_then, ok-injective, arith, if◌then◌else◌,
}
use cim_backend.Decimal.{Decimal, decimal_places, is_negative_test, zero_value_parts}
use cim_backend.Import.{SheetRow, Rejection, is_failed, reject, upper_trim, validate_rows}
use cim_backend.Import.Lookups.{
  StockUnit, StockProduct, StockItem, ImportTables, answers, matched_product, product_reason,
  active_item, item_reason, reject_rows,
}
use cim_backend.Import.Plan.{
  PlannedUnit, stored_unit, created_unit, PlanRow, max_decimal_places, product_type_max_len,
  effective_unit, governing_unit, fit_row, plan_row, plan_rows, build_plan,
}
use cim_backend.Import.Labels.{Answers, effective_unit-Answers}
use cim_backend.Import.Quantities.{AllGiven, validate_rows-AllGiven}

abbrev pub stored_of : PlannedUnit → Option StockUnit
stored_of (stored_unit u) = some u
stored_of (created_unit label) = none

module _ {D : Type 0} ⦃dec : Decimal D⦄ (to_upper : Text → Text) (parse : Text → Option D)
    (max_storable : D) (to_string : D → Text) where
  -- A planned row fits: its quantity is not negative and has no more places than the plan shows,
  -- which are at most two and no more than its unit has (two where the import creates it); what is
  -- stored after it is storable; and the unit that holds it, where it is not new, is live and
  -- answers to the label of the row.
  pub record Fits (p : PlanRow D) : Type 0 where
    pub not_negative : dec.is_negative p.quantity ≡ false
    pub places : decimal_places to_string p.quantity ≤ p.unit_decimal_places
    pub unit_places :
        p.unit_decimal_places
        ≤ elim (stored_of p.unit) [ none ↦ max_decimal_places | some u ↦ u.decimal_places ]
    pub few_places : p.unit_decimal_places ≤ 2
    pub current : p.current_quantity ≡ elim p.item [ none ↦ dec.zero_value | some i ↦ i.quantity ]
    pub storable : dec.greater_than (dec.add p.current_quantity p.quantity) max_storable ≡ false
    pub held : Answers to_upper p.src (stored_of p.unit)

  module _ (inventory : ℕ) (tables : ImportTables D) where
    held_of :
        (row : SheetRow) (effective : Option StockUnit)
        → Answers to_upper row effective
        → Answers to_upper row (
            stored_of (elim effective [
              | none ↦ created_unit (upper_trim to_upper row.unit)
              | some u ↦ stored_unit u
            ]))
    held_of row none h = h
    held_of row (some u) h = h

    -- What is shown of a row's quantity, against the unit of the row.
    unit_bound :
        (row : SheetRow) (effective : Option StockUnit)
        → let unit_dp : ℕ = elim effective [
          | none ↦ max_decimal_places
          | some u ↦ u.decimal_places
        ] in
          (if ltb max_decimal_places unit_dp then max_decimal_places else unit_dp)
          ≤ elim (stored_of (elim effective [
            | none ↦ created_unit (upper_trim to_upper row.unit)
            | some u ↦ stored_unit u
          ])) [ none ↦ max_decimal_places | some u ↦ u.decimal_places ]
    unit_bound row none = ground arith
    unit_bound row (some u) = ground arith

    fit_row-Fits :
        (row : SheetRow) (q : D) (matched : Option StockProduct) (item : Option (StockItem D))
        (effective : Option StockUnit) (p : PlanRow D)
        → dec.is_negative q ≡ false
        → Answers to_upper row effective
        → fit_row to_upper max_storable to_string inventory tables row q matched item effective
          ≡ ok p
        → Fits p × (p.src ≡ row)
    unfolding fit_row
    fit_row-Fits row q matched item effective p given answers h =
        let unit_dp : ℕ = elim effective [
          | none ↦ max_decimal_places
          | some u ↦ u.decimal_places
        ] in
        let allowed : ℕ = if ltb max_decimal_places unit_dp then max_decimal_places else unit_dp in
        let current : D = elim item [ none ↦ dec.zero_value | some i ↦ i.quantity ] in
        let (scale, h1) = passed_test (ltb allowed (decimal_places to_string q)) _ _ p h in
        let (storable, h2) =
          passed_test (dec.greater_than (dec.add current q) max_storable) _ _ p h1 in
        subst (λ (x : PlanRow D). Fits x × (x.src ≡ row)) (ok-injective h2)
          (
            record {
              not_negative = given;
              places = ground (arith, scale);
              unit_places = unit_bound row effective;
              few_places = ground arith;
              current = refl;
              storable = storable;
              held = held_of row effective answers;
            },
            refl,
          )

    pub plan_row-Fits :
        (quantities : Map D) (row : SheetRow) (p : PlanRow D)
        → AllGiven quantities
        → plan_row to_upper max_storable to_string inventory tables quantities row ≡ ok p
        → Fits p × (p.src ≡ row)
    unfolding plan_row
    plan_row-Fits quantities row p g h =
        let key = upper_trim to_upper row.name in
        let matched = matched_product to_upper tables.products key in
        let item = active_item to_upper inventory tables key in
        let qty : D = elim (lookup row.sheet_row quantities) [
          | none ↦ dec.zero_value
          | some q ↦ q
        ] in
        let governing = governing_unit tables.units item matched in
        let too_long : Bool = elim matched [
          | none ↦ ltb product_type_max_len (length row.product_type)
          | some _ ↦ false
        ] in
        let (fits, h1) = passed_test too_long _ _ p h in
        elim (Outcome-cases (effective_unit to_upper tables.units governing row)) [
          | inr (reason, bad) ↦ absurd (cc (rw (bad, and_then) at h1))
          | inl (effective, fine) ↦
              fit_row-Fits row qty matched item effective p (given_of quantities row.sheet_row g)
                (effective_unit-Answers to_upper tables.units governing row effective fine)
                (rw (fine, and_then) at h1)
        ]
      where
        given_of :
            (m : Map D) (k : ℕ)
            → AllGiven m
            → dec.is_negative (elim (lookup k m) [ none ↦ dec.zero_value | some q ↦ q ]) ≡ false
        given_of m k g = elim (Option-cases (lookup k m)) [
          | inl missing ↦
              rw missing (ground (arith, is_negative_test dec.zero_value, zero_value_parts dec))
          | inr (q, there) ↦ rw there (g k q there)
        ]

    plan_rows-Fits :
        (quantities : Map D) (rows : List SheetRow) (rejections : List Rejection)
        → AllGiven quantities
        → All Fits
            (plan_rows to_upper max_storable to_string inventory tables quantities rows
              rejections).1
    unfolding plan_rows
    plan_rows-Fits quantities [] rejections g = tt
    plan_rows-Fits quantities (row ∷ rows) rejections g =
        elim (Bool-cases (is_failed row rejections)) [
          | inl failed ↦ rw (failed, plan_rows) (plan_rows-Fits quantities rows rejections g)
          | inr accepted ↦
              elim (Outcome-cases
                (plan_row to_upper max_storable to_string inventory tables quantities row)) [
                  | inr (reason, bad) ↦
                      rw (accepted, bad, plan_rows)
                        (plan_rows-Fits quantities rows (reject row reason rejections) g)
                  | inl (p, fine) ↦
                      rw (accepted, fine, plan_rows)
                        (
                          (plan_row-Fits quantities row p g fine).0,
                          plan_rows-Fits quantities rows rejections g,
                        )
                ]
        ]

    -- Every row of the plan fits what it is written to: its quantity is not negative and has at most
    -- two decimal places and no more than the unit that the plan gives it; the stored quantity after it is within the column;
    -- and its unit, unless the import creates it, is live and has the row's label for name or symbol.
    pub build_plan-Fits :
        (rows : List SheetRow)
        → All Fits (build_plan to_upper parse max_storable to_string inventory tables rows).0.rows
    unfolding build_plan lookup
    build_plan-Fits rows =
        let syntax = validate_rows to_upper parse max_storable rows rows [] [] in
        plan_rows-Fits syntax.1 rows
          (reject_rows (item_reason to_upper inventory tables) rows
            (reject_rows (product_reason to_upper tables.products) rows syntax.0))
          (validate_rows-AllGiven to_upper parse max_storable rows rows [] []
            (λ k q h. absurd (cc)))
