-- ===== src/Import/Plan.antt =====
-- `buildPlan`: what is written for the rows that are accepted. Left out of a row: its warnings.
use cim_backend.Prelude.{
  ℕ, Bool, false, ◌&&◌, not, ltb, ◌==◌, Option, none, some, List, [], ◌∷◌, ◌++◌, Text, text_eq,
  length, any, find, Map, lookup, sort_stable, Outcome, ok, err, and_then, if◌then◌else◌,
}
use cim_backend.Decimal.{Decimal, decimal_places}
use cim_backend.Import.{
  SheetRow, RowReason, Rejection, is_failed, reject, upper_trim, validate_rows,
  product_type_too_long, unit_soft_deleted, unit_mismatch, unit_ambiguous, unit_too_long,
  quantity_scale, result_too_large,
}
use cim_backend.Import.Lookups.{
  StockUnit, StockProduct, StockItem, ImportTables, unit_label_matches, resolve_unit,
  matched_product, product_reason, active_item, item_reason, reject_rows,
}

-- A product or a unit of a planned row: a stored one, or one that the import creates.
pub data PlannedUnit : Type 0 where
  stored_unit : StockUnit → PlannedUnit
  created_unit : Text → PlannedUnit

pub data PlannedProduct : Type 0 where
  stored_product : StockProduct → PlannedProduct
  created_product : (name : Text) (product_type : Text) → PlannedProduct

pub data ImportAction : Type 0 where
  match_product create_product create_item create_transaction skip_zero_quantity : ImportAction

pub record PlanRow (D : Type 0) : Type 0 where
  pub src : SheetRow
  pub quantity : D
  pub product : PlannedProduct
  pub unit : PlannedUnit
  pub item : Option (StockItem D)
  pub current_quantity : D
  pub unit_decimal_places : ℕ
  pub actions : List ImportAction

pub record ImportPlan (D : Type 0) : Type 0 where
  pub inventory_id : ℕ
  pub rows_read : ℕ
  pub rows : List (PlanRow D)
  pub new_units : List Text
  pub new_products : List PlannedProduct

abbrev pub product_type_max_len : ℕ
product_type_max_len = 20

abbrev pub unit_symbol_max_len : ℕ
unit_symbol_max_len = 20

abbrev pub max_decimal_places : ℕ
max_decimal_places = 2

abbrev preloaded_unit : ℕ → List StockUnit → Option StockUnit
preloaded_unit id units = find (λ (u : StockUnit). u.id == id) units

module _ (to_upper : Text → Text) where
  -- The unit of a row that no item or product governs; none where it is to be created.
  unfoldable pub general_unit : List StockUnit → SheetRow → Outcome RowReason (Option StockUnit)
  general_unit units row =
      let found = resolve_unit to_upper units (upper_trim to_upper row.unit) in
      if ltb 0 found.ambiguous then err unit_ambiguous else elim found.match [
        | some u ↦ ok (some u)
        | none ↦ elim found.deleted_id [
          | some _ ↦ err unit_soft_deleted
          | none ↦ if ltb unit_symbol_max_len (length row.unit) then err unit_too_long else ok none
        ]
      ]

  unfoldable pub effective_unit :
      List StockUnit → Option StockUnit → SheetRow → Outcome RowReason (Option StockUnit)
  effective_unit units governing row = elim governing [
    | none ↦ general_unit units row
    | some u ↦
        if u.is_deleted
        then err unit_soft_deleted
        else if not (unit_label_matches to_upper (upper_trim to_upper row.unit) u)
        then err unit_mismatch
        else ok (some u)
  ]

module _ {D : Type 0} where
  -- An item's unit goes before the product's.
  unfoldable pub governing_unit :
      List StockUnit → Option (StockItem D) → Option StockProduct → Option StockUnit
  governing_unit units item matched =
      let of_product : Option StockUnit = elim matched [
        | none ↦ none
        | some p ↦ preloaded_unit p.unit_id units
      ] in
      elim item [
        | none ↦ of_product
        | some i ↦ elim (preloaded_unit i.unit_id units) [ none ↦ of_product | some u ↦ some u ]
      ]

module _ {D : Type 0} ⦃dec : Decimal D⦄ (to_upper : Text → Text) (max_storable : D)
    (to_string : D → Text) (inventory : ℕ) (tables : ImportTables D) where
  -- Where the quantity of a row fits the unit and the stored quantity.
  unfoldable pub fit_row :
      SheetRow
      → D
      → Option StockProduct
      → Option (StockItem D)
      → Option StockUnit
      → Outcome RowReason (PlanRow D)
  fit_row row qty matched item effective =
      let unit_dp : ℕ = elim effective [ none ↦ max_decimal_places | some u ↦ u.decimal_places ] in
      let allowed = if ltb max_decimal_places unit_dp then max_decimal_places else unit_dp in
      let current : D = elim item [ none ↦ dec.zero_value | some i ↦ i.quantity ] in
      if ltb allowed (decimal_places to_string qty)
      then err quantity_scale
      else if dec.greater_than (dec.add current qty) max_storable
      then err result_too_large
      else ok (record {
        src = row;
        quantity = qty;
        product = elim matched [
          | none ↦ created_product row.name row.product_type
          | some p ↦ stored_product p
        ];
        unit = elim effective [
          | none ↦ created_unit (upper_trim to_upper row.unit)
          | some u ↦ stored_unit u
        ];
        item = item;
        current_quantity = current;
        unit_decimal_places = allowed;
        actions =
            (elim matched [ none ↦ create_product ∷ [] | some _ ↦ match_product ∷ [] ])
            ++ (elim item [ none ↦ create_item ∷ [] | some _ ↦ [] ])
            ++ (if dec.is_positive qty then create_transaction else skip_zero_quantity) ∷ [];
      })

  -- The body of the loop of `buildPlan`.
  unfoldable pub plan_row : Map D → SheetRow → Outcome RowReason (PlanRow D)
  plan_row quantities row =
      let key = upper_trim to_upper row.name in
      let matched = matched_product to_upper tables.products key in
      let item = active_item to_upper inventory tables key in
      let qty : D = elim (lookup row.sheet_row quantities) [ none ↦ dec.zero_value | some q ↦ q ] in
      let too_long : Bool = elim matched [
        | none ↦ ltb product_type_max_len (length row.product_type)
        | some _ ↦ false
      ] in
      if too_long
      then err product_type_too_long
      else and_then
          (effective_unit to_upper tables.units (governing_unit tables.units item matched) row)
          (λ effective. fit_row row qty matched item effective)

  unfoldable pub plan_rows :
      Map D → List SheetRow → List Rejection → List Rejection × List (PlanRow D)
  plan_rows quantities [] rejections = (rejections, [])
  plan_rows quantities (row ∷ rows) rejections =
      let passed = plan_rows quantities rows rejections in
      if is_failed row rejections then passed else elim (plan_row quantities row) [
        | err reason ↦ plan_rows quantities rows (reject row reason rejections)
        | ok planned ↦ (passed.0, planned ∷ passed.1)
      ]

module _ {D : Type 0} where
  -- `orderedProducts`; the name of an accepted row is no other row's.
  unfoldable pub new_products : List (PlanRow D) → List PlannedProduct
  new_products [] = []
  new_products (p ∷ ps) = elim p.product [
    | stored_product _ ↦ new_products ps
    | created_product name product_type ↦ created_product name product_type ∷ new_products ps
  ]

module _ {D : Type 0} (to_upper : Text → Text) where
  -- `orderedUnits`: in the order of the sheet, each once.
  unfoldable pub ordered_units : List (PlanRow D) → List SheetRow → List Text → List Text
  ordered_units planned [] emitted = emitted
  ordered_units planned (row ∷ rows) emitted =
      let key = upper_trim to_upper row.unit in
      let pending =
        any
          (λ (p : PlanRow D). elim p.unit [
            | stored_unit _ ↦ false
            | created_unit label ↦ text_eq label key
          ])
          planned in
      ordered_units planned rows
        (if pending && not (any (text_eq key) emitted) then emitted ++ key ∷ [] else emitted)

-- `rowRejections.sorted`
abbrev pub sorted_rejections : List Rejection → List Rejection
sorted_rejections rejections = sort_stable (λ a b. ltb a.row b.row) rejections

module _ {D : Type 0} ⦃dec : Decimal D⦄ (to_upper : Text → Text) (parse : Text → Option D)
    (max_storable : D) (to_string : D → Text) where
  unfoldable pub build_plan : ℕ → ImportTables D → List SheetRow → ImportPlan D × List Rejection
  build_plan inventory tables rows =
      let (invalid, quantities) = validate_rows to_upper parse max_storable rows rows [] [] in
      let unmatched = reject_rows (product_reason to_upper tables.products) rows invalid in
      let blocked = reject_rows (item_reason to_upper inventory tables) rows unmatched in
      let (rejections, planned) =
        plan_rows to_upper max_storable to_string inventory tables quantities rows blocked in
      (
        record {
          inventory_id = inventory;
          rows_read = length rows;
          rows = planned;
          new_units = ordered_units to_upper planned rows [];
          new_products = new_products planned;
        },
        sorted_rejections rejections,
      )
