-- ===== src/Import/Lookups.antt =====
-- What the rows of a sheet are matched with: `resolveUnits`, `resolveProducts` and `resolveItems`.
use cim_backend.Prelude.{
  ℕ, Bool, true, false, ◌&&◌, ◌||◌, not, ◌==◌, Option, none, some, List, [], ◌∷◌, Text, text_eq,
  length, find, select, if◌then◌else◌,
}
use cim_backend.Import.{
  SheetRow, RowReason, Rejection, is_failed, reject, upper_trim, product_ambiguous, product_deleted,
  item_soft_deleted, item_inactive,
}

pub record StockUnit : Type 0 where
  pub id : ℕ
  pub is_deleted : Bool
  pub is_general : Bool
  pub name : Text
  pub symbol : Text
  pub decimal_places : ℕ

pub record StockProduct : Type 0 where
  pub id : ℕ
  pub is_deleted : Bool
  pub name : Text
  pub product_type : Text
  pub unit_id : ℕ

pub record StockItem (D : Type 0) : Type 0 where
  pub id : ℕ
  pub is_deleted : Bool
  pub has_active_status : Bool
  pub inventory_id : ℕ
  pub product_id : ℕ
  pub quantity : D
  pub unit_id : ℕ

-- The tables, deleted rows and all: the queries are unscoped.
pub record ImportTables (D : Type 0) : Type 0 where
  pub units : List StockUnit
  pub products : List StockProduct
  pub items : List (StockItem D)

-- `unitLookup`
pub record UnitLookup : Type 0 where
  pub match : Option StockUnit
  pub ambiguous : ℕ
  pub deleted_id : Option ℕ

-- The outcome for the live units that answer to a label, and the first deleted one.
abbrev pub unit_lookup : List StockUnit → Option StockUnit → UnitLookup
unit_lookup [] blocker = record {
  match = none;
  ambiguous = 0;
  deleted_id = elim blocker [ none ↦ none | some u ↦ some u.id ];
}
unit_lookup (u ∷ []) blocker = record { match = some u; ambiguous = 0; deleted_id = none }
unit_lookup (u ∷ v ∷ us) blocker = record {
  match = none;
  ambiguous = length (u ∷ v ∷ us);
  deleted_id = none;
}

module _ (to_upper : Text → Text) where
  unfoldable pub unit_label_matches : Text → StockUnit → Bool
  unit_label_matches label u =
      text_eq label (upper_trim to_upper u.name) || text_eq label (upper_trim to_upper u.symbol)

  abbrev pub answers : Text → StockUnit → Bool
  answers label u = u.is_general && unit_label_matches label u

  -- `resolveUnits` at a label.
  unfoldable pub resolve_unit : List StockUnit → Text → UnitLookup
  resolve_unit units label =
      if text_eq label []
      then record { match = none; ambiguous = 0; deleted_id = none }
      else unit_lookup (select (λ u. not u.is_deleted && answers label u) units)
          (find (λ u. u.is_deleted && answers label u) units)

  abbrev pub named_products : Bool → List StockProduct → Text → List StockProduct
  named_products deleted products key =
      if text_eq key []
      then []
      else select
          (λ (p : StockProduct).
            (if deleted then p.is_deleted else not p.is_deleted)
            && text_eq (upper_trim to_upper p.name) key)
          products

  -- The one live product with the name.
  unfoldable pub matched_product : List StockProduct → Text → Option StockProduct
  matched_product products key = elim (named_products false products key) [
    | [] ↦ none
    | ◌∷◌ p ps ↦ elim ps [ [] ↦ some p | ◌∷◌ q qs ↦ none ]
  ]

  -- Why a row's product is rejected, in `resolveProducts`.
  unfoldable pub product_reason : List StockProduct → SheetRow → Option RowReason
  product_reason products row =
      let key = upper_trim to_upper row.name in
      elim (named_products false products key) [
        | [] ↦ elim (named_products true products key) [
          | [] ↦ none
          | ◌∷◌ p ps ↦ some product_deleted
        ]
        | ◌∷◌ p ps ↦ elim ps [ [] ↦ none | ◌∷◌ q qs ↦ some product_ambiguous ]
      ]

-- The last that passes: a map keeps it.
abbrev pub find_last : {A : Type 0} → (A → Bool) → List A → Option A
find_last p [] = none
find_last p (x ∷ xs) = elim (find_last p xs) [
  | some y ↦ some y
  | none ↦ if p x then some x else none
]

module _ {D : Type 0} (to_upper : Text → Text) (inventory : ℕ) (tables : ImportTables D) where
  abbrev pub product_items : StockProduct → List (StockItem D)
  product_items p =
      select (λ (i : StockItem D). i.inventory_id == inventory && i.product_id == p.id) tables.items

  -- The active item of a name.
  unfoldable pub active_item : Text → Option (StockItem D)
  active_item key = elim (matched_product to_upper tables.products key) [
    | none ↦ none
    | some p ↦
        find_last (λ (i : StockItem D). not i.is_deleted && i.has_active_status) (product_items p)
  ]

  -- Why a row's item is rejected, in `resolveItems`.
  unfoldable pub item_reason : SheetRow → Option RowReason
  item_reason row =
      let key = upper_trim to_upper row.name in
      elim (active_item key) [
        | some i ↦ none
        | none ↦ elim (matched_product to_upper tables.products key) [
          | none ↦ none
          | some p ↦
              elim (find_last (λ (i : StockItem D). i.is_deleted || not i.has_active_status)
                (product_items p)) [
                  | none ↦ none
                  | some i ↦ some (if i.is_deleted then item_soft_deleted else item_inactive)
                ]
        ]
      ]

-- A loop over the rows that have not failed, which rejects those with a reason.
unfoldable pub reject_rows :
    (SheetRow → Option RowReason) → List SheetRow → List Rejection → List Rejection
reject_rows reason [] rejections = rejections
reject_rows reason (row ∷ rows) rejections = reject_rows reason rows (
    if is_failed row rejections
    then rejections
    else elim (reason row) [ none ↦ rejections | some r ↦ reject row r rejections ])
