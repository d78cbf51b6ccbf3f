-- ===== src/Import/Rejected.antt =====
-- A row of an import is planned exactly when it is not rejected.
use cim_backend.Prelude.{
  ℕ, ◌≡◌, ◌∙◌, refl, ap, sym, subst, inl, inr, Bool, true, false, Bool-cases, ◌||◌, not, ◌==◌,
  ==_refl, ==_iff, ltb, List, [], ◌∷◌, map, Text, Option, any, any-append, select, select-same, Map,
  lookup, insert_sorted, insert_all, sort_stable, Outcome-cases, arith,
}
use cim_backend.Decimal.{Decimal}
use cim_backend.Import.{SheetRow, RowReason, Rejection, is_failed, reject, validate_rows}
use cim_backend.Import.Lookups.{ImportTables, product_reason, item_reason, reject_rows}
use cim_backend.Import.Plan.{PlanRow, plan_row, plan_rows, build_plan}
use cim_backend.Import.Quantities.{AllGiven, validate_rows-AllGiven}
use cim_backend.Import.Planned.{plan_row-Fits}

abbrev pub DistinctRows : List SheetRow → Type 0
DistinctRows [] = Unit
DistinctRows (row ∷ rows) =
    (any (λ (r : SheetRow). r.sheet_row == row.sheet_row) rows ≡ false) × DistinctRows rows

or_false : (a b : Bool) → (a || b) ≡ false → (a ≡ false) × (b ≡ false)
or_false true b h = absurd (cc)
or_false false b h = (refl, h)

or_same : (a : Bool) (n : ℕ) → (a || (n == n)) ≡ true
or_same true n = refl
or_same false n = ==_refl n

is_failed-reject :
    (row other : SheetRow) (reason : RowReason) (rejections : List Rejection)
    → is_failed other (reject row reason rejections)
      ≡ (is_failed other rejections || (row.sheet_row == other.sheet_row))
unfolding reject
is_failed-reject row other reason rejections = elim (Bool-cases (is_failed row rejections)) [
  | inr new ↦ rw (new, reject) (any-append _ rejections _ ∙ ground arith)
  | inl failed ↦
      rw (failed, reject)
        (elim (Bool-cases (row.sheet_row == other.sheet_row)) [
          | inl same ↦
              let there =
                subst (λ k. any (λ (r : Rejection). r.row == k) rejections ≡ true)
                  ((==_iff row.sheet_row other.sheet_row).0 same) failed in
              rw there refl
          | inr apart ↦ rw apart (ground arith)
        ])
]

any-insert_sorted :
    {A : Type 0} (less : A → A → Bool) (p : A → Bool) (x : A) (ys : List A)
    → any p (insert_sorted less x ys) ≡ (p x || any p ys)
unfolding insert_sorted
any-insert_sorted less p x [] = refl
any-insert_sorted less p x (y ∷ ys) = elim (Bool-cases (less x y)) [
  | inl first ↦ rw (first, insert_sorted) refl
  | inr later ↦ rw (later, insert_sorted, any-insert_sorted less p x ys) (ground arith)
]

any-insert_all :
    {A : Type 0} (less : A → A → Bool) (p : A → Bool) (acc rest : List A)
    → any p (insert_all less acc rest) ≡ (any p acc || any p rest)
unfolding insert_all
any-insert_all less p acc [] = ground arith
any-insert_all less p acc (x ∷ rest) =
    any-insert_all less p (insert_sorted less x acc) rest
    ∙ rw (any-insert_sorted less p x acc) (ground arith)

any-sort_stable :
    {A : Type 0} (less : A → A → Bool) (p : A → Bool) (xs : List A)
    → any p (sort_stable less xs) ≡ any p xs
unfolding sort_stable
any-sort_stable less p xs = any-insert_all less p [] xs

module _ {D : Type 0} ⦃dec : Decimal D⦄ (to_upper : Text → Text) (parse : Text → Option D)
    (max_storable : D) (to_string : D → Text) (inventory : ℕ) (tables : ImportTables D)
    (quantities : Map D) where
  abbrev planned : List SheetRow → List Rejection → List Rejection × List (PlanRow D)
  planned rows rejections =
      plan_rows to_upper max_storable to_string inventory tables quantities rows rejections

  -- The loop over other rows leaves a row as it was.
  is_failed-plan_rows :
      (row : SheetRow) (rows : List SheetRow) (rejections : List Rejection)
      → any (λ (r : SheetRow). r.sheet_row == row.sheet_row) rows ≡ false
      → is_failed row (planned rows rejections).0 ≡ is_failed row rejections
  unfolding plan_rows
  is_failed-plan_rows row [] rejections apart = refl
  is_failed-plan_rows row (r ∷ rows) rejections apart =
      let (other, rest) = or_false (r.sheet_row == row.sheet_row) _ apart in
      elim (Bool-cases (is_failed r rejections)) [
        | inl failed ↦ rw (failed, plan_rows) (is_failed-plan_rows row rows rejections rest)
        | inr new ↦
            elim (Outcome-cases
              (plan_row to_upper max_storable to_string inventory tables quantities r)) [
                | inr (reason, bad) ↦
                    rw (new, bad, plan_rows)
                      (is_failed-plan_rows row rows (reject r reason rejections) rest
                        ∙ is_failed-reject r row reason rejections
                        ∙ rw other (ground arith))
                | inl (p, fine) ↦
                    rw (new, fine, plan_rows) (is_failed-plan_rows row rows rejections rest)
              ]
      ]

  -- What is planned is what is not rejected.
  abbrev Accounts : List SheetRow → List Rejection × List (PlanRow D) → Type 0
  Accounts rows z = map (λ p. p.src) z.1 ≡ select (λ r. not (is_failed r z.0)) rows

  plan_rows-Accounts :
      (rows : List SheetRow) (rejections : List Rejection)
      → AllGiven quantities
      → DistinctRows rows
      → Accounts rows (planned rows rejections)
  unfolding plan_rows
  plan_rows-Accounts [] rejections g d = refl
  plan_rows-Accounts (row ∷ rows) rejections g (apart, d) =
      let passed = planned rows rejections in
      elim (Bool-cases (is_failed row rejections)) [
        | inl failed ↦
            let out = is_failed-plan_rows row rows rejections apart ∙ failed in
            let step : planned (row ∷ rows) rejections ≡ passed = rw (failed, plan_rows) refl in
            subst (Accounts (row ∷ rows)) (sym step)
              (rw out (plan_rows-Accounts rows rejections g d))
        | inr new ↦
            elim (Outcome-cases
              (plan_row to_upper max_storable to_string inventory tables quantities row)) [
                | inr (reason, bad) ↦
                    let rejected = reject row reason rejections in
                    let out =
                      is_failed-plan_rows row rows rejected apart
                      ∙ is_failed-reject row row reason rejections
                      ∙ or_same (is_failed row rejections) row.sheet_row in
                    let step : planned (row ∷ rows) rejections ≡ planned rows rejected =
                      rw (new, bad, plan_rows) refl in
                    subst (Accounts (row ∷ rows)) (sym step)
                      (rw out (plan_rows-Accounts rows rejected g d))
                | inl (p, fine) ↦
                    let kept = is_failed-plan_rows row rows rejections apart ∙ new in
                    let same =
                      (plan_row-Fits to_upper parse max_storable to_string inventory tables
                        quantities row p g fine).1 in
                    let step : planned (row ∷ rows) rejections ≡ (passed.0, p ∷ passed.1) =
                      rw (new, fine, plan_rows) refl in
                    subst (Accounts (row ∷ rows)) (sym step)
                      (rw (kept, same) (ap (λ l. row ∷ l) (plan_rows-Accounts rows rejections g d)))
              ]
      ]

module _ {D : Type 0} ⦃dec : Decimal D⦄ (to_upper : Text → Text) (parse : Text → Option D)
    (max_storable : D) (to_string : D → Text) where
  -- Where the rows of a sheet have distinct numbers, the plan has exactly the rows that are not
  -- among the rejections, in the order of the sheet: none is lost, and none is planned and rejected.
  pub build_plan-rows :
      (inventory : ℕ) (tables : ImportTables D) (rows : List SheetRow)
      → DistinctRows rows
      → let result = build_plan to_upper parse max_storable to_string inventory tables rows in
        map (λ p. p.src) result.0.rows ≡ select (λ r. not (is_failed r result.1)) rows
  unfolding build_plan lookup
  build_plan-rows inventory tables rows distinct =
      let syntax = validate_rows to_upper parse max_storable rows rows [] [] in
      let blocked =
        reject_rows (item_reason to_upper inventory tables) rows
          (reject_rows (product_reason to_upper tables.products) rows syntax.0) in
      let result =
        plan_rows to_upper max_storable to_string inventory tables syntax.1 rows blocked in
      plan_rows-Accounts to_upper parse max_storable to_string inventory tables syntax.1 rows
        blocked
        (validate_rows-AllGiven to_upper parse max_storable rows rows [] [] (λ k q h. absurd (cc)))
        distinct
      ∙ select-same _ _ rows (λ r.
        ap not
          (sym (any-sort_stable (λ a b. ltb a.row b.row) (λ x. x.row == r.sheet_row) result.0)))
