-- ===== src/Import/Quantities.antt =====
-- The quantities that the checks of a sheet accept are not negative.
use cim_backend.Prelude.{
  ℕ, ◌≡◌, subst, inl, inr, false, Bool-cases, ltb, Option, some, Option-cases, List, [], ◌∷◌, Text,
  text_eq, length, Map, lookup, lookup-put, put, Outcome-cases, passed_test, ok, ok-injective,
  arith,
}
use cim_backend.Decimal.{Decimal, is_negative_test, zero_value_parts}
use cim_backend.Import.{
  SheetRow, Rejection, reject, upper_trim, name_count, product_name_max_len, unit_name_max_len,
  parse_quantity, validate_row, validate_rows,
}

module _ {D : Type 0} ⦃dec : Decimal D⦄ where
  -- Quantities that are not negative.
  abbrev pub AllGiven : Map D → Type 0
  AllGiven m = (k : ℕ) (q : D) → lookup k m ≡ some q → dec.is_negative q ≡ false

module _ {D : Type 0} ⦃dec : Decimal D⦄ (to_upper : Text → Text) (parse : Text → Option D)
    (max_storable : D) where
  parse_quantity-fine :
      (raw : Text) (q : D)
      → parse_quantity parse max_storable raw ≡ ok q
      → dec.is_negative q ≡ false
  unfolding parse_quantity
  parse_quantity-fine raw q h = elim (Bool-cases (text_eq raw [])) [
    | inl empty ↦
        subst (λ x. dec.is_negative x ≡ false) (ok-injective (rw (parse_quantity, empty) at h))
          (ground (arith, is_negative_test dec.zero_value, zero_value_parts dec))
    | inr full ↦
        let h1 = rw (parse_quantity, full) at h in
        elim (Option-cases (parse raw)) [
          | inl bad ↦ absurd (cc (rw bad at h1))
          | inr (p, parsed) ↦
              let h2 = rw parsed at h1 in
              elim (Bool-cases (dec.is_negative p)) [
                | inl negative ↦ absurd (cc (rw negative at h2))
                | inr fine ↦
                    let h3 = rw fine at h2 in
                    elim (Bool-cases (dec.greater_than p max_storable)) [
                      | inl large ↦ absurd (cc (rw large at h3))
                      | inr fits ↦
                          subst (λ x. dec.is_negative x ≡ false) (ok-injective (rw fits at h3)) fine
                    ]
              ]
        ]
  ]

  validate_row-fine :
      (rows : List SheetRow) (row : SheetRow) (q : D)
      → validate_row to_upper parse max_storable rows row ≡ ok q
      → dec.is_negative q ≡ false
  unfolding validate_row
  validate_row-fine rows row q h =
      let key = upper_trim to_upper row.name in
      let named = (passed_test (text_eq row.name []) _ _ q h).1 in
      let single = (passed_test (ltb 1 (name_count to_upper key rows)) _ _ q named).1 in
      let short = (passed_test (ltb product_name_max_len (length row.name)) _ _ q single).1 in
      let has_unit = (passed_test (text_eq row.unit []) _ _ q short).1 in
      parse_quantity-fine row.raw_quantity q
        (passed_test (ltb unit_name_max_len (length row.unit)) _ _ q has_unit).1

  pub validate_rows-AllGiven :
      (all rows : List SheetRow) (rejections : List Rejection) (m : Map D)
      → AllGiven m
      → AllGiven (validate_rows to_upper parse max_storable all rows rejections m).1
  unfolding validate_rows
  validate_rows-AllGiven all [] rejections m g = g
  validate_rows-AllGiven all (row ∷ rows) rejections m g =
      elim (Outcome-cases (validate_row to_upper parse max_storable all row)) [
        | inr (reason, bad) ↦
            rw (bad, validate_rows)
              (validate_rows-AllGiven all rows (reject row reason rejections) m g)
        | inl (q, fine) ↦
            rw (fine, validate_rows)
              (validate_rows-AllGiven all rows rejections (put row.sheet_row q m) (λ k p found.
                ground (
                  arith,
                  lookup-put row.sheet_row k q m,
                  found,
                  g k p,
                  validate_row-fine all row q fine,
                )))
      ]
