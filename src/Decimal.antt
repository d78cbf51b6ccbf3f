-- ===== src/Decimal.antt =====
-- The decimal numbers of github.com/shopspring/decimal, which the program imports: an interface.
-- D stands for the decimals with at most a fixed number of places. `units` counts the last of those
-- places, so Add, Sub and Neg are exact on it and the tests compare by value, as documented there.
use cim_backend.Prelude.{
  List, [], ◌∷◌, Text, split, length, ℕ, ◌+◌, ◌≡◌, refl, ◌⊎◌, Bool, arith, ltb, ◌==◌, ℤ, pos,
  pos_part, neg_part, ◌+ℤ◌, ◌-ℤ◌, ltb_ℤ, eqb_ℤ, +ℤ_parts, -ℤ_parts, one_sided, eq_of_parts,
}

pub record Decimal (D : Type 0) : Type 0 where
  pub units : D → ℤ
  pub zero_value : D
  pub add : D → D → D
  pub sub : D → D → D
  pub neg : D → D
  pub is_zero : D → Bool
  pub is_negative : D → Bool
  pub is_positive : D → Bool
  pub greater_than : D → D → Bool
  pub less_than : D → D → Bool
  pub equal : D → D → Bool
  pub units-zero_value : units zero_value ≡ pos 0
  pub units-add : (a b : D) → units (add a b) ≡ units a +ℤ units b
  pub units-sub : (a b : D) → units (sub a b) ≡ units a -ℤ units b
  pub units-neg : (a : D) → units (neg a) ≡ pos 0 -ℤ units a
  pub is_zero-eq : (a : D) → is_zero a ≡ eqb_ℤ (units a) (pos 0)
  pub is_negative-eq : (a : D) → is_negative a ≡ ltb_ℤ (units a) (pos 0)
  pub is_positive-eq : (a : D) → is_positive a ≡ ltb_ℤ (pos 0) (units a)
  pub greater_than-eq : (a b : D) → greater_than a b ≡ ltb_ℤ (units b) (units a)
  pub less_than-eq : (a b : D) → less_than a b ≡ ltb_ℤ (units a) (units b)
  pub equal-eq : (a b : D) → equal a b ≡ eqb_ℤ (units a) (units b)

-- `pkg.DecimalPlaces`, by the decimal's `String()`: 46 is the point.
unfoldable pub decimal_places : {D : Type 0} → (D → Text) → D → ℕ
decimal_places to_string d = elim (split 46 (to_string d)) [
  | [] ↦ 0
  | whole ∷ parts ↦ elim parts [ [] ↦ 0 | places ∷ more ↦ length places ]
]

-- The two parts of a value: its units above zero, and its units below zero.
module _ {D : Type 0} ⦃dec : Decimal D⦄ where
  unfoldable pub plus : D → ℕ
  plus a = pos_part (dec.units a)

  unfoldable pub minus : D → ℕ
  minus a = neg_part (dec.units a)

  -- A value is not on both sides of zero.
  pub sides : (a : D) → (plus a ≡ 0) ⊎ (minus a ≡ 0)
  unfolding plus minus
  sides a = one_sided (dec.units a)

  pub add_parts :
      (a b : D) → plus (dec.add a b) + minus a + minus b ≡ minus (dec.add a b) + plus a + plus b
  unfolding plus minus
  add_parts a b = rw dec.units-add (+ℤ_parts (dec.units a) (dec.units b))

  pub sub_parts :
      (a b : D) → plus (dec.sub a b) + minus a + plus b ≡ minus (dec.sub a b) + plus a + minus b
  unfolding plus minus
  sub_parts a b = rw dec.units-sub (-ℤ_parts (dec.units a) (dec.units b))

  pub neg_parts : (a : D) → plus (dec.neg a) + plus a ≡ minus (dec.neg a) + minus a
  unfolding plus minus
  neg_parts a = rw dec.units-neg (omega (arith, -ℤ_parts (pos 0) (dec.units a)))

  -- The tests, read on the parts.
  pub is_zero_test : (a : D) → dec.is_zero a ≡ (plus a == minus a)
  unfolding plus minus
  is_zero_test a = rw dec.is_zero-eq (ground arith)

  pub is_negative_test : (a : D) → dec.is_negative a ≡ ltb (plus a) (minus a)
  unfolding plus minus
  is_negative_test a = rw dec.is_negative-eq (ground arith)

  pub is_positive_test : (a : D) → dec.is_positive a ≡ ltb (minus a) (plus a)
  unfolding plus minus
  is_positive_test a = rw dec.is_positive-eq (ground arith)

  pub greater_than_test :
      (a b : D) → dec.greater_than a b ≡ ltb (plus b + minus a) (plus a + minus b)
  unfolding plus minus
  greater_than_test a b = dec.greater_than-eq a b

  pub less_than_test : (a b : D) → dec.less_than a b ≡ ltb (plus a + minus b) (plus b + minus a)
  unfolding plus minus
  less_than_test a b = dec.less_than-eq a b

  pub equal_test : (a b : D) → dec.equal a b ≡ (plus a + minus b == plus b + minus a)
  unfolding plus minus
  equal_test a b = dec.equal-eq a b

module _ {D : Type 0} ⦃dec : Decimal D⦄ where
  -- q is i - p + c.
  pub units-moved :
      (q i p c : D)
      → plus q + minus i + plus p + minus c ≡ minus q + plus i + minus p + plus c
      → dec.units q ≡ dec.units i -ℤ dec.units p +ℤ dec.units c
  unfolding plus minus
  units-moved q i p c h =
      let diff = dec.units i -ℤ dec.units p in
      eq_of_parts (dec.units q) (diff +ℤ dec.units c)
        (omega (arith, h, -ℤ_parts (dec.units i) (dec.units p), +ℤ_parts diff (dec.units c)))

pub zero_value_parts :
    {D : Type 0} (dec : Decimal D)
    → (plus ⦃dec = dec⦄ dec.zero_value ≡ 0) × (minus ⦃dec = dec⦄ dec.zero_value ≡ 0)
unfolding plus minus
zero_value_parts dec = rw dec.units-zero_value (refl, refl)

pub ruleset decimal_laws = (
  arith, sides, zero_value_parts, add_parts, sub_parts, neg_parts, is_zero_test, is_negative_test,
  is_positive_test, greater_than_test, less_than_test, equal_test,
)

-- Whole numbers are such decimals.
instance abbrev pub int_decimal : Decimal ℤ
int_decimal = record {
  units = λ a. a;
  zero_value = pos 0;
  add = ◌+ℤ◌;
  sub = ◌-ℤ◌;
  neg = λ a. pos 0 -ℤ a;
  is_zero = λ a. eqb_ℤ a (pos 0);
  is_negative = λ a. ltb_ℤ a (pos 0);
  is_positive = λ a. ltb_ℤ (pos 0) a;
  greater_than = λ a b. ltb_ℤ b a;
  less_than = ltb_ℤ;
  equal = eqb_ℤ;
  units-zero_value = refl;
  units-add = λ a b. refl;
  units-sub = λ a b. refl;
  units-neg = λ a. refl;
  is_zero-eq = λ a. refl;
  is_negative-eq = λ a. refl;
  is_positive-eq = λ a. refl;
  greater_than-eq = λ a b. refl;
  less_than-eq = λ a b. refl;
  equal-eq = λ a b. refl;
}

-- float64, which the code here only copies and sets to 0.
pub record Float64 (F : Type 0) : Type 0 where
  pub float_zero : F
