-- ===== src/Float.antt =====
-- What the code does with a `float64`: the constants 0, 1 and 100, two comparisons, the four
-- operations, and the driver's conversion to and from the NUMERIC of the database: it sends every
-- decimal, and reads columns of whole ten-thousandths. Every model is generic in it, so no law of exact
-- arithmetic is assumed of the machine's floats.
pub mod Decimal
use erp_stock.Float.Decimal.{Numeric, no_rest, rounded}
use erp_stock.Base.{◌*◌, ◌/◌, Bool}
use erp_stock.Base.Int.{ℤ, pos, pos_part, ◌+ℤ◌, ◌-ℤ◌, leb_ℤ, ltb_ℤ}

pub record Float (F : Type 0) : Type 0 where
  pub nought : F
  pub one : F
  pub hundred : F
  pub le : F → F → Bool
  pub lt : F → F → Bool
  pub add : F → F → F
  pub sub : F → F → F
  pub mul : F → F → F
  pub div : F → F → F
  pub exact : F → Numeric
  pub of_numeric : ℤ → F

-- The number as a NUMERIC(15,4) column holds it.
abbrev pub to_numeric : {F : Type 0} ⦃fl : Float F⦄ → F → ℤ
to_numeric ⦃fl⦄ x = rounded (fl.exact x)

-- `x <= 0` and `x > 0`.
abbrev pub is_nonpos : {F : Type 0} ⦃fl : Float F⦄ → F → Bool
is_nonpos ⦃fl⦄ x = fl.le x fl.nought

abbrev pub is_pos : {F : Type 0} ⦃fl : Float F⦄ → F → Bool
is_pos ⦃fl⦄ x = fl.lt fl.nought x

-- Whole ten-thousandths, a value type at which the theorems are instantiated. Only its values that
-- are not negative are multiplied and divided in the instances.
abbrev fixed_mul : ℤ → ℤ → ℤ
fixed_mul a b = pos ((pos_part a * pos_part b) / 10_000)

abbrev fixed_div : ℤ → ℤ → ℤ
fixed_div a b = pos ((pos_part a * 10_000) / pos_part b)

instance abbrev pub fixed_float : Float ℤ
fixed_float = record {
  nought = pos 0;
  one = pos 10_000;
  hundred = pos 1_000_000;
  le = leb_ℤ;
  lt = ltb_ℤ;
  add = ◌+ℤ◌;
  sub = ◌-ℤ◌;
  mul = fixed_mul;
  div = fixed_div;
  exact = λ x. record { whole = x; rest = no_rest };
  of_numeric = λ x. x;
}
