-- ===== src/Float/Decimal.antt =====
-- A number as the driver sends it, with every decimal of the float64, and what a statement does with
-- it: NUMERIC arithmetic is exact, and only what is written to a NUMERIC(15,4) column is rounded, a
-- half away from zero.
use erp_stock.Base.{◌≡◌, refl, Bool, true, if◌then◌else◌, Bool-cases, inl, inr}
use erp_stock.Base.Int.{ℤ, pos, ◌+ℤ◌, ◌-ℤ◌, ◌≤ℤ◌, leb_ℤ, int_laws}

-- The part of a ten-thousandth beyond the whole ones.
pub data Rest : Type 0 where
  no_rest : Rest
  under_half : Rest
  one_half : Rest
  over_half : Rest

-- `whole` ten-thousandths and the rest, which is never negative.
pub record Numeric : Type 0 where
  pub whole : ℤ
  pub rest : Rest

-- The ten-thousandths that are stored for a sum, and for a difference.
unfoldable pub add_rest : ℤ → Rest → ℤ
add_rest x no_rest = x
add_rest x under_half = x
add_rest x one_half = if leb_ℤ (pos 0) x then x +ℤ pos 1 else x
add_rest x over_half = x +ℤ pos 1

unfoldable pub sub_rest : ℤ → Rest → ℤ
sub_rest x no_rest = x
sub_rest x under_half = x
sub_rest x one_half = if leb_ℤ (pos 1) x then x else x -ℤ pos 1
sub_rest x over_half = x -ℤ pos 1

abbrev pub rounded : Numeric → ℤ
rounded z = add_rest z.whole z.rest

abbrev pub add_numeric : ℤ → Numeric → ℤ
add_numeric x z = add_rest (x +ℤ z.whole) z.rest

abbrev pub sub_numeric : ℤ → Numeric → ℤ
sub_numeric x z = sub_rest (x -ℤ z.whole) z.rest

abbrev rest_le : ℤ → Rest → Bool
rest_le x no_rest = leb_ℤ (pos 0) x
rest_le x _ = leb_ℤ (pos 1) x

-- The number is at most so many ten-thousandths.
unfoldable pub numeric_le : Numeric → ℤ → Bool
numeric_le z x = rest_le (x -ℤ z.whole) z.rest

-- What a subtraction that stays above zero takes: a half is rounded down.
abbrev taken_rest : ℤ → Rest → ℤ
taken_rest x over_half = x +ℤ pos 1
taken_rest x _ = x

unfoldable pub taken : Numeric → ℤ
taken z = taken_rest z.whole z.rest

pub add_rest-add :
    (a x : ℤ) (r : Rest)
    → pos 0 ≤ℤ add_rest x r
    → pos 0 ≤ℤ add_rest (a +ℤ x) r
    → add_rest (a +ℤ x) r ≡ a +ℤ add_rest x r
unfolding add_rest
add_rest-add a x no_rest h k = refl
add_rest-add a x under_half h k = refl
add_rest-add a x over_half h k = omega int_laws
add_rest-add a x one_half h k = elim (Bool-cases (leb_ℤ (pos 0) x)) [
  | inl p ↦ elim (Bool-cases (leb_ℤ (pos 0) (a +ℤ x))) [
    | inl q ↦ rw (p, q) (omega int_laws)
    | inr q ↦ let k1 = rw q at k in omega int_laws
  ]
  | inr p ↦ let h1 = rw p at h in omega int_laws
]

pub add_numeric-ge :
    (a : ℤ) (z : Numeric) → pos 0 ≤ℤ a → pos 0 ≤ℤ rounded z → pos 0 ≤ℤ add_numeric a z
unfolding add_rest
add_numeric-ge a z h k = go z.rest k
  where
    go : (r : Rest) → pos 0 ≤ℤ add_rest z.whole r → pos 0 ≤ℤ add_rest (a +ℤ z.whole) r
    go no_rest g = omega int_laws
    go under_half g = omega int_laws
    go over_half g = omega int_laws
    go one_half g = elim (Bool-cases (leb_ℤ (pos 0) z.whole)) [
      | inl p ↦ elim (Bool-cases (leb_ℤ (pos 0) (a +ℤ z.whole))) [
        | inl q ↦ rw q (omega int_laws)
        | inr q ↦ rw q (omega int_laws)
      ]
      | inr p ↦ let g1 = rw p at g in omega int_laws
    ]

pub sub_numeric-taken :
    (a : ℤ) (z : Numeric) → pos 0 ≤ℤ sub_numeric a z → sub_numeric a z ≡ a +ℤ (pos 0 -ℤ taken z)
unfolding sub_rest taken
sub_numeric-taken a z h = go z.rest h
  where
    go :
        (r : Rest)
        → pos 0 ≤ℤ sub_rest (a -ℤ z.whole) r
        → sub_rest (a -ℤ z.whole) r ≡ a +ℤ (pos 0 -ℤ taken_rest z.whole r)
    go no_rest k = omega int_laws
    go under_half k = omega int_laws
    go over_half k = omega int_laws
    go one_half k = elim (Bool-cases (leb_ℤ (pos 1) (a -ℤ z.whole))) [
      | inl p ↦ rw p (omega int_laws)
      | inr p ↦ let k1 = rw p at k in omega int_laws
    ]

-- What is stored and what is taken differ by one ten-thousandth at most, on a half.
pub rounded-taken : (z : Numeric) → (taken z ≤ℤ rounded z) × (rounded z ≤ℤ taken z +ℤ pos 1)
unfolding add_rest taken
rounded-taken z = go z.rest
  where
    go :
        (r : Rest)
        → (taken_rest z.whole r ≤ℤ add_rest z.whole r)
          × (add_rest z.whole r ≤ℤ taken_rest z.whole r +ℤ pos 1)
    go no_rest = (omega int_laws, omega int_laws)
    go under_half = (omega int_laws, omega int_laws)
    go over_half = (omega int_laws, omega int_laws)
    go one_half = elim (Bool-cases (leb_ℤ (pos 0) z.whole)) [
      | inl p ↦ rw p (omega int_laws, omega int_laws)
      | inr p ↦ rw p (omega int_laws, omega int_laws)
    ]

pub numeric_le-rounded : (z : Numeric) (x : ℤ) → numeric_le z x ≡ true → rounded z ≤ℤ x
unfolding numeric_le add_rest
numeric_le-rounded z x h = go z.rest h
  where
    go : (r : Rest) → rest_le (x -ℤ z.whole) r ≡ true → add_rest z.whole r ≤ℤ x
    go no_rest k = omega int_laws
    go under_half k = omega int_laws
    go over_half k = omega int_laws
    go one_half k = elim (Bool-cases (leb_ℤ (pos 0) z.whole)) [
      | inl p ↦ rw p (omega int_laws)
      | inr p ↦ rw p (omega int_laws)
    ]
