-- ===== src/Store/Room.antt =====
-- When a change of a balance fits, so does its movement, and so does the change back.
use erp_stock.Base.{
  refl, some, eq_refl, ◌∙◌, ap, List, String, ◌≡◌, true, arith, Option-cases, Bool-cases, inl, inr,
}
use erp_stock.Float.Decimal.{
  Numeric, rounded, taken, numeric_le, add_numeric, sub_numeric, numeric_le-rounded,
  sub_numeric-taken, add_rest-add, add_numeric-ge,
}
use erp_stock.Store.Balances.Effects.{row_ok-nonneg}
use erp_stock.Base.Int.{int_laws, ◌+ℤ◌, ℤ, pos, ◌-ℤ◌, ◌≤ℤ◌}
use erp_stock.Domain.Errors.{Result, ok, err, insufficient, failure}
use erp_stock.Store.Tables.{
  put_balance, same_key, BalanceRow, Tables, find_balance, balance_ok, numeric_ok, warehouse_exists,
}
use erp_stock.Store.Rows.{find_balance-key, find_balance-put_balance}
use erp_stock.Store.Balances.{
  write_row, row_ok, insert_row, upsert_row, update_row, add_available, remove_available,
}
use erp_stock.Store.Valid.{IsValid, RowFits}
use erp_stock.Store.Valid.Balances.{found-All}

balance_ok-numeric_ok : (z : ℤ) → balance_ok z ≡ true → numeric_ok z ≡ true
unfolding balance_ok numeric_ok ◌-ℤ◌
balance_ok-numeric_ok z h = ground arith

-- `AddAvailable` succeeded: the quantity fits, and the warehouse is known.
pub add_available-room :
    (p w : String) (z : Numeric) (t : Tables)
    → IsValid t
    → (add_available p w z t).0 ≡ ok tt
    → (numeric_ok (rounded z) ≡ true) × (warehouse_exists w t.warehouses ≡ true)
unfolding add_available upsert_row insert_row
add_available-room p w z t v done = elim (Bool-cases (balance_ok (rounded z))) [
  | inr bad ↦ let stop : err failure ≡ ok tt = rw bad at done in cc
  | inl good ↦ elim (Option-cases (find_balance p w t.balances)) [
    | inr (r, found) ↦
        let fits = found-All (RowFits t) p w t.balances r v.rows_fit found in
        let key = find_balance-key p w t.balances r found in
        (balance_ok-numeric_ok (rounded z) good, rw key.1 at (fits.1))
    | inl missing ↦ elim (Bool-cases (warehouse_exists w t.warehouses)) [
      | inl known ↦ (balance_ok-numeric_ok (rounded z) good, known)
      | inr unknown ↦ let stop : err failure ≡ ok tt = rw (good, missing, unknown) at done in cc
    ]
  ]
]

-- What a successful `RemoveAvailable` of a quantity that is not negative found in its row.
room_of_row :
    (z : ℤ) (r : BalanceRow)
    → pos 0 ≤ℤ z
    → row_ok r ≡ true
    → z ≤ℤ r.available -ℤ r.reserved
    → balance_ok z ≡ true
unfolding balance_ok ◌-ℤ◌
room_of_row z r sign fits pass = ground arith

pub remove_available-room :
    (p w : String) (z : Numeric) (t : Tables)
    → pos 0 ≤ℤ rounded z
    → IsValid t
    → (remove_available p w z t).0 ≡ ok tt
    → (numeric_ok (rounded z) ≡ true) × (warehouse_exists w t.warehouses ≡ true)
unfolding remove_available update_row
remove_available-room p w z t sign v done = elim (Option-cases (find_balance p w t.balances)) [
  | inl missing ↦ let stop : err insufficient ≡ ok tt = rw (missing, update_row) at done in cc
  | inr (r, found) ↦ elim (Bool-cases (numeric_le z (r.available -ℤ r.reserved))) [
    | inr fail ↦ let stop : err insufficient ≡ ok tt = rw (found, fail, update_row) at done in cc
    | inl pass ↦
        let fits = found-All (RowFits t) p w t.balances r v.rows_fit found in
        let key = find_balance-key p w t.balances r found in
        (
          balance_ok-numeric_ok (rounded z)
              (room_of_row (rounded z) r sign fits.0 (numeric_le-rounded z _ pass)),
          rw key.1 at (fits.1),
        )
  ]
]

-- What was taken from a row can be put back, where the operand is no half.
add_back_fits :
    (z : Numeric) (r : BalanceRow)
    → pos 0 ≤ℤ rounded z
    → rounded z ≡ taken z
    → row_ok r ≡ true
    → row_ok (record r { available = sub_numeric r.available z }) ≡ true
    → row_ok (record r { available = add_numeric (sub_numeric r.available z) z }) ≡ true
unfolding balance_ok
add_back_fits z r sign same fits less =
    let low : pos 0 ≤ℤ sub_numeric r.available z =
      (row_ok-nonneg (record r { available = sub_numeric r.available z }) less).0 in
    let gone : sub_numeric r.available z ≡ r.available +ℤ (pos 0 -ℤ taken z) =
      sub_numeric-taken r.available z low in
    let up : pos 0 ≤ℤ add_numeric (sub_numeric r.available z) z =
      add_numeric-ge (sub_numeric r.available z) z low sign in
    let back : add_numeric (sub_numeric r.available z) z ≡ sub_numeric r.available z +ℤ rounded z =
      add_rest-add (sub_numeric r.available z) z.whole z.rest sign up in
    let whole : add_numeric (sub_numeric r.available z) z ≡ r.available =
      back ∙ rw (gone, same) (omega int_laws) in
    rw whole fits

add_available-ok :
    (p w : String) (z : Numeric) (n : BalanceRow) (u : Tables)
    → find_balance p w u.balances ≡ some n
    → balance_ok (rounded z) ≡ true
    → row_ok (record n { available = add_numeric n.available z }) ≡ true
    → (add_available p w z u).0 ≡ ok tt
unfolding add_available upsert_row write_row
add_available-ok p w z n u found fits row_fits = rw (fits, found, row_fits) refl

-- The row that a statement has written is the one found.
written_found :
    (p w : String) (n : BalanceRow) (rs : List BalanceRow)
    → n.product_id ≡ p
    → n.warehouse_id ≡ w
    → find_balance p w (put_balance n rs) ≡ some n
written_found p w n rs kp kw =
    let mine : same_key p w n ≡ true = rw (kp, kw, eq_refl p, eq_refl w) refl in
    find_balance-put_balance p w n rs ∙ rw mine refl

pub add_available_back :
    (p w : String) (z : Numeric) (t u : Tables)
    → pos 0 ≤ℤ rounded z
    → rounded z ≡ taken z
    → IsValid t
    → remove_available p w z t ≡ (ok tt, u)
    → (x : Tables) → x.balances ≡ u.balances
    → (add_available p w z x).0 ≡ ok tt
unfolding remove_available update_row write_row
add_available_back p w z t u sign no_half v done x same =
    elim (Option-cases (find_balance p w t.balances)) [
      | inl missing ↦
          let stop : ◌≡◌ {A = Result (Unit {0}) × Tables} (err insufficient, t) (ok tt, u) =
            rw (missing, update_row) at done in
          cc
      | inr (r, found) ↦ elim (Bool-cases (numeric_le z (r.available -ℤ r.reserved))) [
        | inr fail ↦
            let stop : ◌≡◌ {A = Result (Unit {0}) × Tables} (err insufficient, t) (ok tt, u) =
              rw (found, fail, update_row) at done in
            cc
        | inl pass ↦
            let n : BalanceRow = record r { available = sub_numeric r.available z } in
            let fits = found-All (RowFits t) p w t.balances r v.rows_fit found in
            let key = find_balance-key p w t.balances r found in
            elim (Bool-cases (row_ok n)) [
              | inr no_fit ↦
                  let stop : ◌≡◌ {A = Result (Unit {0}) × Tables} (err failure, t) (ok tt, u) =
                    rw (found, pass, no_fit, update_row) at done in
                  cc
              | inl fit ↦
                  let here : ◌≡◌ {A = Result (Unit {0}) × Tables}
                      (ok tt, record t { balances = put_balance n t.balances }) (ok tt, u) =
                    rw (found, pass, fit, update_row) at done in
                  let rows : put_balance n t.balances ≡ u.balances =
                    ap (λ (y : Result (Unit {0}) × Tables). y.1.balances) here in
                  (add_available-ok p w z n x
                    (rw (same, ← rows) (written_found p w n t.balances key.0 key.1))
                    (room_of_row (rounded z) r sign fits.0 (numeric_le-rounded z _ pass))
                    (add_back_fits z r sign no_half fits.0 fit))
            ]
      ]
    ]
