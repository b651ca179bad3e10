-- ===== src/Store/Balances/Effects.antt =====
-- What the statements on stock_balances do to the quantities that a reader of the table sees.
use erp_stock.Base.{
  String, ◌==◌, eq_iff, ◌≡◌, refl, ◌∙◌, Bool, true, ◌&&◌, Option, none, some, if◌then◌else◌, arith,
  Option-cases, Bool-cases, inl, inr,
}
use erp_stock.Float.Decimal.{
  Numeric, rounded, add_numeric, sub_numeric, taken, add_rest-add, sub_numeric-taken,
}
use erp_stock.Base.Int.{ℤ, pos, ◌+ℤ◌, ◌-ℤ◌, ◌≤ℤ◌, int_laws}
use erp_stock.Domain.Errors.{Result, ok, err}
use erp_stock.Store.Tables.{
  BalanceRow, Tables, same_key, find_balance, put_balance, balance_ok, warehouse_exists,
}
use erp_stock.Store.Rows.{find_balance-key, find_balance-put_balance}
use erp_stock.Store.Balances.{
  row_ok, write_row, insert_row, upsert_row, update_row, add_available, remove_available,
}

-- The quantities of a row, and 0 where there is none.
abbrev pub row_available : Option BalanceRow → ℤ
row_available none = pos 0
row_available (some r) = r.available

abbrev pub row_reserved : Option BalanceRow → ℤ
row_reserved none = pos 0
row_reserved (some r) = r.reserved

unfoldable pub available : String → String → Tables → ℤ
available p w t = row_available (find_balance p w t.balances)

unfoldable pub reserved : String → String → Tables → ℤ
reserved p w t = row_reserved (find_balance p w t.balances)

abbrev pub at_key : String → String → String → String → ℤ → ℤ
at_key p w q v z = if p == q && w == v then z else pos 0

-- The available quantity of one product in one warehouse has moved by `d`, the reserved one by `e`;
-- all other quantities and the other tables are as before.
pub record Shifts (p w : String) (d e : ℤ) (t u : Tables) : Type 0 where
  pub moved : (q v : String) → available q v u ≡ available q v t +ℤ at_key p w q v d
  pub held : (q v : String) → reserved q v u ≡ reserved q v t +ℤ at_key p w q v e
  pub same_warehouses : u.warehouses ≡ t.warehouses
  pub same_reservations : u.reservations ≡ t.reservations
  pub same_movements : u.movements ≡ t.movements
  pub same_clock : u.clock ≡ t.clock

-- A quantity that is `y` at the key and as before elsewhere has moved by the difference at the key.
if_key-eq-add :
    (f : String → String → ℤ) (p w q v : String) (y d : ℤ)
    → y ≡ f p w +ℤ d
    → (if p == q && w == v then y else f q v) ≡ f q v +ℤ at_key p w q v d
if_key-eq-add f p w q v y d h = elim (Bool-cases (p == q && w == v)) [
  | inl s ↦
      let same : (p ≡ q) × (w ≡ v) = ground (arith, eq_iff p q, eq_iff w v) in
      rw s (rw (h, same.0, same.1))
  | inr s ↦ rw s (omega int_laws)
]

available-put_balance :
    (q v : String) (n : BalanceRow) (t : Tables)
    → available q v (record t { balances = put_balance n t.balances })
      ≡ (if same_key q v n then n.available else available q v t)
unfolding available
available-put_balance q v n t = rw find_balance-put_balance (ground arith)

reserved-put_balance :
    (q v : String) (n : BalanceRow) (t : Tables)
    → reserved q v (record t { balances = put_balance n t.balances })
      ≡ (if same_key q v n then n.reserved else reserved q v t)
unfolding reserved
reserved-put_balance q v n t = rw find_balance-put_balance (ground arith)

put_balance-Shifts :
    (d e : ℤ) (t : Tables) (n : BalanceRow)
    → n.available ≡ available n.product_id n.warehouse_id t +ℤ d
    → n.reserved ≡ reserved n.product_id n.warehouse_id t +ℤ e
    → Shifts n.product_id n.warehouse_id d e t (record t { balances = put_balance n t.balances })
put_balance-Shifts d e t n ha hr = record {
  moved = λ q v.
      rw (available-put_balance q v n t)
        (if_key-eq-add (λ a b. available a b t) n.product_id n.warehouse_id q v n.available d ha);
  held = λ q v.
      rw (reserved-put_balance q v n t)
        (if_key-eq-add (λ a b. reserved a b t) n.product_id n.warehouse_id q v n.reserved e hr);
  same_warehouses = refl;
  same_reservations = refl;
  same_movements = refl;
  same_clock = refl;
}

-- A statement that failed has changed nothing, and one that succeeded has made the shift.
abbrev pub ShiftsOrFails : String → String → ℤ → ℤ → Tables → Result (Unit {0}) × Tables → Type 0
ShiftsOrFails p w d e t (ok _, u) = Shifts p w d e t u
ShiftsOrFails p w d e t (err _, u) = u ≡ t

balance_ok-nonneg : (z : ℤ) → balance_ok z ≡ true → pos 0 ≤ℤ z
unfolding balance_ok
balance_ok-nonneg z h = ground arith

-- A row that is written holds no negative quantity.
pub row_ok-nonneg :
    (r : BalanceRow) → row_ok r ≡ true → (pos 0 ≤ℤ r.available) × (pos 0 ≤ℤ r.reserved)
row_ok-nonneg r h =
    let both : (balance_ok r.available ≡ true) × (balance_ok r.reserved ≡ true) = ground arith in
    (balance_ok-nonneg r.available both.0, balance_ok-nonneg r.reserved both.1)

module _ (p w : String) (d e : ℤ) (t : Tables) where
  write_row-ShiftsOrFails :
      (r n : BalanceRow)
      → find_balance p w t.balances ≡ some r
      → n.product_id ≡ r.product_id
      → n.warehouse_id ≡ r.warehouse_id
      → (row_ok n ≡ true → n.available ≡ r.available +ℤ d)
      → (row_ok n ≡ true → n.reserved ≡ r.reserved +ℤ e)
      → ShiftsOrFails p w d e t (write_row n t)
  unfolding write_row available reserved
  write_row-ShiftsOrFails r n found kp kw ha hr =
      let (rp, rw_) = find_balance-key p w t.balances r found in
      let np : n.product_id ≡ p = kp ∙ rp in
      let nw : n.warehouse_id ≡ w = kw ∙ rw_ in
      elim (Bool-cases (row_ok n)) [
        | inl fits ↦
            rw (fits, ← np, ← nw)
              (put_balance-Shifts d e t n (rw (np, nw, found) (ha fits))
                (rw (np, nw, found) (hr fits)))
        | inr no_fit ↦ rw no_fit
      ]

  insert_row-ShiftsOrFails :
      find_balance p w t.balances ≡ none → e ≡ pos 0 → ShiftsOrFails p w d e t (insert_row p w d t)
  unfolding insert_row available reserved
  insert_row-ShiftsOrFails missing none_held = elim (Bool-cases (warehouse_exists w t.warehouses)) [
    | inl known ↦ rw known (
        put_balance-Shifts d e t
          (record { product_id = p; warehouse_id = w; available = d; reserved = pos 0 })
          (rw missing (omega int_laws)) (rw (missing, none_held) (omega int_laws)))
    | inr unknown ↦ rw unknown
  ]

-- `AddAvailable` raises the available quantity, from 0 where the product was not in the warehouse.
pub add_available-ShiftsOrFails :
    (p w : String) (z : Numeric) (t : Tables)
    → ShiftsOrFails p w (rounded z) (pos 0) t (add_available p w z t)
unfolding add_available upsert_row
add_available-ShiftsOrFails p w z t = elim (Bool-cases (balance_ok (rounded z))) [
  | inr bad ↦ rw bad
  | inl good ↦ elim (Option-cases (find_balance p w t.balances)) [
    | inl e ↦ rw (good, e) (insert_row-ShiftsOrFails p w (rounded z) (pos 0) t e refl)
    | inr (r, e) ↦
        rw (good, e)
          (write_row-ShiftsOrFails p w (rounded z) (pos 0) t r
            (record r { available = add_numeric r.available z }) e refl refl
            (λ fits.
              add_rest-add r.available z.whole z.rest (balance_ok-nonneg (rounded z) good)
                (row_ok-nonneg (record r { available = add_numeric r.available z }) fits).0)
            (λ fits. omega int_laws))
  ]
]

module _ (p w : String) (d e : ℤ) (guard : BalanceRow → Bool) (change : BalanceRow → BalanceRow)
    (keeps_product : (r : BalanceRow) → (change r).product_id ≡ r.product_id)
    (keeps_warehouse : (r : BalanceRow) → (change r).warehouse_id ≡ r.warehouse_id)
    (adds : (r : BalanceRow) → row_ok (change r) ≡ true → (change r).available ≡ r.available +ℤ d)
    (holds : (r : BalanceRow)
      → row_ok (change r) ≡ true
      → (change r).reserved ≡ r.reserved +ℤ e) where
  update_row-ShiftsOrFails : (t : Tables) → ShiftsOrFails p w d e t (update_row p w guard change t)
  unfolding update_row
  update_row-ShiftsOrFails t = elim (Option-cases (find_balance p w t.balances)) [
    | inl missing ↦ rw (missing, update_row) refl
    | inr (r, found) ↦ elim (Bool-cases (guard r)) [
      | inl pass ↦
          rw (found, pass, update_row)
            (write_row-ShiftsOrFails p w d e t r (change r) found (keeps_product r)
              (keeps_warehouse r) (adds r) (holds r))
      | inr stop ↦ rw (found, stop, update_row) refl
    ]
  ]

-- `RemoveAvailable` lowers it, by the operand with a half rounded down.
pub remove_available-ShiftsOrFails :
    (p w : String) (z : Numeric) (t : Tables)
    → ShiftsOrFails p w (pos 0 -ℤ taken z) (pos 0) t (remove_available p w z t)
unfolding remove_available
remove_available-ShiftsOrFails p w z t =
    update_row-ShiftsOrFails p w (pos 0 -ℤ taken z) (pos 0) _ _ (λ r. refl) (λ r. refl)
      (λ r fits.
        sub_numeric-taken r.available z
          (row_ok-nonneg (record r { available = sub_numeric r.available z }) fits).0)
      (λ r fits. omega int_laws) t
