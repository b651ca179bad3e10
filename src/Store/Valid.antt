-- ===== src/Store/Valid.antt =====
-- The constraints of the tables as an invariant, kept by every statement.
pub mod Balances
pub mod Reservations
use erp_stock.Base.{
  String, ◌==◌, eq_iff, ◌≡◌, refl, ap, Bool, true, false, ◌&&◌, ◌||◌, Option, none, some, List, [],
  ◌∷◌, All, if◌then◌else◌, arith, Option-cases, Bool-cases, inl, inr, contains,
}
use erp_stock.Base.Int.{ℤ, pos, ◌+ℤ◌, ◌-ℤ◌, ◌≤ℤ◌, leb_ℤ, int_laws}
use erp_stock.Domain.Errors.{Result, ok, err, Error}
use erp_stock.Store.Tables.{
  BalanceRow, ReservationRow, MovementRow, Tables, Statement, same_key, find_balance, put_balance,
  balance_ok, reservation_ok, warehouse_exists,
}
use erp_stock.Store.Rows.{find_balance-key, find_balance-put_balance}
use erp_stock.Store.Balances.{
  row_ok, write_row, insert_row, upsert_row, update_row, upsert_balance, add_available,
  remove_available, reserve, confirm_sale,
}
use erp_stock.Store.Reservations.{
  is_line, put_reservation, upsert_reservation, release_rows, release_others, confirm_rows,
  confirm_open, recalc_rows, recalc_reserved, reserved_fit, release_row, confirm_row,
}
use erp_stock.Store.Movements.{insert_movement}

-- A row of stock_balances meets the CHECKs of its columns and names a warehouse.
abbrev pub RowFits : Tables → BalanceRow → Type 0
RowFits t r = (row_ok r ≡ true) × (warehouse_exists r.warehouse_id t.warehouses ≡ true)

-- UNIQUE (product_id, warehouse_id)
abbrev pub IsKeyed : List BalanceRow → Type 0
IsKeyed [] = Unit
IsKeyed (r ∷ rs) = (find_balance r.product_id r.warehouse_id rs ≡ none) × IsKeyed rs

-- CHECK (quantity > 0)
abbrev pub LineFits : ReservationRow → Type 0
LineFits r = reservation_ok r.quantity ≡ true

unfoldable pub find_line : String → String → List ReservationRow → Bool
find_line o p [] = false
find_line o p (r ∷ rs) = is_line o p r || find_line o p rs

-- UNIQUE (sales_order_id, product_id)
abbrev pub LinesKeyed : List ReservationRow → Type 0
LinesKeyed [] = Unit
LinesKeyed (r ∷ rs) = (find_line r.sales_order_id r.product_id rs ≡ false) × LinesKeyed rs

pub record IsValid (t : Tables) : Type 0 where
  pub rows_fit : All (RowFits t) t.balances
  pub keyed : IsKeyed t.balances
  pub lines_fit : All LineFits t.reservations
  pub lines_keyed : LinesKeyed t.reservations

-- Writing a row.
put_balance-All :
    (P : BalanceRow → Type 0) (n : BalanceRow) (rs : List BalanceRow)
    → P n
    → All P rs
    → All P (put_balance n rs)
unfolding put_balance
put_balance-All P n [] pn ps = (pn, tt)
put_balance-All P n (r ∷ rs) pn (p, ps) =
    elim (Bool-cases (same_key n.product_id n.warehouse_id r)) [
      | inl s ↦ rw s (pn, ps)
      | inr s ↦ rw s (p, put_balance-All P n rs pn ps)
    ]

put_balance-IsKeyed :
    (n : BalanceRow) (rs : List BalanceRow) → IsKeyed rs → IsKeyed (put_balance n rs)
unfolding put_balance find_balance
put_balance-IsKeyed n [] k = (refl, tt)
put_balance-IsKeyed n (r ∷ rs) (k, ks) =
    elim (Bool-cases (same_key n.product_id n.warehouse_id r)) [
      | inl s ↦
          let same : (r.product_id ≡ n.product_id) × (r.warehouse_id ≡ n.warehouse_id) =
            ground
              (arith, eq_iff r.product_id n.product_id, eq_iff r.warehouse_id n.warehouse_id) in
          rw s (rw (same.0, same.1) at k, ks)
      | inr s ↦ rw s (
        ground (
          arith,
          find_balance-put_balance r.product_id r.warehouse_id n rs,
          eq_iff r.product_id n.product_id,
          eq_iff r.warehouse_id n.warehouse_id,
          eq_iff n.product_id r.product_id,
          eq_iff n.warehouse_id r.warehouse_id,
        ),
        put_balance-IsKeyed n rs ks,
      )
    ]
