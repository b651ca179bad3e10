-- ===== src/Store/Balances.antt =====
-- The statements of StockRepo on stock_balances. Reserve and ConfirmSale change the reserved
-- quantity; AddAvailable and UpsertBalance insert a row where there is none. The operand is exact in the
-- guards and sums, and what is written is rounded to the column.
pub mod Effects
use erp_stock.Base.{
  String, ◌==◌, ◌≡◌, Bool, true, false, ◌&&◌, ◌||◌, Option, none, some, List, [], ◌∷◌,
  if◌then◌else◌,
}
use erp_stock.Float.Decimal.{Numeric, rounded, add_numeric, sub_numeric, numeric_le}
use erp_stock.Base.Int.{ℤ, pos, ◌+ℤ◌, ◌-ℤ◌, leb_ℤ}
use erp_stock.Domain.Errors.{Result, ok, err, failure, insufficient, not_found}
use erp_stock.Store.Tables.{
  BalanceRow, Tables, Statement, balance_ok, warehouse_exists, find_balance, put_balance,
}

-- The row constraints of the table.
abbrev pub row_ok : BalanceRow → Bool
row_ok r = balance_ok r.available && balance_ok r.reserved

-- A changed row is written if it meets the constraints.
unfoldable pub write_row : BalanceRow → Statement (Unit {0})
write_row r t =
    if row_ok r then (ok tt, record t { balances = put_balance r t.balances }) else (err failure, t)

-- INSERT of a row with the default reserved quantity 0: its foreign key is checked too.
unfoldable pub insert_row : String → String → ℤ → Statement (Unit {0})
insert_row p w z t =
    if warehouse_exists w t.warehouses
    then (
      ok tt,
      record t {
        balances =
            put_balance
              (record { product_id = p; warehouse_id = w; available = z; reserved = pos 0 })
              t.balances;
      },
    )
    else (err failure, t)

-- INSERT … ON CONFLICT DO UPDATE: the constraints of the proposed row are checked first.
unfoldable pub upsert_row : String → String → ℤ → (BalanceRow → BalanceRow) → Statement (Unit {0})
unfolding write_row insert_row
upsert_row p w z change t =
    if balance_ok z
    then elim (find_balance p w t.balances) [
      | some r ↦ write_row (change r) t
      | none ↦ insert_row p w z t
    ]
    else (err failure, t)

-- `UPDATE … WHERE product_id AND warehouse_id AND guard`; no affected row is ErrInsufficient.
unfoldable pub update_row :
    String → String → (BalanceRow → Bool) → (BalanceRow → BalanceRow) → Statement (Unit {0})
unfolding write_row
update_row p w guard change t = elim (find_balance p w t.balances) [
  | some r ↦ if guard r then write_row (change r) t else (err insufficient, t)
  | none ↦ (err insufficient, t)
]

-- `StockRepo.UpsertBalance`, the write.
unfoldable pub upsert_balance : String → String → ℤ → Statement (Unit {0})
unfolding upsert_row
upsert_balance p w z = upsert_row p w z (λ r. record r { available = z })

-- `StockRepo.AddAvailable`
unfoldable pub add_available : String → String → Numeric → Statement (Unit {0})
unfolding upsert_row
add_available p w z =
    upsert_row p w (rounded z) (λ r. record r { available = add_numeric r.available z })

-- `StockRepo.RemoveAvailable`
unfoldable pub remove_available : String → String → Numeric → Statement (Unit {0})
unfolding update_row
remove_available p w z =
    update_row p w (λ r. numeric_le z (r.available -ℤ r.reserved))
      (λ r. record r { available = sub_numeric r.available z })

-- `StockRepo.Reserve`
unfoldable pub reserve : String → String → Numeric → Statement (Unit {0})
unfolding update_row
reserve p w z =
    update_row p w (λ r. numeric_le z (r.available -ℤ r.reserved))
      (λ r. record r { reserved = add_numeric r.reserved z })

-- `StockRepo.ConfirmSale`
unfoldable pub confirm_sale : String → String → Numeric → Statement (Unit {0})
unfolding update_row
confirm_sale p w z =
    update_row p w (λ r. numeric_le z r.reserved && numeric_le z r.available)
      (λ r. record r { available = sub_numeric r.available z; reserved = sub_numeric r.reserved z })
