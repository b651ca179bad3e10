-- ===== src/Store/Tables.antt =====
-- The tables, and what a statement is. NUMERIC(15,4) cells are whole ten-thousandths.
use erp_stock.Base.{
  ℕ, ◌^◌, String, ◌==◌, Bool, false, ◌&&◌, ◌||◌, Option, none, some, List, [], ◌∷◌, if◌then◌else◌,
}
use erp_stock.Base.Int.{ℤ, pos, ◌+ℤ◌, ◌-ℤ◌, leb_ℤ, ltb_ℤ}
use erp_stock.Domain.Errors.{Result}
use erp_stock.Domain.Types.{Warehouse, ReservationStatus}

-- A row of stock_balances.
pub record BalanceRow : Type 0 where
  pub product_id : String
  pub warehouse_id : String
  pub available : ℤ
  pub reserved : ℤ

-- A row of stock_reservations.
pub record ReservationRow : Type 0 where
  pub sales_order_id : String
  pub product_id : String
  pub warehouse_id : Option String
  pub quantity : ℤ
  pub status : ReservationStatus

-- A row of stock_movements.
pub record MovementRow : Type 0 where
  pub product_id : String
  pub warehouse_id : String
  pub movement_type : String
  pub subtype : String
  pub quantity : ℤ
  pub reference_doc_type : String
  pub reference_doc_id : Option String
  pub created_at : ℕ

-- Reservations stand in the order of creation, movements newest first; `clock` is NOW().
pub record Tables : Type 0 where
  pub warehouses : List Warehouse
  pub balances : List BalanceRow
  pub reservations : List ReservationRow
  pub movements : List MovementRow
  pub clock : ℕ

-- A statement is atomic: it changes the tables, or fails and leaves them as they were.
abbrev pub Statement : Type 0 → Type 0
Statement A = Tables → Result A × Tables

-- The first number too large for NUMERIC(15,4).
abbrev pub numeric_limit : ℕ
numeric_limit = 10 ^ 15

-- A quantity of stock_movements: it fits its column.
unfoldable pub numeric_ok : ℤ → Bool
numeric_ok z = ltb_ℤ z (pos numeric_limit) && ltb_ℤ (pos 0 -ℤ z) (pos numeric_limit)

-- A quantity of stock_balances: CHECK (quantity >= 0), and it fits its column.
unfoldable pub balance_ok : ℤ → Bool
balance_ok z = leb_ℤ (pos 0) z && ltb_ℤ z (pos numeric_limit)

-- A quantity of stock_reservations: CHECK (quantity > 0), and it fits its column.
unfoldable pub reservation_ok : ℤ → Bool
reservation_ok z = ltb_ℤ (pos 0) z && ltb_ℤ z (pos numeric_limit)

-- The foreign key REFERENCES warehouses(id).
unfoldable pub warehouse_exists : String → List Warehouse → Bool
warehouse_exists id [] = false
warehouse_exists id (w ∷ ws) = w.id == id || warehouse_exists id ws

abbrev pub same_key : String → String → BalanceRow → Bool
same_key p w r = r.product_id == p && r.warehouse_id == w

-- The row of a product in a warehouse: (product_id, warehouse_id) is UNIQUE.
unfoldable pub find_balance : String → String → List BalanceRow → Option BalanceRow
find_balance p w [] = none
find_balance p w (r ∷ rs) = if same_key p w r then some r else find_balance p w rs

-- The row takes the place of the one with its key, or is a new one.
unfoldable pub put_balance : BalanceRow → List BalanceRow → List BalanceRow
put_balance n [] = n ∷ []
put_balance n (r ∷ rs) =
    if same_key n.product_id n.warehouse_id r then n ∷ rs else r ∷ put_balance n rs

-- The sum of a number over the rows of a table.
unfoldable pub sum_by {ℓ} : {A : Type ℓ} → (A → ℤ) → List A → ℤ
sum_by g [] = pos 0
sum_by g (x ∷ xs) = g x +ℤ sum_by g xs
