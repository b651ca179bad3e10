-- ===== src/Store/Warehouses.antt =====
-- The statements of StockRepo on the table warehouses, and the counts of StockRepo.ProductInUse.
pub mod Distinct
use erp_stock.Base.{String, ◌==◌, Bool, false, not, ◌&&◌, ◌||◌, List, [], ◌∷◌, ◌++◌, if◌then◌else◌}
use erp_stock.Base.Int.{ℤ, pos, leb_ℤ}
use erp_stock.Domain.Errors.{ok, err, not_found, conflict}
use erp_stock.Domain.Types.{Warehouse}
use erp_stock.Store.Tables.{
  Tables, Statement, BalanceRow, ReservationRow, MovementRow, warehouse_exists,
}
use erp_stock.Store.Reservations.{is_open}

unfoldable pub code_exists : String → List Warehouse → Bool
code_exists code [] = false
code_exists code (w ∷ ws) = w.code == code || code_exists code ws

unfoldable pub code_elsewhere : String → String → List Warehouse → Bool
code_elsewhere id code [] = false
code_elsewhere id code (w ∷ ws) = (w.code == code && not (w.id == id)) || code_elsewhere id code ws

-- `CreateWarehouse`, with the id that the database draws: a duplicate id or code is a conflict.
unfoldable pub insert_warehouse : Warehouse → Statement Warehouse
insert_warehouse w t =
    if warehouse_exists w.id t.warehouses || code_exists w.code t.warehouses
    then (err conflict, t)
    else (ok w, record t { warehouses = t.warehouses ++ w ∷ [] })

unfoldable pub set_warehouse : Warehouse → List Warehouse → List Warehouse
set_warehouse n [] = []
set_warehouse n (w ∷ ws) =
    if w.id == n.id then record w { code = n.code; name = n.name } ∷ ws else w ∷ set_warehouse n ws

-- `UpdateWarehouse`
unfoldable pub update_warehouse : Warehouse → Statement (Unit {0})
update_warehouse w t =
    if not (warehouse_exists w.id t.warehouses)
    then (err not_found, t)
    else if code_elsewhere w.id w.code t.warehouses
    then (err conflict, t)
    else (ok tt, record t { warehouses = set_warehouse w t.warehouses })

-- `ORDER BY code`, by the collation of the database.
unfoldable pub place_by_code :
    (String → String → Bool) → Warehouse → List Warehouse → List Warehouse
place_by_code le n [] = n ∷ []
place_by_code le n (w ∷ ws) = if le n.code w.code then n ∷ w ∷ ws else w ∷ place_by_code le n ws

unfoldable pub sort_by_code : (String → String → Bool) → List Warehouse → List Warehouse
sort_by_code le [] = []
sort_by_code le (w ∷ ws) = place_by_code le w (sort_by_code le ws)

-- `z <> 0`
abbrev pub is_nonzero : ℤ → Bool
is_nonzero z = not (leb_ℤ z (pos 0) && leb_ℤ (pos 0) z)

-- The three counts of `ProductInUse`, as n > 0.
unfoldable pub has_moved : String → List MovementRow → Bool
has_moved p [] = false
has_moved p (m ∷ ms) = m.product_id == p || has_moved p ms

unfoldable pub has_balance : String → List BalanceRow → Bool
has_balance p [] = false
has_balance p (b ∷ bs) =
    (b.product_id == p && (is_nonzero b.available || is_nonzero b.reserved)) || has_balance p bs

unfoldable pub has_open : String → List ReservationRow → Bool
has_open p [] = false
has_open p (r ∷ rs) = (r.product_id == p && is_open r.status) || has_open p rs
