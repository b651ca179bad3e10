-- ===== src/Repo/Warehouses.antt =====
-- The methods of StockRepo on warehouses, and `ProductInUse`, as actions.
use erp_stock.Base.{String, Bool, true, List, if◌then◌else◌}
use erp_stock.Domain.Types.{Warehouse}
use erp_stock.Store.Warehouses
use erp_stock.Store.Warehouses.{sort_by_code, has_moved, has_balance, has_open}
use erp_stock.World.{Action, pure, ◌>>=◌, exec, query, gets, new_uuid}

module _ {F : Type 0} where
  -- The database draws the id and the time; the warehouse is active.
  unfoldable pub create_warehouse : Warehouse → Action F Warehouse
  create_warehouse w = do
    id ← new_uuid
    now ← gets (λ v. v.stock.clock)
    exec (Warehouses.insert_warehouse (record w { id = id; active = true; created_at = now }))

  unfoldable pub update_warehouse : Warehouse → Action F (Unit {0})
  update_warehouse w = exec (Warehouses.update_warehouse w)

  -- `le` is the order of texts in the database.
  unfoldable pub list_warehouses : (String → String → Bool) → Action F (List Warehouse)
  list_warehouses le = query (λ t. sort_by_code le t.warehouses)

  -- `ProductInUse`: a query is run where those before it counted nothing.
  unfoldable pub product_in_use : String → Action F Bool
  product_in_use p = do
    moved ← query (λ t. has_moved p t.movements)
    let held = query (λ t. has_open p t.reservations)
    let rest = (do
      there ← query (λ t. has_balance p t.balances)
      if there then pure there else held)
    if moved then pure moved else rest
