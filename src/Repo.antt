-- ===== src/Repo.antt =====
-- The methods of StockRepo (internal/adapters/postgres/stock_repo.go) as actions: each statement
-- is a call that may fail; the driver turns a float64 into an exact NUMERIC, and a column of four
-- decimals into a float64.
pub mod Warehouses
use erp_stock.Base.{
  String, ◌==◌, Bool, ◌||◌, Option, none, some, List, [], ◌∷◌, ◌++◌, map, if◌then◌else◌,
}
use erp_stock.Float.{to_numeric, Float, is_nonpos}
use erp_stock.Domain.Errors.{Result, ok, err, not_found}
use erp_stock.Domain.Types.{Warehouse, Balance, Reservation, Movement, MovementFilter, OrderItem}
use erp_stock.Store.Tables.{BalanceRow, ReservationRow, MovementRow, Tables, find_balance}
use erp_stock.Store.Balances
use erp_stock.Store.Reservations.{
  open_sum, recalc_reserved, products_of_order, upsert_reservation, release_others, confirm_open,
  has_reservation, open_of_product,
}
use erp_stock.Store.Movements
use erp_stock.Store.Movements.{nil_if_empty, or_blank}
use erp_stock.World.{Action, pure, lift, ◌>>=◌, ◌>>◌, call, exec, query, transaction, gets}

unfoldable pub find_warehouse : String → List Warehouse → Result Warehouse
find_warehouse id [] = err not_found
find_warehouse id (w ∷ ws) = if w.id == id then ok w else find_warehouse id ws

unfoldable pub row_products : List ReservationRow → List String
row_products [] = []
row_products (r ∷ rs) = r.product_id ∷ row_products rs

module _ {F : Type 0} ⦃fl : Float F⦄ where
  unfoldable pub get_warehouse : String → Action F Warehouse
  unfolding find_warehouse
  get_warehouse id = do ws ← query (λ t. t.warehouses); lift (find_warehouse id ws)

  -- A row as it is scanned: the reserved quantity is computed by `reservedSQL`, not read.
  unfoldable pub scan_balance : BalanceRow → Tables → Balance F
  scan_balance r t = record {
    product_id = r.product_id;
    warehouse_id = r.warehouse_id;
    quantity_available = fl.of_numeric r.available;
    quantity_reserved = fl.of_numeric (open_sum r.product_id r.warehouse_id t.reservations);
  }

  unfoldable pub scan_found : Option BalanceRow → Tables → Result (Balance F)
  scan_found (some r) t = ok (scan_balance r t)
  scan_found none t = err not_found

  unfoldable pub get_balance : String → String → Action F (Balance F)
  get_balance p w = do t ← query (λ t. t); lift (scan_found (find_balance p w t.balances) t)

  -- One statement writes and scans.
  unfoldable pub upsert_balance : String → String → F → Action F (Balance F)
  upsert_balance p w qty = do
    exec (Balances.upsert_balance p w (to_numeric qty))
    t ← gets (λ v. v.stock)
    lift (scan_found (find_balance p w t.balances) t)

  unfoldable pub scan_rows : List BalanceRow → Tables → List (Balance F)
  scan_rows [] t = []
  scan_rows (r ∷ rs) t = scan_balance r t ∷ scan_rows rs t

  unfoldable pub list_balances : Action F (List (Balance F))
  list_balances = do t ← query (λ t. t); pure (scan_rows t.balances t)

  unfoldable pub add_available : String → String → F → Action F (Unit {0})
  add_available p w qty = exec (Balances.add_available p w (fl.exact qty))

  unfoldable pub remove_available : String → String → F → Action F (Unit {0})
  remove_available p w qty = exec (Balances.remove_available p w (fl.exact qty))

  unfoldable pub reserve : String → String → F → Action F (Unit {0})
  reserve p w qty = exec (Balances.reserve p w (fl.exact qty))

  unfoldable pub confirm_sale : String → String → F → Action F (Unit {0})
  confirm_sale p w qty = exec (Balances.confirm_sale p w (fl.exact qty))

  unfoldable pub insert_movement : Movement F → Action F (Unit {0})
  insert_movement m = exec (
      Movements.insert_movement (record {
        product_id = m.product_id;
        warehouse_id = m.warehouse_id;
        movement_type = m.movement_type;
        subtype = m.subtype;
        quantity = to_numeric m.quantity;
        reference_doc_type = m.reference_doc_type;
        reference_doc_id = nil_if_empty m.reference_doc_id;
        created_at = m.created_at;
      }))

  unfoldable pub has_movement : String → String → String → Action F Bool
  has_movement doc_type doc_id typ =
      query (λ t. Movements.has_movement doc_type doc_id typ t.movements)

  unfoldable pub scan_movement : MovementRow → Movement F
  scan_movement m = record {
    product_id = m.product_id;
    warehouse_id = m.warehouse_id;
    movement_type = m.movement_type;
    subtype = m.subtype;
    quantity = fl.of_numeric m.quantity;
    reference_doc_type = m.reference_doc_type;
    reference_doc_id = or_blank m.reference_doc_id;
    created_at = m.created_at;
  }

  unfoldable pub list_movements : MovementFilter → Action F (List (Movement F))
  list_movements f = query (λ t. map scan_movement (Movements.list_movement_rows f t.movements))

  unfoldable pub scan_reservation : ReservationRow → Reservation F
  scan_reservation r = record {
    sales_order_id = r.sales_order_id;
    product_id = r.product_id;
    warehouse_id = or_blank r.warehouse_id;
    quantity = fl.of_numeric r.quantity;
    status = r.status;
  }

  unfoldable pub list_open_reservations : String → Action F (List (Reservation F))
  list_open_reservations p = query (λ t. map scan_reservation (open_of_product p t.reservations))

  -- `recalcReserved`: no statement is run for no product.
  unfoldable pub recalc : List String → Action F (Unit {0})
  recalc [] = pure tt
  recalc (p ∷ ps) = exec (recalc_reserved (p ∷ ps))

  abbrev pub is_void_line : String → F → Bool
  is_void_line p qty = p == "" || is_nonpos qty

  -- The INSERTs of `ReplaceReservations`; the result is the products kept.
  unfoldable pub upsert_lines : String → Option String → List (OrderItem F) → Action F (List String)
  upsert_lines o wh [] = pure []
  upsert_lines o wh (it ∷ items) =
      let rest = upsert_lines o wh items in
      if is_void_line it.product_id it.quantity then rest else (do
        exec (upsert_reservation o it.product_id wh (to_numeric it.quantity))
        keep ← rest
        pure (it.product_id ∷ keep))

  -- The transaction of `ReplaceReservations`; the result is the products touched.
  unfoldable pub replace_lines : String → String → List (OrderItem F) → Action F (List String)
  replace_lines o wh items = do
    call
    transaction (do
      old ← query (λ t. products_of_order o t.reservations)
      keep ← upsert_lines o (nil_if_empty wh) items
      exec (release_others o keep)
      call
      pure (old ++ keep))

  unfoldable pub replace_reservations : String → String → List (OrderItem F) → Action F (Unit {0})
  replace_reservations o wh items = do products ← replace_lines o wh items; recalc products

  unfoldable pub release_reservations : String → Action F (Unit {0})
  release_reservations o = replace_reservations o "" []

  -- With no row confirmed: nil if the order never had one, and else an empty slice.
  unfoldable pub when_none : String → Action F (Option (List (Reservation F)))
  when_none o = do
    n ← query (λ t. has_reservation o t.reservations)
    pure (if n then some [] else none)

  unfoldable pub after_confirm :
      String → List ReservationRow → Action F (Option (List (Reservation F)))
  after_confirm o [] = when_none o
  after_confirm o (r ∷ rs) = do
    recalc (row_products (r ∷ rs))
    pure (some (map scan_reservation (r ∷ rs)))

  -- `ConfirmReservations`: `none` is the nil slice.
  unfoldable pub confirm_reservations : String → Action F (Option (List (Reservation F)))
  confirm_reservations o = do rows ← exec (confirm_open o); after_confirm o rows
