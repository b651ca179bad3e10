-- ===== src/Service/Orders.antt =====
-- `ReserveOrder` and `ConfirmInvoice`, which the consumers of
-- internal/adapters/rabbit/consumer.go call for each event.
use erp_stock.Base.{
  String, ◌==◌, Bool, ◌&&◌, ◌||◌, Option, none, some, List, is_empty, if◌then◌else◌,
}
use erp_stock.Float.{Float, is_nonpos}
use erp_stock.Domain.Errors.{invalid, not_found}
use erp_stock.Domain.Types.{
  OrderItem, OrderEvent, InvoiceEvent, Reservation, Movement, MovementFilter,
}
use erp_stock.Domain.Kit.{expand_kit_items}
use erp_stock.World.{
  Action, pure, ◌>>=◌, ◌>>◌, fail_if, ignore, for_each, deferring, modify, push_published, call,
  acquire, unlock, stock_key, reserve_key,
}
use erp_stock.Repo
use erp_stock.Service.Lookup.{list_assemblies}
use erp_stock.Service.Apply.{apply_qty, refresh_cache, record_movement}
use erp_stock.Service.Movements.{receive_line}

abbrev pub zero_filter : MovementFilter
zero_filter = record {
  product_id = "";
  warehouse_id = "";
  subtype = "";
  since = none;
  until = none;
}

-- The warehouse of a reservation, or else of the event.
abbrev pub warehouse_or : String → String → String
warehouse_or wh other = if wh == "" then other else wh

module _ {F : Type 0} ⦃fl : Float F⦄ where
  -- `PublishReserved`
  unfoldable pub publish_reserved : OrderEvent F → Action F (Unit {0})
  publish_reserved ev = do call; modify (push_published ev)

  unfoldable pub reserve_order : OrderEvent F → Action F (Unit {0})
  reserve_order ev = do
    let key = reserve_key ev.order_id
    acquire key
    deferring (unlock key) (do
      fail_if (ev.order_id == "") invalid
      if is_empty ev.items then Repo.release_reservations ev.order_id else (do
        assemblies ← list_assemblies
        Repo.replace_reservations ev.order_id ev.warehouse_id (expand_kit_items ev.items assemblies)
        publish_reserved ev))

  -- What is taken from stock for a confirmed reservation or a reserved line, under its lock: the
  -- two movements are recorded if they can be.
  unfoldable pub take_reserved :
      Action F (Unit {0}) → String → String → F → String → Action F (Unit {0})
  take_reserved change p wh qty invoice = do
    let key = stock_key p wh
    acquire key
    deferring (unlock key) (do
      change
      ignore (record_movement p wh "RESERVATION_RELEASE" "" qty "INVOICE" invoice)
      ignore (record_movement p wh "SALE_OUT" "" qty "INVOICE" invoice)
      refresh_cache p wh)

  unfoldable pub apply_confirmed_reservation : InvoiceEvent F → Reservation F → Action F (Unit {0})
  apply_confirmed_reservation ev rv =
      let wh = warehouse_or rv.warehouse_id ev.warehouse_id in
      if wh == "" || is_nonpos rv.quantity
      then pure tt
      else take_reserved (Repo.remove_available rv.product_id wh rv.quantity) rv.product_id wh
          rv.quantity ev.invoice_id

  unfoldable pub apply_confirmed_reservations :
      InvoiceEvent F → List (Reservation F) → Action F (Unit {0})
  apply_confirmed_reservations ev = for_each (apply_confirmed_reservation ev)

  abbrev is_reservation_add : String → Movement F → Bool
  is_reservation_add order m =
      m.reference_doc_type == "SALES_ORDER"
      && m.reference_doc_id == order
      && m.movement_type == "RESERVATION_ADD"

  unfoldable pub confirm_line : InvoiceEvent F → Movement F → Action F (Unit {0})
  confirm_line ev m =
      if is_reservation_add ev.sales_order_id m
      then take_reserved (Repo.confirm_sale m.product_id m.warehouse_id m.quantity) m.product_id
          m.warehouse_id m.quantity ev.invoice_id
      else pure tt

  unfoldable pub confirm_reserved_sale : InvoiceEvent F → Action F (Unit {0})
  confirm_reserved_sale ev = do
    movs ← Repo.list_movements zero_filter
    for_each (confirm_line ev) movs

  -- One line of an invoice that had no reservation.
  unfoldable pub sell_line : String → String → OrderItem F → Action F (Unit {0})
  sell_line wh invoice it =
      if Repo.is_void_line it.product_id it.quantity
      then pure tt
      else apply_qty it.product_id wh "SALE_OUT" it.quantity "INVOICE" invoice

  unfoldable pub sell_directly : InvoiceEvent F → Action F (Unit {0})
  sell_directly ev = do
    fail_if (ev.warehouse_id == "" || is_empty ev.items) not_found
    assemblies ← list_assemblies
    for_each (sell_line ev.warehouse_id ev.invoice_id) (expand_kit_items ev.items assemblies)

  -- After `ConfirmReservations`: nil goes on to the orders of the older scheme.
  unfoldable pub with_reservations :
      InvoiceEvent F → Option (List (Reservation F)) → Action F (Unit {0})
  with_reservations ev (some rsv) = apply_confirmed_reservations ev rsv
  with_reservations ev none = do
    order_done ← Repo.has_movement "SALES_ORDER" ev.sales_order_id "RESERVATION_ADD"
    if order_done then confirm_reserved_sale ev else sell_directly ev

  unfoldable pub confirm_outbound : InvoiceEvent F → Action F (Unit {0})
  confirm_outbound ev = do
    done ← Repo.has_movement "INVOICE" ev.invoice_id "SALE_OUT"
    if done
        then pure tt
        else if ev.sales_order_id == ""
        then sell_directly ev
        else (do rsv ← Repo.confirm_reservations ev.sales_order_id; with_reservations ev rsv)

  unfoldable pub confirm_inbound : InvoiceEvent F → Action F (Unit {0})
  confirm_inbound ev = do
    done ← Repo.has_movement "INVOICE" ev.invoice_id "PURCHASE_IN"
    if done then pure tt else (do
      fail_if (ev.warehouse_id == "" || is_empty ev.items) invalid
      for_each (receive_line ev.warehouse_id "INVOICE" ev.invoice_id) ev.items)

  unfoldable pub confirm_invoice : InvoiceEvent F → Action F (Unit {0})
  confirm_invoice ev = if ev.direction == "IN" then confirm_inbound ev else confirm_outbound ev
