-- ===== src/Service/Frame/Requests.antt =====
-- Every request respects what its parts respect.
use erp_stock.Base.{String, ◌==◌, Option, none, some, List, [], ◌∷◌}
use erp_stock.Float.{to_numeric, Float}
use erp_stock.Domain.Types.{
  OrderItem, OrderEvent, InvoiceEvent, Reservation, Movement, MovementFilter,
}
use erp_stock.Store.Tables.{ReservationRow, Statement}
use erp_stock.Store.Reservations.{upsert_reservation}
use erp_stock.World.{World, Action, pure, ◌>>=◌, ◌>>◌, exec, on_stock}
use erp_stock.World.Always.{Always, Always-if}
use erp_stock.Repo
use erp_stock.Service.Movements.{
  set_balance, receive_purchase, receive_line, to_stock_from_purchase,
}
use erp_stock.Service.Orders.{
  reserve_order, confirm_invoice, confirm_inbound, confirm_outbound, with_reservations,
  sell_directly, sell_line, confirm_reserved_sale, confirm_line, apply_confirmed_reservations,
  apply_confirmed_reservation, take_reserved, publish_reserved,
}
use erp_stock.Service.Request.{
  Request, put_balance, post_movement, post_transfer, post_receive, order_event, invoice_event,
  handle, serve,
}
use erp_stock.Service.Frame.{
  Respects, frame_rules, line_frame, record_movement_frame, refresh_cache_frame, set_cached_frame,
  apply_qty_frame, get_product_frame, get_warehouse_frame, list_assemblies_frame,
  create_movement_frame, transfer_stock_frame,
}

module _ {F : Type 0} ⦃fl : Float F⦄ {R : World F → World F → Type 0} ⦃h : Respects R⦄ where
  to_stock_from_purchase_frame : (id : String) (qty : F) → Always R (to_stock_from_purchase id qty)
  unfolding to_stock_from_purchase
  to_stock_from_purchase_frame id qty = search (frame_rules, get_product_frame)

  pub receive_line_frame :
      (wh doc_type doc_id : String) (it : OrderItem F)
      → Always R (receive_line wh doc_type doc_id it)
  unfolding receive_line
  receive_line_frame wh doc_type doc_id it =
      search (frame_rules, to_stock_from_purchase_frame, apply_qty_frame) depth 8

  has_movement_frame :
      (doc_type doc_id typ : String) → Always R (Repo.has_movement doc_type doc_id typ)
  unfolding Repo.has_movement
  has_movement_frame doc_type doc_id typ = search frame_rules

  pub receive_purchase_frame :
      (order wh : String) (items : List (OrderItem F)) → Always R (receive_purchase order wh items)
  unfolding receive_purchase
  receive_purchase_frame order wh items =
      search (frame_rules, get_warehouse_frame, has_movement_frame, receive_line_frame) depth 10

  upsert_balance_frame : (p wh : String) (qty : F) → Always R (Repo.upsert_balance p wh qty)
  unfolding Repo.upsert_balance
  upsert_balance_frame p wh qty = search frame_rules depth 8

  pub set_balance_frame : (p wh : String) (qty : F) → Always R (set_balance p wh qty)
  unfolding set_balance
  set_balance_frame p wh qty = search (frame_rules, upsert_balance_frame, set_cached_frame) depth 8

  take_reserved_frame :
      (change : Action F (Unit {0})) (p wh : String) (qty : F) (invoice : String)
      → Always R change
      → Always R (take_reserved change p wh qty invoice)
  unfolding take_reserved
  take_reserved_frame change p wh qty invoice changed =
      search (frame_rules, record_movement_frame, refresh_cache_frame) depth 12

  remove_available_frame : (p wh : String) (qty : F) → Always R (Repo.remove_available p wh qty)
  unfolding Repo.remove_available
  remove_available_frame p wh qty = search frame_rules

  confirm_sale_frame : (p wh : String) (qty : F) → Always R (Repo.confirm_sale p wh qty)
  unfolding Repo.confirm_sale
  confirm_sale_frame p wh qty = search frame_rules

  apply_confirmed_reservations_frame :
      (ev : InvoiceEvent F) (rsv : List (Reservation F))
      → Always R (apply_confirmed_reservations ev rsv)
  unfolding apply_confirmed_reservations apply_confirmed_reservation
  apply_confirmed_reservations_frame ev rsv =
      search (frame_rules, take_reserved_frame, remove_available_frame) depth 8

  confirm_line_frame : (ev : InvoiceEvent F) (m : Movement F) → Always R (confirm_line ev m)
  unfolding confirm_line
  confirm_line_frame ev m = search (frame_rules, take_reserved_frame, confirm_sale_frame) depth 8

  list_movements_frame : (f : MovementFilter) → Always R (Repo.list_movements f)
  unfolding Repo.list_movements
  list_movements_frame f = search frame_rules

  confirm_reserved_sale_frame : (ev : InvoiceEvent F) → Always R (confirm_reserved_sale ev)
  unfolding confirm_reserved_sale
  confirm_reserved_sale_frame ev = search (frame_rules, list_movements_frame, confirm_line_frame)

  sell_line_frame : (wh invoice : String) (it : OrderItem F) → Always R (sell_line wh invoice it)
  unfolding sell_line
  sell_line_frame wh invoice it = search (frame_rules, apply_qty_frame)

  sell_directly_frame : (ev : InvoiceEvent F) → Always R (sell_directly ev)
  unfolding sell_directly
  sell_directly_frame ev = search (frame_rules, list_assemblies_frame, sell_line_frame) depth 8

  with_reservations_frame :
      (ev : InvoiceEvent F) (o : Option (List (Reservation F))) → Always R (with_reservations ev o)
  unfolding with_reservations
  with_reservations_frame ev (some rsv) = apply_confirmed_reservations_frame ev rsv
  with_reservations_frame ev none =
      search (frame_rules, has_movement_frame, confirm_reserved_sale_frame, sell_directly_frame)
        depth 8

  recalc_frame : (ids : List String) → Always R (Repo.recalc ids)
  unfolding Repo.recalc
  recalc_frame [] = search frame_rules
  recalc_frame (p ∷ ps) = search frame_rules

  after_confirm_frame :
      (o : String) (rows : List ReservationRow) → Always R (Repo.after_confirm o rows)
  unfolding Repo.after_confirm Repo.when_none
  after_confirm_frame o [] = search frame_rules
  after_confirm_frame o (r ∷ rs) = search (frame_rules, recalc_frame)

  confirm_reservations_frame : (o : String) → Always R (Repo.confirm_reservations o)
  unfolding Repo.confirm_reservations
  confirm_reservations_frame o = search (frame_rules, after_confirm_frame)

  pub confirm_invoice_frame : (ev : InvoiceEvent F) → Always R (confirm_invoice ev)
  unfolding confirm_invoice confirm_inbound confirm_outbound
  confirm_invoice_frame ev =
      Always-if (ev.direction == "IN") _ _
        (search (frame_rules, has_movement_frame, receive_line_frame) depth 10)
        (search
          (
            frame_rules, has_movement_frame, sell_directly_frame, confirm_reservations_frame,
            with_reservations_frame,
          )
          depth 12)

  upsert_first_frame :
      (s : Statement (Unit {0})) (p : String) (rest : Action F (List String))
      → Always R (on_stock s)
      → Always R rest
      → Always R (do exec s; keep ← rest; pure (p ∷ keep))
  upsert_first_frame s p rest first later = search frame_rules depth 8

  upsert_lines_frame :
      (o : String) (wh : Option String) (items : List (OrderItem F))
      → Always R (Repo.upsert_lines o wh items)
  unfolding Repo.upsert_lines
  upsert_lines_frame o wh [] = search frame_rules
  upsert_lines_frame o wh (it ∷ items) =
      let ih = upsert_lines_frame o wh items in
      Always-if (Repo.is_void_line it.product_id it.quantity) _ _ ih (
        upsert_first_frame (upsert_reservation o it.product_id wh (to_numeric it.quantity))
          it.product_id (Repo.upsert_lines o wh items)
          (line_frame o it.product_id wh (to_numeric it.quantity)) ih)

  replace_reservations_frame :
      (o wh : String) (items : List (OrderItem F)) → Always R (Repo.replace_reservations o wh items)
  unfolding Repo.replace_reservations Repo.replace_lines
  replace_reservations_frame o wh items =
      search (frame_rules, upsert_lines_frame, recalc_frame) depth 16

  pub reserve_order_frame : (ev : OrderEvent F) → Always R (reserve_order ev)
  unfolding reserve_order publish_reserved Repo.release_reservations
  reserve_order_frame ev =
      search (frame_rules, list_assemblies_frame, replace_reservations_frame) depth 16

  pub handle_frame : (r : Request F) → Always R (handle r)
  unfolding handle
  handle_frame (put_balance p wh qty) = search (frame_rules, set_balance_frame)
  handle_frame (post_movement p wh direction sub qty) = create_movement_frame p wh direction sub qty
  handle_frame (post_transfer p src dst qty) = transfer_stock_frame p src dst qty
  handle_frame (post_receive order wh items) = receive_purchase_frame order wh items
  handle_frame (order_event ev) = reserve_order_frame ev
  handle_frame (invoice_event ev) = confirm_invoice_frame ev

module _ {F : Type 0} ⦃fl : Float F⦄ (R : World F → World F → Type 0) ⦃h : Respects R⦄ where
  pub serve_frame : (rs : List (Request F)) (w : World F) → R w (serve rs w)
  unfolding serve
  serve_frame [] w = h.pre.same w
  serve_frame (r ∷ rs) w =
      h.pre.chain w (handle r w).1 (serve rs (handle r w).1) ((handle_frame {R = R} r).at w)
        (serve_frame rs (handle r w).1)
