-- ===== src/Service/Request.antt =====
-- The requests by which clients and events change the stock: the routes of
-- internal/adapters/http/handler.go on balances, movements and purchases, and the events of
-- internal/adapters/rabbit/consumer.go.
use erp_stock.Base.{String, List, [], ◌∷◌}
use erp_stock.Float.{Float}
use erp_stock.Domain.Types.{OrderItem, OrderEvent, InvoiceEvent}
use erp_stock.World.{World, Action, pure, ◌>>◌}
use erp_stock.Service.Movements.{set_balance, create_movement, transfer_stock, receive_purchase}
use erp_stock.Service.Orders.{reserve_order, confirm_invoice}

pub data Request (F : Type 0) : Type 0 where
  put_balance : String → String → F → Request F
  post_movement : String → String → String → String → F → Request F
  post_transfer : String → String → String → F → Request F
  post_receive : String → String → List (OrderItem F) → Request F
  order_event : OrderEvent F → Request F
  invoice_event : InvoiceEvent F → Request F

module _ {F : Type 0} ⦃fl : Float F⦄ where
  unfoldable pub handle : Request F → Action F (Unit {0})
  handle (put_balance p wh qty) = set_balance p wh qty >> pure tt
  handle (post_movement p wh direction sub qty) = create_movement p wh direction sub qty
  handle (post_transfer p src dst qty) = transfer_stock p src dst qty
  handle (post_receive order wh items) = receive_purchase order wh items
  handle (order_event ev) = reserve_order ev
  handle (invoice_event ev) = confirm_invoice ev

  -- The requests of a run, one after the other, whatever each returns.
  unfoldable pub serve : List (Request F) → World F → World F
  serve [] w = w
  serve (r ∷ rs) w = serve rs (handle r w).1
