-- ===== src/Http/Routes.antt =====
-- `Register` of internal/adapters/http/handler.go: the routes with what a request carries, and runs
-- of requests and of the events of internal/adapters/rabbit/consumer.go. What `codes.Assign` returns,
-- the order of texts in the database and `time.Parse` come with the requests that use them.
pub mod Reads
pub mod Sound
use erp_stock.Base.{ℕ, String, Bool, Option, List, [], ◌∷◌}
use erp_stock.Float.{Float}
use erp_stock.Domain.Errors.{Result}
use erp_stock.Domain.Types.{Product, Category, Warehouse, Assembly, OrderEvent, InvoiceEvent}
use erp_stock.World.{World}
use erp_stock.Service.Request.{order_event, invoice_event, handle}
use erp_stock.Http.{Response}
use erp_stock.Http.Catalog
use erp_stock.Http.Stock
use erp_stock.Http.Stock.{SetBalanceIn, MovementIn, TransferIn, ReceivePurchaseIn}
use erp_stock.Http.Kits
use erp_stock.Http.Kits.{PriceIn}

pub data Route (F : Type 0) : Type 0 where
  get_products : Route F
  post_products : (String → Result String) → Option (Product F) → Route F
  get_product : String → Route F
  put_product : String → Option (Product F) → Route F
  delete_product : String → Route F
  get_categories : Route F
  post_categories : Option Category → Route F
  put_category : String → Option Category → Route F
  delete_category : String → Route F
  get_warehouses : (String → String → Bool) → Route F
  post_warehouses : (String → Result String) → Option Warehouse → Route F
  put_warehouse : String → Option Warehouse → Route F
  get_balances : Route F
  put_balances : Option (SetBalanceIn F) → Route F
  get_movements : (String → Option ℕ) → String → String → String → String → String → Route F
  post_movements : Option (MovementIn F) → Route F
  post_transfer : Option (TransferIn F) → Route F
  get_reservations : String → Route F
  post_receive : Option (ReceivePurchaseIn F) → Route F
  get_sale_prices : String → Route F
  post_sale_prices : Option (PriceIn F) → Route F
  get_purchase_prices : String → Route F
  post_purchase_prices : Option (PriceIn F) → Route F
  get_assemblies : Route F
  post_assemblies : (String → Result String) → Option (Assembly F) → Route F
  get_assembly : String → Route F
  put_assembly : String → Option (Assembly F) → Route F
  post_recalculate : String → Route F
  post_apply_price : String → Route F

-- The status that is sent, and the world after the request.
abbrev pub sent : {F A : Type 0} → Response A × World F → ℕ × World F
sent (r, w) = (r.status, w)

module _ {F : Type 0} ⦃fl : Float F⦄ where
  unfoldable pub dispatch : Route F → World F → ℕ × World F
  dispatch get_products w = sent (Catalog.list_products w)
  dispatch (post_products assign body) w = sent (Catalog.create_product assign body w)
  dispatch (get_product id) w = sent (Catalog.get_product id w)
  dispatch (put_product id body) w = sent (Catalog.update_product id body w)
  dispatch (delete_product id) w = sent (Catalog.delete_product id w)
  dispatch get_categories w = sent (Catalog.list_categories w)
  dispatch (post_categories body) w = sent (Catalog.create_category body w)
  dispatch (put_category id body) w = sent (Catalog.update_category id body w)
  dispatch (delete_category id) w = sent (Catalog.delete_category id w)
  dispatch (get_warehouses le) w = sent (Catalog.list_warehouses le w)
  dispatch (post_warehouses assign body) w = sent (Catalog.create_warehouse assign body w)
  dispatch (put_warehouse id body) w = sent (Catalog.update_warehouse id body w)
  dispatch get_balances w = sent (Stock.list_balances w)
  dispatch (put_balances body) w = sent (Stock.set_balance body w)
  dispatch (get_movements parse p wh sub since until) w =
      sent (Stock.list_movements parse p wh sub since until w)
  dispatch (post_movements body) w = sent (Stock.create_movement body w)
  dispatch (post_transfer body) w = sent (Stock.transfer_stock body w)
  dispatch (get_reservations p) w = sent (Stock.list_open_reservations p w)
  dispatch (post_receive body) w = sent (Stock.receive_purchase body w)
  dispatch (get_sale_prices p) w = sent (Kits.list_sale_prices p w)
  dispatch (post_sale_prices body) w = sent (Kits.create_sale_price body w)
  dispatch (get_purchase_prices p) w = sent (Kits.list_purchase_prices p w)
  dispatch (post_purchase_prices body) w = sent (Kits.create_purchase_price body w)
  dispatch get_assemblies w = sent (Kits.list_assemblies w)
  dispatch (post_assemblies assign body) w = sent (Kits.create_assembly assign body w)
  dispatch (get_assembly id) w = sent (Kits.get_assembly id w)
  dispatch (put_assembly id body) w = sent (Kits.update_assembly id body w)
  dispatch (post_recalculate id) w = sent (Kits.recalculate_assembly id w)
  dispatch (post_apply_price id) w = sent (Kits.apply_assembly_price id w)

-- What reaches the service: requests, and the two kinds of events.
pub data Input (F : Type 0) : Type 0 where
  request : Route F → Input F
  order : OrderEvent F → Input F
  invoice : InvoiceEvent F → Input F

module _ {F : Type 0} ⦃fl : Float F⦄ where
  unfoldable pub step : Input F → World F → World F
  step (request r) w = (dispatch r w).1
  step (order ev) w = (handle (order_event ev) w).1
  step (invoice ev) w = (handle (invoice_event ev) w).1

  unfoldable pub run : List (Input F) → World F → World F
  run [] w = w
  run (i ∷ is) w = run is (step i w)
