-- ===== src/Service/Movements.antt =====
-- `SetBalance`, `CreateMovement`, `TransferStock` and `ReceivePurchase`.
use erp_stock.Base.{String, ◌==◌, not, ◌&&◌, ◌||◌, List, if◌then◌else◌}
use erp_stock.Float.{Float, is_nonpos}
use erp_stock.Text.{trim_space, to_upper}
use erp_stock.Domain.Errors.{Result, ok, err, invalid}
use erp_stock.Domain.Types.{
  Balance, OrderItem, subtype_purchase, subtype_sale, subtype_loss, subtype_transfer,
}
use erp_stock.Domain.Uom.{to_stock_qty}
use erp_stock.Domain.Product.{normalize_product}
use erp_stock.World.{World, Action, pure, lift, ◌>>=◌, ◌>>◌, fail_if, ignore, for_each, new_uuid}
use erp_stock.Repo
use erp_stock.Service.Lookup.{get_product}
use erp_stock.Service.Apply.{apply_qty_sub, apply_qty, set_cached}

-- The type of a manual movement, from its direction and subtype.
unfoldable pub manual_type : String → String → Result String
manual_type direction sub =
    if direction == "IN"
    then (if not (sub == "") && not (sub == subtype_purchase) then err invalid else ok "MANUAL_IN")
    else if direction == "OUT"
    then (if not (sub == "") && not (sub == subtype_sale) && not (sub == subtype_loss)
        then err invalid
        else ok "MANUAL_OUT")
    else err invalid

module _ {F : Type 0} ⦃fl : Float F⦄ where
  unfoldable pub set_balance : String → String → F → Action F (Balance F)
  set_balance p wh qty = do b ← Repo.upsert_balance p wh qty; ignore (set_cached b); pure b

  unfoldable pub create_movement : String → String → String → String → F → Action F (Unit {0})
  create_movement p wh direction subtype qty = do
    fail_if (is_nonpos qty || p == "" || wh == "") invalid
    let sub = to_upper (trim_space subtype)
    typ ← lift (manual_type (to_upper direction) sub)
    get_product p
    Repo.get_warehouse wh
    apply_qty_sub p wh typ sub qty "MANUAL" ""

  -- A failed second half: the origin is credited, whatever comes of that, and the error returned.
  abbrev pub credited :
      Action F (Unit {0}) → Result (Unit {0}) × World F → Result (Unit {0}) × World F
  credited credit (ok x, v) = (ok x, v)
  credited credit (err e, v) = (err e, (credit v).1)

  unfoldable pub or_credit : Action F (Unit {0}) → Action F (Unit {0}) → Action F (Unit {0})
  or_credit m credit v = credited credit (m v)

  unfoldable pub transfer_stock : String → String → String → F → Action F (Unit {0})
  transfer_stock p src dst qty = do
    fail_if (is_nonpos qty || p == "" || src == "" || dst == "" || src == dst) invalid
    get_product p
    Repo.get_warehouse src
    Repo.get_warehouse dst
    ref ← new_uuid
    apply_qty_sub p src "TRANSFER_OUT" subtype_transfer qty "TRANSFER" ref
    or_credit (apply_qty_sub p dst "TRANSFER_IN" subtype_transfer qty "TRANSFER" ref)
        (apply_qty_sub p src "TRANSFER_IN" subtype_transfer qty "TRANSFER" ref)

  -- `toStockFromPurchase`
  unfoldable pub to_stock_from_purchase : String → F → Action F F
  to_stock_from_purchase id qty = do
    stored ← get_product id
    let p = normalize_product stored
    lift (to_stock_qty p qty p.purchase_uom)

  -- One round of the loop over the lines of a purchase, in `ReceivePurchase` and `confirmInbound`.
  unfoldable pub receive_line : String → String → String → OrderItem F → Action F (Unit {0})
  receive_line wh doc_type doc_id it =
      if Repo.is_void_line it.product_id it.quantity then pure tt else (do
        qty ← to_stock_from_purchase it.product_id it.quantity
        apply_qty it.product_id wh "PURCHASE_IN" qty doc_type doc_id)

  unfoldable pub receive_purchase : String → String → List (OrderItem F) → Action F (Unit {0})
  receive_purchase order wh items = do
    fail_if (order == "" || wh == "") invalid
    Repo.get_warehouse wh
    done ← Repo.has_movement "PURCHASE_ORDER" order "PURCHASE_IN"
    if done then pure tt else for_each (receive_line wh "PURCHASE_ORDER" order) items
