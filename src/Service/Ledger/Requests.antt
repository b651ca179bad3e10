-- ===== src/Service/Ledger/Requests.antt =====
-- Which requests account for what they do to the balances by the movements that they record.
use erp_stock.Base.{String, ◌==◌, ◌≡◌, Bool, true, false, ◌||◌, Bool-cases, inl, inr}
use erp_stock.Float.{Float}
use erp_stock.Domain.Errors.{ok}
use erp_stock.Domain.Types.{InvoiceEvent}
use erp_stock.World.{World}
use erp_stock.World.Always.{OnSuccess}
use erp_stock.Service.Orders.{confirm_invoice, confirm_outbound}
use erp_stock.Service.Request.{
  Request, put_balance, post_movement, post_transfer, post_receive, order_event, invoice_event,
  handle,
}
use erp_stock.Service.Ledger.{
  Drifts, IsSteady, steady_rules, create_movement-IsSteady, transfer_stock-IsSteady,
  receive_purchase-IsSteady, confirm_inbound-IsSteady, sell_directly-IsSteady,
}

-- A manual movement, a transfer, a receipt, a purchase invoice, or a sale with no order.
abbrev pub is_ledgered : {F : Type 0} → Request F → Bool
is_ledgered (post_movement _ _ _ _ _) = true
is_ledgered (post_transfer _ _ _ _) = true
is_ledgered (post_receive _ _ _) = true
is_ledgered (invoice_event ev) = ev.direction == "IN" || ev.sales_order_id == ""
is_ledgered (put_balance _ _ _) = false
is_ledgered (order_event _) = false

module _ {F : Type 0} ⦃fl : Float F⦄ where
  direct_sale-IsSteady :
      (ev : InvoiceEvent F)
      → (ev.sales_order_id == "") ≡ true
      → OnSuccess IsSteady (confirm_outbound ev)
  unfolding confirm_outbound
  direct_sale-IsSteady ev no_order =
      rw no_order (search (steady_rules, sell_directly-IsSteady) depth 10)

  confirm_invoice-IsSteady :
      (ev : InvoiceEvent F)
      → (ev.direction == "IN" || ev.sales_order_id == "") ≡ true
      → OnSuccess IsSteady (confirm_invoice ev)
  unfolding confirm_invoice
  confirm_invoice-IsSteady ev direct = elim (Bool-cases (ev.direction == "IN")) [
    | inl inbound ↦ rw inbound (confirm_inbound-IsSteady ev)
    | inr outbound ↦ rw outbound (direct_sale-IsSteady ev (rw outbound at direct))
  ]

  handle-IsSteady : (r : Request F) → is_ledgered r ≡ true → OnSuccess IsSteady (handle r)
  unfolding handle
  handle-IsSteady (post_movement p wh direction sub qty) _ =
      create_movement-IsSteady p wh direction sub qty
  handle-IsSteady (post_transfer p src dst qty) _ = transfer_stock-IsSteady p src dst qty
  handle-IsSteady (post_receive order wh items) _ = receive_purchase-IsSteady order wh items
  handle-IsSteady (invoice_event ev) direct = confirm_invoice-IsSteady ev direct
  handle-IsSteady (put_balance p wh qty) e = let stop : false ≡ true = e in cc
  handle-IsSteady (order_event ev) e = let stop : false ≡ true = e in cc

-- A manual movement, a transfer, a receipt, a purchase invoice or a sale with no order that returns
-- no error keeps every balance near its history: what the balance exceeds the sum of its movements
-- by does not fall, and rises by at most one ten-thousandth for each movement out that is recorded.
pub drift-handle :
    {F : Type 0} ⦃fl : Float F⦄ (r : Request F) (w v : World F) (p wh : String)
    → is_ledgered r ≡ true
    → handle r w ≡ (ok tt, v)
    → Drifts p wh w.stock v.stock
drift-handle r w v p wh ledgered e = (handle-IsSteady r ledgered).at w tt v e p wh
