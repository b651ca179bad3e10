-- ===== src/Http/Stock.antt =====
-- The routes on balances, movements, reservations and purchases.
use erp_stock.Base.{ℕ, String, ◌==◌, Option, none, List, if◌then◌else◌}
use erp_stock.Float.{Float}
use erp_stock.Domain.Errors.{
  Error, not_found, insufficient, already_processed, no_conversion, invalid, in_use, conflict,
  failure,
}
use erp_stock.Domain.Types.{Balance, Movement, Reservation, OrderItem}
use erp_stock.Repo
use erp_stock.Service.Listings
use erp_stock.Service.Movements
use erp_stock.Http.{Handler, status_from, server_error, answer, with_body}

pub record SetBalanceIn (F : Type 0) : Type 0 where
  pub product_id : String
  pub warehouse_id : String
  pub quantity : F

pub record MovementIn (F : Type 0) : Type 0 where
  pub product_id : String
  pub warehouse_id : String
  pub direction : String
  pub subtype : String
  pub quantity : F

pub record TransferIn (F : Type 0) : Type 0 where
  pub product_id : String
  pub from_warehouse_id : String
  pub to_warehouse_id : String
  pub quantity : F

pub record ReceivePurchaseIn (F : Type 0) : Type 0 where
  pub order_id : String
  pub warehouse_id : String
  pub items : List (OrderItem F)

-- The statuses of `listOpenReservations`.
unfoldable pub reservations_status : Error → ℕ
reservations_status invalid = 400
reservations_status no_conversion = 500
reservations_status not_found = 500
reservations_status insufficient = 500
reservations_status already_processed = 500
reservations_status in_use = 500
reservations_status conflict = 500
reservations_status failure = 500

-- A bound of the time that is blank or that `time.Parse` refuses is none.
abbrev pub time_bound : (String → Option ℕ) → String → Option ℕ
time_bound parse v = if v == "" then none else parse v

module _ {F : Type 0} ⦃fl : Float F⦄ where
  unfoldable pub list_balances : Handler F (List (Balance F))
  list_balances = answer 200 server_error Repo.list_balances

  unfoldable pub set_balance : Option (SetBalanceIn F) → Handler F (Balance F)
  set_balance body =
      with_body body (λ i.
        answer 200 server_error (Movements.set_balance i.product_id i.warehouse_id i.quantity))

  -- The five texts of the query; `parse` is time.Parse for RFC 3339.
  unfoldable pub list_movements :
      (String → Option ℕ)
      → String
      → String
      → String
      → String
      → String
      → Handler F (List (Movement F))
  list_movements parse p wh sub since until = answer 200 server_error (
      Repo.list_movements (record {
        product_id = p;
        warehouse_id = wh;
        subtype = sub;
        since = time_bound parse since;
        until = time_bound parse until;
      }))

  unfoldable pub list_open_reservations : String → Handler F (List (Reservation F))
  list_open_reservations p = answer 200 reservations_status (Listings.list_open_reservations p)

  unfoldable pub transfer_stock : Option (TransferIn F) → Handler F (Unit {0})
  transfer_stock body = with_body body (λ i.
      answer 201 status_from
        (Movements.transfer_stock i.product_id i.from_warehouse_id i.to_warehouse_id i.quantity))

  unfoldable pub create_movement : Option (MovementIn F) → Handler F (Unit {0})
  create_movement body = with_body body (λ i.
      answer 201 status_from
        (Movements.create_movement i.product_id i.warehouse_id i.direction i.subtype i.quantity))

  unfoldable pub receive_purchase : Option (ReceivePurchaseIn F) → Handler F (Unit {0})
  receive_purchase body =
      with_body body
        (λ i. answer 201 status_from (Movements.receive_purchase i.order_id i.warehouse_id i.items))
