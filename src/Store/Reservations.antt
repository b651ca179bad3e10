-- ===== src/Store/Reservations.antt =====
-- The statements of StockRepo on stock_reservations, and the recomputation of the reserved column.
pub mod Synced
use erp_stock.Base.{
  String, ◌==◌, Bool, true, false, not, ◌&&◌, ◌||◌, Option, none, some, List, [], ◌∷◌, contains,
  if◌then◌else◌, keep_if,
}
use erp_stock.Base.Int.{ℤ, pos}
use erp_stock.Domain.Errors.{ok, err, failure}
use erp_stock.Domain.Types.{ReservationStatus, open_status, released, confirmed}
use erp_stock.Store.Tables.{
  BalanceRow, ReservationRow, Tables, Statement, balance_ok, reservation_ok, warehouse_exists,
  sum_by,
}

abbrev pub is_open : ReservationStatus → Bool
is_open open_status = true
is_open released = false
is_open confirmed = false

-- `r.warehouse_id IS NULL OR r.warehouse_id = w`
abbrev pub holds_in : Option String → String → Bool
holds_in none w = true
holds_in (some v) w = v == w

-- What a reservation holds of a product in a warehouse.
abbrev pub held_by : String → String → ReservationRow → ℤ
held_by p w r =
    if r.product_id == p && (is_open r.status && holds_in r.warehouse_id w)
    then r.quantity
    else pos 0

-- `reservedSQL`: the sum of the open reservations.
unfoldable pub open_sum : String → String → List ReservationRow → ℤ
unfolding sum_by
open_sum p w = sum_by (held_by p w)

-- One row of the UPDATE of `recalcReserved`.
abbrev pub recalc_row : List String → List ReservationRow → BalanceRow → BalanceRow
recalc_row ids rsv b =
    if contains ids b.product_id
    then record b { reserved = open_sum b.product_id b.warehouse_id rsv }
    else b

unfoldable pub recalc_rows : List String → List ReservationRow → List BalanceRow → List BalanceRow
unfolding open_sum
recalc_rows ids rsv [] = []
recalc_rows ids rsv (b ∷ bs) = recalc_row ids rsv b ∷ recalc_rows ids rsv bs

unfoldable pub reserved_fit : List BalanceRow → Bool
reserved_fit [] = true
reserved_fit (b ∷ bs) = balance_ok b.reserved && reserved_fit bs

-- `recalcReserved`, its UPDATE.
unfoldable pub recalc_reserved : List String → Statement (Unit {0})
unfolding recalc_rows reserved_fit
recalc_reserved ids t =
    let rows = recalc_rows ids t.reservations t.balances in
    if reserved_fit rows then (ok tt, record t { balances = rows }) else (err failure, t)

-- `SELECT product_id FROM stock_reservations WHERE sales_order_id = …`
unfoldable pub products_of_order : String → List ReservationRow → List String
products_of_order o [] = []
products_of_order o (r ∷ rs) =
    if r.sales_order_id == o then r.product_id ∷ products_of_order o rs else products_of_order o rs

abbrev pub is_line : String → String → ReservationRow → Bool
is_line o p r = r.sales_order_id == o && r.product_id == p

-- `COALESCE(EXCLUDED.warehouse_id, stock_reservations.warehouse_id)`
abbrev pub coalesce : Option String → Option String → Option String
coalesce (some w) old = some w
coalesce none old = old

-- INSERT … ON CONFLICT (sales_order_id, product_id) DO UPDATE, on the rows.
unfoldable pub put_reservation :
    String → String → Option String → ℤ → List ReservationRow → List ReservationRow
put_reservation o p wh z [] =
    record {
      sales_order_id = o;
      product_id = p;
      warehouse_id = wh;
      quantity = z;
      status = open_status;
    }
    ∷ []
put_reservation o p wh z (r ∷ rs) =
    if is_line o p r
    then record r { quantity = z; warehouse_id = coalesce wh r.warehouse_id; status = open_status }
      ∷ rs
    else r ∷ put_reservation o p wh z rs

abbrev pub warehouse_ref_ok : Option String → Tables → Bool
warehouse_ref_ok none t = true
warehouse_ref_ok (some w) t = warehouse_exists w t.warehouses

-- The INSERT of `ReplaceReservations`.
unfoldable pub upsert_reservation : String → String → Option String → ℤ → Statement (Unit {0})
unfolding put_reservation
upsert_reservation o p wh z t =
    if reservation_ok z && warehouse_ref_ok wh t
    then (ok tt, record t { reservations = put_reservation o p wh z t.reservations })
    else (err failure, t)

-- One row of the UPDATE to 'RELEASED': an open line of the order whose product is not kept.
abbrev pub release_row : String → List String → ReservationRow → ReservationRow
release_row o keep r =
    if r.sales_order_id == o && (is_open r.status && not (contains keep r.product_id))
    then record r { status = released }
    else r

unfoldable pub release_rows : String → List String → List ReservationRow → List ReservationRow
release_rows o keep [] = []
release_rows o keep (r ∷ rs) = release_row o keep r ∷ release_rows o keep rs

-- The two UPDATEs that release: with no product kept, the test on products is not made.
unfoldable pub release_others : String → List String → Statement (Unit {0})
unfolding release_rows
release_others o keep t = (ok tt, record t { reservations = release_rows o keep t.reservations })

abbrev pub is_open_of : String → ReservationRow → Bool
is_open_of o r = r.sales_order_id == o && is_open r.status

abbrev pub confirm_row : String → ReservationRow → ReservationRow
confirm_row o r = if is_open_of o r then record r { status = confirmed } else r

unfoldable pub confirm_rows : String → List ReservationRow → List ReservationRow
confirm_rows o [] = []
confirm_rows o (r ∷ rs) = confirm_row o r ∷ confirm_rows o rs

-- The rows that RETURNING gives, as they are after the UPDATE.
unfoldable pub confirmed_rows : String → List ReservationRow → List ReservationRow
confirmed_rows o [] = []
confirmed_rows o (r ∷ rs) =
    let rest = confirmed_rows o rs in
    if is_open_of o r then record r { status = confirmed } ∷ rest else rest

-- The UPDATE to 'CONFIRMED' of `ConfirmReservations`.
unfoldable pub confirm_open : String → Statement (List ReservationRow)
unfolding confirm_rows confirmed_rows
confirm_open o t = (
  ok (confirmed_rows o t.reservations),
  record t { reservations = confirm_rows o t.reservations },
)

-- `SELECT COUNT(1) … WHERE sales_order_id = …`, as n > 0.
unfoldable pub has_reservation : String → List ReservationRow → Bool
has_reservation o [] = false
has_reservation o (r ∷ rs) = r.sales_order_id == o || has_reservation o rs

-- `ListOpenReservations`, the rows.
unfoldable pub open_of_product : String → List ReservationRow → List ReservationRow
open_of_product p = keep_if (λ r. r.product_id == p && is_open r.status)
