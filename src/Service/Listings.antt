-- ===== src/Service/Listings.antt =====
-- `ListOpenReservations`; the other listings of internal/application/service.go pass on to the
-- repositories.
use erp_stock.Base.{String, ◌==◌, List}
use erp_stock.Float.{Float}
use erp_stock.Domain.Errors.{invalid}
use erp_stock.Domain.Types.{Reservation}
use erp_stock.World.{Action, ◌>>◌, fail_if}
use erp_stock.Repo

module _ {F : Type 0} ⦃fl : Float F⦄ where
  unfoldable pub list_open_reservations : String → Action F (List (Reservation F))
  list_open_reservations p = fail_if (p == "") invalid >> Repo.list_open_reservations p
