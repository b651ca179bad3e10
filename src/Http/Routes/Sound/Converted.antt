-- ===== src/Http/Routes/Sound/Converted.antt =====
-- What `toStockFromPurchase` finds after any inputs.
use erp_stock.Base.{String, ◌≡◌, refl, List, []}
use erp_stock.Float.{Float}
use erp_stock.Domain.Errors.{ok}
use erp_stock.Domain.Types.{Product}
use erp_stock.Domain.Product.Units.{accepted-has_stock_qty}
use erp_stock.World.{World}
use erp_stock.World.Rules.{call_calm}
use erp_stock.Catalog.Products.Accepted.{IsAccepted, find_product-IsAccepted}
use erp_stock.Service.Lookup.{find_product, get_product}
use erp_stock.Service.Movements.{to_stock_from_purchase}
use erp_stock.Http.Routes.{Input, run}
use erp_stock.Http.Routes.Sound.{IsSound}
use erp_stock.Http.Routes.Sound.Run.{run-IsSound}

to_stock_from_purchase-ok :
    {F : Type 0} ⦃fl : Float F⦄ (id : String) (q : F) (w : World F) (p : Product F)
    → w.faults ≡ []
    → find_product id w.products ≡ ok p
    → IsAccepted p
    → (z : F) × (to_stock_from_purchase id q w ≡ (ok z, w))
unfolding to_stock_from_purchase get_product
to_stock_from_purchase-ok id q w p calm found accepted =
    let (z, e) = accepted-has_stock_qty p q accepted in (z, rw (call_calm w calm, found, e) refl)

-- After any inputs from a sound state, once no more calls fail, toStockFromPurchase has a stock
-- quantity for every quantity of every stored product, whatever its units, and changes nothing.
pub run-to_stock_from_purchase :
    {F : Type 0} ⦃fl : Float F⦄ (is : List (Input F)) (w : World F) (id : String) (q : F)
    (p : Product F)
    → IsSound w
    → (run is w).faults ≡ []
    → find_product id (run is w).products ≡ ok p
    → (z : F) × (to_stock_from_purchase id q (run is w) ≡ (ok z, run is w))
run-to_stock_from_purchase is w id q p s calm found =
    to_stock_from_purchase-ok id q (run is w) p calm found
      (find_product-IsAccepted id (run is w).products p (run-IsSound is w s).accepted found)
