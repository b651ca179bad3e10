-- ===== src/Service/Lookup.antt =====
-- The repositories that the stock operations only read: ProductRepo.Get
-- (internal/adapters/mongo/product_repo.go), and CatalogRepo.ListAssemblies.
use erp_stock.Base.{String, ◌==◌, List, [], ◌∷◌, if◌then◌else◌, is_empty}
use erp_stock.Domain.Errors.{Result, ok, err, not_found}
use erp_stock.Domain.Types.{Product, Assembly}
use erp_stock.World.{Action, pure, lift, ◌>>=◌, ◌>>◌, call, gets}

module _ {F : Type 0} where
  unfoldable pub find_product : String → List (Product F) → Result (Product F)
  find_product id [] = err not_found
  find_product id (p ∷ ps) = if p.id == id then ok p else find_product id ps

  unfoldable pub get_product : String → Action F (Product F)
  unfolding find_product
  get_product id = do call; ps ← gets (λ w. w.products); lift (find_product id ps)

  -- The items are loaded by a second query, where there are assemblies.
  unfoldable pub list_assemblies : Action F (List (Assembly F))
  list_assemblies = do
    call
    rows ← gets (λ w. w.assemblies)
    if is_empty rows then pure [] else (call >> pure rows)
