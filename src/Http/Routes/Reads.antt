-- ===== src/Http/Routes/Reads.antt =====
-- The GET routes leave everything as it is.
use erp_stock.Base.{ℕ, String, ◌≡◌, Bool, true, false, Option}
use erp_stock.Float.{Float}
use erp_stock.World.{World}
use erp_stock.World.Unchanged.{Unchanged, unchanged_rules}
use erp_stock.Repo
use erp_stock.Repo.Warehouses
use erp_stock.Catalog.Categories as Category_Documents
use erp_stock.Catalog.Products as Product_Documents
use erp_stock.Catalog.Prices
use erp_stock.Catalog.Assemblies
use erp_stock.Service.Lookup
use erp_stock.Service.Categories
use erp_stock.Service.Listings
use erp_stock.Http.Answers.{Answers, answer-Answers}
use erp_stock.Http.Catalog
use erp_stock.Http.Stock
use erp_stock.Http.Kits
use erp_stock.Http.Routes.{
  Route, get_products, get_product, get_categories, get_warehouses, get_balances, get_movements,
  get_reservations, get_sale_prices, get_purchase_prices, get_assemblies, get_assembly, dispatch,
}

-- The method of the route is GET.
abbrev pub is_get : {F : Type 0} → Route F → Bool
is_get get_products = true
is_get (get_product _) = true
is_get get_categories = true
is_get (get_warehouses _) = true
is_get get_balances = true
is_get (get_movements _ _ _ _ _ _) = true
is_get (get_reservations _) = true
is_get (get_sale_prices _) = true
is_get (get_purchase_prices _) = true
is_get get_assemblies = true
is_get (get_assembly _) = true
is_get _ = false

module _ {F : Type 0} where
  list_products-Unchanged : Answers {F = F} Unchanged Catalog.list_products
  unfolding Catalog.list_products Product_Documents.list
  list_products-Unchanged = answer-Answers 200 _ _ (search unchanged_rules)

  get_product-Unchanged : (id : String) → Answers {F = F} Unchanged (Catalog.get_product id)
  unfolding Catalog.get_product Lookup.get_product
  get_product-Unchanged id = answer-Answers 200 _ _ (search unchanged_rules)

  list_categories-Unchanged : Answers {F = F} Unchanged Catalog.list_categories
  unfolding Catalog.list_categories Categories.list_categories Category_Documents.list
  list_categories-Unchanged = answer-Answers 200 _ _ (search unchanged_rules)

  list_warehouses-Unchanged :
      (le : String → String → Bool) → Answers {F = F} Unchanged (Catalog.list_warehouses le)
  unfolding Catalog.list_warehouses Warehouses.list_warehouses
  list_warehouses-Unchanged le = answer-Answers 200 _ _ (search unchanged_rules)

  list_assemblies-Unchanged : Answers {F = F} Unchanged Kits.list_assemblies
  unfolding Kits.list_assemblies Lookup.list_assemblies
  list_assemblies-Unchanged = answer-Answers 200 _ _ (search unchanged_rules)

  get_assembly-Unchanged : (id : String) → Answers {F = F} Unchanged (Kits.get_assembly id)
  unfolding Kits.get_assembly Assemblies.get_assembly
  get_assembly-Unchanged id = answer-Answers 200 _ _ (search unchanged_rules)

module _ {F : Type 0} ⦃fl : Float F⦄ where
  list_balances-Unchanged : Answers {F = F} Unchanged Stock.list_balances
  unfolding Stock.list_balances Repo.list_balances
  list_balances-Unchanged = answer-Answers 200 _ _ (search unchanged_rules)

  list_movements-Unchanged :
      (parse : String → Option ℕ) (p wh sub since until : String)
      → Answers {F = F} Unchanged (Stock.list_movements parse p wh sub since until)
  unfolding Stock.list_movements Repo.list_movements
  list_movements-Unchanged parse p wh sub since until =
      answer-Answers 200 _ _ (search unchanged_rules)

  list_open_reservations-Unchanged :
      (p : String) → Answers {F = F} Unchanged (Stock.list_open_reservations p)
  unfolding Stock.list_open_reservations Listings.list_open_reservations Repo.list_open_reservations
  list_open_reservations-Unchanged p = answer-Answers 200 _ _ (search unchanged_rules)

  list_sale_prices-Unchanged : (p : String) → Answers {F = F} Unchanged (Kits.list_sale_prices p)
  unfolding Kits.list_sale_prices Prices.list_sale_history
  list_sale_prices-Unchanged p = answer-Answers 200 _ _ (search unchanged_rules)

  list_purchase_prices-Unchanged :
      (p : String) → Answers {F = F} Unchanged (Kits.list_purchase_prices p)
  unfolding Kits.list_purchase_prices Prices.list_purchase_history
  list_purchase_prices-Unchanged p = answer-Answers 200 _ _ (search unchanged_rules)

-- A GET request leaves what is stored, cached, locked and published as it was, whatever calls fail.
pub get-Unchanged :
    {F : Type 0} ⦃fl : Float F⦄ (r : Route F) (w : World F)
    → is_get r ≡ true
    → Unchanged w (dispatch r w).1
unfolding dispatch
get-Unchanged get_products w h = list_products-Unchanged.at w
get-Unchanged (get_product id) w h = (get_product-Unchanged id).at w
get-Unchanged get_categories w h = list_categories-Unchanged.at w
get-Unchanged (get_warehouses le) w h = (list_warehouses-Unchanged le).at w
get-Unchanged get_balances w h = list_balances-Unchanged.at w
get-Unchanged (get_movements parse p wh sub since until) w h =
    (list_movements-Unchanged parse p wh sub since until).at w
get-Unchanged (get_reservations p) w h = (list_open_reservations-Unchanged p).at w
get-Unchanged (get_sale_prices p) w h = (list_sale_prices-Unchanged p).at w
get-Unchanged (get_purchase_prices p) w h = (list_purchase_prices-Unchanged p).at w
get-Unchanged get_assemblies w h = list_assemblies-Unchanged.at w
get-Unchanged (get_assembly id) w h = (get_assembly-Unchanged id).at w
get-Unchanged _ w h = cc
