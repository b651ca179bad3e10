-- ===== src/Tests/Routes.antt =====
-- The theorems on the routes, applied to a small service.
use erp_stock.Base.{◌≡◌, refl, some, List, [], ◌∷◌}
use erp_stock.Base.Int.{ℤ, pos}
use erp_stock.Float.{fixed_float}
use erp_stock.Text
use erp_stock.Domain.Errors.{ok}
use erp_stock.Domain.Types.{Category}
use erp_stock.Domain.Category.{Forest, category_parent_would_cycle, climb, find_category}
use erp_stock.Domain.Product as Product_Rules
use erp_stock.Domain.Uom
use erp_stock.Service.Movements.{to_stock_from_purchase}
use erp_stock.Service.Lookup.{find_product}
use erp_stock.Http.Routes.Sound.Converted.{run-to_stock_from_purchase}
use erp_stock.Store.Tables
use erp_stock.Store.Warehouses
use erp_stock.World.{World}
use erp_stock.World
use erp_stock.World.Unchanged.{Unchanged}
use erp_stock.Catalog.Categories
use erp_stock.Catalog.Categories.Nodes.{IsDrawn}
use erp_stock.Catalog.Products
use erp_stock.Service.Categories as Category_Service
use erp_stock.Http
use erp_stock.Http.Catalog
use erp_stock.Http.Routes.{
  get_categories, put_category, post_categories, post_transfer, delete_product, Input, request,
  order, dispatch, step, run,
}
use erp_stock.Http.Routes.Reads.{get-Unchanged}
use erp_stock.Http.Routes.Sound.{IsSound}
use erp_stock.Http.Routes.Sound.Run.{run-IsSound}
use erp_stock.Http.Routes.Sound.Listed.{run-list_categories}
use erp_stock.Tests.Sample.{flour, small_stock-IsValid, line}
use erp_stock.Tests.Catalog.{stocked, shelves-IsForest, bread}

stocked-IsSound : IsSound stocked
unfolding Tables.warehouse_exists Warehouses.code_exists Products.product_exists Products.sku_exists
    Product_Rules.validate_product Product_Rules.validate_conversions Uom.convert Uom.convert_by
    Text.trim_space
stocked-IsSound = record {
  stock = small_stock-IsValid;
  warehouses = ((refl, refl, (refl, refl, tt)));
  products = (refl, refl, tt);
  accepted = (refl, tt);
  categories = shelves-IsForest;
}

abbrev rolls : Category
rolls = record { id = "rolls"; parent_id = "bread"; name = "Rolls" }

-- A category is added, one is moved under it in vain, stock is transferred, and an order arrives.
abbrev inputs : List (Input ℤ)
inputs =
    request (post_categories (some rolls))
    ∷ request (put_category "food" (some (record bread { parent_id = "rolls" })))
    ∷ request (
        post_transfer (
          some (record {
            product_id = "flour";
            from_warehouse_id = "A";
            to_warehouse_id = "B";
            quantity = pos 30_000;
          })))
    ∷ order (record {
      order_id = "o2";
      warehouse_id = "A";
      items = line "kit" (pos 10_000) ∷ [];
      total_amount = pos 0;
    })
    ∷ request (delete_product "flour")
    ∷ []

run-IsSound_example : IsSound (run inputs stocked)
run-IsSound_example = run-IsSound inputs stocked stocked-IsSound

abbrev moves : List (Input ℤ)
moves =
    request (post_categories (some rolls))
    ∷ request (put_category "food" (some (record bread { parent_id = "rolls" })))
    ∷ []

moves_calm : (run moves stocked).faults ≡ []
unfolding run step dispatch Catalog.create_category Catalog.update_category Http.with_body
    Http.answer Category_Service.create_category Category_Service.update_category
    Category_Service.id_or_new Category_Service.ensure_category_parent Text.trim_space
    category_parent_would_cycle climb find_category Categories.create Categories.get Categories.list
    Categories.category_by_id Categories.category_exists World.call World.next_fault
    World.later_faults
moves_calm = refl

run-list_categories_example :
    (f : Forest) × (Category_Service.list_categories (run moves stocked)
      ≡ (ok f, run moves stocked))
    × IsDrawn (run moves stocked).categories f
run-list_categories_example = run-list_categories moves stocked stocked-IsSound moves_calm

flour_kept : find_product "flour" (run moves stocked).products ≡ ok flour
unfolding run step dispatch Catalog.create_category Catalog.update_category Http.with_body
    Http.answer Category_Service.create_category Category_Service.update_category
    Category_Service.id_or_new Category_Service.ensure_category_parent Text.trim_space
    category_parent_would_cycle climb find_category Categories.create Categories.get Categories.list
    Categories.category_by_id Categories.category_exists World.call World.next_fault
    World.later_faults find_product
flour_kept = refl

run-to_stock_from_purchase_example :
    (z : ℤ) × (to_stock_from_purchase "flour" (pos 20_000) (run moves stocked)
      ≡ (ok z, run moves stocked))
run-to_stock_from_purchase_example =
    run-to_stock_from_purchase moves stocked "flour" (pos 20_000) flour stocked-IsSound moves_calm
      flour_kept

get-Unchanged_example : Unchanged stocked (dispatch get_categories stocked).1
get-Unchanged_example = get-Unchanged get_categories stocked refl
