-- ===== src/Tests/Catalog.antt =====
-- The theorems on categories and products, applied to a small catalog.
use erp_stock.Base.{
  suc, String, eq_iff, ◌≡◌, ◌≢◌, ◌↔◌, refl, arith, Bool, true, false, some, List, [], ◌∷◌, length,
  inl, inr,
}
use erp_stock.Base.Int.{ℤ, pos}
use erp_stock.Float.{fixed_float}
use erp_stock.Text
use erp_stock.Domain.Errors.{Result, ok}
use erp_stock.Domain.Types.{Product, Category}
use erp_stock.Domain.Uom
use erp_stock.Domain.Product as Product_Rules
use erp_stock.Domain.Category.{
  Forest, climb, category_parent_would_cycle, build_category_tree, find_category,
}
use erp_stock.Domain.Category
use erp_stock.Domain.Category.Cycle.{Ends, Leads, climb_ends, would_cycle_iff}
use erp_stock.Store.Warehouses as Warehouse_Rows
use erp_stock.Repo.Warehouses
use erp_stock.World.{World}
use erp_stock.World
use erp_stock.Catalog.Categories
use erp_stock.Catalog.Categories.Wooded.{IsForest, IsForest-nil, IsForest-append}
use erp_stock.Catalog.Categories.Branches.{build_category_tree_ends}
use erp_stock.Catalog.Products
use erp_stock.Catalog.Assemblies
use erp_stock.Service.Lookup
use erp_stock.Service.Categories as Category_Service
use erp_stock.Service.Products as Product_Service
use erp_stock.Service.Products.Found.{IsUpdated, update_product-IsUpdated}
use erp_stock.Service.Products.Unused.{IsUnused, delete_product-IsUnused}
use erp_stock.Tests.Sample.{flour, small_world}

abbrev pub food : Category
food = record { id = "food"; parent_id = ""; name = "Food" }

abbrev pub bread : Category
bread = record { id = "bread"; parent_id = "food"; name = "Bread" }

abbrev pub shelves : List Category
shelves = food ∷ bread ∷ []

pub shelves-IsForest : IsForest shelves
unfolding find_category
shelves-IsForest =
    IsForest-append (food ∷ []) bread (IsForest-append [] food IsForest-nil refl (inl refl)) refl
      (inr (λ e. cc))

bread_named : bread.id ≢ ""
bread_named = ground (arith, eq_iff bread.id "")

would_cycle_iff_example :
    (category_parent_would_cycle shelves "bread" "food" ≡ false)
    ↔ (Ends shelves "food" × ¬ Leads shelves "food" "bread")
would_cycle_iff_example = would_cycle_iff shelves "bread" "food" bread_named

-- Moving the parent under its child is refused, and a move to the top is not.
moves :
    (category_parent_would_cycle shelves "food" "bread" ≡ true)
    × (category_parent_would_cycle shelves "bread" "" ≡ false)
unfolding category_parent_would_cycle climb find_category
moves = (refl, refl)

climb_ends_example : (b : Bool) × (climb shelves "food" (suc (length shelves)) [] "bread" ≡ some b)
climb_ends_example = climb_ends shelves "food" "bread"

build_category_tree_ends_example : (f : Forest) × (build_category_tree shelves ≡ some f)
build_category_tree_ends_example = build_category_tree_ends shelves shelves-IsForest.keyed

shelves_drawn :
    build_category_tree shelves
    ≡ some (
        Category.grow
          (Category.node food (Category.grow (Category.node bread Category.bare) Category.bare))
          Category.bare)
unfolding build_category_tree Category.attach_each Category.attach Category.child_ids
    Category.root_ids Category.is_root find_category
shelves_drawn = refl

abbrev pub stocked : World ℤ
stocked = record small_world { categories = shelves }

abbrev salt : Product ℤ
salt = record flour {
  id = "salt";
  sku = "";
  name = " Salt";
  category_id = "food";
  purchase_uom = "KG";
  conversions = [];
  created_at = 5_000_001;
}

abbrev assign : String → Result String
assign _ = ok "000002"

abbrev stored_salt : Product ℤ
stored_salt = record salt { sku = "000002"; name = "Salt" }

abbrev salted : World ℤ
salted = record stocked { products = flour ∷ Products.as_stored stored_salt ∷ [] }

abbrev white_flour : Product ℤ
white_flour = record flour {
  sku = "other";
  name = "White flour ";
  category_id = " bread";
  sale_price = pos 9;
}

abbrev floured : World ℤ
floured = (Product_Service.update_product white_flour stocked).1

flour_updated : Product_Service.update_product white_flour stocked ≡ (ok tt, floured)
unfolding Product_Service.update_product Lookup.get_product Lookup.find_product
    Category_Service.ensure_category_parent Product_Rules.normalize_product
    Product_Rules.validate_product Product_Rules.validate_conversions Product_Rules.purchase_unit
    Product_Rules.sale_unit Uom.convert Uom.convert_by Text.trim_space Categories.get
    Categories.category_by_id Products.update Products.product_exists Products.sku_elsewhere
    Products.change_product Products.overwrite World.call World.next_fault World.later_faults
flour_updated = refl

update_product-IsUpdated_example :
    (old : Product ℤ) × (new : Product ℤ) × (Lookup.find_product "flour" stocked.products ≡ ok old)
    × (Lookup.find_product "flour" floured.products ≡ ok new)
    × IsUpdated white_flour old new
    × ((q : String)
        → q ≢ "flour"
        → Lookup.find_product q floured.products ≡ Lookup.find_product q stocked.products)
update_product-IsUpdated_example =
    update_product-IsUpdated white_flour stocked floured flour_updated

abbrev unsalted : World ℤ
unsalted = (Product_Service.delete_product "salt" salted).1

salt_deleted : Product_Service.delete_product "salt" salted ≡ (ok tt, unsalted)
unfolding Product_Service.delete_product Products.as_stored Warehouses.product_in_use
    Assemblies.product_in_use Assemblies.assembles Assemblies.any_item_uses Assemblies.item_uses
    Warehouse_Rows.has_moved Warehouse_Rows.has_balance Warehouse_Rows.has_open Products.delete
    Products.product_exists World.call World.next_fault World.later_faults
salt_deleted = refl

delete_product-IsUnused_example :
    IsUnused "salt" salted
    × (Products.product_exists "salt" salted.products ≡ true)
    × (unsalted.products ≡ Products.drop_product "salt" salted.products)
delete_product-IsUnused_example = delete_product-IsUnused "salt" salted unsalted salt_deleted
