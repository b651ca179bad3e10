-- ===== src/Service/Products.antt =====
-- `CreateProduct`, `UpdateProduct`, `ListProducts` and `DeleteProduct`, and the operations on
-- warehouses. `codes.Assign` is of another module: what it returns on a call is an argument.
pub mod Found
pub mod Unused
use erp_stock.Base.{String, ◌==◌, Bool, List}
use erp_stock.Float.{Float}
use erp_stock.Text.{trim_space}
use erp_stock.Domain.Errors.{Result, invalid, in_use}
use erp_stock.Domain.Types.{Product, Warehouse}
use erp_stock.Domain.Product.{normalize_product, validate_product}
use erp_stock.World.{Action, pure, lift, ◌>>=◌, ◌>>◌, fail_if}
use erp_stock.Catalog.Products
use erp_stock.Catalog.Assemblies
use erp_stock.Repo.Warehouses
use erp_stock.Service.Lookup.{get_product}
use erp_stock.Service.Categories.{id_or_new, ensure_category_parent}

module _ {F : Type 0} ⦃fl : Float F⦄ where
  unfoldable pub create_product : (String → Result String) → Product F → Action F (Product F)
  create_product assign given = do
    id ← id_or_new given.id
    let p = normalize_product (record given { id = id })
    lift (validate_product p)
    sku ← lift (assign p.sku)
    ensure_category_parent p.category_id
    Products.create (record p { sku = sku })

  unfoldable pub update_product : Product F → Action F (Unit {0})
  update_product given = do
    cur ← get_product given.id
    let p = normalize_product (record given { sku = cur.sku })
    lift (validate_product p)
    ensure_category_parent p.category_id
    Products.update p

module _ {F : Type 0} where
  unfoldable pub delete_product : String → Action F (Unit {0})
  delete_product id = do
    in_stock ← Warehouses.product_in_use id
    fail_if in_stock in_use
    in_kits ← Assemblies.product_in_use id
    fail_if in_kits in_use
    Products.delete id

  unfoldable pub create_warehouse : (String → Result String) → Warehouse → Action F Warehouse
  create_warehouse assign w = do
    let name = trim_space w.name
    fail_if (name == "") invalid
    code ← lift (assign w.code)
    Warehouses.create_warehouse (record w { name = name; code = code })
