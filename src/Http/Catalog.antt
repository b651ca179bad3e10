-- ===== src/Http/Catalog.antt =====
-- The routes on products, categories and warehouses.
use erp_stock.Base.{ℕ, String, Bool, Option, List}
use erp_stock.Float.{Float}
use erp_stock.Domain.Errors.{
  Error, not_found, insufficient, already_processed, no_conversion, invalid, in_use, conflict,
  failure, Result,
}
use erp_stock.Domain.Types.{Product, Category, Warehouse}
use erp_stock.Domain.Category.{Forest}
use erp_stock.World.{pure, ◌>>◌}
use erp_stock.Repo.Warehouses
use erp_stock.Catalog.Products as Documents
use erp_stock.Service.Lookup
use erp_stock.Service.Categories
use erp_stock.Service.Products
use erp_stock.Http.{Handler, status_from, server_error, answer, with_body}

abbrev missing : Error → ℕ
missing e = 404

-- The statuses of `updateProduct`.
unfoldable pub update_status : Error → ℕ
update_status no_conversion = 400
update_status invalid = 400
update_status not_found = 404
update_status insufficient = 404
update_status already_processed = 404
update_status in_use = 404
update_status conflict = 404
update_status failure = 404

module _ {F : Type 0} where
  unfoldable pub list_products : Handler F (List (Product F))
  list_products = answer 200 server_error Documents.list

  unfoldable pub get_product : String → Handler F (Product F)
  get_product id = answer 200 missing (Lookup.get_product id)

  unfoldable pub delete_product : String → Handler F (Unit {0})
  delete_product id = answer 204 status_from (Products.delete_product id)

  unfoldable pub list_categories : Handler F Forest
  list_categories = answer 200 server_error Categories.list_categories

  unfoldable pub create_category : Option Category → Handler F Category
  create_category body = with_body body (λ c. answer 201 status_from (Categories.create_category c))

  -- The id is that of the path.
  unfoldable pub update_category : String → Option Category → Handler F Category
  update_category id body = with_body body (λ c0.
      let c = record c0 { id = id } in
      answer 200 status_from (Categories.update_category c >> pure c))

  unfoldable pub delete_category : String → Handler F (Unit {0})
  delete_category id = answer 204 status_from (Categories.delete_category id)

  unfoldable pub list_warehouses : (String → String → Bool) → Handler F (List Warehouse)
  list_warehouses le = answer 200 server_error (Warehouses.list_warehouses le)

  unfoldable pub create_warehouse :
      (String → Result String) → Option Warehouse → Handler F Warehouse
  create_warehouse assign body =
      with_body body (λ w. answer 201 status_from (Products.create_warehouse assign w))

  unfoldable pub update_warehouse : String → Option Warehouse → Handler F Warehouse
  update_warehouse id body = with_body body (λ w0.
      let w = record w0 { id = id } in
      answer 200 status_from (Warehouses.update_warehouse w >> pure w))

module _ {F : Type 0} ⦃fl : Float F⦄ where
  -- The time of creation is now.
  unfoldable pub create_now : (String → Result String) → Product F → Handler F (Product F)
  create_now assign p w =
      answer 201 status_from
        (Products.create_product assign (record p { created_at = w.stock.clock })) w

  unfoldable pub create_product :
      (String → Result String) → Option (Product F) → Handler F (Product F)
  create_product assign body = with_body body (create_now assign)

  unfoldable pub update_product : String → Option (Product F) → Handler F (Product F)
  update_product id body = with_body body (λ p0.
      let p = record p0 { id = id } in
      answer 200 update_status (Products.update_product p >> pure p))
