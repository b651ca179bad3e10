-- ===== src/Service/Outside.antt =====
-- Relations between the worlds before and after that the repositories beside StockRepo respect, and
-- with them every operation on products, prices and assemblies.
pub mod Instances
use erp_stock.Base.{String, ◌==◌, Bool, List, [], ◌∷◌, if◌then◌else◌}
use erp_stock.Float.{Float}
use erp_stock.Domain.Errors.{Result, ok, err}
use erp_stock.Domain.Types.{Product, PriceHistory, Assembly, AssemblyItem}
use erp_stock.World.{World, Action, pure, ◌>>=◌, ◌>>◌, call, modify, new_uuid}
use erp_stock.World.Always.{
  Always, Always-bind, Always-then, Always-lift_then, Always-pure, IsPreorder, always_rules,
}
use erp_stock.World.Apart.{Apart}
use erp_stock.Catalog.Categories
use erp_stock.Catalog.Products
use erp_stock.Catalog.Prices
use erp_stock.Catalog.Products.Accepted.{IsAccepted}
use erp_stock.Domain.Product.{normalize_product, validate_product, validate_conversions}
use erp_stock.Catalog.Assemblies
use erp_stock.Repo.Warehouses
use erp_stock.Service.Lookup.{get_product}
use erp_stock.Service.Categories.{id_or_new, ensure_category_parent}
use erp_stock.Service.Products.{create_product, update_product, delete_product}
use erp_stock.Service.Assemblies as Kits

pub record CatalogRespects {F : Type 0} ⦃fl : Float F⦄ (R : World F → World F → Type 0)
    : Type 1 where
  pub pre : IsPreorder R
  pub on_call : Always R call
  pub on_uuid : Always R new_uuid
  pub on_create : (p : Product F) → IsAccepted p → Always R (Products.create p)
  pub on_update : (p : Product F) → IsAccepted p → Always R (Products.update p)
  pub on_delete : (id : String) → Always R (Products.delete id)
  pub on_sale_price : (id : String) (price : F) → Always R (Products.set_sale_price id price)
  pub on_purchase_price :
      (id : String) (price : F) → Always R (Products.set_purchase_price id price)
  pub on_modify : (f : World F → World F) → ((w : World F) → Apart w (f w)) → Always R (modify f)
  pub on_transaction :
      {A : Type 0} (m : Action F A) → Always R m → Always R (Assemblies.in_transaction m)

module _ {F : Type 0} ⦃fl : Float F⦄ {R : World F → World F → Type 0} ⦃h : CatalogRespects R⦄ where
  pre_frame : IsPreorder R
  pre_frame = h.pre

  call_frame : Always R call
  call_frame = h.on_call

  uuid_frame : Always R new_uuid
  uuid_frame = h.on_uuid

  create_frame : (p : Product F) → IsAccepted p → Always R (Products.create p)
  create_frame = h.on_create

  update_frame : (p : Product F) → IsAccepted p → Always R (Products.update p)
  update_frame = h.on_update

  delete_frame : (id : String) → Always R (Products.delete id)
  delete_frame = h.on_delete

  set_sale_frame : (id : String) (price : F) → Always R (Products.set_sale_price id price)
  set_sale_frame = h.on_sale_price

  set_purchase_frame : (id : String) (price : F) → Always R (Products.set_purchase_price id price)
  set_purchase_frame = h.on_purchase_price

  modify_frame : (f : World F → World F) → ((w : World F) → Apart w (f w)) → Always R (modify f)
  modify_frame = h.on_modify

  in_transaction_frame :
      {A : Type 0} (m : Action F A) → Always R m → Always R (Assemblies.in_transaction m)
  in_transaction_frame m = h.on_transaction m

ruleset catalog_rules = (always_rules, pre_frame, call_frame, uuid_frame, modify_frame)

module _ {F : Type 0} ⦃fl : Float F⦄ {R : World F → World F → Type 0} ⦃h : CatalogRespects R⦄ where
  id_or_new_frame : (id : String) → Always R (id_or_new id)
  unfolding id_or_new
  id_or_new_frame id = search catalog_rules

  ensure_category_parent_frame : (p : String) → Always R (ensure_category_parent p)
  unfolding ensure_category_parent Categories.get
  ensure_category_parent_frame p = search catalog_rules

  get_product_frame : (id : String) → Always R (get_product id)
  unfolding get_product
  get_product_frame id = search catalog_rules

  in_stock_frame : (id : String) → Always R (Warehouses.product_in_use id)
  unfolding Warehouses.product_in_use
  in_stock_frame id = search catalog_rules depth 12

  in_kits_frame : (id : String) → Always R (Assemblies.product_in_use id)
  unfolding Assemblies.product_in_use
  in_kits_frame id = search catalog_rules depth 12

  pub delete_product_frame : (id : String) → Always R (delete_product id)
  unfolding delete_product
  delete_product_frame id =
      search (catalog_rules, in_stock_frame, in_kits_frame, delete_frame) depth 12

module _ {F : Type 0} ⦃fl : Float F⦄ {R : World F → World F → Type 0} ⦃h : CatalogRespects R⦄ where
  pub create_product_frame :
      (assign : String → Result String) (p : Product F) → Always R (create_product assign p)
  unfolding create_product validate_product validate_conversions
  create_product_frame assign p = Always-bind pre_frame _ _ (id_or_new_frame p.id) (λ id.
      let n = normalize_product (record p { id = id }) in
      Always-lift_then pre_frame (validate_product n) _ (λ _ k.
        Always-bind pre_frame _ _ (search catalog_rules) (λ sku.
          Always-then pre_frame _ _ (ensure_category_parent_frame n.category_id)
            (create_frame (record n { sku = sku }) k))))

  pub update_product_frame : (p : Product F) → Always R (update_product p)
  unfolding update_product
  update_product_frame p = Always-bind pre_frame _ _ (get_product_frame p.id) (λ old.
      let n = normalize_product (record p { sku = old.sku }) in
      Always-lift_then pre_frame (validate_product n) _ (λ _ k.
        Always-then pre_frame _ _ (ensure_category_parent_frame n.category_id) (update_frame n k)))

  insert_sale_frame : (row : PriceHistory F) → Always R (Prices.insert_sale_history row)
  unfolding Prices.insert_sale_history
  insert_sale_frame row = search catalog_rules depth 16

  insert_purchase_frame : (row : PriceHistory F) → Always R (Prices.insert_purchase_history row)
  unfolding Prices.insert_purchase_history
  insert_purchase_frame row = search catalog_rules depth 16

  pub register_sale_price_frame :
      (id : String) (price : F) → Always R (Kits.register_sale_price id price)
  unfolding Kits.register_sale_price
  register_sale_price_frame id price =
      search (catalog_rules, get_product_frame, set_sale_frame, insert_sale_frame) depth 16

  pub register_purchase_price_frame :
      (id : String) (price : F) (doc : String)
      → Always R (Kits.register_purchase_price id price doc)
  unfolding Kits.register_purchase_price
  register_purchase_price_frame id price doc =
      search (catalog_rules, get_product_frame, set_purchase_frame, insert_purchase_frame) depth 16

  insert_item_frame : (id : String) (it : AssemblyItem F) → Always R (Assemblies.insert_item id it)
  unfolding Assemblies.insert_item
  insert_item_frame id it = search catalog_rules depth 16

  insert_items_frame :
      (id : String) (its : List (AssemblyItem F)) → Always R (Assemblies.insert_items id its)
  unfolding Assemblies.insert_items
  insert_items_frame id [] = search catalog_rules
  insert_items_frame id (it ∷ its) = Always-bind pre_frame _ _ (insert_item_frame id it) (λ new.
      Always-bind pre_frame _ _ (insert_items_frame id its)
        (λ news. Always-pure pre_frame (new ∷ news)))

  create_rows_frame : (a : Assembly F) → Always R (Assemblies.create_rows a)
  unfolding Assemblies.create_rows
  create_rows_frame a = search (catalog_rules, insert_items_frame) depth 30 fits 20000

  create_row_frame : (a : Assembly F) → Always R (Assemblies.create_assembly a)
  unfolding Assemblies.create_assembly
  create_row_frame a = search (catalog_rules, in_transaction_frame, create_rows_frame)

  replace_items_frame : (a : Assembly F) → Always R (Assemblies.replace_items a)
  unfolding Assemblies.replace_items
  replace_items_frame a = search (catalog_rules, insert_items_frame) depth 16

  update_rows_frame : (a : Assembly F) → Always R (Assemblies.update_rows a)
  unfolding Assemblies.update_rows
  update_rows_frame a = search (catalog_rules, replace_items_frame) depth 30 fits 20000

  update_row_frame : (a : Assembly F) → Always R (Assemblies.update_assembly a)
  unfolding Assemblies.update_assembly
  update_row_frame a = search (catalog_rules, in_transaction_frame, update_rows_frame)

  get_assembly_frame : (id : String) → Always R (Assemblies.get_assembly {F = F} id)
  unfolding Assemblies.get_assembly
  get_assembly_frame id = search catalog_rules depth 12

  count_items_frame :
      (t : Kits.Totals F) (its : List (AssemblyItem F)) → Always R (Kits.count_items t its)
  unfolding Kits.count_items
  count_items_frame t [] = search catalog_rules
  count_items_frame t (it ∷ its) =
      Always-bind pre_frame _ _ (get_product_frame it.product_id)
        (λ p. count_items_frame (Kits.count_item t it p) its)

  pub recalculate_assembly_frame : (id : String) → Always R (Kits.recalculate_assembly id)
  unfolding Kits.recalculate_assembly
  recalculate_assembly_frame id =
      search (catalog_rules, get_assembly_frame, count_items_frame, update_row_frame) depth 16

  pub create_assembly_frame :
      (assign : String → Result String) (a : Assembly F) → Always R (Kits.create_assembly assign a)
  unfolding Kits.create_assembly
  create_assembly_frame assign a =
      search (catalog_rules, create_row_frame, recalculate_assembly_frame) depth 16

  pub update_assembly_frame : (a : Assembly F) → Always R (Kits.update_assembly a)
  unfolding Kits.update_assembly
  update_assembly_frame a =
      search (catalog_rules, update_row_frame, recalculate_assembly_frame) depth 16

  pub apply_assembly_price_frame : (id : String) → Always R (Kits.apply_assembly_price {F = F} id)
  unfolding Kits.apply_assembly_price
  apply_assembly_price_frame id =
      search (catalog_rules, recalculate_assembly_frame, register_sale_price_frame) depth 16
