-- ===== src/Service/Reads.antt =====
-- The calls that only read leave the stock tables as they are, on every path.
use erp_stock.Base.{String}
use erp_stock.Float.{Float}
use erp_stock.Domain.Types.{MovementFilter}
use erp_stock.World.Always.{Always}
use erp_stock.World.SameStock.{SameStock, read_rules}
use erp_stock.Repo
use erp_stock.Service.Lookup.{get_product, list_assemblies}
use erp_stock.Service.Movements.{to_stock_from_purchase}

module _ {F : Type 0} where
  pub get_product-SameStock : (id : String) → Always {F = F} SameStock (get_product id)
  unfolding get_product
  get_product-SameStock id = search read_rules

  pub list_assemblies-SameStock : Always {F = F} SameStock list_assemblies
  unfolding list_assemblies
  list_assemblies-SameStock = search read_rules

module _ {F : Type 0} ⦃fl : Float F⦄ where
  pub get_warehouse-SameStock : (id : String) → Always {F = F} SameStock (Repo.get_warehouse id)
  unfolding Repo.get_warehouse
  get_warehouse-SameStock id = search read_rules

  pub has_movement-SameStock :
      (doc_type doc_id typ : String)
      → Always {F = F} SameStock (Repo.has_movement doc_type doc_id typ)
  unfolding Repo.has_movement
  has_movement-SameStock doc_type doc_id typ = search read_rules

  pub list_movements-SameStock :
      (f : MovementFilter) → Always {F = F} SameStock (Repo.list_movements f)
  unfolding Repo.list_movements
  list_movements-SameStock f = search read_rules

  pub to_stock_from_purchase-SameStock :
      (id : String) (qty : F) → Always SameStock (to_stock_from_purchase id qty)
  unfolding to_stock_from_purchase
  to_stock_from_purchase-SameStock id qty = search (read_rules, get_product-SameStock)
