-- ===== src/Tests/Kits.antt =====
-- The theorems on prices and assemblies, applied to a small catalog.
use erp_stock.Base.{◌≡◌, refl, [], ◌∷◌}
use erp_stock.Base.Int.{ℤ, pos, ◌-ℤ◌, ◌+ℤ◌}
use erp_stock.Float.Decimal
use erp_stock.Float.{fixed_float}
use erp_stock.Domain.Errors.{ok}
use erp_stock.Domain.Types.{Product, Assembly, PriceHistory}
use erp_stock.Domain.Uom
use erp_stock.Store.Tables
use erp_stock.World.{World}
use erp_stock.World
use erp_stock.Catalog.Products
use erp_stock.Catalog.Prices
use erp_stock.Catalog.Assemblies
use erp_stock.Service.Lookup
use erp_stock.Service.Assemblies as Kit_Service
use erp_stock.Service.Assemblies.Histories.{
  IsRegistered, register_sale_price-IsRegistered, register_purchase_price-IsRegistered,
}
use erp_stock.Service.Assemblies.Counted.{IsPriced}
use erp_stock.Service.Assemblies.Recalculated.{
  numbers, rounded_numbers, recalculate_assembly-IsPriced,
}
use erp_stock.Tests.Sample.{flour, basket}
use erp_stock.Tests.Catalog.{stocked}

abbrev sale_row : PriceHistory ℤ
sale_row = record {
  id = "ref";
  product_id = "flour";
  sku = "000001";
  previous_price = pos 0;
  new_price = pos 35_000;
  reference_doc_id = "";
  created_at = 7;
}

abbrev sale_priced : World ℤ
sale_priced = (Kit_Service.register_sale_price "flour" (pos 35_000) stocked).1

sale_price_registered :
    Kit_Service.register_sale_price "flour" (pos 35_000) stocked ≡ (ok sale_row, sale_priced)
unfolding Kit_Service.register_sale_price Kit_Service.price_change Lookup.get_product
    Lookup.find_product Products.set_sale_price Products.set_price Products.product_exists
    Products.change_product Prices.insert_sale_history Prices.prices_fit Tables.numeric_ok
    Decimal.add_rest Decimal.sub_rest Decimal.numeric_le World.call World.next_fault
    World.later_faults World.new_uuid ◌-ℤ◌
sale_price_registered = refl

register_sale_price-IsRegistered_example :
    (p : Product ℤ) × IsRegistered "flour" p
      (record p { sale_price = pos 35_000 })
      p.sale_price
      (pos 35_000)
      ""
      sale_row
      stocked
      sale_priced
    × (sale_priced.sale_history ≡ Prices.price_row sale_row ∷ stocked.sale_history)
register_sale_price-IsRegistered_example =
    register_sale_price-IsRegistered "flour" (pos 35_000) sale_row stocked sale_priced
      sale_price_registered

abbrev purchase_row : PriceHistory ℤ
purchase_row = record sale_row { new_price = pos 20_000; reference_doc_id = "po1" }

abbrev purchase_priced : World ℤ
purchase_priced = (Kit_Service.register_purchase_price "flour" (pos 20_000) "po1" stocked).1

purchase_price_registered :
    Kit_Service.register_purchase_price "flour" (pos 20_000) "po1" stocked
    ≡ (ok purchase_row, purchase_priced)
unfolding Kit_Service.register_purchase_price Kit_Service.price_change Lookup.get_product
    Lookup.find_product Products.set_purchase_price Products.set_price Products.product_exists
    Products.change_product Prices.insert_purchase_history Prices.prices_fit Tables.numeric_ok
    Decimal.add_rest Decimal.sub_rest Decimal.numeric_le World.call World.next_fault
    World.later_faults World.new_uuid ◌-ℤ◌
purchase_price_registered = refl

register_purchase_price-IsRegistered_example :
    (p : Product ℤ) × IsRegistered "flour" p
      (record p { purchase_price = pos 20_000 })
      p.purchase_price
      (pos 20_000)
      "po1"
      purchase_row
      stocked
      purchase_priced
    × (purchase_priced.purchase_history ≡ Prices.price_row purchase_row ∷ stocked.purchase_history)
register_purchase_price-IsRegistered_example =
    register_purchase_price-IsRegistered "flour" (pos 20_000) "po1" purchase_row stocked
      purchase_priced purchase_price_registered

-- Two kilograms, 0.08 bags, at 20 a bag.
abbrev basket_world : World ℤ
basket_world = record stocked {
  products = record flour { purchase_price = pos 200_000 } ∷ [];
  assemblies = record basket { margin_percent = pos 500_000 } ∷ [];
}

abbrev basket_priced : Assembly ℤ
basket_priced = record basket {
  margin_percent = pos 500_000;
  cost = pos 16_000;
  suggested_price = pos 24_000;
}

abbrev recalculated : World ℤ
recalculated = (Kit_Service.recalculate_assembly "basket" basket_world).1

basket_recalculated :
    Kit_Service.recalculate_assembly "basket" basket_world ≡ (ok basket_priced, recalculated)
unfolding Kit_Service.recalculate_assembly Kit_Service.count_items Kit_Service.count_item
    Kit_Service.counted_unit Kit_Service.purchase_qty Kit_Service.priced Kit_Service.price_of
    Uom.convert Uom.convert_by Lookup.get_product Lookup.find_product Assemblies.get_assembly
    Assemblies.find_assembly Assemblies.update_assembly Assemblies.update_rows
    Assemblies.replace_items Assemblies.insert_items Assemblies.insert_item Assemblies.item_fits
    Assemblies.assembly_fits Assemblies.margin_ok Assemblies.assembly_exists
    Assemblies.code_elsewhere Tables.numeric_ok Tables.reservation_ok Decimal.add_rest
    Decimal.sub_rest Decimal.numeric_le World.call World.next_fault World.later_faults
    World.new_uuid ◌-ℤ◌ ◌+ℤ◌
basket_recalculated = refl

recalculate_assembly-IsPriced_example :
    (a : Assembly ℤ) × (Assemblies.find_assembly "basket" basket_world.assemblies ≡ ok a)
    × IsPriced basket_world.products a basket_priced
    × (numbers "basket" recalculated.assemblies ≡ rounded_numbers basket_priced)
recalculate_assembly-IsPriced_example =
    recalculate_assembly-IsPriced "basket" basket_priced basket_world recalculated
      basket_recalculated
