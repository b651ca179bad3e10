-- ===== src/Http/Kits.antt =====
-- The routes on prices and assemblies.
use erp_stock.Base.{String, Option, List}
use erp_stock.Float.{Float}
use erp_stock.Domain.Errors.{Result}
use erp_stock.Domain.Types.{PriceHistory, Assembly}
use erp_stock.Catalog.Prices
use erp_stock.Catalog.Assemblies as Rows
use erp_stock.Service.Lookup
use erp_stock.Service.Assemblies
use erp_stock.Http.{Handler, status_from, server_error, answer, with_body}

pub record PriceIn (F : Type 0) : Type 0 where
  pub product_id : String
  pub new_price : F
  pub reference_doc_id : String

module _ {F : Type 0} ⦃fl : Float F⦄ where
  unfoldable pub create_sale_price : Option (PriceIn F) → Handler F (PriceHistory F)
  create_sale_price body =
      with_body body
        (λ i. answer 201 status_from (Assemblies.register_sale_price i.product_id i.new_price))

  unfoldable pub create_purchase_price : Option (PriceIn F) → Handler F (PriceHistory F)
  create_purchase_price body = with_body body (λ i.
      answer 201 status_from
        (Assemblies.register_purchase_price i.product_id i.new_price i.reference_doc_id))

  unfoldable pub list_sale_prices : String → Handler F (List (PriceHistory F))
  list_sale_prices p = answer 200 server_error (Prices.list_sale_history p)

  unfoldable pub list_purchase_prices : String → Handler F (List (PriceHistory F))
  list_purchase_prices p = answer 200 server_error (Prices.list_purchase_history p)

  unfoldable pub create_assembly :
      (String → Result String) → Option (Assembly F) → Handler F (Assembly F)
  create_assembly assign body =
      with_body body (λ a. answer 201 status_from (Assemblies.create_assembly assign a))

  -- The id is that of the path.
  unfoldable pub update_assembly : String → Option (Assembly F) → Handler F (Assembly F)
  update_assembly id body =
      with_body body
        (λ a. answer 200 status_from (Assemblies.update_assembly (record a { id = id })))

  unfoldable pub recalculate_assembly : String → Handler F (Assembly F)
  recalculate_assembly id = answer 200 status_from (Assemblies.recalculate_assembly id)

  unfoldable pub apply_assembly_price : String → Handler F (Assembly F)
  apply_assembly_price id = answer 200 status_from (Assemblies.apply_assembly_price id)

module _ {F : Type 0} where
  unfoldable pub list_assemblies : Handler F (List (Assembly F))
  list_assemblies = answer 200 server_error Lookup.list_assemblies

  unfoldable pub get_assembly : String → Handler F (Assembly F)
  get_assembly id = answer 200 status_from (Rows.get_assembly id)
