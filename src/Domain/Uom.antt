-- ===== src/Domain/Uom.antt =====
-- Conversion between units of measure: `Convert` and `Product.ToStockQty`.
use erp_stock.Base.{String, ◌==◌, ◌||◌, ◌&&◌, List, [], ◌∷◌, if◌then◌else◌}
use erp_stock.Float.{Float, is_nonpos}
use erp_stock.Domain.Errors.{Result, ok, err, no_conversion}
use erp_stock.Domain.Types.{UomConversion, Product}

module _ {F : Type 0} ⦃fl : Float F⦄ where
  -- The loop of `Convert`: a rule with no positive factor is skipped, the first rule that fits in
  -- either direction decides.
  unfoldable pub convert_by : F → String → String → List (UomConversion F) → Result F
  convert_by qty from to [] = err no_conversion
  convert_by qty from to (c ∷ cs) =
      let rest = convert_by qty from to cs in
      if is_nonpos c.factor
      then rest
      else if c.from_uom == from && c.to_uom == to
      then ok (fl.mul qty c.factor)
      else if c.from_uom == to && c.to_uom == from
      then ok (fl.div qty c.factor)
      else rest

  unfoldable pub convert : F → String → String → List (UomConversion F) → Result F
  convert qty from to convs =
      if from == "" || to == "" || from == to then ok qty else convert_by qty from to convs

  -- `Product.ToStockQty`
  unfoldable pub to_stock_qty : Product F → F → String → Result F
  to_stock_qty p qty from =
      let base = (if p.stock_uom == "" then p.unit_of_measure else p.stock_uom) in
      convert qty from base p.conversions
