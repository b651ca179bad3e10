-- ===== src/Domain/Product.antt =====
-- `normalizeProduct`, `validateProduct` and `validateConversions` of internal/application/service.go.
pub mod Defaults
pub mod Units
use erp_stock.Base.{String, ◌==◌, Bool, not, ◌&&◌, ◌||◌, List, [], if◌then◌else◌}
use erp_stock.Float.{Float}
use erp_stock.Text.{trim_space}
use erp_stock.Domain.Errors.{Result, ok, err, invalid}
use erp_stock.Domain.Types.{Product, kind_final, kind_support, kind_fixed_asset}
use erp_stock.Domain.Uom.{convert}

-- The defaults of the two units, one step after the other.
unfoldable pub purchase_unit : String → String → String
purchase_unit purchase sale =
    let p = (if purchase == "" && not (sale == "") then sale else purchase) in
    if p == "" then "UN" else p

unfoldable pub sale_unit : String → String → String
sale_unit purchase sale =
    let p = (if purchase == "" && not (sale == "") then sale else purchase) in
    let s = (if sale == "" && not (p == "") then p else sale) in
    if s == "" then purchase_unit purchase sale else s

module _ {F : Type 0} ⦃fl : Float F⦄ where
  -- A nil list of conversions and an empty one are the same list here.
  unfoldable pub normalize_product : Product F → Product F
  normalize_product p =
      let purchase = purchase_unit p.purchase_uom p.sale_uom in
      let sale = sale_unit p.purchase_uom p.sale_uom in
      record p {
        purchase_uom = purchase;
        sale_uom = sale;
        stock_uom = sale;
        unit_of_measure = sale;
        conversions = (if purchase == sale then [] else p.conversions);
        kind = (if p.kind == "" then kind_final else p.kind);
        name = trim_space p.name;
        barcode = trim_space p.barcode;
        ncm = trim_space p.ncm;
        category_id = trim_space p.category_id;
      }

  abbrev forget_value : Result F → Result (Unit {0})
  forget_value (ok _) = ok tt
  forget_value (err e) = err e

  unfoldable pub validate_conversions : Product F → Result (Unit {0})
  validate_conversions p =
      if p.purchase_uom == p.sale_uom
      then ok tt
      else forget_value (convert fl.one p.purchase_uom p.sale_uom p.conversions)

  unfoldable pub validate_product : Product F → Result (Unit {0})
  unfolding validate_conversions
  validate_product p =
      if trim_space p.name == ""
      then err invalid
      else if not (p.kind == kind_final)
          && not (p.kind == kind_support)
          && not (p.kind == kind_fixed_asset)
      then err invalid
      else validate_conversions p
