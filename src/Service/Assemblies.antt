-- ===== src/Service/Assemblies.antt =====
-- `RegisterSalePrice`, `RegisterPurchasePrice`, `validateAssembly` and the operations on assemblies.
-- `codes.Assign` is of another module: what it returns on a call is an argument.
pub mod Histories
pub mod Counted
pub mod Recalculated
use erp_stock.Base.{
  String, ◌==◌, Bool, true, false, not, ◌&&◌, ◌||◌, List, [], ◌∷◌, if◌then◌else◌, is_empty,
}
use erp_stock.Float.{Float, is_nonpos, is_pos}
use erp_stock.Domain.Errors.{Result, ok, err, invalid}
use erp_stock.Domain.Types.{
  Product, PriceHistory, Assembly, AssemblyItem, role_component, role_support,
}
use erp_stock.Domain.Uom.{convert}
use erp_stock.World.{Action, pure, lift, ◌>>=◌, ◌>>◌, fail_if}
use erp_stock.Catalog.Products
use erp_stock.Catalog.Prices
use erp_stock.Catalog.Assemblies
use erp_stock.Service.Lookup.{get_product}

-- The three sums of the loop of `RecalculateAssembly`.
pub record Totals (F : Type 0) : Type 0 where
  pub cost : F
  pub price_sum : F
  pub has_item_prices : Bool

module _ {F : Type 0} ⦃fl : Float F⦄ where
  -- The id and the time of a history are filled in when it is inserted.
  unfoldable pub price_change : Product F → F → F → String → PriceHistory F
  price_change p old new doc = record {
    id = "";
    product_id = p.id;
    sku = p.sku;
    previous_price = old;
    new_price = new;
    reference_doc_id = doc;
    created_at = 0;
  }

  unfoldable pub register_sale_price : String → F → Action F (PriceHistory F)
  register_sale_price id price = do
    p ← get_product id
    Products.set_sale_price p.id price
    Prices.insert_sale_history (price_change p p.sale_price price "")

  unfoldable pub register_purchase_price : String → F → String → Action F (PriceHistory F)
  register_purchase_price id price doc = do
    p ← get_product id
    Products.set_purchase_price p.id price
    Prices.insert_purchase_history (price_change p p.purchase_price price doc)

  unfoldable pub validate_item : AssemblyItem F → Bool
  validate_item it =
      not (it.product_id == "" || is_nonpos it.quantity)
      && (it.role == role_component || it.role == role_support)

  unfoldable pub validate_items : List (AssemblyItem F) → Bool
  validate_items [] = true
  validate_items (it ∷ its) = validate_item it && validate_items its

  unfoldable pub validate_assembly : Assembly F → Result (Unit {0})
  validate_assembly a =
      if a.code == "" || a.name == "" || is_empty a.items
      then err invalid
      else if validate_items a.items
      then ok tt
      else err invalid

  abbrev pub no_totals : Totals F
  no_totals = record { cost = fl.nought; price_sum = fl.nought; has_item_prices = false }

  unfoldable pub counted_unit : Product F → String
  counted_unit p =
      let u = (if p.stock_uom == "" then p.sale_uom else p.stock_uom) in
      if u == "" then p.unit_of_measure else u

  abbrev pub or_given : F → Result F → F
  or_given q (ok r) = r
  or_given q (err _) = q

  -- The quantity in the purchase unit, where there is a conversion to it.
  unfoldable pub purchase_qty : Product F → F → F
  purchase_qty p q =
      let u = counted_unit p in
      if not (u == "") && not (p.purchase_uom == "") && not (u == p.purchase_uom)
      then or_given q (convert q u p.purchase_uom p.conversions)
      else q

  -- A round of the loop, for an item and its product.
  unfoldable pub count_item : Totals F → AssemblyItem F → Product F → Totals F
  count_item t it p = record {
    cost = fl.add t.cost (fl.mul (purchase_qty p it.quantity) p.purchase_price);
    price_sum = fl.add t.price_sum it.unit_price;
    has_item_prices = (if is_pos it.unit_price then true else t.has_item_prices);
  }

  unfoldable pub count_items : Totals F → List (AssemblyItem F) → Action F (Totals F)
  count_items t [] = pure t
  count_items t (it ∷ its) = do p ← get_product it.product_id; count_items (count_item t it p) its

  -- `(priceSum/cost - 1) * 100`
  unfoldable pub margin_of : F → F → F
  margin_of price cost = fl.mul (fl.sub (fl.div price cost) fl.one) fl.hundred

  -- `cost * (1 + margin/100)`
  unfoldable pub price_of : F → F → F
  price_of cost margin = fl.mul cost (fl.add fl.one (fl.div margin fl.hundred))

  unfoldable pub priced : Totals F → Assembly F → Assembly F
  priced t a =
      if t.has_item_prices
      then record a {
        cost = t.cost;
        suggested_price = t.price_sum;
        margin_percent = (if is_pos t.cost then margin_of t.price_sum t.cost else a.margin_percent);
      }
      else record a { cost = t.cost; suggested_price = price_of t.cost a.margin_percent }

  unfoldable pub recalculate_assembly : String → Action F (Assembly F)
  recalculate_assembly id = do
    a ← Assemblies.get_assembly id
    t ← count_items no_totals a.items
    let b = priced t a
    Assemblies.update_assembly b
    pure b

  unfoldable pub create_assembly : (String → Result String) → Assembly F → Action F (Assembly F)
  create_assembly assign given = do
    code ← lift (assign given.code)
    let a = record given { code = code; active = true }
    lift (validate_assembly a)
    out ← Assemblies.create_assembly a
    recalculate_assembly out.id

  unfoldable pub update_assembly : Assembly F → Action F (Assembly F)
  update_assembly a = do
    lift (validate_assembly a)
    Assemblies.update_assembly a
    recalculate_assembly a.id

  unfoldable pub apply_assembly_price : String → Action F (Assembly F)
  apply_assembly_price id = do
    a ← recalculate_assembly id
    fail_if (a.product_id == "") invalid
    register_sale_price a.product_id a.suggested_price
    pure a
