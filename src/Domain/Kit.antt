-- ===== src/Domain/Kit.antt =====
-- `ExpandKitItems`: an order line as what is taken from stock.
pub mod Consumption
use erp_stock.Base.{
  String, ◌==◌, Bool, not, ◌&&◌, ◌||◌, Option, none, some, List, [], ◌∷◌, ◌++◌, is_empty,
  if◌then◌else◌,
}
use erp_stock.Float.{Float, is_nonpos}
use erp_stock.Domain.Types.{OrderItem, OrderItemComponent, Assembly, AssemblyItem}

module _ {F : Type 0} ⦃fl : Float F⦄ where
  -- `kitByProduct[p]`: a later assembly of the same product takes the place of an earlier one.
  unfoldable pub kit_of : String → List (Assembly F) → Option (Assembly F)
  kit_of p [] = none
  kit_of p (a ∷ as_) = elim (kit_of p as_) [
    | some b ↦ some b
    | none ↦ if a.product_id == p && not (a.product_id == "") then some a else none
  ]

  -- `OrderItem{ProductID: …, Quantity: …}`
  abbrev pub plain_item : String → F → OrderItem F
  plain_item p qty = record {
    product_id = p;
    quantity = qty;
    unit_price = fl.nought;
    subtotal = fl.nought;
    components = [];
  }

  unfoldable pub substituted : List (OrderItemComponent F) → List (OrderItem F)
  substituted [] = []
  substituted (c ∷ cs) =
      if c.product_id == "" || is_nonpos c.quantity
      then substituted cs
      else plain_item c.product_id c.quantity ∷ substituted cs

  unfoldable pub from_recipe : F → List (AssemblyItem F) → List (OrderItem F)
  from_recipe qty [] = []
  from_recipe qty (ai ∷ ais) =
      if ai.product_id == "" || is_nonpos ai.quantity
      then from_recipe qty ais
      else plain_item ai.product_id (fl.mul ai.quantity qty) ∷ from_recipe qty ais

  -- What one line becomes, given the kit of its product.
  unfoldable pub expand_line : Option (Assembly F) → OrderItem F → List (OrderItem F)
  expand_line none it = it ∷ []
  expand_line (some a) it =
      if is_empty it.components then from_recipe it.quantity a.items else substituted it.components

  unfoldable pub expand_kit_items : List (OrderItem F) → List (Assembly F) → List (OrderItem F)
  expand_kit_items [] assemblies = []
  expand_kit_items (it ∷ items) assemblies =
      expand_line (kit_of it.product_id assemblies) it ++ expand_kit_items items assemblies
