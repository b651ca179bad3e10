-- ===== src/Service/Assemblies/Counted.antt =====
-- What RecalculateAssembly computes, by sums over the items.
use erp_stock.Base.{
  String, ◌==◌, refl, subst, true, not, ◌&&◌, Bool-cases, inl, inr, ◌≡◌, sym, ap, Bool, false, ◌||◌,
  List, [], ◌∷◌, if◌then◌else◌, arith,
}
use erp_stock.Float.{Float, is_pos}
use erp_stock.Domain.Errors.{Result, Error, ok, err}
use erp_stock.Domain.Uom.{convert}
use erp_stock.Domain.Types.{Product, Assembly, AssemblyItem}
use erp_stock.World.{World}
use erp_stock.World.Rules.{bind_ok}
use erp_stock.Service.Lookup.{find_product, get_product}
use erp_stock.Service.Products.Found.{get_product_ok}
use erp_stock.Service.Assemblies.{
  Totals, no_totals, purchase_qty, counted_unit, or_given, count_item, count_items, margin_of,
  price_of, priced,
}

-- The first of three units that is named.
abbrev first_named : String → String → String → String
first_named a b c = if a == "" then (if b == "" then c else b) else a

both_named : (a b c : Bool) → (a || b || c) ≡ false → (not a && not b && not c) ≡ true
both_named a b c h = ground arith

not_both : (a b c : Bool) → (a || b || c) ≡ true → (not a && not b && not c) ≡ false
not_both a b c h = ground arith

module _ {F : Type 0} ⦃fl : Float F⦄ where
  -- The quantity of an item in the unit of purchase: converted, where the units are two and there is
  -- a rule between them, and else as it is.
  pub data Bought (p : Product F) (q : F) : F → Type 0 where
    same_unit :
        (u : String)
        → u ≡ first_named p.stock_uom p.sale_uom p.unit_of_measure
        → (u == "" || p.purchase_uom == "" || u == p.purchase_uom) ≡ true
        → Bought p q q
    converted :
        (u : String) (r : F)
        → u ≡ first_named p.stock_uom p.sale_uom p.unit_of_measure
        → (u == "" || p.purchase_uom == "" || u == p.purchase_uom) ≡ false
        → convert q u p.purchase_uom p.conversions ≡ ok r
        → Bought p q r
    no_rule :
        (u : String) (e : Error)
        → u ≡ first_named p.stock_uom p.sale_uom p.unit_of_measure
        → convert q u p.purchase_uom p.conversions ≡ err e
        → Bought p q q

  -- From the cost so far, the items bring the cost to a total: each adds its quantity in the unit of
  -- purchase times the purchase price of its product.
  pub data Costs (ps : List (Product F)) : F → List (AssemblyItem F) → F → Type 0 where
    no_items : (c : F) → Costs ps c [] c
    item_costs :
        (c total q : F) (it : AssemblyItem F) (its : List (AssemblyItem F)) (p : Product F)
        → find_product it.product_id ps ≡ ok p
        → Bought p it.quantity q
        → Costs ps (fl.add c (fl.mul q p.purchase_price)) its total
        → Costs ps c (it ∷ its) total

  abbrev pub price_from : F → List (AssemblyItem F) → F
  price_from s [] = s
  price_from s (it ∷ its) = price_from (fl.add s it.unit_price) its

  abbrev pub any_priced : List (AssemblyItem F) → Bool
  any_priced [] = false
  any_priced (it ∷ its) = is_pos it.unit_price || any_priced its

  counted_unit-first :
      (p : Product F) → counted_unit p ≡ first_named p.stock_uom p.sale_uom p.unit_of_measure
  unfolding counted_unit
  counted_unit-first p = ground arith

  or_given-Bought :
      (p : Product F) (q : F)
      → (counted_unit p == "" || p.purchase_uom == "" || counted_unit p == p.purchase_uom) ≡ false
      → (x : Result F) → convert q (counted_unit p) p.purchase_uom p.conversions ≡ x
      → Bought p q (or_given q x)
  or_given-Bought p q two (ok r) e = converted (counted_unit p) r (counted_unit-first p) two e
  or_given-Bought p q two (err x) e = no_rule (counted_unit p) x (counted_unit-first p) e

  purchase_qty-Bought : (p : Product F) (q : F) → Bought p q (purchase_qty p q)
  unfolding purchase_qty
  purchase_qty-Bought p q =
      let a = counted_unit p == "" in
      let b = p.purchase_uom == "" in
      let c = counted_unit p == p.purchase_uom in
      elim (Bool-cases (a || b || c)) [
        | inl one ↦ rw (not_both a b c one) (same_unit (counted_unit p) (counted_unit-first p) one)
        | inr two ↦ rw (both_named a b c two) (or_given-Bought p q two _ refl)
      ]

  count_items_ok :
      (its : List (AssemblyItem F)) (t u : Totals F) (w v : World F)
      → count_items t its w ≡ (ok u, v)
      → Costs w.products t.cost its u.cost
        × (u.price_sum ≡ price_from t.price_sum its)
        × (u.has_item_prices ≡ (t.has_item_prices || any_priced its))
  unfolding count_items count_item
  count_items_ok [] t u w v e =
      let same : t ≡ u = ap (λ (x : Result (Totals F) × World F). value t x.0) e in
      (
        subst (λ (x : Totals F). Costs w.products t.cost [] x.cost) same (no_items t.cost),
        sym (ap (λ (x : Totals F). x.price_sum) same),
        (let has = ap (λ (x : Totals F). x.has_item_prices) same in ground arith),
      )
    where
      value : Totals F → Result (Totals F) → Totals F
      value d (ok x) = x
      value d (err _) = d
  count_items_ok (it ∷ its) t u w v e =
      let (p, w1, got, e1) = bind_ok (get_product it.product_id) _ w u v e in
      let (found, same) = get_product_ok it.product_id w p w1 got in
      let (cost, sum, has) = count_items_ok its (count_item t it p) u w1 v e1 in
      (
        item_costs t.cost u.cost (purchase_qty p it.quantity) it its p found
            (purchase_qty-Bought p it.quantity)
            (subst (λ ps. Costs ps (count_item t it p).cost its u.cost) same cost),
        sum,
        ground arith,
      )

-- What a recalculation makes of an assembly `a`, with the products `ps`: where an item has a price,
-- the price is the sum of the items' and the margin what it is above the cost, in percent; and else
-- the price is the cost with the margin upon it.
pub record IsPriced {F : Type 0} ⦃fl : Float F⦄ (ps : List (Product F)) (a b : Assembly F)
    : Type 0 where
  pub same_id : b.id ≡ a.id
  pub same_code : b.code ≡ a.code
  pub same_items : b.items ≡ a.items
  pub cost : Costs ps fl.nought a.items b.cost
  pub price : b.suggested_price ≡ (
      if any_priced a.items
      then price_from fl.nought a.items
      else fl.mul b.cost (fl.add fl.one (fl.div a.margin_percent fl.hundred)))
  pub margin : b.margin_percent ≡ (
      if any_priced a.items && is_pos b.cost
      then fl.mul (fl.sub (fl.div b.suggested_price b.cost) fl.one) fl.hundred
      else a.margin_percent)

priced-cost :
    {F : Type 0} ⦃fl : Float F⦄ (t : Totals F) (a : Assembly F) → (priced t a).cost ≡ t.cost
unfolding priced
priced-cost t a = ground arith

pub priced-IsPriced :
    {F : Type 0} ⦃fl : Float F⦄ (a : Assembly F) (t : Totals F) (w v : World F)
    → count_items no_totals a.items w ≡ (ok t, v)
    → IsPriced w.products a (priced t a)
unfolding priced margin_of price_of
priced-IsPriced a t w v e =
    let (cost, sum, has) = count_items_ok a.items no_totals t w v e in
    record {
      same_id = ground arith;
      same_code = ground arith;
      same_items = ground arith;
      cost = subst (Costs w.products _ a.items) (sym (priced-cost t a)) cost;
      price = ground arith;
      margin = ground arith;
    }
