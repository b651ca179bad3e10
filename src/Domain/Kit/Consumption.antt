-- ===== src/Domain/Kit/Consumption.antt =====
-- What an order takes from stock, line by line: `ExpandKitItems` lists just that, in that order.
use mathlib.Core.List.{Memᴰ}
use mathlib.Core.List.Memᴰ.{head, tail}
use mathlib.Core.Option.{some-injective}
use erp_stock.Base.{
  String, ◌==◌, eq_iff, ◌≡◌, ◌≢◌, refl, ◌∙◌, subst, Bool, true, false, not, ◌&&◌, none, some, List,
  [], ◌∷◌, ◌++◌, is_empty, if◌then◌else◌, keep_if, map, inl, inr, Bool-cases, Option-cases, arith,
}
use erp_stock.Float.{Float, is_nonpos}
use erp_stock.Domain.Types.{OrderItem, OrderItemComponent, Assembly, AssemblyItem}
use erp_stock.Domain.Kit.{
  kit_of, plain_item, substituted, from_recipe, expand_line, expand_kit_items,
}

module _ {F : Type 0} ⦃fl : Float F⦄ where
  -- No assembly makes the product.
  pub data NoKit (p : String) (as_ : List (Assembly F)) : Type 0 where
    no_kit : ((a : Assembly F) → Memᴰ a as_ → a.product_id ≢ "" → a.product_id ≢ p) → NoKit p as_

  -- The last assembly that makes the product.
  pub data IsKit (p : String) (a : Assembly F) : List (Assembly F) → Type 0 where
    last :
        {rest : List (Assembly F)}
        → a.product_id ≡ p
        → a.product_id ≢ ""
        → NoKit p rest
        → IsKit p a (a ∷ rest)
    not_first : {b : Assembly F} {rest : List (Assembly F)} → IsKit p a rest → IsKit p a (b ∷ rest)

  -- A part counts that names a product and has a positive quantity.
  abbrev pub counts : String → F → Bool
  counts p qty = not (p == "") && not (is_nonpos qty)

  -- Line by line: one with no kit stands; one with components of its own becomes them, and any other
  -- the recipe of the kit times its quantity.
  pub data Expands (assemblies : List (Assembly F))
      : List (OrderItem F) → List (OrderItem F) → Type 0 where
    no_line : Expands assemblies [] []
    plain :
        {it : OrderItem F} {items outs : List (OrderItem F)}
        → NoKit it.product_id assemblies
        → Expands assemblies items outs
        → Expands assemblies (it ∷ items) (it ∷ outs)
    chosen :
        {it : OrderItem F} {items outs : List (OrderItem F)} (a : Assembly F)
        → IsKit it.product_id a assemblies
        → is_empty it.components ≡ false
        → Expands assemblies items outs
        → Expands assemblies (it ∷ items) (
            map
              (λ (c : OrderItemComponent F). plain_item c.product_id c.quantity)
              (keep_if (λ (c : OrderItemComponent F). counts c.product_id c.quantity) it.components)
            ++ outs)
    recipe :
        {it : OrderItem F} {items outs : List (OrderItem F)} (a : Assembly F)
        → IsKit it.product_id a assemblies
        → is_empty it.components ≡ true
        → Expands assemblies items outs
        → Expands assemblies (it ∷ items) (
            map
              (λ (c : AssemblyItem F). plain_item c.product_id (fl.mul c.quantity it.quantity))
              (keep_if (λ (c : AssemblyItem F). counts c.product_id c.quantity) a.items)
            ++ outs)

  kit_of-NoKit : (p : String) (as_ : List (Assembly F)) → kit_of p as_ ≡ none → NoKit p as_
  unfolding kit_of
  kit_of-NoKit p [] h = no_kit (λ a m. elim m [ ])
  kit_of-NoKit p (b ∷ as_) h = elim (Option-cases (kit_of p as_)) [
    | inr (c, e) ↦ let stop : some c ≡ none = rw e at h in cc
    | inl e ↦ elim (kit_of-NoKit p as_ e) [
      | no_kit below ↦ no_kit (λ a m. here a m below (rw e at h))
    ]
  ]
    where
      here :
          (a : Assembly F)
          → Memᴰ a (b ∷ as_)
          → ((c : Assembly F) → Memᴰ c as_ → c.product_id ≢ "" → c.product_id ≢ p)
          → (if b.product_id == p && not (b.product_id == "") then some b else none) ≡ none
          → a.product_id ≢ ""
          → a.product_id ≢ p
      here a (head e) below g named =
          rw e (ground (arith, named, eq_iff a.product_id p, eq_iff a.product_id "", e))
      here a (tail m) below g named = below a m named

  kit_of-IsKit :
      (p : String) (as_ : List (Assembly F)) (a : Assembly F)
      → kit_of p as_ ≡ some a
      → IsKit p a as_
  unfolding kit_of
  kit_of-IsKit p [] a h = let stop : none ≡ some a = h in cc
  kit_of-IsKit p (b ∷ as_) a h = elim (Option-cases (kit_of p as_)) [
    | inr (c, e) ↦ not_first (kit_of-IsKit p as_ a (e ∙ (rw e at h)))
    | inl e ↦ elim (Bool-cases (b.product_id == p && not (b.product_id == ""))) [
      | inl makes ↦
          let same : b ≡ a = some-injective _ _ (rw (e, makes) at h) in
          subst (λ x. IsKit p x (b ∷ as_)) same
            (last (ground (arith, eq_iff b.product_id p)) (ground (arith, eq_iff b.product_id ""))
              (kit_of-NoKit p as_ e))
      | inr other ↦ let stop : none ≡ some a = rw (e, other) at h in cc
    ]
  ]

  substituted-keep_if :
      (cs : List (OrderItemComponent F))
      → substituted cs
        ≡ map
            (λ (c : OrderItemComponent F). plain_item c.product_id c.quantity)
            (keep_if (λ (c : OrderItemComponent F). counts c.product_id c.quantity) cs)
  unfolding substituted
  substituted-keep_if [] = refl
  substituted-keep_if (c ∷ cs) = ground (arith, substituted-keep_if cs)

  from_recipe-keep_if :
      (qty : F) (cs : List (AssemblyItem F))
      → from_recipe qty cs
        ≡ map
            (λ (c : AssemblyItem F). plain_item c.product_id (fl.mul c.quantity qty))
            (keep_if (λ (c : AssemblyItem F). counts c.product_id c.quantity) cs)
  unfolding from_recipe
  from_recipe-keep_if qty [] = refl
  from_recipe-keep_if qty (c ∷ cs) = ground (arith, from_recipe-keep_if qty cs)

  -- ExpandKitItems replaces each line in turn, and no line is lost, doubled or moved: a line of a
  -- product that no assembly makes stands; for any other, where the line lists components, those
  -- with a product and a positive quantity take its place, and where it lists none, the items of the
  -- last assembly that makes the product do, their quantities times that of the line.
  pub expand_kit_items-Expands :
      (items : List (OrderItem F)) (assemblies : List (Assembly F))
      → Expands assemblies items (expand_kit_items items assemblies)
  unfolding expand_kit_items expand_line
  expand_kit_items-Expands [] assemblies = no_line
  expand_kit_items-Expands (it ∷ items) assemblies =
      let rest = expand_kit_items-Expands items assemblies in
      elim (Option-cases (kit_of it.product_id assemblies)) [
        | inl e ↦ rw e (plain (kit_of-NoKit it.product_id assemblies e) rest)
        | inr (a, e) ↦ elim (Bool-cases (is_empty it.components)) [
          | inl empty ↦
              rw (e, empty, from_recipe-keep_if it.quantity a.items)
                (recipe a (kit_of-IsKit it.product_id assemblies a e) empty rest)
          | inr given ↦
              rw (e, given, substituted-keep_if it.components)
                (chosen a (kit_of-IsKit it.product_id assemblies a e) given rest)
        ]
      ]
