-- ===== src/Catalog/Products.antt =====
-- The methods of ProductRepo (internal/adapters/mongo/product_repo.go) that write or count; `Get` is
-- Service.Lookup.get_product. The `_id` and, by the index that NewProductRepo asks for, the `sku` of
-- the documents are unique. A time is in nanoseconds.
pub mod Distinct
pub mod Accepted
use erp_stock.Base.{
  ℕ, suc, ◌*◌, ◌/◌, String, ◌==◌, Bool, false, not, ◌&&◌, ◌||◌, List, [], ◌∷◌, ◌++◌, if◌then◌else◌,
  leb,
}
use erp_stock.Domain.Errors.{not_found, conflict, failure}
use erp_stock.Domain.Types.{Product}
use erp_stock.World.{Action, pure, ◌>>=◌, ◌>>◌, fail_if, call, gets, modify}

module _ {F : Type 0} where
  unfoldable pub product_exists : String → List (Product F) → Bool
  product_exists id [] = false
  product_exists id (p ∷ ps) = p.id == id || product_exists id ps

  unfoldable pub sku_exists : String → List (Product F) → Bool
  sku_exists sku [] = false
  sku_exists sku (p ∷ ps) = p.sku == sku || sku_exists sku ps

  -- A document of another id has the SKU.
  unfoldable pub sku_elsewhere : String → String → List (Product F) → Bool
  sku_elsewhere id sku [] = false
  sku_elsewhere id sku (p ∷ ps) = (p.sku == sku && not (p.id == id)) || sku_elsewhere id sku ps

  -- The document with the id is changed.
  unfoldable pub change_product :
      String → (Product F → Product F) → List (Product F) → List (Product F)
  change_product id f [] = []
  change_product id f (p ∷ ps) = if p.id == id then f p ∷ ps else p ∷ change_product id f ps

  unfoldable pub drop_product : String → List (Product F) → List (Product F)
  drop_product id [] = []
  drop_product id (p ∷ ps) = if p.id == id then ps else p ∷ drop_product id ps

  unfoldable pub count_in_category : String → List (Product F) → ℕ
  count_in_category id [] = 0
  count_in_category id (p ∷ ps) =
      if p.category_id == id then suc (count_in_category id ps) else count_in_category id ps

  unfoldable pub count_by_category : String → Action F ℕ
  count_by_category id = do call; gets (λ w. count_in_category id w.products)

  -- The zero time is replaced by now.
  unfoldable pub stamped : Product F → ℕ → Product F
  stamped p now = record p { created_at = (if leb p.created_at 0 then now else p.created_at) }

  -- A document keeps whole milliseconds of a time.
  unfoldable pub as_stored : Product F → Product F
  as_stored p = record p { created_at = p.created_at / 1_000_000 * 1_000_000 }

  unfoldable pub create : Product F → Action F (Product F)
  create p = do
    now ← gets (λ w. w.stock.clock)
    let p1 = stamped p now
    call
    ps ← gets (λ w. w.products)
    fail_if (product_exists p1.id ps || sku_exists p1.sku ps) conflict
    modify (λ w. record w { products = w.products ++ as_stored p1 ∷ [] })
    pure p1

  -- `$set` of everything but the prices and the time of creation.
  unfoldable pub overwrite : Product F → Product F → Product F
  overwrite p old = record p {
    id = old.id;
    sale_price = old.sale_price;
    purchase_price = old.purchase_price;
    created_at = old.created_at;
  }

  unfoldable pub update : Product F → Action F (Unit {0})
  update p = do
    call
    ps ← gets (λ w. w.products)
    fail_if (not (product_exists p.id ps)) not_found
    fail_if (sku_elsewhere p.id p.sku ps) failure
    modify (λ w. record w { products = change_product p.id (overwrite p) w.products })

  unfoldable pub list : Action F (List (Product F))
  list = do call; gets (λ w. w.products)

  -- `setPrice`
  unfoldable pub set_price : String → (Product F → Product F) → Action F (Unit {0})
  set_price id f = do
    call
    ps ← gets (λ w. w.products)
    fail_if (not (product_exists id ps)) not_found
    modify (λ w. record w { products = change_product id f w.products })

  unfoldable pub set_sale_price : String → F → Action F (Unit {0})
  set_sale_price id price = set_price id (λ p. record p { sale_price = price })

  unfoldable pub set_purchase_price : String → F → Action F (Unit {0})
  set_purchase_price id price = set_price id (λ p. record p { purchase_price = price })

  unfoldable pub delete : String → Action F (Unit {0})
  delete id = do
    call
    ps ← gets (λ w. w.products)
    fail_if (not (product_exists id ps)) not_found
    modify (λ w. record w { products = drop_product id w.products })
