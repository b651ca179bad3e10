-- ===== src/Service/Products/Found.antt =====
-- What is found of a product after it was created or updated.
use erp_stock.Base.{
  String, eq_iff, ◌≡◌, ◌≢◌, refl, ap, ◌∙◌, subst, false, List, [], ◌∷◌, ◌++◌, arith,
}
use erp_stock.Float.{Float}
use erp_stock.Domain.Errors.{ok}
use erp_stock.Domain.Types.{Product}
use erp_stock.Domain.Product.{normalize_product, validate_product}
use erp_stock.World.{World, lift, call, next_fault}
use erp_stock.World.Rules.{bind_ok}
use erp_stock.Text.{trim_space}
use erp_stock.Catalog.Categories
use erp_stock.Catalog.Products
use erp_stock.Catalog.Products.{product_exists, change_product, overwrite, as_stored}
use erp_stock.Service.Lookup.{find_product, get_product}
use erp_stock.Service.Categories.{ensure_category_parent}
use erp_stock.Service.Products.{update_product}

module _ {F : Type 0} where
  find_product-append :
      (ps : List (Product F)) (n : Product F)
      → product_exists n.id ps ≡ false
      → find_product n.id (ps ++ n ∷ []) ≡ ok n
  unfolding product_exists find_product
  find_product-append [] n h = ground (arith, eq_iff n.id n.id)
  find_product-append (p ∷ ps) n h = ground (arith, find_product-append ps n)

  pub create_found :
      (p q : Product F) (w v : World F)
      → Products.create p w ≡ (ok q, v)
      → find_product q.id v.products ≡ ok (as_stored q)
  unfolding Products.create as_stored call next_fault
  create_found p q w v e =
      let n = Products.stamped p w.stock.clock in
      let found = find_product-append w.products (as_stored n) in
      let same : n ≡ q = ground arith in
      let there : v.products ≡ w.products ++ as_stored n ∷ [] = ground arith in
      let new : product_exists n.id w.products ≡ false = ground arith in
      subst (λ (x : Product F). find_product x.id v.products ≡ ok (as_stored x)) same
        (ap (find_product n.id) there ∙ found new)

module _ {F : Type 0} where
  pub find_product-change :
      (id : String) (f : Product F → Product F) (ps : List (Product F)) (c : Product F)
      → ((p : Product F) → (f p).id ≡ p.id)
      → find_product id ps ≡ ok c
      → find_product id (change_product id f ps) ≡ ok (f c)
  unfolding find_product change_product
  find_product-change id f [] c same h = cc
  find_product-change id f (p ∷ ps) c same h =
      ground (arith, same p, find_product-change id f ps c same)

  find_product-other :
      (id q : String) (f : Product F → Product F) (ps : List (Product F))
      → ((p : Product F) → (f p).id ≡ p.id)
      → q ≢ id
      → find_product q (change_product id f ps) ≡ find_product q ps
  unfolding find_product change_product
  find_product-other id q f [] same h = refl
  find_product-other id q f (p ∷ ps) same h =
      ground (arith, same p, eq_iff p.id id, eq_iff p.id q, find_product-other id q f ps same h)

  pub get_product_ok :
      (id : String) (w : World F) (c : Product F) (u : World F)
      → get_product id w ≡ (ok c, u)
      → (find_product id w.products ≡ ok c) × (u.products ≡ w.products)
  unfolding get_product call next_fault
  get_product_ok id w c u e = ground arith

  ensure_products :
      (p : String) (w : World F) (a : Unit {0}) (u : World F)
      → ensure_category_parent p w ≡ (ok a, u)
      → u.products ≡ w.products
  unfolding ensure_category_parent Categories.get call next_fault
  ensure_products p w a u e = ground arith

  update_ok :
      (p : Product F) (w : World F) (a : Unit {0}) (u : World F)
      → Products.update p w ≡ (ok a, u)
      → u.products ≡ change_product p.id (overwrite p) w.products
  unfolding Products.update call next_fault
  update_ok p w a u e = ground arith

-- What an update leaves of a product, and what it takes from the request.
pub record IsUpdated {F : Type 0} (p old new : Product F) : Type 0 where
  pub same_id : new.id ≡ old.id
  pub same_sku : new.sku ≡ old.sku
  pub same_sale_price : new.sale_price ≡ old.sale_price
  pub same_purchase_price : new.purchase_price ≡ old.purchase_price
  pub same_time : new.created_at ≡ old.created_at
  pub name : new.name ≡ trim_space p.name
  pub category : new.category_id ≡ trim_space p.category_id

-- A successful UpdateProduct changes the product with the id: its SKU, prices and time of creation
-- stand, its name and category are those of the request, trimmed; and every other product is found
-- as before.
pub update_product-IsUpdated :
    {F : Type 0} ⦃fl : Float F⦄ (p : Product F) (w v : World F)
    → update_product p w ≡ (ok tt, v)
    → (old : Product F) × (new : Product F) × (find_product p.id w.products ≡ ok old)
      × (find_product p.id v.products ≡ ok new)
      × IsUpdated p old new
      × ((q : String) → q ≢ p.id → find_product q v.products ≡ find_product q w.products)
unfolding update_product normalize_product overwrite
update_product-IsUpdated p w v e =
    let (old, w1, got, e1) = bind_ok (get_product p.id) _ w tt v e in
    let n = normalize_product (record p { sku = old.sku }) in
    let (_, w2, valid, e2) = bind_ok (lift (validate_product n)) _ w1 tt v e1 in
    let (_, w3, parent, e3) = bind_ok (ensure_category_parent n.category_id) _ w2 tt v e2 in
    let (found, same1) = get_product_ok p.id w old w1 got in
    let same2 : w2.products ≡ w1.products = ground arith in
    let same3 = ensure_products n.category_id w2 _ w3 parent in
    let there : v.products ≡ change_product p.id (overwrite n) w.products =
      update_ok n w3 tt v e3 ∙ ap (change_product p.id (overwrite n)) (same3 ∙ same2 ∙ same1) in
    (
      old,
      overwrite n old,
      found,
      ap (find_product p.id) there
          ∙ find_product-change p.id (overwrite n) w.products old (λ q. refl) found,
      record {
        same_id = refl;
        same_sku = refl;
        same_sale_price = refl;
        same_purchase_price = refl;
        same_time = refl;
        name = refl;
        category = refl;
      },
      λ q other.
          ap (find_product q) there
          ∙ find_product-other p.id q (overwrite n) w.products (λ r. refl) other,
    )
