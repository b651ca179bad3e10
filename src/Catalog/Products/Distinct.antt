-- ===== src/Catalog/Products/Distinct.antt =====
-- Ids and SKUs of the stored products stay distinct under every write of ProductRepo.
use erp_stock.Base.{String, ◌==◌, eq_iff, ◌≡◌, refl, false, ◌||◌, List, [], ◌∷◌, ◌++◌, arith}
use erp_stock.Domain.Types.{Product}
use erp_stock.World.{World, call}
use erp_stock.World.Always.{Always}
use erp_stock.Catalog.Products.{
  product_exists, sku_exists, sku_elsewhere, change_product, drop_product, overwrite, stamped,
  as_stored, create, update, set_price, set_sale_price, set_purchase_price, delete,
}

-- No id and no SKU stands twice.
abbrev pub IsDistinct : {F : Type 0} → List (Product F) → Type 0
IsDistinct [] = Unit
IsDistinct (p ∷ ps) =
    (product_exists p.id ps ≡ false) × (sku_exists p.sku ps ≡ false) × IsDistinct ps

module _ {F : Type 0} where
  product_exists-append :
      (id : String) (ps : List (Product F)) (n : Product F)
      → product_exists id (ps ++ n ∷ []) ≡ (product_exists id ps || n.id == id)
  unfolding product_exists
  product_exists-append id [] n = ground arith
  product_exists-append id (p ∷ ps) n = ground (arith, product_exists-append id ps n)

  sku_exists-append :
      (sku : String) (ps : List (Product F)) (n : Product F)
      → sku_exists sku (ps ++ n ∷ []) ≡ (sku_exists sku ps || n.sku == sku)
  unfolding sku_exists
  sku_exists-append sku [] n = ground arith
  sku_exists-append sku (p ∷ ps) n = ground (arith, sku_exists-append sku ps n)

  IsDistinct-append :
      (ps : List (Product F)) (n : Product F)
      → IsDistinct ps
      → product_exists n.id ps ≡ false
      → sku_exists n.sku ps ≡ false
      → IsDistinct (ps ++ n ∷ [])
  unfolding product_exists sku_exists
  IsDistinct-append [] n d i k = (refl, refl, tt)
  IsDistinct-append (p ∷ ps) n (e, s, d) i k = (
    ground (arith, product_exists-append p.id ps n, eq_iff p.id n.id, eq_iff n.id p.id),
    ground (arith, sku_exists-append p.sku ps n, eq_iff p.sku n.sku, eq_iff n.sku p.sku),
    IsDistinct-append ps n d (ground arith) (ground arith),
  )

  module _ (f : Product F → Product F) (same_id : (p : Product F) → (f p).id ≡ p.id) where
    product_exists-change :
        (id q : String) (ps : List (Product F))
        → product_exists q (change_product id f ps) ≡ product_exists q ps
    unfolding product_exists change_product
    product_exists-change id q [] = refl
    product_exists-change id q (p ∷ ps) = ground (arith, same_id p, product_exists-change id q ps)

  module _ (f : Product F → Product F) (same_sku : (p : Product F) → (f p).sku ≡ p.sku) where
    sku_exists-change :
        (id q : String) (ps : List (Product F))
        → sku_exists q (change_product id f ps) ≡ sku_exists q ps
    unfolding sku_exists change_product
    sku_exists-change id q [] = refl
    sku_exists-change id q (p ∷ ps) = ground (arith, same_sku p, sku_exists-change id q ps)

    IsDistinct-change :
        ((p : Product F) → (f p).id ≡ p.id)
        → (id : String) (ps : List (Product F)) → IsDistinct ps
        → IsDistinct (change_product id f ps)
    unfolding change_product
    IsDistinct-change same_id id [] d = tt
    IsDistinct-change same_id id (p ∷ ps) (e, s, d) = ground (
      arith,
      same_id p,
      same_sku p,
      product_exists-change f same_id id p.id ps,
      sku_exists-change id p.sku ps,
      IsDistinct-change same_id id ps d,
    )

  -- The SKU of the changed document is new, or its own.
  sku_exists-overwrite :
      (n : Product F) (sku : String) (ps : List (Product F))
      → sku_exists sku ps ≡ false
      → n.sku == sku ≡ false
      → sku_exists sku (change_product n.id (overwrite n) ps) ≡ false
  unfolding sku_exists change_product overwrite
  sku_exists-overwrite n sku [] h k = refl
  sku_exists-overwrite n sku (p ∷ ps) h k = ground (arith, sku_exists-overwrite n sku ps)

  elsewhere-false :
      (n : Product F) (ps : List (Product F))
      → sku_elsewhere n.id n.sku ps ≡ false
      → product_exists n.id ps ≡ false
      → sku_exists n.sku ps ≡ false
  unfolding sku_elsewhere product_exists sku_exists
  elsewhere-false n [] h k = refl
  elsewhere-false n (p ∷ ps) h k = ground (arith, elsewhere-false n ps)

  IsDistinct-overwrite :
      (n : Product F) (ps : List (Product F))
      → IsDistinct ps
      → sku_elsewhere n.id n.sku ps ≡ false
      → IsDistinct (change_product n.id (overwrite n) ps)
  unfolding sku_elsewhere change_product overwrite
  IsDistinct-overwrite n [] d h = tt
  IsDistinct-overwrite n (p ∷ ps) (e, s, d) h = ground (
    arith,
    eq_iff p.id n.id,
    eq_iff n.sku p.sku,
    eq_iff p.sku n.sku,
    elsewhere-false n ps,
    sku_exists-overwrite n p.sku ps,
    product_exists-change (overwrite n) (λ q. refl) n.id p.id ps,
    IsDistinct-overwrite n ps d,
  )

  product_exists-drop :
      (id q : String) (ps : List (Product F))
      → product_exists q ps ≡ false
      → product_exists q (drop_product id ps) ≡ false
  unfolding product_exists drop_product
  product_exists-drop id q [] h = refl
  product_exists-drop id q (p ∷ ps) h = ground (arith, product_exists-drop id q ps)

  sku_exists-drop :
      (id q : String) (ps : List (Product F))
      → sku_exists q ps ≡ false
      → sku_exists q (drop_product id ps) ≡ false
  unfolding sku_exists drop_product
  sku_exists-drop id q [] h = refl
  sku_exists-drop id q (p ∷ ps) h = ground (arith, sku_exists-drop id q ps)

  IsDistinct-drop :
      (id : String) (ps : List (Product F)) → IsDistinct ps → IsDistinct (drop_product id ps)
  unfolding drop_product
  IsDistinct-drop id [] d = tt
  IsDistinct-drop id (p ∷ ps) (e, s, d) = ground (
    arith,
    product_exists-drop id p.id ps e,
    sku_exists-drop id p.sku ps s,
    IsDistinct-drop id ps d,
  )

abbrev pub KeepsDistinct : {F : Type 0} → World F → World F → Type 0
KeepsDistinct w v = IsDistinct w.products → IsDistinct v.products

module _ {F : Type 0} where
  pub create-KeepsDistinct : (p : Product F) → Always KeepsDistinct (create p)
  unfolding create call stamped as_stored
  create-KeepsDistinct p = record {
    at =
        λ w d. ground (arith, IsDistinct-append w.products (as_stored (stamped p w.stock.clock)) d);
  }

  pub update-KeepsDistinct : (p : Product F) → Always KeepsDistinct (update p)
  unfolding update call
  update-KeepsDistinct p = record {
    at = λ w d. ground (arith, IsDistinct-overwrite p w.products d);
  }

  pub set_sale_price-KeepsDistinct :
      (id : String) (price : F) → Always KeepsDistinct (set_sale_price id price)
  unfolding set_sale_price set_price call
  set_sale_price-KeepsDistinct id price = record {
    at = λ w d. ground (
      arith,
      IsDistinct-change (λ p. record p { sale_price = price }) (λ q. refl) (λ q. refl) id w.products
          d,
    );
  }

  pub set_purchase_price-KeepsDistinct :
      (id : String) (price : F) → Always KeepsDistinct (set_purchase_price id price)
  unfolding set_purchase_price set_price call
  set_purchase_price-KeepsDistinct id price = record {
    at = λ w d. ground (
      arith,
      IsDistinct-change (λ p. record p { purchase_price = price }) (λ q. refl) (λ q. refl) id
          w.products d,
    );
  }

  pub delete-KeepsDistinct : (id : String) → Always {F = F} KeepsDistinct (delete id)
  unfolding delete call
  delete-KeepsDistinct id = record { at = λ w d. ground (arith, IsDistinct-drop id w.products d) }
