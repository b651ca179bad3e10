-- ===== src/Catalog/Products/Accepted.antt =====
-- Every stored product is one that `validateProduct` accepts.
use erp_stock.Base.{String, ◌≡◌, List, [], ◌∷◌, ◌++◌, arith}
use erp_stock.Float.{Float}
use erp_stock.Domain.Errors.{ok}
use erp_stock.Domain.Types.{Product}
use erp_stock.Domain.Product.{validate_product, validate_conversions}
use erp_stock.World.{World, call}
use erp_stock.World.Always.{Always}
use erp_stock.Catalog.Products.{
  change_product, drop_product, overwrite, stamped, as_stored, create, update, set_price,
  set_sale_price, set_purchase_price, delete,
}
use erp_stock.Service.Lookup.{find_product}

module _ {F : Type 0} ⦃fl : Float F⦄ where
  abbrev pub IsAccepted : Product F → Type 0
  IsAccepted p = validate_product p ≡ ok tt

  abbrev pub AllAccepted : List (Product F) → Type 0
  AllAccepted [] = Unit
  AllAccepted (p ∷ ps) = IsAccepted p × AllAccepted ps

  AllAccepted-append :
      (ps : List (Product F)) (n : Product F)
      → AllAccepted ps
      → IsAccepted n
      → AllAccepted (ps ++ n ∷ [])
  AllAccepted-append [] n h k = (k, tt)
  AllAccepted-append (p ∷ ps) n (h, hs) k = (h, AllAccepted-append ps n hs k)

  AllAccepted-change :
      (id : String) (f : Product F → Product F) (ps : List (Product F))
      → ((p : Product F) → IsAccepted p → IsAccepted (f p))
      → AllAccepted ps
      → AllAccepted (change_product id f ps)
  unfolding change_product
  AllAccepted-change id f [] keep h = tt
  AllAccepted-change id f (p ∷ ps) keep (h, hs) =
      ground (arith, keep p h, AllAccepted-change id f ps keep hs)

  AllAccepted-drop :
      (id : String) (ps : List (Product F)) → AllAccepted ps → AllAccepted (drop_product id ps)
  unfolding drop_product
  AllAccepted-drop id [] h = tt
  AllAccepted-drop id (p ∷ ps) (h, hs) = ground (arith, AllAccepted-drop id ps hs)

  pub find_product-IsAccepted :
      (id : String) (ps : List (Product F)) (p : Product F)
      → AllAccepted ps
      → find_product id ps ≡ ok p
      → IsAccepted p
  unfolding find_product
  find_product-IsAccepted id [] p h e = cc
  find_product-IsAccepted id (q ∷ qs) p (h, hs) e =
      ground (arith, find_product-IsAccepted id qs p hs)

abbrev pub KeepsAccepted : {F : Type 0} ⦃fl : Float F⦄ → World F → World F → Type 0
KeepsAccepted w v = AllAccepted w.products → AllAccepted v.products

module _ {F : Type 0} ⦃fl : Float F⦄ where
  pub create-KeepsAccepted : (p : Product F) → IsAccepted p → Always KeepsAccepted (create p)
  unfolding create call stamped as_stored validate_product validate_conversions
  create-KeepsAccepted p k = record {
    at = λ w h.
        ground (arith, AllAccepted-append w.products (as_stored (stamped p w.stock.clock)) h k);
  }

  pub update-KeepsAccepted : (p : Product F) → IsAccepted p → Always KeepsAccepted (update p)
  unfolding update call overwrite validate_product validate_conversions
  update-KeepsAccepted p k = record {
    at = λ w h. ground (arith, AllAccepted-change p.id (overwrite p) w.products (λ q _. k) h);
  }

  pub set_sale_price-KeepsAccepted :
      (id : String) (price : F) → Always KeepsAccepted (set_sale_price id price)
  unfolding set_sale_price set_price call validate_product validate_conversions
  set_sale_price-KeepsAccepted id price = record {
    at = λ w h. ground (
      arith,
      AllAccepted-change id (λ p. record p { sale_price = price }) w.products (λ q k. k) h,
    );
  }

  pub set_purchase_price-KeepsAccepted :
      (id : String) (price : F) → Always KeepsAccepted (set_purchase_price id price)
  unfolding set_purchase_price set_price call validate_product validate_conversions
  set_purchase_price-KeepsAccepted id price = record {
    at = λ w h. ground (
      arith,
      AllAccepted-change id (λ p. record p { purchase_price = price }) w.products (λ q k. k) h,
    );
  }

  pub delete-KeepsAccepted : (id : String) → Always {F = F} KeepsAccepted (delete id)
  unfolding delete call
  delete-KeepsAccepted id = record { at = λ w h. ground (arith, AllAccepted-drop id w.products h) }
