-- ===== src/Service/Assemblies/Histories.antt =====
-- A registered price is the product's price, and its history row holds the price before.
use erp_stock.Base.{String, ◌≡◌, refl, sym, ap, ◌∙◌, eq_iff, List, [], ◌∷◌, arith}
use erp_stock.Float.{Float}
use erp_stock.Domain.Errors.{ok}
use erp_stock.Domain.Types.{Product, PriceHistory}
use erp_stock.World.{World, call, next_fault, new_uuid}
use erp_stock.World.Rules.{bind_ok}
use erp_stock.Catalog.Products
use erp_stock.Catalog.Products.{change_product}
use erp_stock.Catalog.Prices
use erp_stock.Catalog.Prices.{price_row}
use erp_stock.Service.Lookup.{find_product, get_product}
use erp_stock.Service.Products.Found.{get_product_ok, find_product-change}
use erp_stock.Service.Assemblies.{price_change, register_sale_price, register_purchase_price}

-- What an inserted history keeps of the one that was given.
abbrev IsRowOf : {F : Type 0} → PriceHistory F → PriceHistory F → Type 0
IsRowOf h out =
    (out.product_id ≡ h.product_id)
    × (out.sku ≡ h.sku)
    × (out.previous_price ≡ h.previous_price)
    × (out.new_price ≡ h.new_price)
    × (out.reference_doc_id ≡ h.reference_doc_id)

-- What a successful registration of a price did: the product had `old` and has `new`, and the row
-- says so.
pub record IsRegistered {F : Type 0} (id : String) (old new : Product F) (was price : F)
    (doc : String) (h : PriceHistory F) (w v : World F) : Type 0 where
  pub before : find_product id w.products ≡ ok old
  pub after : find_product id v.products ≡ ok new
  pub product : h.product_id ≡ id
  pub sku : h.sku ≡ old.sku
  pub previous_price : h.previous_price ≡ was
  pub new_price : h.new_price ≡ price
  pub reference : h.reference_doc_id ≡ doc

module _ {F : Type 0} ⦃fl : Float F⦄ where
  set_price_ok :
      (id : String) (f : Product F → Product F) (w : World F) (a : Unit {0}) (v : World F)
      → Products.set_price id f w ≡ (ok a, v)
      → (v.products ≡ change_product id f w.products)
        × (v.sale_history ≡ w.sale_history)
        × (v.purchase_history ≡ w.purchase_history)
  unfolding Products.set_price call next_fault
  set_price_ok id f w a v e = ground arith

  insert_sale_ok :
      (h out : PriceHistory F) (w v : World F)
      → Prices.insert_sale_history h w ≡ (ok out, v)
      → (v.products ≡ w.products)
        × IsRowOf h out
        × (v.sale_history ≡ price_row (record out { reference_doc_id = "" }) ∷ w.sale_history)
  unfolding Prices.insert_sale_history call next_fault new_uuid
  insert_sale_ok h out w v e = ground arith

  insert_purchase_ok :
      (h out : PriceHistory F) (w v : World F)
      → Prices.insert_purchase_history h w ≡ (ok out, v)
      → (v.products ≡ w.products)
        × IsRowOf h out
        × (v.purchase_history ≡ price_row out ∷ w.purchase_history)
  unfolding Prices.insert_purchase_history call next_fault new_uuid
  insert_purchase_ok h out w v e = ground arith

  find_product-id :
      (id : String) (ps : List (Product F)) (p : Product F) → find_product id ps ≡ ok p → p.id ≡ id
  unfolding find_product
  find_product-id id [] p e = cc
  find_product-id id (q ∷ ps) p e = ground (arith, eq_iff q.id id, find_product-id id ps p)

  get_product_histories :
      (id : String) (w : World F) (p : Product F) (u : World F)
      → get_product id w ≡ (ok p, u)
      → (u.sale_history ≡ w.sale_history) × (u.purchase_history ≡ w.purchase_history)
  unfolding get_product call next_fault
  get_product_histories id w p u e = ground arith

  -- A sale price that was registered is the price of the product from then on, whose other fields
  -- stand; its row is the newest of the history and holds the price that the product had.
  pub register_sale_price-IsRegistered :
      (id : String) (price : F) (h : PriceHistory F) (w v : World F)
      → register_sale_price id price w ≡ (ok h, v)
      → (p : Product F) × IsRegistered id p
          (record p { sale_price = price })
          p.sale_price
          price
          ""
          h
          w
          v
        × (v.sale_history ≡ price_row h ∷ w.sale_history)
  unfolding register_sale_price price_change Products.set_sale_price
  register_sale_price-IsRegistered id price h w v e =
      let (p, w1, got, e1) = bind_ok (get_product id) _ w h v e in
      let f = λ (x : Product F). record x { sale_price = price } in
      let (_, w2, set, e2) = bind_ok (Products.set_price p.id f) _ w1 h v e1 in
      let (found, same1) = get_product_ok id w p w1 got in
      let (sales1, _) = get_product_histories id w p w1 got in
      let own = find_product-id id w.products p found in
      let (changed, sales2, _) = set_price_ok p.id f w1 _ w2 set in
      let (same3, (product, sku, was, now, doc), row) = insert_sale_ok _ h w2 v e2 in
      let there : v.products ≡ change_product id f w.products =
        same3
        ∙ changed
        ∙ ap (change_product p.id f) same1
        ∙ ap (λ i. change_product i f w.products) own in
      (
        p,
        record {
          before = found;
          after =
              ap (find_product id) there ∙ find_product-change id f w.products p (λ q. refl) found;
          product = product ∙ own;
          sku = sku;
          previous_price = was;
          new_price = now;
          reference = doc;
        },
        row
            ∙ ap (λ r. price_row (record h { reference_doc_id = r }) ∷ w2.sale_history) (sym doc)
            ∙ ap (λ l. price_row h ∷ l) (sales2 ∙ sales1),
      )

  -- A purchase price that was registered is the purchase price of the product from then on, whose
  -- other fields stand; its row is the newest of the history and holds the price that the product
  -- had and the document.
  pub register_purchase_price-IsRegistered :
      (id : String) (price : F) (doc : String) (h : PriceHistory F) (w v : World F)
      → register_purchase_price id price doc w ≡ (ok h, v)
      → (p : Product F) × IsRegistered id p
          (record p { purchase_price = price })
          p.purchase_price
          price
          doc
          h
          w
          v
        × (v.purchase_history ≡ price_row h ∷ w.purchase_history)
  unfolding register_purchase_price price_change Products.set_purchase_price
  register_purchase_price-IsRegistered id price ref h w v e =
      let (p, w1, got, e1) = bind_ok (get_product id) _ w h v e in
      let f = λ (x : Product F). record x { purchase_price = price } in
      let (_, w2, set, e2) = bind_ok (Products.set_price p.id f) _ w1 h v e1 in
      let (found, same1) = get_product_ok id w p w1 got in
      let (_, rows1) = get_product_histories id w p w1 got in
      let own = find_product-id id w.products p found in
      let (changed, _, rows2) = set_price_ok p.id f w1 _ w2 set in
      let (same3, (product, sku, was, now, doc), row) = insert_purchase_ok _ h w2 v e2 in
      let there : v.products ≡ change_product id f w.products =
        same3
        ∙ changed
        ∙ ap (change_product p.id f) same1
        ∙ ap (λ i. change_product i f w.products) own in
      (
        p,
        record {
          before = found;
          after =
              ap (find_product id) there ∙ find_product-change id f w.products p (λ q. refl) found;
          product = product ∙ own;
          sku = sku;
          previous_price = was;
          new_price = now;
          reference = doc;
        },
        row ∙ ap (λ l. price_row h ∷ l) (rows2 ∙ rows1),
      )
