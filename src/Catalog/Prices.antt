-- ===== src/Catalog/Prices.antt =====
-- The price histories of internal/adapters/postgres/catalog_repo.go and migrations/002_pricing.sql,
-- newest first. A row holds its prices as they are read back.
use erp_stock.Base.{String, ◌==◌, Bool, not, ◌&&◌, ◌||◌, List, ◌∷◌, keep_if}
use erp_stock.Float.{to_numeric, Float}
use erp_stock.Domain.Errors.{failure}
use erp_stock.Domain.Types.{PriceHistory}
use erp_stock.Store.Tables.{numeric_ok}
use erp_stock.World.{Action, pure, ◌>>=◌, ◌>>◌, fail_if, call, gets, modify, new_uuid}

module _ {F : Type 0} ⦃fl : Float F⦄ where
  -- A number written to a NUMERIC column and read back.
  abbrev pub rounded : F → F
  rounded x = fl.of_numeric (to_numeric x)

  -- Both prices fit NUMERIC(15,4).
  unfoldable pub prices_fit : PriceHistory F → Bool
  prices_fit h = numeric_ok (to_numeric h.previous_price) && numeric_ok (to_numeric h.new_price)

  unfoldable pub price_row : PriceHistory F → PriceHistory F
  price_row h = record h {
    previous_price = rounded h.previous_price;
    new_price = rounded h.new_price;
  }

  -- The column reference_doc_id is of purchases only.
  unfoldable pub insert_sale_history : PriceHistory F → Action F (PriceHistory F)
  insert_sale_history h = do
    call
    fail_if (not (prices_fit h)) failure
    id ← new_uuid
    now ← gets (λ w. w.stock.clock)
    let h1 = record h { id = id; created_at = now }
    modify (λ w. record w {
      sale_history = price_row (record h1 { reference_doc_id = "" }) ∷ w.sale_history;
    })
    pure h1

  unfoldable pub insert_purchase_history : PriceHistory F → Action F (PriceHistory F)
  insert_purchase_history h = do
    call
    fail_if (not (prices_fit h)) failure
    id ← new_uuid
    now ← gets (λ w. w.stock.clock)
    let h1 = record h { id = id; created_at = now }
    modify (λ w. record w { purchase_history = price_row h1 ∷ w.purchase_history })
    pure h1

  -- `WHERE ($1 = '' OR product_id = $1)`
  unfoldable pub of_product : String → List (PriceHistory F) → List (PriceHistory F)
  of_product id = keep_if (λ h. id == "" || h.product_id == id)

  unfoldable pub list_sale_history : String → Action F (List (PriceHistory F))
  list_sale_history id = do call; gets (λ w. of_product id w.sale_history)

  unfoldable pub list_purchase_history : String → Action F (List (PriceHistory F))
  list_purchase_history id = do call; gets (λ w. of_product id w.purchase_history)
