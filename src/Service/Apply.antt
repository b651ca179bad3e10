-- ===== src/Service/Apply.antt =====
-- `applyQtySub`, by which every manual, purchase, transfer and direct sale movement is made.
pub mod Effects
use erp_stock.Base.{String, Bool, ◌==◌, ◌||◌, List, ◌∷◌, if◌then◌else◌}
use erp_stock.Float.{Float}
use erp_stock.Domain.Errors.{Result, ok, err}
use erp_stock.Domain.Types.{Balance, Movement, subtype_purchase, subtype_sale}
use erp_stock.World.{
  World, Action, pure, ◌>>=◌, ◌>>◌, ignore, deferring, modify, push_cached, push_published, call,
  acquire, unlock, stock_key,
}
use erp_stock.Repo

-- `defaultSubtype`
unfoldable pub default_subtype : String → String
default_subtype typ =
    if typ == "PURCHASE_IN"
    then subtype_purchase
    else if typ == "SALE_OUT"
    then subtype_sale
    else ""

abbrev pub is_inbound : String → Bool
is_inbound typ = typ == "MANUAL_IN" || typ == "PURCHASE_IN" || typ == "TRANSFER_IN"

module _ {F : Type 0} ⦃fl : Float F⦄ where
  -- `Cache.SetBalance`
  unfoldable pub set_cached : Balance F → Action F (Unit {0})
  set_cached b = do call; modify (push_cached b)

  abbrev pub cache_result : Result (Balance F) × World F → Result (Unit {0}) × World F
  cache_result (ok b, v) = ignore (set_cached b) v
  cache_result (err _, v) = pure tt v

  -- `if b, err := GetBalance(…); err == nil { _ = SetBalance(b) }`
  unfoldable pub refresh_cache : String → String → Action F (Unit {0})
  refresh_cache p wh v = cache_result (Repo.get_balance p wh v)

  -- The change of the balance, in the direction of the movement's type.
  unfoldable pub change_balance : String → String → String → F → Action F (Unit {0})
  change_balance typ p wh qty =
      if is_inbound typ then Repo.add_available p wh qty else Repo.remove_available p wh qty

  unfoldable pub record_movement :
      String → String → String → String → F → String → String → Action F (Unit {0})
  record_movement p wh typ sub qty doc_type doc_id = Repo.insert_movement (record {
    product_id = p;
    warehouse_id = wh;
    movement_type = typ;
    subtype = sub;
    quantity = qty;
    reference_doc_type = doc_type;
    reference_doc_id = doc_id;
    created_at = 0;
  })

  unfoldable pub apply_qty_sub :
      String → String → String → String → F → String → String → Action F (Unit {0})
  apply_qty_sub p wh typ sub qty doc_type doc_id = do
    let key = stock_key p wh
    acquire key
    deferring (unlock key) (do
      change_balance typ p wh qty
      record_movement p wh typ sub qty doc_type doc_id
      refresh_cache p wh)

  -- `applyQty`
  unfoldable pub apply_qty : String → String → String → F → String → String → Action F (Unit {0})
  apply_qty p wh typ qty doc_type doc_id =
      apply_qty_sub p wh typ (default_subtype typ) qty doc_type doc_id
