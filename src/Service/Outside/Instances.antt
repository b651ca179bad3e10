-- ===== src/Service/Outside/Instances.antt =====
-- Three relations that the operations on products, prices and assemblies respect.
use erp_stock.Base.{String, ◌≡◌, refl, arith, ap, sym, subst, ◌∙◌, List}
use erp_stock.Float.{Float}
use erp_stock.Domain.Errors.{Result, ok, err}
use erp_stock.Domain.Types.{Category, Balance, OrderEvent}
use erp_stock.Store.Tables.{Tables}
use erp_stock.World.{World, Action, call, new_uuid}
use erp_stock.World.Always.{Always}
use erp_stock.Catalog.Products
use erp_stock.Catalog.Products.Distinct.{
  IsDistinct, KeepsDistinct, create-KeepsDistinct, update-KeepsDistinct, delete-KeepsDistinct,
  set_sale_price-KeepsDistinct, set_purchase_price-KeepsDistinct,
}
use erp_stock.Catalog.Products.Accepted.{
  AllAccepted, KeepsAccepted, create-KeepsAccepted, update-KeepsAccepted, delete-KeepsAccepted,
  set_sale_price-KeepsAccepted, set_purchase_price-KeepsAccepted,
}
use erp_stock.Catalog.Assemblies.{in_transaction, undone}
use erp_stock.Service.Outside.{CatalogRespects}

-- What stands beside products, prices and assemblies.
abbrev pub beside :
    {F : Type 0}
    → World F
    → Tables × List Category × List String × List (Balance F) × List (OrderEvent F)
beside w = (w.stock, w.categories, w.locks, w.cache, w.published)

abbrev pub SameBeside : {F : Type 0} → World F → World F → Type 0
SameBeside w v = beside v ≡ beside w

module _ {F : Type 0} {A : Type 0} where
  in_transaction-SameBeside :
      (m : Action F A) → Always SameBeside m → Always SameBeside (in_transaction m)
  in_transaction-SameBeside m h = record { at = λ w. go w (m w) (h.at w) }
    where
      go :
          (w : World F) (x : Result A × World F)
          → SameBeside w x.1
          → SameBeside w (undone w.assemblies x).1
      go w (ok a, v) e = e
      go w (err x, v) e = e

  in_transaction-KeepsDistinct :
      (m : Action F A) → Always KeepsDistinct m → Always KeepsDistinct (in_transaction m)
  in_transaction-KeepsDistinct m h = record { at = λ w. go w (m w) (h.at w) }
    where
      go :
          (w : World F) (x : Result A × World F)
          → KeepsDistinct w x.1
          → KeepsDistinct w (undone w.assemblies x).1
      go w (ok a, v) e = e
      go w (err x, v) e = e

module _ {F A : Type 0} ⦃fl : Float F⦄ where
  in_transaction-KeepsAccepted :
      (m : Action F A) → Always KeepsAccepted m → Always KeepsAccepted (in_transaction m)
  in_transaction-KeepsAccepted m h = record { at = λ w. go w (m w) (h.at w) }
    where
      go :
          (w : World F) (x : Result A × World F)
          → KeepsAccepted w x.1
          → KeepsAccepted w (undone w.assemblies x).1
      go w (ok a, v) e = e
      go w (err x, v) e = e

instance pub SameBeside-Respects : {F : Type 0} ⦃fl : Float F⦄ → CatalogRespects {F = F} SameBeside
unfolding call new_uuid Products.create Products.update Products.delete Products.set_sale_price
    Products.set_purchase_price Products.set_price
SameBeside-Respects = record {
  pre = record { same = λ w. refl; chain = λ w v u p q. q ∙ p };
  on_call = record { at = λ w. refl };
  on_uuid = record { at = λ w. refl };
  on_create = λ p _. record { at = λ w. ground arith };
  on_update = λ p _. record { at = λ w. ground arith };
  on_delete = λ id. record { at = λ w. ground arith };
  on_sale_price = λ id price. record { at = λ w. ground arith };
  on_purchase_price = λ id price. record { at = λ w. ground arith };
  on_modify = λ f apart. record { at = λ w. ap (λ x. (x.0, x.1, x.3, x.4, x.5)) (apart w) };
  on_transaction = λ m h. in_transaction-SameBeside m h;
}

instance pub KeepsDistinct-Respects :
    {F : Type 0} ⦃fl : Float F⦄ → CatalogRespects {F = F} KeepsDistinct
unfolding call new_uuid
KeepsDistinct-Respects = record {
  pre = record { same = λ w d. d; chain = λ w v u f g d. g (f d) };
  on_call = record { at = λ w d. d };
  on_uuid = record { at = λ w d. d };
  on_create = λ p _. create-KeepsDistinct p;
  on_update = λ p _. update-KeepsDistinct p;
  on_delete = delete-KeepsDistinct;
  on_sale_price = set_sale_price-KeepsDistinct;
  on_purchase_price = set_purchase_price-KeepsDistinct;
  on_modify = λ f apart. record { at = λ w d. subst IsDistinct (sym (ap (λ x. x.2) (apart w))) d };
  on_transaction = λ m h. in_transaction-KeepsDistinct m h;
}

instance pub KeepsAccepted-Respects :
    {F : Type 0} ⦃fl : Float F⦄ → CatalogRespects {F = F} KeepsAccepted
unfolding call new_uuid
KeepsAccepted-Respects = record {
  pre = record { same = λ w d. d; chain = λ w v u f g d. g (f d) };
  on_call = record { at = λ w d. d };
  on_uuid = record { at = λ w d. d };
  on_create = create-KeepsAccepted;
  on_update = update-KeepsAccepted;
  on_delete = delete-KeepsAccepted;
  on_sale_price = set_sale_price-KeepsAccepted;
  on_purchase_price = set_purchase_price-KeepsAccepted;
  on_modify = λ f apart. record { at = λ w d. subst AllAccepted (sym (ap (λ x. x.2) (apart w))) d };
  on_transaction = λ m h. in_transaction-KeepsAccepted m h;
}
