-- ===== src/Http/Routes/Sound.antt =====
-- What every input keeps: the constraints of the tables, distinct keys of the products and the
-- warehouses, products that are accepted, and the forest of the categories.
pub mod Parts
pub mod Run
pub mod Listed
pub mod Converted
use erp_stock.Base.{String, ◌≡◌, ap, sym, subst, List, Option}
use erp_stock.Float.{Float}
use erp_stock.Domain.Errors.{Result}
use erp_stock.Domain.Types.{Product, Category, Warehouse, Assembly}
use erp_stock.Store.Tables.{Tables}
use erp_stock.Store.Valid.{IsValid}
use erp_stock.Store.Warehouses.Distinct.{
  IsCoded, insert_warehouse-IsCoded, update_warehouse-IsCoded, insert_warehouse-IsValid,
  update_warehouse-IsValid,
}
use erp_stock.World.{World, Action, pure, ◌>>=◌, ◌>>◌, call, new_uuid, exec}
use erp_stock.World.Always.{Always, IsPreorder, always_rules}
use erp_stock.World.Unchanged.{Unchanged}
use erp_stock.Catalog.Categories.Wooded.{IsForest}
use erp_stock.Catalog.Products.Distinct.{IsDistinct, KeepsDistinct}
use erp_stock.Catalog.Products.Accepted.{AllAccepted, KeepsAccepted}
use erp_stock.Service.Categories.Kept.{KeepsForest}
use erp_stock.Service.Constraints.{KeepsValid}
use erp_stock.Service.Frame.SameCatalog.{SameCatalog}
use erp_stock.Service.Outside.Instances.{SameBeside}

pub record IsSound {F : Type 0} ⦃fl : Float F⦄ (w : World F) : Type 0 where
  pub stock : IsValid w.stock
  pub warehouses : IsCoded w.stock.warehouses
  pub products : IsDistinct w.products
  pub accepted : AllAccepted w.products
  pub categories : IsForest w.categories

abbrev pub KeepsSound : {F : Type 0} ⦃fl : Float F⦄ → World F → World F → Type 0
KeepsSound w v = IsSound w → IsSound v

module _ {F : Type 0} ⦃fl : Float F⦄ where
  pub KeepsSound-preorder : IsPreorder {F = F} KeepsSound
  KeepsSound-preorder = record { same = λ w s. s; chain = λ w v u f g s. g (f s) }

  pub sound_reads : (w v : World F) → Unchanged w v → KeepsSound w v
  sound_reads w v e s = record {
    stock = subst IsValid (sym (ap (λ x. x.0) e)) s.stock;
    warehouses = subst IsCoded (sym (ap (λ x. x.0.warehouses) e)) s.warehouses;
    products = subst IsDistinct (sym (ap (λ x. x.2) e)) s.products;
    accepted = subst AllAccepted (sym (ap (λ x. x.2) e)) s.accepted;
    categories = subst IsForest (sym (ap (λ x. x.1) e)) s.categories;
  }

  module _ {A : Type 0} (m : Action F A) where
    -- An operation on stock.
    pub sound_stock : Always KeepsValid m → Always SameCatalog m → Always KeepsSound m
    sound_stock valid same = record {
      at = λ w s. record {
        stock = valid.at w s.stock;
        warehouses = subst IsCoded (sym (ap (λ x. x.2) (same.at w))) s.warehouses;
        products = subst IsDistinct (sym (ap (λ x. x.0) (same.at w))) s.products;
        accepted = subst AllAccepted (sym (ap (λ x. x.0) (same.at w))) s.accepted;
        categories = subst IsForest (sym (ap (λ x. x.1) (same.at w))) s.categories;
      };
    }

    -- An operation on products, prices or assemblies.
    pub sound_goods :
        Always SameBeside m → Always KeepsDistinct m → Always KeepsAccepted m → Always KeepsSound m
    sound_goods same distinct accepted = record {
      at = λ w s. record {
        stock = subst IsValid (sym (ap (λ x. x.0) (same.at w))) s.stock;
        warehouses = subst IsCoded (sym (ap (λ x. x.0.warehouses) (same.at w))) s.warehouses;
        products = distinct.at w s.products;
        accepted = accepted.at w s.accepted;
        categories = subst IsForest (sym (ap (λ x. x.1) (same.at w))) s.categories;
      };
    }
