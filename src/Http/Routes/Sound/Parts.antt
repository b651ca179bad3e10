-- ===== src/Http/Routes/Sound/Parts.antt =====
-- The operations on categories and on warehouses keep what every input keeps.
use erp_stock.Base.{String, ◌≡◌, refl, ap, sym, subst, ◌∙◌, List}
use erp_stock.Float.{Float}
use erp_stock.Domain.Errors.{Result}
use erp_stock.Domain.Types.{Product, Category, Warehouse}
use erp_stock.Store.Tables.{Tables}
use erp_stock.Store.Valid.{IsValid}
use erp_stock.Store.Warehouses.Distinct.{
  IsCoded, insert_warehouse-IsCoded, update_warehouse-IsCoded, insert_warehouse-IsValid,
  update_warehouse-IsValid,
}
use erp_stock.Store.Warehouses as Statements
use erp_stock.World.{World, Action, call, new_uuid, on_stock}
use erp_stock.World.Always.{Always, IsPreorder, always_rules}
use erp_stock.Catalog.Categories as Documents
use erp_stock.Catalog.Products.{count_by_category}
use erp_stock.Catalog.Products.Distinct.{IsDistinct}
use erp_stock.Catalog.Products.Accepted.{AllAccepted}
use erp_stock.Repo.Warehouses
use erp_stock.Service.Categories
use erp_stock.Service.Categories.Kept.{
  KeepsForest, create_category-KeepsForest, update_category-KeepsForest,
  delete_category-KeepsForest,
}
use erp_stock.Service.Products
use erp_stock.Http.Routes.Sound.{KeepsSound, KeepsSound-preorder}

abbrev SameGoods : {F : Type 0} → World F → World F → Type 0
SameGoods w v = ◌≡◌ {A = Tables × List (Product _)} (v.stock, v.products) (w.stock, w.products)

module _ {F : Type 0} where
  SameGoods-preorder : IsPreorder {F = F} SameGoods
  SameGoods-preorder = record { same = λ w. refl; chain = λ w v u p q. q ∙ p }

  call-SameGoods : Always {F = F} SameGoods call
  unfolding call
  call-SameGoods = record { at = λ w. refl }

  new_uuid-SameGoods : Always {F = F} SameGoods new_uuid
  unfolding new_uuid
  new_uuid-SameGoods = record { at = λ w. refl }

ruleset goods_rules = (always_rules, SameGoods-preorder, call-SameGoods, new_uuid-SameGoods)

module _ {F : Type 0} where
  id_or_new-SameGoods : (id : String) → Always {F = F} SameGoods (Categories.id_or_new id)
  unfolding Categories.id_or_new
  id_or_new-SameGoods id = search goods_rules

  ensure-SameGoods : (p : String) → Always {F = F} SameGoods (Categories.ensure_category_parent p)
  unfolding Categories.ensure_category_parent Documents.get
  ensure-SameGoods p = search goods_rules

  create_category-SameGoods :
      (c : Category) → Always {F = F} SameGoods (Categories.create_category c)
  unfolding Categories.create_category Documents.create
  create_category-SameGoods c = search (goods_rules, id_or_new-SameGoods, ensure-SameGoods) depth 16

  update_category-SameGoods :
      (c : Category) → Always {F = F} SameGoods (Categories.update_category c)
  unfolding Categories.update_category Documents.update Documents.list
  update_category-SameGoods c = search (goods_rules, ensure-SameGoods) depth 16

  delete_category-SameGoods :
      (id : String) → Always {F = F} SameGoods (Categories.delete_category id)
  unfolding Categories.delete_category Documents.has_children Documents.delete count_by_category
  delete_category-SameGoods id = search goods_rules depth 16

module _ {F : Type 0} ⦃fl : Float F⦄ where
  sound_categories :
      {A : Type 0} (m : Action F A)
      → Always SameGoods m
      → Always KeepsForest m
      → Always KeepsSound m
  sound_categories m same forest = record {
    at = λ w s. record {
      stock = subst IsValid (sym (ap (λ x. x.0) (same.at w))) s.stock;
      warehouses = subst IsCoded (sym (ap (λ x. x.0.warehouses) (same.at w))) s.warehouses;
      products = subst IsDistinct (sym (ap (λ x. x.1) (same.at w))) s.products;
      accepted = subst AllAccepted (sym (ap (λ x. x.1) (same.at w))) s.accepted;
      categories = forest.at w s.categories;
    };
  }

  pub create_category-KeepsSound :
      (c : Category) → Always {F = F} KeepsSound (Categories.create_category c)
  create_category-KeepsSound c =
      sound_categories _ (create_category-SameGoods c) (create_category-KeepsForest c)

  pub update_category-KeepsSound :
      (c : Category) → Always {F = F} KeepsSound (Categories.update_category c)
  update_category-KeepsSound c =
      sound_categories _ (update_category-SameGoods c) (update_category-KeepsForest c)

  pub delete_category-KeepsSound :
      (id : String) → Always {F = F} KeepsSound (Categories.delete_category id)
  delete_category-KeepsSound id =
      sound_categories _ (delete_category-SameGoods id) (delete_category-KeepsForest id)

  call-KeepsSound : Always {F = F} KeepsSound call
  unfolding call
  call-KeepsSound = record {
    at = λ w s. record {
      stock = s.stock;
      warehouses = s.warehouses;
      products = s.products;
      accepted = s.accepted;
      categories = s.categories;
    };
  }

  new_uuid-KeepsSound : Always {F = F} KeepsSound new_uuid
  unfolding new_uuid
  new_uuid-KeepsSound = record {
    at = λ w s. record {
      stock = s.stock;
      warehouses = s.warehouses;
      products = s.products;
      accepted = s.accepted;
      categories = s.categories;
    };
  }

  insert-KeepsSound :
      (n : Warehouse) → Always {F = F} KeepsSound (on_stock (Statements.insert_warehouse n))
  insert-KeepsSound n = record {
    at = λ w s. record {
      stock = insert_warehouse-IsValid n w.stock s.stock;
      warehouses = insert_warehouse-IsCoded n w.stock s.warehouses;
      products = s.products;
      accepted = s.accepted;
      categories = s.categories;
    };
  }

  rename-KeepsSound :
      (n : Warehouse) → Always {F = F} KeepsSound (on_stock (Statements.update_warehouse n))
  rename-KeepsSound n = record {
    at = λ w s. record {
      stock = update_warehouse-IsValid n w.stock s.stock;
      warehouses = update_warehouse-IsCoded n w.stock s.warehouses;
      products = s.products;
      accepted = s.accepted;
      categories = s.categories;
    };
  }

  pub create_warehouse-KeepsSound :
      (assign : String → Result String) (n : Warehouse)
      → Always {F = F} KeepsSound (Products.create_warehouse assign n)
  unfolding Products.create_warehouse Warehouses.create_warehouse
  create_warehouse-KeepsSound assign n =
      search
        (always_rules, KeepsSound-preorder, call-KeepsSound, new_uuid-KeepsSound, insert-KeepsSound)
        depth 16

  pub update_warehouse-KeepsSound :
      (n : Warehouse) → Always {F = F} KeepsSound (Warehouses.update_warehouse n)
  unfolding Warehouses.update_warehouse
  update_warehouse-KeepsSound n =
      search (always_rules, KeepsSound-preorder, call-KeepsSound, rename-KeepsSound) depth 8
