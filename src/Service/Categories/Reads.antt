-- ===== src/Service/Categories/Reads.antt =====
-- What the operations on categories read on the way leaves the stored categories as they are.
use erp_stock.Base.{String, ◌≡◌, ◌∙◌, refl}
use erp_stock.World.{World, call, new_uuid}
use erp_stock.World.Always.{Always, IsPreorder, always_rules}
use erp_stock.Catalog.Categories
use erp_stock.Catalog.Categories.{category_exists, category_by_id, is_parent}
use erp_stock.Catalog.Products.{count_by_category}
use erp_stock.Service.Categories.{id_or_new, ensure_category_parent}

abbrev pub SameCategories : {F : Type 0} → World F → World F → Type 0
SameCategories w v = v.categories ≡ w.categories

module _ {F : Type 0} where
  pub SameCategories-preorder : IsPreorder {F = F} SameCategories
  SameCategories-preorder = record { same = λ w. refl; chain = λ w v u p q. q ∙ p }

  pub call-SameCategories : Always {F = F} SameCategories call
  unfolding call
  call-SameCategories = record { at = λ w. refl }

  pub new_uuid-SameCategories : Always {F = F} SameCategories new_uuid
  unfolding new_uuid
  new_uuid-SameCategories = record { at = λ w. refl }

pub ruleset category_reads =
    (always_rules, SameCategories-preorder, call-SameCategories, new_uuid-SameCategories)

module _ {F : Type 0} where
  pub id_or_new-SameCategories : (id : String) → Always {F = F} SameCategories (id_or_new id)
  unfolding id_or_new
  id_or_new-SameCategories id = search category_reads

  pub list-SameCategories : Always {F = F} SameCategories Categories.list
  unfolding Categories.list
  list-SameCategories = search category_reads

  pub get-SameCategories : (id : String) → Always {F = F} SameCategories (Categories.get id)
  unfolding Categories.get
  get-SameCategories id = search category_reads

  pub has_children-SameCategories :
      (id : String) → Always {F = F} SameCategories (Categories.has_children id)
  unfolding Categories.has_children
  has_children-SameCategories id = search category_reads

  pub count_by_category-SameCategories :
      (id : String) → Always {F = F} SameCategories (count_by_category id)
  unfolding count_by_category
  count_by_category-SameCategories id = search category_reads

  pub ensure_category_parent-SameCategories :
      (p : String) → Always {F = F} SameCategories (ensure_category_parent p)
  unfolding ensure_category_parent
  ensure_category_parent-SameCategories p = search (category_reads, get-SameCategories)
