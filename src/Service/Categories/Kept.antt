-- ===== src/Service/Categories/Kept.antt =====
-- The operations on categories keep the forest of the stored categories.
use erp_stock.Base.{
  String, ◌==◌, eq_iff, ◌≡◌, sym, ◌∙◌, subst, Bool, false, List, ltb, Bool-cases, inl, inr, arith,
}
use erp_stock.Text.{trim_space}
use erp_stock.Domain.Errors.{Result, ok, err, invalid, in_use}
use erp_stock.Domain.Types.{Category}
use erp_stock.Domain.Category.{category_parent_would_cycle}
use erp_stock.World.{World, Action, pure, ◌>>=◌, fail_if, call, next_fault}
use erp_stock.World.Always.{Always}
use erp_stock.World.Rules.{bind_rule, bind_ok, fail_if_ok}
use erp_stock.Catalog.Categories
use erp_stock.Catalog.Categories.{category_exists, category_by_id, is_parent}
use erp_stock.Catalog.Categories.Lookups.{category_exists-false, category_by_id-ok}
use erp_stock.Catalog.Categories.Ways.{Known}
use erp_stock.Catalog.Categories.Wooded.{IsForest, IsForest-append, IsForest-set, IsForest-drop}
use erp_stock.Catalog.Products.{count_by_category}
use erp_stock.Service.Categories.{
  id_or_new, ensure_category_parent, create_category, update_category, delete_category,
}
use erp_stock.Service.Categories.Reads.{
  SameCategories, category_reads, id_or_new-SameCategories, list-SameCategories,
  has_children-SameCategories, count_by_category-SameCategories,
  ensure_category_parent-SameCategories,
}

-- A read, and what follows it keeps a property of the categories.
module _ {F : Type 0} {A B : Type 0} (P : List Category → Type 0) where
  kept_bind :
      (m : Action F A) (f : A → Action F B) (w : World F)
      → Always SameCategories m
      → P w.categories
      → ((a : A) (v : World F)
          → m w ≡ (ok a, v)
          → v.categories ≡ w.categories
          → P v.categories
          → P (f a v).1.categories)
      → P ((m >>= f) w).1.categories
  kept_bind m f w same h go =
      bind_rule (λ x. P x.1.categories) m f w
        (λ a v e. let s = end (ok a) v e in go a v e s (subst P (sym s) h))
        (λ x v e. subst P (sym (end (err x) v e)) h)
    where
      end : (r : Result A) (v : World F) → m w ≡ (r, v) → v.categories ≡ w.categories
      end r v e = subst (λ (x : Result A × World F). x.1.categories ≡ w.categories) e (same.at w)

module _ {F : Type 0} where
  list_ok :
      (w : World F) (items : List Category) (v : World F)
      → Categories.list w ≡ (ok items, v)
      → items ≡ w.categories
  unfolding Categories.list call next_fault
  list_ok w items v e = ground arith

  has_children_ok :
      (id : String) (w : World F) (b : Bool) (v : World F)
      → Categories.has_children id w ≡ (ok b, v)
      → b ≡ is_parent id w.categories
  unfolding Categories.has_children call next_fault
  has_children_ok id w b v e = ground arith

  get_ok :
      (id : String) (w : World F) (c : Category) (v : World F)
      → Categories.get id w ≡ (ok c, v)
      → category_by_id id w.categories ≡ ok c
  unfolding Categories.get call next_fault
  get_ok id w c v e = ground arith

  pub ensure_ok :
      (p : String) (w : World F) (a : Unit {0}) (v : World F)
      → ensure_category_parent p w ≡ (ok a, v)
      → Known w.categories p
  unfolding ensure_category_parent
  ensure_ok p w a v e = elim (Bool-cases (p == "")) [
    | inl blank ↦ inl ((eq_iff p "").0 blank)
    | inr named ↦
        let (c, u, got, _) = bind_ok (Categories.get p) (λ _. pure tt) w a v (rw named at e) in
        inr (category_by_id-ok p w.categories c (get_ok p w c u got))
  ]

  create-IsForest :
      (c : Category) (w : World F)
      → Known w.categories c.parent_id
      → IsForest w.categories
      → IsForest (Categories.create c w).1.categories
  unfolding Categories.create call
  create-IsForest c w known h =
      ground (arith, category_exists-false c.id w.categories, IsForest-append w.categories c h)

  update-IsForest :
      (c : Category) (w : World F)
      → category_parent_would_cycle w.categories c.id c.parent_id ≡ false
      → Known w.categories c.parent_id
      → IsForest w.categories
      → IsForest (Categories.update c w).1.categories
  unfolding Categories.update call
  update-IsForest c w free known h = ground (arith, IsForest-set w.categories c h free known)

  delete-IsForest :
      (id : String) (w : World F)
      → is_parent id w.categories ≡ false
      → IsForest w.categories
      → IsForest (Categories.delete id w).1.categories
  unfolding Categories.delete call
  delete-IsForest id w bare h = ground (arith, IsForest-drop w.categories id h bare)

abbrev pub KeepsForest : {F : Type 0} → World F → World F → Type 0
KeepsForest w v = IsForest w.categories → IsForest v.categories

module _ {F : Type 0} where
  pub create_category-KeepsForest : (c : Category) → Always {F = F} KeepsForest (create_category c)
  unfolding create_category
  create_category-KeepsForest c = record {
    at = λ w h.
        kept_bind IsForest (fail_if (trim_space c.name == "") invalid) _ w (search category_reads) h
          (λ _ v _ _ h1.
            kept_bind IsForest (id_or_new c.id) _ v (id_or_new-SameCategories c.id) h1
              (λ id u _ _ h2.
                kept_bind IsForest (ensure_category_parent c.parent_id) _ u
                  (ensure_category_parent-SameCategories c.parent_id) h2
                  (λ _ t e s h3.
                    create-IsForest (record c { id = id; name = trim_space c.name }) t
                      (known u t e s) h3)));
  }
    where
      known :
          (u t : World F)
          → ensure_category_parent c.parent_id u ≡ (ok tt, t)
          → t.categories ≡ u.categories
          → Known t.categories c.parent_id
      known u t e s = subst (λ l. Known l c.parent_id) (sym s) (ensure_ok c.parent_id u tt t e)

  pub update_category-KeepsForest : (c : Category) → Always {F = F} KeepsForest (update_category c)
  unfolding update_category
  update_category-KeepsForest c = record {
    at = λ w h.
        kept_bind IsForest (fail_if (trim_space c.name == "") invalid) _ w (search category_reads) h
          (λ _ v _ _ h1.
            kept_bind IsForest Categories.list _ v list-SameCategories h1 (λ items u e s h2.
              kept_bind IsForest
                (fail_if (category_parent_would_cycle items c.id c.parent_id) invalid) _ u
                (search category_reads) h2
                (λ _ t e1 s1 h3.
                  kept_bind IsForest (ensure_category_parent c.parent_id) _ t
                    (ensure_category_parent-SameCategories c.parent_id) h3
                    (λ _ r e2 s2 h4.
                      update-IsForest (record c { name = trim_space c.name }) r
                        (subst (λ l. category_parent_would_cycle l c.id c.parent_id ≡ false)
                          (list_ok v items u e ∙ sym s ∙ sym s1 ∙ sym s2)
                          (fail_if_ok _ invalid u tt t e1).0)
                        (subst (λ l. Known l c.parent_id) (sym s2)
                          (ensure_ok c.parent_id t tt r e2))
                        h4))));
  }

  pub delete_category-KeepsForest : (id : String) → Always {F = F} KeepsForest (delete_category id)
  unfolding delete_category
  delete_category-KeepsForest id = record {
    at = λ w h.
        kept_bind IsForest (Categories.has_children id) _ w (has_children-SameCategories id) h
          (λ has v e s h1.
            kept_bind IsForest (fail_if has in_use) _ v (search category_reads) h1 (λ _ u e1 s1 h2.
              kept_bind IsForest (count_by_category id) _ u (count_by_category-SameCategories id) h2
                (λ n t e2 s2 h3.
                  kept_bind IsForest (fail_if (ltb 0 n) in_use) _ t (search category_reads) h3
                    (λ _ r e3 s3 h4.
                      delete-IsForest id r
                        (subst (λ l. is_parent id l ≡ false) (sym (s3 ∙ s2 ∙ s1 ∙ s))
                          (sym (has_children_ok id w has v e)
                            ∙ (fail_if_ok has in_use v tt u e1).0))
                        h4))));
  }
