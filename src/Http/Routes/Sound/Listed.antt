-- ===== src/Http/Routes/Sound/Listed.antt =====
-- What ListCategories returns after any inputs.
use erp_stock.Base.{◌≡◌, refl, List, []}
use erp_stock.Float.{Float}
use erp_stock.Domain.Errors.{ok}
use erp_stock.Domain.Category.{Forest}
use erp_stock.World.{World}
use erp_stock.World.Rules.{call_calm}
use erp_stock.Catalog.Categories
use erp_stock.Catalog.Categories.Wooded.{IsForest}
use erp_stock.Catalog.Categories.Branches.{build_category_tree_ends}
use erp_stock.Catalog.Categories.Nodes.{IsDrawn, build_category_tree-IsDrawn}
use erp_stock.Service.Categories.{list_categories}
use erp_stock.Http.Routes.{Input, run}
use erp_stock.Http.Routes.Sound.{IsSound}
use erp_stock.Http.Routes.Sound.Run.{run-IsSound}

list_categories-IsDrawn :
    {F : Type 0} (w : World F)
    → IsForest w.categories
    → w.faults ≡ []
    → (f : Forest) × (list_categories w ≡ (ok f, w)) × IsDrawn w.categories f
unfolding list_categories Categories.list
list_categories-IsDrawn w h calm =
    let (f, e) = build_category_tree_ends w.categories h.keyed in
    (f, rw (call_calm w calm, e) refl, build_category_tree-IsDrawn w.categories f h e)

-- After any inputs from a sound state, once no more calls fail, ListCategories returns a forest and
-- changes nothing. Its roots are the stored categories with no parent, every stored category has a
-- node in it, and under each node stand just the categories whose parent it is.
pub run-list_categories :
    {F : Type 0} ⦃fl : Float F⦄ (is : List (Input F)) (w : World F)
    → IsSound w
    → (run is w).faults ≡ []
    → (f : Forest) × (list_categories (run is w) ≡ (ok f, run is w))
      × IsDrawn (run is w).categories f
run-list_categories is w s calm =
    list_categories-IsDrawn (run is w) (run-IsSound is w s).categories calm
