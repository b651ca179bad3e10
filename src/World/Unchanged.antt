-- ===== src/World/Unchanged.antt =====
-- Actions that leave all that is stored, held or sent out.
use erp_stock.Base.{ℕ, String, ◌≡◌, refl, ◌∙◌, List}
use erp_stock.Domain.Types.{Product, Category, Assembly, PriceHistory, Balance, OrderEvent}
use erp_stock.Store.Tables.{Tables}
use erp_stock.World.{World, call}
use erp_stock.World.Always.{Always, IsPreorder, always_rules}

abbrev pub stored :
    {F : Type 0}
    → World F
    → Tables
      × List Category
      × List (Product F)
      × List (Assembly F)
      × List (PriceHistory F)
      × List (PriceHistory F)
      × List (Balance F)
      × List String
      × List (OrderEvent F)
      × ℕ
stored w = (
  w.stock, w.categories, w.products, w.assemblies, w.sale_history, w.purchase_history, w.cache,
  w.locks, w.published, w.drawn,
)

abbrev pub Unchanged : {F : Type 0} → World F → World F → Type 0
Unchanged w v = stored v ≡ stored w

module _ {F : Type 0} where
  pub Unchanged-preorder : IsPreorder {F = F} Unchanged
  Unchanged-preorder = record { same = λ w. refl; chain = λ w v u p q. q ∙ p }

  pub call-Unchanged : Always {F = F} Unchanged call
  unfolding call
  call-Unchanged = record { at = λ w. refl }

pub ruleset unchanged_rules = (always_rules, Unchanged-preorder, call-Unchanged)
