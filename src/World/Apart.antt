-- ===== src/World/Apart.antt =====
-- The parts of a world that price histories and assemblies are apart from.
use erp_stock.Base.{String, ◌≡◌, List}
use erp_stock.Domain.Types.{Product, Category, Balance, OrderEvent}
use erp_stock.Store.Tables.{Tables}
use erp_stock.World.{World}

abbrev pub core :
    {F : Type 0}
    → World F
    → Tables
      × List Category
      × List (Product F)
      × List String
      × List (Balance F)
      × List (OrderEvent F)
core w = (w.stock, w.categories, w.products, w.locks, w.cache, w.published)

abbrev pub Apart : {F : Type 0} → World F → World F → Type 0
Apart w v = core v ≡ core w
