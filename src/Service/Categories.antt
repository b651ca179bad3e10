-- ===== src/Service/Categories.antt =====
-- `CreateCategory`, `UpdateCategory`, `ListCategories`, `DeleteCategory` and `ensureCategoryParent`.
pub mod Reads
pub mod Kept
use erp_stock.Base.{ℕ, String, ◌==◌, Bool, Option, none, some, if◌then◌else◌, ltb}
use erp_stock.Text.{trim_space}
use erp_stock.Domain.Errors.{Result, ok, err, invalid, in_use, failure}
use erp_stock.Domain.Types.{Category}
use erp_stock.Domain.Category.{Forest, category_parent_would_cycle, build_category_tree}
use erp_stock.World.{Action, pure, lift, ◌>>=◌, ◌>>◌, fail_if, new_uuid}
use erp_stock.Catalog.Categories
use erp_stock.Catalog.Products.{count_by_category}

-- A forest that the model of `BuildCategoryTree` did not finish would be an error.
abbrev pub grown_whole : Option Forest → Result Forest
grown_whole none = err failure
grown_whole (some f) = ok f

module _ {F : Type 0} where
  -- `if id == "" { id = uuid.NewString() }`
  unfoldable pub id_or_new : String → Action F String
  id_or_new id = if id == "" then new_uuid else pure id

  unfoldable pub ensure_category_parent : String → Action F (Unit {0})
  ensure_category_parent parent =
      if parent == "" then pure tt else (Categories.get parent >> pure tt)

  unfoldable pub create_category : Category → Action F Category
  create_category c = do
    let name = trim_space c.name
    fail_if (name == "") invalid
    id ← id_or_new c.id
    ensure_category_parent c.parent_id
    Categories.create (record c { id = id; name = name })

  unfoldable pub update_category : Category → Action F (Unit {0})
  update_category c = do
    let name = trim_space c.name
    fail_if (name == "") invalid
    items ← Categories.list
    fail_if (category_parent_would_cycle items c.id c.parent_id) invalid
    ensure_category_parent c.parent_id
    Categories.update (record c { name = name })

  unfoldable pub list_categories : Action F Forest
  list_categories = do items ← Categories.list; lift (grown_whole (build_category_tree items))

  unfoldable pub delete_category : String → Action F (Unit {0})
  delete_category id = do
    has ← Categories.has_children id
    fail_if has in_use
    n ← count_by_category id
    fail_if (ltb 0 n) in_use
    Categories.delete id
