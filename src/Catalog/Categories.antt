-- ===== src/Catalog/Categories.antt =====
-- The methods of CategoryRepo (internal/adapters/mongo/category_repo.go): the collection is a list
-- of documents, and their `_id` is unique. A document by its id is the first that has it.
pub mod Lookups
pub mod Ways
pub mod Wooded
pub mod Branches
pub mod Attached
pub mod Nodes
use erp_stock.Base.{String, ◌==◌, Bool, false, not, ◌||◌, List, [], ◌∷◌, ◌++◌, if◌then◌else◌}
use erp_stock.Domain.Errors.{Result, ok, err, not_found, failure}
use erp_stock.Domain.Types.{Category}
use erp_stock.World.{Action, pure, lift, ◌>>=◌, ◌>>◌, fail_if, call, gets, modify}

unfoldable pub category_by_id : String → List Category → Result Category
category_by_id id [] = err not_found
category_by_id id (c ∷ cs) = if c.id == id then ok c else category_by_id id cs

unfoldable pub category_exists : String → List Category → Bool
category_exists id [] = false
category_exists id (c ∷ cs) = c.id == id || category_exists id cs

-- `$set` of the parent and the name in the document with the category's id.
unfoldable pub set_category : Category → List Category → List Category
set_category n [] = []
set_category n (c ∷ cs) =
    if c.id == n.id
    then record c { parent_id = n.parent_id; name = n.name } ∷ cs
    else c ∷ set_category n cs

unfoldable pub drop_category : String → List Category → List Category
drop_category id [] = []
drop_category id (c ∷ cs) = if c.id == id then cs else c ∷ drop_category id cs

unfoldable pub is_parent : String → List Category → Bool
is_parent id [] = false
is_parent id (c ∷ cs) = c.parent_id == id || is_parent id cs

module _ {F : Type 0} where
  -- Stored categories have no children, so that `c.Children = nil` is nothing here.
  unfoldable pub create : Category → Action F Category
  create c = do
    call
    cs ← gets (λ w. w.categories)
    fail_if (category_exists c.id cs) failure
    modify (λ w. record w { categories = w.categories ++ c ∷ [] })
    pure c

  unfoldable pub update : Category → Action F (Unit {0})
  update c = do
    call
    cs ← gets (λ w. w.categories)
    fail_if (not (category_exists c.id cs)) not_found
    modify (λ w. record w { categories = set_category c w.categories })

  unfoldable pub get : String → Action F Category
  get id = do call; cs ← gets (λ w. w.categories); lift (category_by_id id cs)

  unfoldable pub list : Action F (List Category)
  list = do call; gets (λ w. w.categories)

  unfoldable pub delete : String → Action F (Unit {0})
  delete id = do
    call
    cs ← gets (λ w. w.categories)
    fail_if (not (category_exists id cs)) not_found
    modify (λ w. record w { categories = drop_category id w.categories })

  unfoldable pub has_children : String → Action F Bool
  has_children id = do call; gets (λ w. is_parent id w.categories)
