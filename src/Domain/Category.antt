-- ===== src/Domain/Category.antt =====
-- internal/domain/category.go: `CategoryParentWouldCycle` and `BuildCategoryTree`. The maps from ids
-- are lookups in the list of categories; of equal ids the last one counts, as in the maps.
pub mod Unseen
pub mod Cycle
use erp_stock.Base.{
  ℕ, zero, suc, String, ◌==◌, Bool, true, false, not, ◌&&◌, ◌||◌, Option, none, some, List, [], ◌∷◌,
  if◌then◌else◌, length, contains,
}
use erp_stock.Domain.Types.{Category}

abbrev pub or_else {ℓ} : {A : Type ℓ} → Option A → Option A → Option A
or_else (some a) o = some a
or_else none o = o

-- `byID[id]`
unfoldable pub find_category : String → List Category → Option Category
find_category id [] = none
find_category id (c ∷ cs) = or_else (find_category id cs) (if c.id == id then some c else none)

-- The end of a round: the way goes on at the parent, or leaves the map.
abbrev pub climb_from : (String → Option Bool) → Option Category → Option Bool
climb_from go none = some false
climb_from go (some c) = go c.parent_id

-- The loop of `CategoryParentWouldCycle` at `p`, with the ids seen. `none` is a loop of the model
-- that ran out of fuel.
unfoldable pub climb : List Category → String → ℕ → List String → String → Option Bool
climb items id zero seen p = none
climb items id (suc fuel) seen p =
    let up = climb_from (climb items id fuel (p ∷ seen)) (find_category p items) in
    if p == ""
    then some false
    else if p == id
    then some true
    else if contains seen p
    then some true
    else up

abbrev pub unless_stuck : Option Bool → Bool
unless_stuck none = true
unless_stuck (some b) = b

-- The loop never runs out of this fuel, so that the value at `none` is never seen.
unfoldable pub category_parent_would_cycle : List Category → String → String → Bool
category_parent_would_cycle items id parent =
    if parent == ""
    then false
    else if parent == id
    then true
    else unless_stuck (climb items id (suc (length items)) [] parent)

-- `Category` with its children, as it is returned.
mutual
  pub data Tree : Type 0 where
    node : Category → Forest → Tree

  pub data Forest : Type 0 where
    bare : Forest
    grow : Tree → Forest → Forest

-- `p == "" || byID[p] == nil`
unfoldable pub is_root : List Category → Category → Bool
is_root items c = c.parent_id == "" || is_none (find_category c.parent_id items)
  where
    is_none : Option Category → Bool
    is_none none = true
    is_none (some _) = false

-- `roots`
unfoldable pub root_ids : List Category → List Category → List String
root_ids items [] = []
root_ids items (c ∷ cs) = if is_root items c then c.id ∷ root_ids items cs else root_ids items cs

-- `childIDs[id]`
unfoldable pub child_ids : List Category → String → List Category → List String
child_ids items id [] = []
child_ids items id (c ∷ cs) =
    if not (is_root items c) && c.parent_id == id
    then c.id ∷ child_ids items id cs
    else child_ids items id cs

abbrev pub grown : Option Tree → Option Forest → Option Forest
grown (some t) (some f) = some (grow t f)
grown _ _ = none

-- `for _, cid := range … { … attach(cid) … }`
unfoldable pub attach_each : (String → Option Tree) → List String → Option Forest
attach_each attach [] = some bare
attach_each attach (id ∷ ids) = grown (attach id) (attach_each attach ids)

abbrev pub with_children : Option Category → Option Forest → Option Tree
with_children (some c) (some f) = some (node c f)
with_children _ _ = none

-- `attach`; `none` is a nil pointer, or a recursion of the model that ran out of fuel.
unfoldable pub attach : List Category → ℕ → String → Option Tree
attach items zero id = none
attach items (suc fuel) id =
    with_children (find_category id items)
      (attach_each (attach items fuel) (child_ids items id items))

-- Each node of a branch is another category, so that a branch is no longer than `items`.
unfoldable pub build_category_tree : List Category → Option Forest
build_category_tree items = attach_each (attach items (length items)) (root_ids items items)
