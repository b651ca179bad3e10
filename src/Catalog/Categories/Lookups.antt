-- ===== src/Catalog/Categories/Lookups.antt =====
-- Finding a category after the documents of the collection are added to, changed and dropped.
use erp_stock.Base.{
  String, ◌==◌, eq_iff, ◌≡◌, ◌≢◌, refl, false, Option, none, some, List, [], ◌∷◌, ◌++◌,
  if◌then◌else◌, Option-cases, inl, inr, arith,
}
use erp_stock.Domain.Errors.{ok}
use erp_stock.Domain.Types.{Category}
use erp_stock.Domain.Category.{find_category}
use erp_stock.Catalog.Categories.{
  category_by_id, category_exists, set_category, drop_category, is_parent,
}

-- No id stands twice.
abbrev pub Keyed : List Category → Type 0
Keyed [] = Unit
Keyed (c ∷ cs) = (find_category c.id cs ≡ none) × Keyed cs

abbrev pub placed : Category → Category → Category
placed n c = record c { parent_id = n.parent_id; name = n.name }

abbrev pub placed_found : Category → Option Category → Option Category
placed_found n none = none
placed_found n (some c) = some (placed n c)

pub find_category-id :
    (q : String) (items : List Category) (c : Category) → find_category q items ≡ some c → c.id ≡ q
unfolding find_category
find_category-id q [] c e = cc
find_category-id q (d ∷ ds) c e = elim (Option-cases (find_category q ds)) [
  | inl absent ↦ ground (arith, eq_iff d.id q)
  | inr (b, found) ↦ ground (arith, find_category-id q ds b found)
]

pub find_category-append :
    (q : String) (items : List Category) (c : Category)
    → find_category q (items ++ c ∷ []) ≡ (if c.id == q then some c else find_category q items)
unfolding find_category
find_category-append q [] c = refl
find_category-append q (d ∷ ds) c = ground (arith, find_category-append q ds c)

pub find_category-set :
    (q : String) (n : Category) (items : List Category)
    → Keyed items
    → find_category q (set_category n items)
      ≡ (if n.id == q then placed_found n (find_category q items) else find_category q items)
unfolding find_category set_category
find_category-set q n [] k = ground arith
find_category-set q n (c ∷ cs) (new, k) = elim (Option-cases (find_category q cs)) [
  | inl absent ↦
      ground (arith, eq_iff c.id n.id, eq_iff n.id q, eq_iff c.id q, find_category-set q n cs k)
  | inr (b, found) ↦
      ground (arith, eq_iff c.id n.id, eq_iff n.id q, eq_iff c.id q, find_category-set q n cs k)
]

pub find_category-drop :
    (q id : String) (items : List Category)
    → Keyed items
    → find_category q (drop_category id items) ≡ (if id == q then none else find_category q items)
unfolding find_category drop_category
find_category-drop q id [] k = ground arith
find_category-drop q id (c ∷ cs) (new, k) =
    ground (arith, eq_iff c.id id, eq_iff id q, eq_iff c.id q, find_category-drop q id cs k)

pub Keyed-append :
    (items : List Category) (c : Category)
    → Keyed items
    → find_category c.id items ≡ none
    → Keyed (items ++ c ∷ [])
unfolding find_category
Keyed-append [] c k e = (refl, tt)
Keyed-append (d ∷ ds) c (new, k) e = elim (Option-cases (find_category c.id ds)) [
  | inl absent ↦ (
    ground (arith, find_category-append d.id ds c, eq_iff d.id c.id, eq_iff c.id d.id),
    Keyed-append ds c k absent,
  )
  | inr (b, found) ↦ ground arith
]

pub Keyed-set : (n : Category) (items : List Category) → Keyed items → Keyed (set_category n items)
unfolding set_category
Keyed-set n [] k = tt
Keyed-set n (c ∷ cs) (new, k) = ground (arith, find_category-set c.id n cs k, Keyed-set n cs k)

pub Keyed-drop :
    (id : String) (items : List Category) → Keyed items → Keyed (drop_category id items)
unfolding drop_category
Keyed-drop id [] k = tt
Keyed-drop id (c ∷ cs) (new, k) =
    ground (arith, find_category-drop c.id id cs k, Keyed-drop id cs k)

pub category_exists-false :
    (id : String) (items : List Category)
    → category_exists id items ≡ false
    → find_category id items ≡ none
unfolding category_exists find_category
category_exists-false id [] e = refl
category_exists-false id (c ∷ cs) e = ground (arith, category_exists-false id cs)

pub category_by_id-ok :
    (id : String) (items : List Category) (d : Category)
    → category_by_id id items ≡ ok d
    → find_category id items ≢ none
unfolding category_by_id find_category
category_by_id-ok id [] d e = cc
category_by_id-ok id (c ∷ cs) d e = elim (Option-cases (find_category id cs)) [
  | inl absent ↦ ground (arith, category_by_id-ok id cs d)
  | inr (b, found) ↦ ground arith
]

pub is_parent-false :
    (id q : String) (items : List Category) (c : Category)
    → is_parent id items ≡ false
    → find_category q items ≡ some c
    → c.parent_id ≢ id
unfolding is_parent find_category
is_parent-false id q [] c e f = cc
is_parent-false id q (d ∷ ds) c e f = elim (Option-cases (find_category q ds)) [
  | inl absent ↦ ground (arith, eq_iff d.parent_id id)
  | inr (b, found) ↦ ground (arith, is_parent-false id q ds b)
]
