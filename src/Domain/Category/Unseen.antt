-- ===== src/Domain/Category/Unseen.antt =====
-- The categories whose id is not in a list of ids: the measure by which the loops over
-- internal/domain/category.go end.
use erp_stock.Base.{
  ℕ, ◌+◌, ◌≤◌, ◌<◌, String, eq_iff, ◌≡◌, refl, false, some, List, [], ◌∷◌, if◌then◌else◌, length,
  contains, Option-cases, inl, inr, arith,
}
use erp_stock.Domain.Types.{Category}
use erp_stock.Domain.Category.{find_category}

abbrev pub unseen : List String → List Category → ℕ
unseen seen [] = 0
unseen seen (c ∷ cs) = (if contains seen c.id then 0 else 1) + unseen seen cs

pub unseen-nil : (items : List Category) → unseen [] items ≡ length items
unseen-nil [] = refl
unseen-nil (c ∷ cs) = omega (arith, unseen-nil cs)

unseen-cons :
    (p : String) (seen : List String) (items : List Category)
    → unseen (p ∷ seen) items ≤ unseen seen items
unseen-cons p seen [] = omega arith
unseen-cons p seen (c ∷ cs) = ground (arith, unseen-cons p seen cs)

-- A category that is in the list and was not seen counts one less once it is.
pub unseen-found :
    (p : String) (seen : List String) (items : List Category) (c : Category)
    → find_category p items ≡ some c
    → contains seen p ≡ false
    → unseen (p ∷ seen) items < unseen seen items
unfolding find_category
unseen-found p seen [] c e new = cc
unseen-found p seen (d ∷ ds) c e new = elim (Option-cases (find_category p ds)) [
  | inl absent ↦ ground (arith, eq_iff d.id p, eq_iff p d.id, unseen-cons p seen ds)
  | inr (b, found) ↦ ground (arith, unseen-found p seen ds b found new)
]
