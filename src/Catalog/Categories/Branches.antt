-- ===== src/Catalog/Categories/Branches.antt =====
-- What `BuildCategoryTree` returns of categories with distinct ids: it ends, and each node holds the
-- categories whose parent it is.
use erp_stock.Base.{
  ℕ, zero, suc, ◌≤◌, String, ◌==◌, eq_iff, ◌≡◌, sym, subst, ◌≢◌, refl, true, false, Option, none,
  some, List, [], ◌∷◌, Bool-cases, Option-cases, inl, inr, arith, All, All-weaken, contains, length,
}
use erp_stock.Domain.Types.{Category}
use erp_stock.Domain.Category.{
  Tree, Forest, find_category, is_root, root_ids, child_ids, attach_each, with_children, attach,
  build_category_tree,
}
use erp_stock.Domain.Category.Unseen.{unseen, unseen-nil, unseen-found}
use erp_stock.Catalog.Categories.Lookups.{Keyed}

-- The way from `id` up to a root.
data Chain (items : List Category) : String → List String → Type 0 where
  at_root :
      {id : String} (c : Category)
      → find_category id items ≡ some c
      → is_root items c ≡ true
      → Chain items id []
  below :
      {id : String} {path : List String} (c : Category)
      → find_category id items ≡ some c
      → Chain items c.parent_id path
      → Chain items id (c.parent_id ∷ path)

module _ (items : List Category) where
  -- The parent of a category on the way, if it is no root, stands further on.
  Chain-parent :
      (y x : String) (path : List String) (d : Category)
      → Chain items y path
      → find_category x items ≡ some d
      → is_root items d ≡ false
      → contains (y ∷ path) x ≡ true
      → contains path d.parent_id ≡ true
  Chain-parent y x path d (at_root c e r) f n h = ground (arith, eq_iff y x)
  Chain-parent y x path d (below {path = rest} c e up) f n h = elim (Bool-cases (y == x)) [
    | inl same ↦ ground (arith, eq_iff y x, eq_iff c.parent_id d.parent_id)
    | inr other ↦ ground (arith, Chain-parent c.parent_id x rest d up f n (rw other at h))
  ]

  abbrev pub IsChild : String → String → Type 0
  IsChild id x =
      (d : Category) × (find_category x items ≡ some d)
      × (is_root items d ≡ false)
      × (d.parent_id ≡ id)

  abbrev pub IsTop : String → Type 0
  IsTop x = (d : Category) × (find_category x items ≡ some d) × (is_root items d ≡ true)

  abbrev pub IsListed : Category → Type 0
  IsListed c = find_category c.id items ≡ some c

  pub child_ids-IsChild :
      (id : String) (cs : List Category)
      → All IsListed cs
      → All (IsChild id) (child_ids items id cs)
  unfolding child_ids
  child_ids-IsChild id [] h = tt
  child_ids-IsChild id (c ∷ cs) (e, h) = elim (Bool-cases (is_root items c)) [
    | inl top ↦ rw top (child_ids-IsChild id cs h)
    | inr low ↦ elim (Bool-cases (c.parent_id == id)) [
      | inl same ↦
          rw (low, same) ((c, e, low, (eq_iff c.parent_id id).0 same), child_ids-IsChild id cs h)
      | inr other ↦ rw (low, other) (child_ids-IsChild id cs h)
    ]
  ]

  pub root_ids-IsTop : (cs : List Category) → All IsListed cs → All IsTop (root_ids items cs)
  unfolding root_ids
  root_ids-IsTop [] h = tt
  root_ids-IsTop (c ∷ cs) (e, h) = elim (Bool-cases (is_root items c)) [
    | inl top ↦ rw top ((c, e, top), root_ids-IsTop cs h)
    | inr low ↦ rw low (root_ids-IsTop cs h)
  ]

  attach_each-returns :
      (f : String → Option Tree) (ids : List String)
      → All (λ x. f x ≢ none) ids
      → attach_each f ids ≢ none
  unfolding attach_each
  attach_each-returns f [] h = ground arith
  attach_each-returns f (x ∷ ids) (h, hs) =
      let rest = attach_each-returns f ids hs in
      elim (Option-cases (f x)) [
        | inl absent ↦ absurd (h absent)
        | inr (t, e) ↦ elim (Option-cases (attach_each f ids)) [
          | inl absent ↦ absurd (rest absent)
          | inr (g, e') ↦ ground arith
        ]
      ]

  -- A child of the last category on a way without repetitions is new to the way.
  Chain-new :
      (id x : String) (path : List String)
      → Chain items id path
      → contains path id ≡ false
      → IsChild id x
      → contains (id ∷ path) x ≡ false
  Chain-new id x path way new (d, f, low, same) = elim (Bool-cases (contains (id ∷ path) x)) [
    | inl old ↦
        let met = Chain-parent id x path d way f low old in
        let again : contains path id ≡ true = subst (λ p. contains path p ≡ true) same met in cc
    | inr fresh ↦ fresh
  ]

  Chain-child :
      (id x : String) (path : List String)
      → Chain items id path
      → IsChild id x
      → Chain items x (id ∷ path)
  Chain-child id x path way (d, f, low, same) =
      subst (λ p. Chain items x (p ∷ path)) same
        (below d f (subst (λ p. Chain items p path) (sym same) way))

  with_children-returns :
      (o : Option Category) (c : Category) (g : Option Forest)
      → o ≡ some c
      → g ≢ none
      → with_children o g ≢ none
  with_children-returns o c none e h = absurd (h refl)
  with_children-returns o c (some g) e h = rw e (λ s. cc)

  attach-returns :
      (listed : All IsListed items) (fuel : ℕ) (path : List String) (id : String) (c : Category)
      → find_category id items ≡ some c
      → Chain items id path
      → contains path id ≡ false
      → unseen path items ≤ fuel
      → attach items fuel id ≢ none
  unfolding attach
  attach-returns listed zero path id c e way new h =
      absurd (omega (arith, unseen-found id path items c e new))
  attach-returns listed (suc fuel) path id c e way new h =
      let less = unseen-found id path items c e new in
      with_children-returns (find_category id items) c _ e (
        attach_each-returns (attach items fuel) (child_ids items id items) (
          All-weaken (IsChild id) (λ x. attach items fuel x ≢ none) (child_ids items id items)
            (λ x child.
              attach-returns listed fuel (id ∷ path) x child.0 child.1
                (Chain-child id x path way child) (Chain-new id x path way new child) (omega arith))
            (child_ids-IsChild id items listed)))

-- Every document of distinct ids is the one found by its id.
pub Keyed-listed :
    (items : List Category) → Keyed items → All (λ c. find_category c.id items ≡ some c) items
unfolding find_category
Keyed-listed [] k = tt
Keyed-listed (c ∷ cs) (new, k) = (
  ground (arith, eq_iff c.id c.id),
  All-weaken (λ d. find_category d.id cs ≡ some d) (λ d. find_category d.id (c ∷ cs) ≡ some d) cs
      (λ d e. ground arith) (Keyed-listed cs k),
)

-- On categories with distinct ids the recursion ends.
pub build_category_tree_ends :
    (items : List Category) → Keyed items → (f : Forest) × (build_category_tree items ≡ some f)
unfolding build_category_tree
build_category_tree_ends items k =
    let listed = Keyed-listed items k in
    let whole = attach_each-returns items (attach items (length items)) (root_ids items items) (
      All-weaken (IsTop items) (λ x. attach items (length items) x ≢ none) (root_ids items items)
        (λ x (c, e, top).
          attach-returns items listed (length items) [] x c e (at_root c e top) refl
            (omega (arith, unseen-nil items)))
        (root_ids-IsTop items items listed)) in
    elim (Option-cases (build_category_tree items)) [
      | inl stuck ↦ absurd (whole stuck)
      | inr found ↦ found
    ]
