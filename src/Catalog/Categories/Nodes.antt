-- ===== src/Catalog/Categories/Nodes.antt =====
-- What the forest of `BuildCategoryTree` holds: every category, each with its children.
use erp_stock.Base.{
  ℕ, String, eq_iff, ◌≡◌, sym, ap, ◌∙◌, subst, ◌≢◌, ◌↔◌, refl, true, false, none, some, List, [],
  ◌∷◌, Bool-cases, Option-cases, inl, inr, arith, contains, length,
}
use erp_stock.Domain.Types.{Category}
use erp_stock.Domain.Category.{
  Forest, find_category, is_root, root_ids, child_ids, attach_each, attach, build_category_tree,
}
use erp_stock.Domain.Category.Cycle.{Rises, at_top, astray, rise}
use erp_stock.Catalog.Categories.Lookups.{find_category-id}
use erp_stock.Domain.Category.Cycle.{All-contains}
use erp_stock.Catalog.Categories.Branches.{
  IsTop, IsChild, root_ids-IsTop, child_ids-IsChild, Keyed-listed,
}
use erp_stock.Catalog.Categories.Wooded.{IsForest}
use erp_stock.Catalog.Categories.Attached.{
  Grows, Grows-trans, tops, tops-attach_each, Grows-below, attach_each-Grows,
}

module _ (items : List Category) where
  root_ids-listed :
      (x : String) (cs : List Category) (c : Category)
      → find_category x cs ≡ some c
      → is_root items c ≡ true
      → contains (root_ids items cs) x ≡ true
  unfolding root_ids find_category
  root_ids-listed x [] c e top = cc
  root_ids-listed x (d ∷ ds) c e top = elim (Option-cases (find_category x ds)) [
    | inl absent ↦ ground (arith, eq_iff d.id x)
    | inr (b, found) ↦ ground (arith, root_ids-listed x ds b found)
  ]

  child_ids-listed :
      (x : String) (cs : List Category) (c : Category)
      → find_category x cs ≡ some c
      → is_root items c ≡ false
      → contains (child_ids items c.parent_id cs) x ≡ true
  unfolding child_ids find_category
  child_ids-listed x [] c e low = cc
  child_ids-listed x (d ∷ ds) c e low = elim (Option-cases (find_category x ds)) [
    | inl absent ↦
        ground
          (arith, eq_iff d.id x, eq_iff d.parent_id c.parent_id, eq_iff c.parent_id c.parent_id)
    | inr (b, found) ↦ ground (arith, child_ids-listed x ds b found)
  ]

  is_root-false :
      (c : Category)
      → is_root items c ≡ false
      → (c.parent_id ≢ "") × (find_category c.parent_id items ≢ none)
  unfolding is_root
  is_root-false c h = (ground (arith, eq_iff c.parent_id ""), ground arith)

  module _ (k : ℕ) (f : Forest)
      (e : attach_each (attach items k) (root_ids items items) ≡ some f) where
    -- A category under one that has a node has a node.
    Grows-under :
        (c d : Category)
        → find_category c.id items ≡ some c
        → is_root items c ≡ false
        → d.id ≡ c.parent_id
        → ((h : Forest) × Grows d h f)
        → (g : Forest) × Grows c g f
    Grows-under c d found low same (h, there) =
        let (_, (j, more)) = Grows-below items d h k (root_ids items items) f e there in
        let (g, m) =
          attach_each-Grows items j (child_ids items d.id items) h c.id c more
            (subst (λ p. contains (child_ids items p items) c.id ≡ true) (sym same)
              (child_ids-listed c.id items c found low))
            found in
        (g, Grows-trans c d g h f there m)

    Grows-root :
        (c : Category)
        → find_category c.id items ≡ some c
        → is_root items c ≡ true
        → (g : Forest) × Grows c g f
    Grows-root c found top =
        attach_each-Grows items k (root_ids items items) f c.id c e
          (root_ids-listed c.id items c found top) found

    Grows-top :
        (c : Category)
        → find_category c.id items ≡ some c
        → ¬ ((c.parent_id ≢ "") × (find_category c.parent_id items ≢ none))
        → (g : Forest) × Grows c g f
    Grows-top c found no_parent = elim (Bool-cases (is_root items c)) [
      | inl top ↦ Grows-root c found top
      | inr low ↦ absurd (no_parent (is_root-false c low))
    ]

    -- A category whose way up ends has a node.
    grows :
        (p : String) (n : ℕ) (way : Rises items p n) (c : Category)
        → find_category c.id items ≡ some c
        → c.parent_id ≡ p
        → (g : Forest) × Grows c g f
    grows p n at_top c found at = Grows-top c found (λ (b, there). b at)
    grows p n (astray b e') c found at =
        Grows-top c found (λ (_, there). there (ap (λ z. find_category z items) at ∙ e'))
    grows p n (rise {n = m} d b e' way) c found at = elim (Bool-cases (is_root items c)) [
      | inl top ↦ Grows-root c found top
      | inr low ↦
          let id = find_category-id p items d e' in
          let self = ap (λ z. find_category z items) id ∙ e' in
          Grows-under c d found low (id ∙ sym at) (grows d.parent_id m way d self refl)
    ]

module _ (items : List Category) (h : IsForest items) where
  is_root-blank :
      (x : String) (c : Category)
      → find_category x items ≡ some c
      → is_root items c ≡ true
      → c.parent_id ≡ ""
  unfolding is_root
  is_root-blank x c e top = elim (h.parents x c e) [
    | inl blank ↦ blank
    | inr there ↦ ground (arith, eq_iff c.parent_id "")
  ]

  roots_iff :
      (x : String)
      → (contains (root_ids items items) x ≡ true)
        ↔ ((c : Category) × (find_category x items ≡ some c) × (c.parent_id ≡ ""))
  unfolding is_root
  roots_iff x = (
    λ m.
        let (c, e, top) =
          All-contains (IsTop items) (root_ids items items) x
            (root_ids-IsTop items items (Keyed-listed items h.keyed)) m in
        (c, e, is_root-blank x c e top),
    λ (c, e, blank). root_ids-listed items x items c e (ground (arith, eq_iff c.parent_id "")),
  )

  is_root-named :
      (x : String) (d : Category)
      → find_category x items ≡ some d
      → d.parent_id ≢ ""
      → is_root items d ≡ false
  unfolding is_root
  is_root-named x d e named = elim (h.parents x d e) [
    | inl blank ↦ absurd (named blank)
    | inr there ↦ elim (Option-cases (find_category d.parent_id items)) [
      | inl absent ↦ absurd (there absent)
      | inr (p, found) ↦ ground (arith, eq_iff d.parent_id "")
    ]
  ]

  children_iff :
      (id x : String)
      → (contains (child_ids items id items) x ≡ true) ↔ (
          (d : Category) × (find_category x items ≡ some d)
          × (d.parent_id ≡ id)
          × (d.parent_id ≢ ""))
  unfolding is_root
  children_iff id x = (
    λ m.
        let (d, e, low, same) =
          All-contains (IsChild items id) (child_ids items id items) x
            (child_ids-IsChild items id items (Keyed-listed items h.keyed)) m in
        (d, e, same, (is_root-false items d low).0),
    λ (d, e, same, named).
        subst (λ p. contains (child_ids items p items) x ≡ true) same
          (child_ids-listed items x items d e (is_root-named x d e named)),
  )

-- The forest of the categories: on top those with no parent, under each category those whose parent
-- it is, and every category.
pub record IsDrawn (items : List Category) (f : Forest) : Type 0 where
  pub roots :
      (x : String)
      → (contains (tops f) x ≡ true)
        ↔ ((c : Category) × (find_category x items ≡ some c) × (c.parent_id ≡ ""))
  pub whole : (c : Category) → find_category c.id items ≡ some c → (g : Forest) × Grows c g f
  pub nodes :
      (c : Category) (g : Forest)
      → Grows c g f
      → (find_category c.id items ≡ some c)
        × ((x : String)
            → (contains (tops g) x ≡ true) ↔ (
                (d : Category) × (find_category x items ≡ some d)
                × (d.parent_id ≡ c.id)
                × (d.parent_id ≢ "")))

pub build_category_tree-IsDrawn :
    (items : List Category) (f : Forest)
    → IsForest items
    → build_category_tree items ≡ some f
    → IsDrawn items f
unfolding build_category_tree
build_category_tree-IsDrawn items f h e =
    let k = length items in
    record {
      roots = λ x.
          subst
            (λ l.
              (contains l x ≡ true)
              ↔ ((c : Category) × (find_category x items ≡ some c) × (c.parent_id ≡ "")))
            (sym (tops-attach_each items k (root_ids items items) f e)) (roots_iff items h x);
      whole = λ c found.
          let (n, way) = h.ends c.parent_id in grows items k f e c.parent_id n way c found refl;
      nodes = λ c g m.
          let (found, (j, more)) = Grows-below items c g k (root_ids items items) f e m in
          (
            found,
            λ x.
                subst
                  (λ l. (contains l x ≡ true) ↔ (
                    (d : Category) × (find_category x items ≡ some d)
                    × (d.parent_id ≡ c.id)
                    × (d.parent_id ≢ "")))
                  (sym (tops-attach_each items j (child_ids items c.id items) g more))
                  (children_iff items h c.id x),
          );
    }
