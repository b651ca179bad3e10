-- ===== src/Catalog/Categories/Wooded.antt =====
-- The categories form a forest, and adding one, moving one by the checks of UpdateCategory and
-- dropping one with no children leave a forest.
use erp_stock.Base.{
  String, ◌==◌, eq_iff, ◌≡◌, sym, ap, subst, ◌≢◌, refl, false, Option, none, some, List, [], ◌∷◌,
  ◌++◌, if◌then◌else◌, Bool-cases, Option-cases, inl, inr, arith,
}
use mathlib.Core.Option.{some-injective}
use erp_stock.Domain.Types.{Category}
use erp_stock.Domain.Category.{find_category, category_parent_would_cycle}
use erp_stock.Domain.Category.Cycle.{Ends, Leads, would_cycle_iff}
use erp_stock.Catalog.Categories.{set_category, drop_category, is_parent}
use erp_stock.Catalog.Categories.Lookups.{
  Keyed, placed_found, find_category-append, find_category-set, find_category-drop, Keyed-append,
  Keyed-set, Keyed-drop, is_parent-false,
}
use erp_stock.Catalog.Categories.Ways.{
  Known, kept_way, Rises-apart, Rises-joins, Leads-blank, Ends-of_category,
}

-- Ids are distinct, every parent that is named is there, and every way up ends.
pub record IsForest (items : List Category) : Type 0 where
  pub keyed : Keyed items
  pub parents :
      (q : String) (c : Category) → find_category q items ≡ some c → Known items c.parent_id
  pub ends : (q : String) → Ends items q

-- Where the lists differ at `id` only, and the way from there ends, every way ends.
Ends-joins :
    (items items' : List Category) (id : String)
    → IsForest items
    → ((q : String) → q ≢ id → find_category q items' ≡ find_category q items)
    → Ends items' id
    → (q : String) → Ends items' q
Ends-joins items items' id h same whole q =
    let (n, r) = h.ends q in Rises-joins items items' id q n same whole r

-- Parents stay known where what was found is still found.
Known-grows :
    (items items' : List Category) (p : String)
    → ((q : String) → find_category q items ≢ none → find_category q items' ≢ none)
    → Known items p
    → Known items' p
Known-grows items items' p grows (inl top) = inl top
Known-grows items items' p grows (inr there) = inr (grows p there)

pub IsForest-nil : IsForest []
unfolding find_category
IsForest-nil = record {
  keyed = tt;
  parents = λ q c e. cc;
  ends = λ q. Ends-of_category [] q none refl (λ c e. cc);
}

pub IsForest-append :
    (items : List Category) (c : Category)
    → IsForest items
    → find_category c.id items ≡ none
    → Known items c.parent_id
    → IsForest (items ++ c ∷ [])
IsForest-append items c h new known = record {
  keyed = Keyed-append items c h.keyed new;
  parents = λ q d e.
      Known-grows items (items ++ c ∷ []) d.parent_id grows (elim (Bool-cases (c.id == q)) [
        | inl same ↦ ground (arith, find_category-append q items c)
        | inr other ↦ h.parents q d (ground (arith, find_category-append q items c))
      ]);
  ends =
      Ends-joins items (items ++ c ∷ []) c.id h
        (λ q other. ground (arith, find_category-append q items c, eq_iff c.id q))
        (Ends-of_category (items ++ c ∷ []) c.id (some c)
          (ground (arith, find_category-append c.id items c, eq_iff c.id c.id))
          (λ d e.
            let (n, r) = h.ends d.parent_id in
            let same : c ≡ d = some-injective _ _ e in
            (
              n,
              kept_way items (items ++ c ∷ []) d.parent_id n h.parents alike
                  (subst (λ (x : Category). Known items x.parent_id) same known) r,
            )));
}
  where
    grows : (q : String) → find_category q items ≢ none → find_category q (items ++ c ∷ []) ≢ none
    grows q there = ground (arith, find_category-append q items c)

    alike :
        (q : String)
        → find_category q items ≢ none
        → find_category q (items ++ c ∷ []) ≡ find_category q items
    alike q there = ground (arith, find_category-append q items c, eq_iff c.id q)

placed-parent :
    (n : Category) (o : Option Category) (d : Category)
    → placed_found n o ≡ some d
    → d.parent_id ≡ n.parent_id
placed-parent n none d e = cc
placed-parent n (some c) d e = ap (λ (x : Category). x.parent_id) (sym (some-injective _ _ e))

pub IsForest-set :
    (items : List Category) (n : Category)
    → IsForest items
    → category_parent_would_cycle items n.id n.parent_id ≡ false
    → Known items n.parent_id
    → IsForest (set_category n items)
IsForest-set items n h free known = record {
  keyed = Keyed-set n items h.keyed;
  parents = λ q d e.
      Known-grows items (set_category n items) d.parent_id grows (elim (Bool-cases (n.id == q)) [
        | inl same ↦
            let at = placed-parent n (find_category q items) d (ground (arith, found q)) in
            rw at known
        | inr other ↦ h.parents q d (ground (arith, found q))
      ]);
  ends = Ends-joins items (set_category n items) n.id h apart (
      Ends-of_category (set_category n items) n.id (placed_found n (find_category n.id items))
        (ground (arith, found n.id, eq_iff n.id n.id))
        (λ d e.
          let (m, r) = h.ends n.parent_id in
          let at = placed-parent n (find_category n.id items) d e in
          (m, rw at (Rises-apart items (set_category n items) n.id n.parent_id m apart no_way r))));
}
  where
    found :
        (q : String)
        → find_category q (set_category n items)
          ≡ (if n.id == q then placed_found n (find_category q items) else find_category q items)
    found q = find_category-set q n items h.keyed

    grows :
        (q : String) → find_category q items ≢ none → find_category q (set_category n items) ≢ none
    grows q there = elim (Option-cases (find_category q items)) [
      | inl absent ↦ absurd (there absent)
      | inr (b, e) ↦ ground (arith, found q)
    ]

    apart : (q : String) → q ≢ n.id → find_category q (set_category n items) ≡ find_category q items
    apart q other = ground (arith, found q, eq_iff n.id q)

    no_way : ¬ Leads items n.parent_id n.id
    no_way = elim (Bool-cases (n.id == "")) [
      | inl blank ↦ λ l.
          Leads-blank items n.parent_id
            (subst (Leads items n.parent_id) ((eq_iff n.id "").0 blank) l)
      | inr named ↦
          ((would_cycle_iff items n.id n.parent_id (ground (arith, eq_iff n.id ""))).0 free).1
    ]

pub IsForest-drop :
    (items : List Category) (id : String)
    → IsForest items
    → is_parent id items ≡ false
    → IsForest (drop_category id items)
IsForest-drop items id h bare = record {
  keyed = Keyed-drop id items h.keyed;
  parents = λ q d e.
      let before : find_category q items ≡ some d = ground (arith, found q) in
      let other = is_parent-false id q items d bare before in
      elim (h.parents q d before) [
        | inl top ↦ inl top
        | inr there ↦ inr (ground (arith, found d.parent_id, eq_iff id d.parent_id))
      ];
  ends =
      Ends-joins items (drop_category id items) id h
        (λ q other. ground (arith, found q, eq_iff id q))
        (Ends-of_category (drop_category id items) id none (ground (arith, found id, eq_iff id id))
          (λ d e. cc));
}
  where
    found :
        (q : String)
        → find_category q (drop_category id items)
          ≡ (if id == q then none else find_category q items)
    found q = find_category-drop q id items h.keyed
