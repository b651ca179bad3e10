-- ===== src/Catalog/Categories/Ways.antt =====
-- Ways up in two lists of categories that agree in part.
use erp_stock.Base.{
  ℕ, suc, String, ◌==◌, eq_iff, ◌≡◌, sym, ◌∙◌, subst, ◌≢◌, ◌⊎◌, refl, Option, none, some, List,
  Bool-cases, Option-cases, inl, inr, arith,
}
use erp_stock.Domain.Types.{Category}
use erp_stock.Domain.Category.{find_category}
use erp_stock.Domain.Category.Cycle.{Rises, at_top, astray, rise, Ends, Leads, here, pass}

abbrev pub Known : List Category → String → Type 0
Known items p = (p ≡ "") ⊎ (find_category p items ≢ none)

-- A way up that stays among categories that both lists have alike.
pub kept_way :
    (items items' : List Category) (p : String) (n : ℕ)
    → ((q : String) (c : Category) → find_category q items ≡ some c → Known items c.parent_id)
    → ((q : String) → find_category q items ≢ none → find_category q items' ≡ find_category q items)
    → Known items p
    → Rises items p n
    → Rises items' p n
kept_way items items' p n parents same known at_top = at_top
kept_way items items' p n parents same known (astray b e) = ground arith
kept_way items items' p n parents same known (rise {n = m} c b e r) =
    let there : find_category p items ≢ none = ground arith in
    rise c b (same p there ∙ e) (kept_way items items' c.parent_id m parents same (parents p c e) r)

-- A way up that does not pass `id`, where the lists differ at `id` only.
pub Rises-apart :
    (items items' : List Category) (id p : String) (n : ℕ)
    → ((q : String) → q ≢ id → find_category q items' ≡ find_category q items)
    → ¬ Leads items p id
    → Rises items p n
    → Rises items' p n
Rises-apart items items' id p n same l at_top = at_top
Rises-apart items items' id p n same l (astray b e) =
    let other : p ≢ id = λ h. l (subst (Leads items p) h (here b)) in astray b (same p other ∙ e)
Rises-apart items items' id p n same l (rise {n = m} c b e r) =
    let other : p ≢ id = λ h. l (subst (Leads items p) h (here b)) in
    rise c b (same p other ∙ e)
      (Rises-apart items items' id c.parent_id m same (λ up. l (pass c b e up)) r)

-- A way up goes on as before until it meets `id`, whose own way ends.
pub Rises-joins :
    (items items' : List Category) (id p : String) (n : ℕ)
    → ((q : String) → q ≢ id → find_category q items' ≡ find_category q items)
    → Ends items' id
    → Rises items p n
    → Ends items' p
Rises-joins items items' id p n same whole at_top = (0, at_top)
Rises-joins items items' id p n same whole (astray b e) = elim (Bool-cases (p == id)) [
  | inl met ↦ subst (Ends items') (sym ((eq_iff p id).0 met)) whole
  | inr other ↦ (0, astray b (same p (ground (arith, eq_iff p id)) ∙ e))
]
Rises-joins items items' id p n same whole (rise {n = m} c b e r) = elim (Bool-cases (p == id)) [
  | inl met ↦ subst (Ends items') (sym ((eq_iff p id).0 met)) whole
  | inr other ↦
      let (k, way) = Rises-joins items items' id c.parent_id m same whole r in
      (suc k, rise c b (same p (ground (arith, eq_iff p id)) ∙ e) way)
]

-- No way leads to a blank id.
pub Leads-blank : (items : List Category) (p : String) → ¬ Leads items p ""
Leads-blank items p (here b) = b refl
Leads-blank items p (pass c b e l) = Leads-blank items c.parent_id l

pub Ends-of_category :
    (items : List Category) (p : String) (o : Option Category)
    → find_category p items ≡ o
    → ((c : Category) → o ≡ some c → Ends items c.parent_id)
    → Ends items p
Ends-of_category items p o e up = elim (Bool-cases (p == "")) [
  | inl blank ↦ subst (Ends items) (sym ((eq_iff p "").0 blank)) (0, at_top)
  | inr named ↦
      let b : p ≢ "" = ground (arith, eq_iff p "") in
      elim (Option-cases o) [
        | inl absent ↦ (0, astray b (e ∙ absent))
        | inr (c, found) ↦ let (n, r) = up c found in (suc n, rise c b (e ∙ found) r)
      ]
]
