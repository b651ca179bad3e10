-- ===== src/Domain/Category/Cycle.antt =====
-- What `CategoryParentWouldCycle` decides: whether the way up from the parent ends and does not
-- pass the category.
use erp_stock.Base.{
  ℕ, zero, suc, ◌<◌, String, ◌==◌, eq_iff, ◌≡◌, sym, ap, ◌∙◌, subst, ◌≢◌, ◌↔◌, ◌⊎◌, refl, Bool,
  true, false, none, some, List, [], ◌∷◌, length, contains, Option-cases, Bool-cases, inl, inr,
  arith, All, All-weaken,
}
use mathlib.Core.Option.{some-injective}
use erp_stock.Domain.Types.{Category}
use erp_stock.Domain.Category.{find_category, climb, category_parent_would_cycle}
use erp_stock.Domain.Category.Unseen.{unseen, unseen-nil, unseen-found}

-- The way up from `p` ends after `n` categories: at a blank id, or at one of no category.
pub data Rises (items : List Category) : String → ℕ → Type 0 where
  at_top : Rises items "" 0
  astray : {p : String} → p ≢ "" → find_category p items ≡ none → Rises items p 0
  rise :
      {p : String} {n : ℕ} (c : Category)
      → p ≢ ""
      → find_category p items ≡ some c
      → Rises items c.parent_id n
      → Rises items p (suc n)

abbrev pub Ends : List Category → String → Type 0
Ends items p = (n : ℕ) × Rises items p n

-- The way up from `p` passes `q`.
pub data Leads (items : List Category) : String → String → Type 0 where
  here : {p : String} → p ≢ "" → Leads items p p
  pass :
      {p q : String} (c : Category)
      → p ≢ ""
      → find_category p items ≡ some c
      → Leads items c.parent_id q
      → Leads items p q

-- A blank id leads nowhere, and the way up from any other goes on at the parent.
pub Leads-cases :
    (items : List Category) (p q : String)
    → Leads items p q
    → (p ≢ "")
      × ((p ≡ q) ⊎ ((c : Category) × (find_category p items ≡ some c) × Leads items c.parent_id q))
Leads-cases items p q (here n) = (n, inl refl)
Leads-cases items p q (pass c n e l) = (n, inr (c, e, l))

pub Rises-cases :
    (items : List Category) (p : String) (n : ℕ)
    → Rises items p n
    → (p ≡ "") × (n ≡ 0)
      ⊎ ((p ≢ "") × (find_category p items ≡ none) × (n ≡ 0)
          ⊎ ((c : Category) × (m : ℕ) × (p ≢ "")
              × (find_category p items ≡ some c)
              × Rises items c.parent_id m
              × (n ≡ suc m)))
Rises-cases items p n at_top = inl (refl, refl)
Rises-cases items p n (astray b e) = inr (inl (b, e, refl))
Rises-cases items p n (rise c b e r) = inr (inr (c, _, b, e, r, refl))

pub Rises-unique :
    (items : List Category) (p : String) (n m : ℕ) → Rises items p n → Rises items p m → n ≡ m
Rises-unique items p n m at_top r = ground (arith, Rises-cases items "" m r)
Rises-unique items p n m (astray b e) r = ground (arith, Rises-cases items p m r)
Rises-unique items p n m (rise {n = k} c b e r) q = elim (Rises-cases items p m q) [
  | inl (top, _) ↦ absurd (b top)
  | inr (inl (_, none_found, _)) ↦ cc
  | inr (inr (d, j, _, found, way, size)) ↦
      let same : d ≡ c = some-injective _ _ (sym found ∙ e) in
      let up =
        Rises-unique items c.parent_id k j r
          (subst (λ (x : Category). Rises items x.parent_id j) same way) in
      ap suc up ∙ sym size
]

pub All-contains :
    (P : String → Type 0) (seen : List String) (p : String)
    → All P seen
    → contains seen p ≡ true
    → P p
All-contains P [] p h e = cc
All-contains P (s ∷ seen) p (h, hs) e = elim (Bool-cases (s == p)) [
  | inl same ↦ subst P ((eq_iff s p).0 same) h
  | inr other ↦ All-contains P seen p hs (rw other at e)
]

module _ (items : List Category) (id : String) where
  climb_stops :
      (fuel : ℕ) (seen : List String) (p : String)
      → unseen seen items < fuel
      → climb items id fuel seen p ≢ none
  unfolding climb
  climb_stops zero seen p h = absurd (omega arith)
  climb_stops (suc fuel) seen p h = elim (Bool-cases (contains seen p)) [
    | inl old ↦ ground arith
    | inr new ↦ elim (Option-cases (find_category p items)) [
      | inl absent ↦ ground arith
      | inr (c, found) ↦
          let less = unseen-found p seen items c found new in
          let ends = climb_stops fuel (p ∷ seen) c.parent_id (omega arith) in ground arith
    ]
  ]

  -- An answer `false`: the way up ended and did not pass `id`.
  climb-false :
      (fuel : ℕ) (seen : List String) (p : String)
      → climb items id fuel seen p ≡ some false
      → Ends items p × ¬ Leads items p id
  unfolding climb
  climb-false zero seen p e = cc
  climb-false (suc fuel) seen p e = elim (Bool-cases (p == "")) [
    | inl blank ↦
        let top = (eq_iff p "").0 blank in
        ((0, rw top at_top), λ l. (Leads-cases items p id l).0 top)
    | inr named ↦
        let some_id : p ≢ "" = ground (arith, eq_iff p "") in
        let other : p ≢ id = ground (arith, eq_iff p id) in
        elim (Option-cases (find_category p items)) [
          | inl absent ↦ ((0, astray some_id absent), λ l. ground (arith, Leads-cases items p id l))
          | inr (c, found) ↦
              let ((n, r), no_way) = climb-false fuel (p ∷ seen) c.parent_id (ground arith) in
              ((suc n, rise c some_id found r), λ l. ground (arith, Leads-cases items p id l))
        ]
  ]

  abbrev Higher : ℕ → String → Type 0
  Higher n s = (m : ℕ) × Rises items s m × (n < m)

  -- Where the way up ends and does not pass `id`, no answer but `false` is given.
  climb-ends :
      (fuel n : ℕ) (seen : List String) (p : String) (b : Bool)
      → Rises items p n
      → ¬ Leads items p id
      → All (Higher n) seen
      → climb items id fuel seen p ≡ some b
      → b ≡ false
  unfolding climb
  climb-ends zero n seen p b r l h e = cc
  climb-ends (suc fuel) n seen p b r l h e = elim (Rises-cases items p n r) [
    | inl (top, _) ↦ ground (arith, eq_iff p "")
    | inr (inl (named, absent, _)) ↦ ground (arith, eq_iff p "", eq_iff p id, new, passes)
    | inr (inr (c, m, named, found, way, size)) ↦
        let on : climb items id fuel (p ∷ seen) c.parent_id ≡ some b =
          ground (arith, eq_iff p "", eq_iff p id, new, passes) in
        climb-ends fuel m (p ∷ seen) c.parent_id b way (λ up. l (pass c named found up))
          (
            (n, r, omega arith),
            All-weaken (Higher n) (Higher m) seen (λ s (k, q, less). (k, q, omega arith)) h,
          )
          on
  ]
    where
      passes : p ≢ "" → p ≢ id
      passes named same = l (subst (Leads items p) same (here named))

      new : contains seen p ≢ true
      new old =
          let (m, q, less) = All-contains (Higher n) seen p h old in
          absurd (omega (arith, Rises-unique items p n m r q))

-- For a parent of any id the loop ends within one round more than there are categories.
pub climb_ends :
    (items : List Category) (id parent : String)
    → (b : Bool) × (climb items id (suc (length items)) [] parent ≡ some b)
climb_ends items id parent = elim (Option-cases (climb items id (suc (length items)) [] parent)) [
  | inl stuck ↦
      absurd (
        climb_stops items id (suc (length items)) [] parent (omega (arith, unseen-nil items)) stuck)
  | inr found ↦ found
]

-- `CategoryParentWouldCycle` is false exactly where the way up from the parent ends without
-- passing the category, whose id is not blank.
pub would_cycle_iff :
    (items : List Category) (id parent : String)
    → id ≢ ""
    → (category_parent_would_cycle items id parent ≡ false)
      ↔ (Ends items parent × ¬ Leads items parent id)
unfolding category_parent_would_cycle climb
would_cycle_iff items id parent named =
    let (b, e) = climb_ends items id parent in
    (
      λ h. climb-false items id (suc (length items)) [] parent (ground arith),
      λ ((n, r), l).
          let other : parent ≢ "" → parent ≢ id =
            λ p same. l (subst (Leads items parent) same (here p)) in
          let ended = climb-ends items id (suc (length items)) n [] parent b r l tt e in
          ground (arith, eq_iff parent "", eq_iff parent id),
    )
