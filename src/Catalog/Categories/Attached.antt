-- ===== src/Catalog/Categories/Attached.antt =====
-- The nodes of the forest that `attach` builds, for the ids that it is given.
use erp_stock.Base.{
  ℕ, zero, suc, String, ◌==◌, eq_iff, ◌≡◌, sym, ap, ◌∙◌, subst, ◌≢◌, refl, true, false, Option,
  none, some, List, [], ◌∷◌, Bool-cases, inl, inr, arith, contains,
}
use mathlib.Core.Option.{some-injective}
use erp_stock.Domain.Types.{Category}
use erp_stock.Domain.Category.{
  Tree, node, Forest, bare, grow, find_category, child_ids, grown, attach_each, with_children,
  attach,
}
use erp_stock.Catalog.Categories.Lookups.{find_category-id}

-- A forest has the node of `c` with the children `g`.
pub data Grows (c : Category) (g : Forest) : Forest → Type 0 where
  first : {f : Forest} → Grows c g (grow (node c g) f)
  inside : {d : Category} {h f : Forest} → Grows c g h → Grows c g (grow (node d h) f)
  later : {t : Tree} {f : Forest} → Grows c g f → Grows c g (grow t f)

-- The ids of the categories on top.
abbrev pub tops : Forest → List String
tops bare = []
tops (grow (node c g) f) = c.id ∷ tops f

pub Grows-trans : (c d : Category) (g h f : Forest) → Grows d h f → Grows c g h → Grows c g f
Grows-trans c d g h f first m = inside m
Grows-trans c d g h f (inside {h = k} n) m = inside (Grows-trans c d g h k n m)
Grows-trans c d g h f (later {f = k} n) m = later (Grows-trans c d g h k n m)

module _ (items : List Category) where
  -- The children of `id`, attached.
  abbrev pub Attached : String → Forest → Type 0
  Attached id g = (k : ℕ) × (attach_each (attach items k) (child_ids items id items) ≡ some g)

  with_children-some :
      (o : Option Category) (p : Option Forest) (c : Category) (g : Forest)
      → with_children o p ≡ some (node c g)
      → (o ≡ some c) × (p ≡ some g)
  with_children-some none p c g e = cc
  with_children-some (some d) none c g e = cc
  with_children-some (some d) (some h) c g e = ground arith

  attach-some :
      (n : ℕ) (id : String) (c : Category) (g : Forest)
      → attach items n id ≡ some (node c g)
      → (find_category id items ≡ some c) × Attached id g
  unfolding attach
  attach-some zero id c g e = cc
  attach-some (suc n) id c g e =
      let (found, rest) =
        with_children-some (find_category id items)
          (attach_each (attach items n) (child_ids items id items)) c g e in
      (found, (n, rest))

  grown-some :
      (o : Option Tree) (p : Option Forest) (t : Tree) (f : Forest)
      → grown o p ≡ some (grow t f)
      → (o ≡ some t) × (p ≡ some f)
  grown-some none p t f e = cc
  grown-some (some d) none t f e = cc
  grown-some (some d) (some h) t f e = ground arith

  grown-bare : (o : Option Tree) (p : Option Forest) → grown o p ≢ some bare
  grown-bare none p e = cc
  grown-bare (some t) none e = cc
  grown-bare (some t) (some f) e = cc

  attach_each-bare :
      (at : String → Option Tree) (ids : List String) → attach_each at ids ≡ some bare → ids ≡ []
  unfolding attach_each
  attach_each-bare at [] e = refl
  attach_each-bare at (x ∷ ids) e = absurd (grown-bare (at x) (attach_each at ids) e)

  attach_each-grow :
      (at : String → Option Tree) (ids : List String) (t : Tree) (f : Forest)
      → attach_each at ids ≡ some (grow t f)
      → (x : String) × (rest : List String) × (ids ≡ x ∷ rest)
        × (at x ≡ some t)
        × (attach_each at rest ≡ some f)
  unfolding attach_each
  attach_each-grow at [] t f e = cc
  attach_each-grow at (x ∷ ids) t f e =
      let (one, others) = grown-some (at x) (attach_each at ids) t f e in
      (x, ids, refl, one, others)

  pub tops-attach_each :
      (n : ℕ) (ids : List String) (f : Forest)
      → attach_each (attach items n) ids ≡ some f
      → tops f ≡ ids
  unfolding attach_each
  tops-attach_each n ids bare e = sym (attach_each-bare (attach items n) ids e)
  tops-attach_each n ids (grow (node c g) f) e =
      let (x, rest, split, one, others) = attach_each-grow (attach items n) ids (node c g) f e in
      let id = find_category-id x items c (attach-some n x c g one).0 in
      ap (λ z. z ∷ tops f) id ∙ ap (λ l. x ∷ l) (tops-attach_each n rest f others) ∙ sym split

  pub Grows-below :
      (c : Category) (g : Forest) (n : ℕ) (ids : List String) (f : Forest)
      → attach_each (attach items n) ids ≡ some f
      → Grows c g f
      → (find_category c.id items ≡ some c) × Attached c.id g
  Grows-below c g n ids f e (first {f = h}) =
      let (x, rest, split, one, others) = attach_each-grow (attach items n) ids (node c g) h e in
      let (found, more) = attach-some n x c g one in
      let id = find_category-id x items c found in
      subst (λ z. (find_category z items ≡ some c) × Attached z g) (sym id) (found, more)
  Grows-below c g n ids f e (inside {d} {h} {f = k} m) =
      let (x, rest, split, one, others) = attach_each-grow (attach items n) ids (node d h) k e in
      let (found, (j, more)) = attach-some n x d h one in
      Grows-below c g j (child_ids items x items) h more m
  Grows-below c g n ids f e (later {t} {f = k} m) =
      let (x, rest, split, one, others) = attach_each-grow (attach items n) ids t k e in
      Grows-below c g n rest k others m

  -- A category of the ids attached has a node.
  pub attach_each-Grows :
      (n : ℕ) (ids : List String) (f : Forest) (x : String) (c : Category)
      → attach_each (attach items n) ids ≡ some f
      → contains ids x ≡ true
      → find_category x items ≡ some c
      → (g : Forest) × Grows c g f
  attach_each-Grows n ids bare x c e h found =
      let empty = attach_each-bare (attach items n) ids e in
      let none_listed : false ≡ true = subst (λ l. contains l x ≡ true) empty h in cc
  attach_each-Grows n ids (grow (node d k) f) x c e h found =
      let (y, rest, split, one, others) = attach_each-grow (attach items n) ids (node d k) f e in
      let (there, more) = attach-some n y d k one in
      elim (Bool-cases (y == x)) [
        | inl same ↦
            let eq : d ≡ c =
              some-injective _ _
                (sym there ∙ ap (λ z. find_category z items) ((eq_iff y x).0 same) ∙ found) in
            (k, subst (λ z. Grows z k (grow (node d k) f)) eq first)
        | inr other ↦
            let (g, m) = attach_each-Grows n rest f x c others (rw (split, other) at h) found in
            (g, later m)
      ]
