-- ===== src/Service/Assemblies/Recalculated.antt =====
-- What RecalculateAssembly stores.
use erp_stock.Base.{
  String, ◌==◌, eq_iff, ◌≡◌, refl, sym, ap, ◌∙◌, subst, Bool, true, false, not, List, [], ◌∷◌,
  if◌then◌else◌, arith,
}
use erp_stock.Float.{Float}
use erp_stock.Domain.Errors.{Result, ok, err, failure, not_found}
use erp_stock.Domain.Types.{Product, Assembly, AssemblyItem}
use erp_stock.World.{World, pure, call, next_fault, fail_if, new_uuid}
use erp_stock.World.Always.{Always, IsPreorder, always_rules, Always-bind, Always-pure}
use erp_stock.World.Rules.{bind_ok, fail_if_ok}
use erp_stock.Catalog.Prices.{rounded}
use erp_stock.Catalog.Assemblies
use erp_stock.Catalog.Assemblies.{
  find_assembly, change_assembly, assembly_exists, rewrite_row, assembly_row, item_row, undone,
}
use erp_stock.Service.Assemblies.{no_totals, count_items, priced, recalculate_assembly}
use erp_stock.Service.Assemblies.Counted.{IsPriced, priced-IsPriced}

not-false : (b : Bool) → not b ≡ false → b ≡ true
not-false true e = refl
not-false false e = cc

module _ {F : Type 0} where
  -- The cost, the suggested price and the margin that are stored of an assembly.
  abbrev pub numbers : String → List (Assembly F) → Result (F × F × F)
  numbers id [] = err not_found
  numbers id (a ∷ rows) =
      if a.id == id then ok (a.cost, a.suggested_price, a.margin_percent) else numbers id rows

  abbrev SameNumbers : World F → World F → Type 0
  SameNumbers w v = (id : String) → numbers id v.assemblies ≡ numbers id w.assemblies

  numbers-items :
      (id q : String) (g : Assembly F → List (AssemblyItem F)) (rows : List (Assembly F))
      → numbers q (change_assembly id (λ a. record a { items = g a }) rows) ≡ numbers q rows
  unfolding change_assembly
  numbers-items id q g [] = refl
  numbers-items id q g (a ∷ rows) = ground (arith, numbers-items id q g rows)

  SameNumbers-preorder : IsPreorder SameNumbers
  SameNumbers-preorder = record { same = λ w id. refl; chain = λ w v u p q id. q id ∙ p id }

  call-SameNumbers : Always SameNumbers call
  unfolding call
  call-SameNumbers = record { at = λ w id. refl }

  new_uuid-SameNumbers : Always SameNumbers new_uuid
  unfolding new_uuid
  new_uuid-SameNumbers = record { at = λ w id. refl }

module _ {F : Type 0} ⦃fl : Float F⦄ where
  -- The three numbers of an assembly as the columns round them.
  abbrev pub rounded_numbers : Assembly F → Result (F × F × F)
  rounded_numbers a = ok (rounded a.cost, rounded a.suggested_price, rounded a.margin_percent)

  insert_item-SameNumbers :
      (id : String) (it : AssemblyItem F) → Always SameNumbers (Assemblies.insert_item id it)
  unfolding Assemblies.insert_item
  insert_item-SameNumbers id it =
      search
        (always_rules, SameNumbers-preorder, call-SameNumbers, new_uuid-SameNumbers, numbers-items)
        depth 16

  insert_items-SameNumbers :
      (id : String) (its : List (AssemblyItem F))
      → Always SameNumbers (Assemblies.insert_items id its)
  unfolding Assemblies.insert_items
  insert_items-SameNumbers id [] = search (always_rules, SameNumbers-preorder)
  insert_items-SameNumbers id (it ∷ its) =
      Always-bind SameNumbers-preorder _ _ (insert_item-SameNumbers id it) (λ new.
        Always-bind SameNumbers-preorder _ _ (insert_items-SameNumbers id its)
          (λ news. Always-pure SameNumbers-preorder (new ∷ news)))

  replace_items-SameNumbers : (a : Assembly F) → Always SameNumbers (Assemblies.replace_items a)
  unfolding Assemblies.replace_items
  replace_items-SameNumbers a =
      search
        (
          always_rules, SameNumbers-preorder, call-SameNumbers, insert_items-SameNumbers,
          numbers-items,
        )
        depth 16

  numbers-rewrite :
      (a : Assembly F) (rows : List (Assembly F))
      → assembly_exists a.id rows ≡ true
      → numbers a.id (change_assembly a.id (rewrite_row a) rows) ≡ rounded_numbers a
  unfolding assembly_exists change_assembly rewrite_row assembly_row
  numbers-rewrite a [] e = cc
  numbers-rewrite a (r ∷ rows) e = ground (arith, numbers-rewrite a rows)

  committed_rows :
      {A : Type 0} (rows : List (Assembly F)) (x : Result A × World F) (a : A) (v : World F)
      → undone rows x ≡ (ok a, v)
      → x ≡ (ok a, v)
  committed_rows rows (ok b, u) a v e = e
  committed_rows {A} rows (err b, u) a v e = cc

  -- New items leave the numbers.
  refilled :
      (a : Assembly F) (w : World F) (x : Unit {0}) (v : World F)
      → Assemblies.replace_items a w ≡ (ok x, v)
      → numbers a.id v.assemblies ≡ numbers a.id w.assemblies
  refilled a w x v e =
      subst
        (λ (y : Result (Unit {0}) × World F).
          numbers a.id y.1.assemblies ≡ numbers a.id w.assemblies)
        e ((replace_items-SameNumbers a).at w a.id)

  rewritten :
      (a : Assembly F) (w : World F) (x : Unit {0}) (v : World F)
      → Assemblies.update_rows a w ≡ (ok x, v)
      → numbers a.id v.assemblies ≡ rounded_numbers a
  unfolding Assemblies.update_rows
  rewritten a w x v e =
      let (_, w1, _, e1) = bind_ok call _ w x v e in
      let (_, w2, _, e2) =
        bind_ok (fail_if (not (Assemblies.assembly_fits a)) failure) _ w1 x v e1 in
      let (_, w3, f3, e3) =
        bind_ok (fail_if (not (assembly_exists a.id w2.assemblies)) not_found) _ w2 x v e2 in
      let (_, w4, f4, e4) =
        bind_ok (fail_if (Assemblies.code_elsewhere a.id a.code w2.assemblies) failure) _ w3 x v
          e3 in
      let (there, same3) =
        fail_if_ok (not (assembly_exists a.id w2.assemblies)) not_found w2 _ w3 f3 in
      let (_, same4) =
        fail_if_ok (Assemblies.code_elsewhere a.id a.code w2.assemblies) failure w3 _ w4 f4 in
      let exists : assembly_exists a.id w4.assemblies ≡ true =
        subst (λ (u : World F). assembly_exists a.id u.assemblies ≡ true) (sym (same4 ∙ same3))
          (not-false (assembly_exists a.id w2.assemblies) there) in
      refilled a (record w4 { assemblies = change_assembly a.id (rewrite_row a) w4.assemblies }) x v
        e4
      ∙ numbers-rewrite a w4.assemblies exists

  stored_numbers :
      (a : Assembly F) (w : World F) (x : Unit {0}) (v : World F)
      → Assemblies.update_assembly a w ≡ (ok x, v)
      → numbers a.id v.assemblies ≡ rounded_numbers a
  unfolding Assemblies.update_assembly
  stored_numbers a w x v e =
      let (_, w1, _, e1) = bind_ok call _ w x v e in
      rewritten a w1 x v (committed_rows w1.assemblies (Assemblies.update_rows a w1) x v e1)

  find_assembly-id :
      (id : String) (rows : List (Assembly F)) (a : Assembly F)
      → find_assembly id rows ≡ ok a
      → a.id ≡ id
  unfolding find_assembly
  find_assembly-id id [] a e = cc
  find_assembly-id id (r ∷ rows) a e = ground (arith, eq_iff r.id id, find_assembly-id id rows a)

  get_assembly_ok :
      (id : String) (w : World F) (a : Assembly F) (v : World F)
      → Assemblies.get_assembly id w ≡ (ok a, v)
      → (find_assembly id w.assemblies ≡ ok a) × (v.products ≡ w.products)
  unfolding Assemblies.get_assembly call next_fault
  get_assembly_ok id w a v e = ground arith

  -- The end of a recalculation: the assembly that was stored is returned.
  returned :
      (id : String) (ps : List (Product F)) (a c b : Assembly F) (u v : World F)
      → pure c u ≡ (ok b, v)
      → a.id ≡ id
      → IsPriced ps a c
      → numbers c.id u.assemblies ≡ rounded_numbers c
      → IsPriced ps a b × (numbers id v.assemblies ≡ rounded_numbers b)
  returned id ps a c b u v e own made kept =
      let value : c ≡ b = cc in
      let world : u ≡ v = ap (λ (x : Result (Assembly F) × World F). x.1) e in
      let there =
        subst (λ (y : World F). numbers c.id y.assemblies ≡ rounded_numbers c) world kept in
      let named =
        subst (λ i. numbers i v.assemblies ≡ rounded_numbers c) (made.same_id ∙ own) there in
      (
        subst (IsPriced ps a) value made,
        subst (λ (y : Assembly F). numbers id v.assemblies ≡ rounded_numbers y) value named,
      )

-- A successful RecalculateAssembly returns the assembly with its cost: the sum over the items of the
-- quantity in the unit of purchase times the purchase price. Where an item has a price, the assembly
-- has the sum of them and, if the cost is positive, the margin (price / cost - 1) * 100; and else the
-- price cost * (1 + margin / 100). These numbers are stored, as the columns round them.
pub recalculate_assembly-IsPriced :
    {F : Type 0} ⦃fl : Float F⦄ (id : String) (b : Assembly F) (w v : World F)
    → recalculate_assembly id w ≡ (ok b, v)
    → (a : Assembly F) × (find_assembly id w.assemblies ≡ ok a)
      × IsPriced w.products a b
      × (numbers id v.assemblies ≡ rounded_numbers b)
unfolding recalculate_assembly
recalculate_assembly-IsPriced id b w v e =
    let (a, w1, got, e1) = bind_ok (Assemblies.get_assembly id) _ w b v e in
    let (t, w2, counted, e2) = bind_ok (count_items no_totals a.items) _ w1 b v e1 in
    let (x, w3, updated, e3) = bind_ok (Assemblies.update_assembly (priced t a)) _ w2 b v e2 in
    let (found, same) = get_assembly_ok id w a w1 got in
    let (result, numbers_stored) =
      returned id w1.products a (priced t a) b w3 v e3 (find_assembly-id id w.assemblies a found)
        (priced-IsPriced a t w1 w2 counted) (stored_numbers (priced t a) w2 x w3 updated) in
    (a, found, subst (λ ps. IsPriced ps a b) same result, numbers_stored)
