-- ===== src/Domain/Product/Units.antt =====
-- Which conversions exist, and that a stored product always has the one that a purchase needs.
use erp_stock.Base.{
  String, ◌==◌, eq_iff, ◌≡◌, refl, sym, ap, ◌∙◌, Bool, true, false, ◌||◌, ◌&&◌, not, List, [], ◌∷◌,
  if◌then◌else◌, Bool-cases, inl, inr, arith, eq_refl,
}
use erp_stock.Text.{trim_space}
use erp_stock.Float.{Float, is_nonpos}
use erp_stock.Domain.Errors.{Result, ok, err, invalid}
use erp_stock.Domain.Types.{UomConversion, Product, kind_final, kind_support, kind_fixed_asset}
use erp_stock.Domain.Product.Defaults.{purchase_unit_settled, sale_unit_settled, units_same}
use erp_stock.Domain.Uom.{convert_by, convert, to_stock_qty}
use erp_stock.Domain.Product.{
  purchase_unit, normalize_product, forget_value, validate_conversions, validate_product,
}

abbrev pub is_ok {ℓ} : {A : Type ℓ} → Result A → Bool
is_ok (ok _) = true
is_ok (err _) = false

or_comm : (a b : Bool) → (a || b) ≡ (b || a)
or_comm a b = ground arith

eq_comm : (a b : String) → (a == b) ≡ (b == a)
eq_comm a b = ground (arith, eq_iff a b, eq_iff b a)

same_comm : (a b : String) → (a == "" || b == "" || a == b) ≡ (b == "" || a == "" || b == a)
same_comm a b = let s = eq_comm a b in ground arith

either_way {ℓ} : {A : Type ℓ} (b : Bool) {x y z : A} → x ≡ z → y ≡ z → (if b then x else y) ≡ z
either_way true p q = p
either_way false p q = q

module _ {F : Type 0} ⦃fl : Float F⦄ where
  -- A usable rule between two units, in either direction.
  abbrev fits : String → String → UomConversion F → Bool
  fits from to c =
      not (is_nonpos c.factor)
      && ((c.from_uom == from && c.to_uom == to) || (c.from_uom == to && c.to_uom == from))

  abbrev pub has_rule : String → String → List (UomConversion F) → Bool
  has_rule from to [] = false
  has_rule from to (c ∷ cs) = fits from to c || has_rule from to cs

  is_ok-convert_by :
      (q : F) (from to : String) (cs : List (UomConversion F))
      → is_ok (convert_by q from to cs) ≡ has_rule from to cs
  unfolding convert_by
  is_ok-convert_by q from to [] = refl
  is_ok-convert_by q from to (c ∷ cs) = elim (Bool-cases (is_nonpos c.factor)) [
    | inl skip ↦ rw (skip, convert_by) (is_ok-convert_by q from to cs)
    | inr use_ ↦ elim (Bool-cases (c.from_uom == from && c.to_uom == to)) [
      | inl straight ↦ rw (use_, straight, convert_by) refl
      | inr not_straight ↦ elim (Bool-cases (c.from_uom == to && c.to_uom == from)) [
        | inl back ↦ rw (use_, not_straight, back, convert_by) refl
        | inr neither ↦ rw (use_, not_straight, neither, convert_by) (is_ok-convert_by q from to cs)
      ]
    ]
  ]

  has_rule_comm : (a b : String) (cs : List (UomConversion F)) → has_rule a b cs ≡ has_rule b a cs
  has_rule_comm a b [] = refl
  has_rule_comm a b (c ∷ cs) =
      rw
        (
          or_comm (c.from_uom == a && c.to_uom == b) (c.from_uom == b && c.to_uom == a),
          has_rule_comm a b cs,
        )
        refl

  is_ok-convert :
      (q : F) (from to : String) (cs : List (UomConversion F))
      → is_ok (convert q from to cs) ≡ (from == "" || to == "" || from == to || has_rule from to cs)
  unfolding convert
  is_ok-convert q from to cs = elim (Bool-cases (from == "" || to == "" || from == to)) [
    | inl same ↦ rw same refl
    | inr differ ↦ rw differ (is_ok-convert_by q from to cs)
  ]

  -- Whether a conversion exists depends neither on the quantity nor on the direction: what can be
  -- converted one way can be converted back.
  pub convert_both_ways :
      (q r : F) (from to : String) (cs : List (UomConversion F))
      → is_ok (convert q from to cs) ≡ is_ok (convert r to from cs)
  convert_both_ways q r from to cs =
      is_ok-convert q from to cs
      ∙ rw (same_comm from to, has_rule_comm from to cs) refl
      ∙ sym (is_ok-convert r to from cs)

ok_value : {F : Type 0} (r : Result F) → is_ok r ≡ true → (z : F) × (r ≡ ok z)
ok_value (ok z) _ = (z, refl)
ok_value (err e) h = let f : false ≡ true = h in cc

module _ {F : Type 0} ⦃fl : Float F⦄ where
  is_ok-forget_value : (r : Result F) → is_ok (forget_value r) ≡ is_ok r
  is_ok-forget_value (ok _) = refl
  is_ok-forget_value (err _) = refl

  abbrev HasRule : Product F → Type 0
  HasRule p =
      (p.purchase_uom == p.sale_uom
        || is_ok (convert fl.one p.purchase_uom p.sale_uom p.conversions))
      ≡ true

  validate_conversions-rule : (p : Product F) → validate_conversions p ≡ ok tt → HasRule p
  unfolding validate_conversions
  validate_conversions-rule p h = elim (Bool-cases (p.purchase_uom == p.sale_uom)) [
    | inl same ↦ rw same refl
    | inr differ ↦ rw differ (
        sym (is_ok-forget_value (convert fl.one p.purchase_uom p.sale_uom p.conversions))
        ∙ ap is_ok (rw differ at h))
  ]

  -- `validateProduct` accepts a product only with a rule between its units, where they differ.
  validate_product-rule : (p : Product F) → validate_product p ≡ ok tt → HasRule p
  unfolding validate_product
  validate_product-rule p h = elim (Bool-cases (trim_space p.name == "")) [
    | inl blank ↦ let stop : err invalid ≡ ok tt = rw blank at h in cc
    | inr named ↦
        elim (Bool-cases (
          not (p.kind == kind_final)
          && not (p.kind == kind_support)
          && not (p.kind == kind_fixed_asset))) [
            | inl odd ↦ let stop : err invalid ≡ ok tt = rw (named, odd) at h in cc
            | inr known ↦
                let rule : validate_conversions p ≡ ok tt = rw (named, known) at h in
                validate_conversions-rule p rule
          ]
  ]

  -- The quantity plays no part.
  is_ok-convert_any :
      (q r : F) (from to : String) (cs : List (UomConversion F))
      → is_ok (convert q from to cs) ≡ is_ok (convert r from to cs)
  is_ok-convert_any q r from to cs = is_ok-convert q from to cs ∙ sym (is_ok-convert r from to cs)

  is_ok-to_stock_qty :
      (m : Product F) (q : F)
      → m.stock_uom ≡ m.sale_uom
      → m.unit_of_measure ≡ m.sale_uom
      → HasRule m
      → is_ok (to_stock_qty m q m.purchase_uom) ≡ true
  unfolding to_stock_qty
  is_ok-to_stock_qty m q stock unit rule =
      rw (either_way (m.stock_uom == "") unit stock)
        (elim (Bool-cases (m.purchase_uom == m.sale_uom)) [
          | inl same ↦
              is_ok-convert q m.purchase_uom m.sale_uom m.conversions
              ∙ (let s = same in ground arith)
          | inr differ ↦
              is_ok-convert_any q fl.one m.purchase_uom m.sale_uom m.conversions ∙ rw differ at rule
        ])

  normalize_product-rule : (p : Product F) → HasRule p → HasRule (normalize_product p)
  unfolding normalize_product
  normalize_product-rule p rule = elim (Bool-cases (p.purchase_uom == "" || p.sale_uom == "")) [
    | inl blank ↦
        rw (units_same p.purchase_uom p.sale_uom blank)
          (rw (eq_refl (purchase_unit p.purchase_uom p.sale_uom)) refl)
    | inr set ↦
        let bought : p.purchase_uom == "" ≡ false = ground arith in
        let sold : p.sale_uom == "" ≡ false = ground arith in
        rw
          (
            purchase_unit_settled p.purchase_uom p.sale_uom bought,
            sale_unit_settled p.purchase_uom p.sale_uom sold,
          )
          (elim (Bool-cases (p.purchase_uom == p.sale_uom)) [
            | inl same ↦ rw same refl
            | inr differ ↦ rw differ (rw differ at rule)
          ])
  ]

  -- A product that `validateProduct` accepts, normalized once.
  pub accepted-has_stock_qty :
      (p : Product F) (q : F)
      → validate_product p ≡ ok tt
      → let m = normalize_product p in (z : F) × (to_stock_qty m q m.purchase_uom ≡ ok z)
  unfolding normalize_product
  accepted-has_stock_qty p q h =
      let m = normalize_product p in
      ok_value _
        (is_ok-to_stock_qty m q refl refl (normalize_product-rule p (validate_product-rule p h)))
