-- ===== src/Service/Ledger.antt =====
-- The history against the balances: what the recorded movements of a product in a warehouse add up
-- to, and how far the available quantity is from it.
pub mod Requests
use erp_stock.Base.{
  String, ◌==◌, ◌≡◌, refl, ap, sym, ◌∙◌, subst, Bool, true, false, ◌||◌, ◌&&◌, List, [], ◌∷◌,
  if◌then◌else◌, Bool-cases, inl, inr, arith, ◌⊎◌,
}
use erp_stock.Base.Int.{ℤ, pos, ◌+ℤ◌, ◌-ℤ◌, ◌≤ℤ◌, int_laws}
use erp_stock.Float.Decimal.{Numeric, rounded, taken, rounded-taken}
use erp_stock.Float.{to_numeric, Float}
use erp_stock.Domain.Errors.{Result, ok, err, Error}
use erp_stock.Domain.Types.{OrderItem, InvoiceEvent, Reservation}
use erp_stock.Store.Tables.{MovementRow, Tables, sum_by, Statement}
use erp_stock.Store.Balances.Effects.{available, at_key}
use erp_stock.World.{World, Action, lift, ◌>>=◌, ◌>>◌, fail_if}
use erp_stock.World.Rules.{after, bind_ok}
use erp_stock.World.Always.{
  Always, OnSuccess, IsPreorder, always_rules, success_rules, OnSuccess-Always, Always-fail_if,
  Always-pure, OnSuccess-then,
}
use erp_stock.Repo
use erp_stock.Service.Apply.{is_inbound, default_subtype, apply_qty, apply_qty_sub}
use erp_stock.Service.Apply.Effects.{
  signed, movement_of, Applied, AppliedOrFails, apply_qty_sub-AppliedOrFails,
}
use erp_stock.Service.Movements.{
  receive_line, receive_purchase, create_movement, manual_type, transfer_stock, or_credit, credited,
}
use erp_stock.Service.Orders.{sell_line, sell_directly, confirm_inbound}
use erp_stock.World.SameStock.{SameStock, SameStock-preorder, new_uuid-SameStock}
use erp_stock.Service.Reads.{
  get_product-SameStock, get_warehouse-SameStock, has_movement-SameStock, list_assemblies-SameStock,
  to_stock_from_purchase-SameStock,
}

-- The types of movement that take from a balance. Any other type, such as RESERVATION_RELEASE,
-- leaves it alone.
abbrev pub is_outbound : String → Bool
is_outbound typ = typ == "MANUAL_OUT" || typ == "SALE_OUT" || typ == "TRANSFER_OUT"

abbrev pub effect_of : MovementRow → ℤ
effect_of m =
    if is_inbound m.movement_type
    then m.quantity
    else if is_outbound m.movement_type
    then pos 0 -ℤ m.quantity
    else pos 0

abbrev pub delta : String → String → MovementRow → ℤ
delta q v m = at_key m.product_id m.warehouse_id q v (effect_of m)

unfoldable pub ledger : String → String → Tables → ℤ
unfolding sum_by
ledger q v t = sum_by (delta q v) t.movements

-- The part of a balance that the history does not account for.
unfoldable pub drift : String → String → Tables → ℤ
drift q v t = available q v t -ℤ ledger q v t

-- 1 for each movement that takes from the balance of the product in the warehouse.
abbrev pub departure : String → String → MovementRow → ℤ
departure q v m =
    at_key m.product_id m.warehouse_id q v (if is_inbound m.movement_type then pos 0 else pos 1)

unfoldable pub departures : String → String → Tables → ℤ
unfolding sum_by
departures q v t = sum_by (departure q v) t.movements

-- The drift has not fallen, and has risen by one at most for each movement out that was added.
abbrev pub Drifts : String → String → Tables → Tables → Type 0
Drifts q v t u =
    (drift q v t ≤ℤ drift q v u)
    × (drift q v u +ℤ departures q v t ≤ℤ drift q v t +ℤ departures q v u)

abbrev pub IsSteady : {F : Type 0} → World F → World F → Type 0
IsSteady w u = (q v : String) → Drifts q v w.stock u.stock

Drifts-same : (q v : String) (t : Tables) → Drifts q v t t
Drifts-same q v t = (omega int_laws, omega int_laws)

Drifts-chain : (q v : String) (t s u : Tables) → Drifts q v t s → Drifts q v s u → Drifts q v t u
Drifts-chain q v t s u (a, b) (c, d) = (omega int_laws, omega int_laws)

pub IsSteady-preorder : {F : Type 0} → IsPreorder {F = F} IsSteady
IsSteady-preorder = record {
  same = λ w q v. Drifts-same q v w.stock;
  chain = λ w v u f g q r. Drifts-chain q r w.stock v.stock u.stock (f q r) (g q r);
}

-- A type of movement that moves stock.
abbrev pub MovesStock : String → Type 0
MovesStock typ = (is_inbound typ || is_outbound typ) ≡ true

-- A movement in moves drift by nothing, and one out by what rounding leaves.
Applied-drift :
    (z : Numeric) (m : MovementRow) (t u : Tables)
    → MovesStock m.movement_type
    → m.quantity ≡ rounded z
    → Applied (signed m.movement_type z) m t u
    → (q v : String) → Drifts q v t u
unfolding drift ledger departures
Applied-drift z m t u known all a q v =
    rw (a.moved q v, a.added)
      (elim (Bool-cases (m.product_id == q && m.warehouse_id == v)) [
        | inl s ↦ rw s (elim (Bool-cases (is_inbound m.movement_type)) [
          | inl i ↦ rw (i, all) (omega int_laws, omega int_laws)
          | inr o ↦
              let out : is_outbound m.movement_type ≡ true = rw o at known in
              let (low, high) = rounded-taken z in rw (o, out, all) (omega int_laws, omega int_laws)
        ])
        | inr s ↦ rw s (omega int_laws, omega int_laws)
      ])

module _ {F : Type 0} ⦃fl : Float F⦄ where
  pub apply_qty_sub-IsSteady :
      (p wh typ sub : String) (qty : F) (doc_type doc_id : String)
      → MovesStock typ
      → OnSuccess IsSteady (apply_qty_sub p wh typ sub qty doc_type doc_id)
  apply_qty_sub-IsSteady p wh typ sub qty doc_type doc_id known = record {
    at = λ w a v e.
        let m : MovementRow = movement_of p wh typ sub (to_numeric qty) doc_type doc_id in
        Applied-drift (fl.exact qty) m w.stock v.stock known refl (
          subst (λ x. AppliedOrFails (signed typ (fl.exact qty)) m w.stock (after x)) e
            (apply_qty_sub-AppliedOrFails p wh typ sub qty doc_type doc_id w));
  }

  apply_qty-IsSteady :
      (p wh typ : String) (qty : F) (doc_type doc_id : String)
      → MovesStock typ
      → OnSuccess IsSteady (apply_qty p wh typ qty doc_type doc_id)
  unfolding apply_qty
  apply_qty-IsSteady p wh typ qty doc_type doc_id known =
      apply_qty_sub-IsSteady p wh typ (default_subtype typ) qty doc_type doc_id known

-- What leaves the tables alone is steady.
reads-IsSteady : {F A : Type 0} (m : Action F A) → Always SameStock m → OnSuccess IsSteady m
reads-IsSteady m h =
    OnSuccess-Always m
      (record { at = λ w q v. subst (Drifts q v w.stock) (sym (h.at w)) (Drifts-same q v w.stock) })

fail_if-IsSteady : {F : Type 0} (b : Bool) (e : Error) → OnSuccess {F = F} IsSteady (fail_if b e)
fail_if-IsSteady b e = reads-IsSteady (fail_if b e) (Always-fail_if SameStock-preorder b e)

-- Whatever type `manual_type` returns is one of two, and moves stock.
manual_type-eq :
    (direction sub typ : String)
    → manual_type direction sub ≡ ok typ
    → (typ ≡ "MANUAL_IN") ⊎ (typ ≡ "MANUAL_OUT")
unfolding manual_type
manual_type-eq direction sub typ h = ground arith

manual_type-MovesStock :
    (direction sub typ : String) → manual_type direction sub ≡ ok typ → MovesStock typ
manual_type-MovesStock direction sub typ h = elim (manual_type-eq direction sub typ h) [
  | inl e ↦ rw e
  | inr e ↦ rw e
]

ruleset steady_rules = (
  success_rules, IsSteady-preorder, reads-IsSteady, fail_if-IsSteady, get_product-SameStock,
  get_warehouse-SameStock, has_movement-SameStock, list_assemblies-SameStock,
  to_stock_from_purchase-SameStock, new_uuid-SameStock, Always-pure, SameStock-preorder,
)

module _ {F : Type 0} ⦃fl : Float F⦄ where
  receive_line-IsSteady :
      (wh doc_type doc_id : String) (it : OrderItem F)
      → OnSuccess IsSteady (receive_line wh doc_type doc_id it)
  unfolding receive_line
  receive_line-IsSteady wh doc_type doc_id it =
      let known : MovesStock "PURCHASE_IN" = refl in
      search (steady_rules, apply_qty-IsSteady, known) depth 8

  pub receive_purchase-IsSteady :
      (order wh : String) (items : List (OrderItem F))
      → OnSuccess IsSteady (receive_purchase order wh items)
  unfolding receive_purchase
  receive_purchase-IsSteady order wh items = search (steady_rules, receive_line-IsSteady) depth 10

  sell_line-IsSteady :
      (wh invoice : String) (it : OrderItem F) → OnSuccess IsSteady (sell_line wh invoice it)
  unfolding sell_line
  sell_line-IsSteady wh invoice it =
      let known : MovesStock "SALE_OUT" = refl in
      search (steady_rules, apply_qty-IsSteady, known) depth 8

  pub sell_directly-IsSteady : (ev : InvoiceEvent F) → OnSuccess IsSteady (sell_directly ev)
  unfolding sell_directly
  sell_directly-IsSteady ev = search (steady_rules, sell_line-IsSteady) depth 10

  pub confirm_inbound-IsSteady : (ev : InvoiceEvent F) → OnSuccess IsSteady (confirm_inbound ev)
  unfolding confirm_inbound
  confirm_inbound-IsSteady ev = search (steady_rules, receive_line-IsSteady) depth 10

  lift_type-IsSteady :
      (direction sub : String) (k : String → Action F (Unit {0}))
      → ((typ : String) → MovesStock typ → OnSuccess IsSteady (k typ))
      → OnSuccess IsSteady (lift (manual_type direction sub) >>= k)
  lift_type-IsSteady direction sub k h = record {
    at = λ w a v e.
        let (typ, u, found, rest) = bind_ok (lift (manual_type direction sub)) k w a v e in
        let same : w ≡ u = ap (λ (x : Result String × World F). x.1) found in
        let here : manual_type direction sub ≡ ok typ =
          ap (λ (x : Result String × World F). x.0) found in
        rw same ((h typ (manual_type-MovesStock direction sub typ here)).at u a v rest);
  }

  pub create_movement-IsSteady :
      (p wh direction subtype : String) (qty : F)
      → OnSuccess IsSteady (create_movement p wh direction subtype qty)
  unfolding create_movement
  create_movement-IsSteady p wh direction subtype qty =
      OnSuccess-then IsSteady-preorder _ _ (fail_if-IsSteady _ _) (
        lift_type-IsSteady _ _ _
          (λ typ known. search (steady_rules, apply_qty_sub-IsSteady) depth 10))

  or_credit-IsSteady :
      (m credit : Action F (Unit {0}))
      → OnSuccess IsSteady m
      → OnSuccess IsSteady (or_credit m credit)
  unfolding or_credit
  or_credit-IsSteady m credit h = record { at = λ w a v e. go w a v (m w) refl e }
    where
      go :
          (w : World F) (a : Unit {0}) (v : World F) (x : Result (Unit {0}) × World F)
          → m w ≡ x
          → credited credit x ≡ (ok a, v)
          → IsSteady w v
      go w a v (ok b, u) first e = h.at w a v (first ∙ e)
      go w a v (err x, u) first e = cc

  pub transfer_stock-IsSteady :
      (p src dst : String) (qty : F) → OnSuccess IsSteady (transfer_stock p src dst qty)
  unfolding transfer_stock
  transfer_stock-IsSteady p src dst qty =
      let known : MovesStock "TRANSFER_OUT" = refl in
      search (steady_rules, apply_qty_sub-IsSteady, or_credit-IsSteady, known) depth 16
