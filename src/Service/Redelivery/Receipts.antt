-- ===== src/Service/Redelivery/Receipts.antt =====
-- A purchase that was received is received once.
use erp_stock.Base.{
  some, String, ◌==◌, eq_refl, ◌≡◌, refl, sym, ap, ◌∙◌, subst, Bool, true, false, not, ◌||◌,
  Bool-cases, inl, inr, List, [], ◌∷◌, if◌then◌else◌, arith,
}
use erp_stock.Base.Int.{ℤ}
use erp_stock.Float.{to_numeric, Float}
use erp_stock.Domain.Errors.{Result, ok, Error, invalid}
use erp_stock.Domain.Types.{OrderItem}
use erp_stock.Store.Tables.{Tables}
use erp_stock.Store.Movements
use erp_stock.Store.Movements.{nil_if_empty}
use erp_stock.World.{World, Action, pure, fail_if, ◌>>=◌, ◌>>◌, for_each}
use erp_stock.World.Rules.{bind_ok, bind_rule, query_ok, after}
use erp_stock.World.Always.{Always, Always-for_each, Always-fail_if}
use erp_stock.World.SameStock.{SameStock, SameStock-preorder, OnTables, OnTables-after_read}
use erp_stock.Repo
use erp_stock.Service.Apply.{apply_qty, default_subtype}
use erp_stock.Service.Apply.Effects.{
  movement_of, Applied, AppliedOrFails, apply_qty_sub-AppliedOrFails,
}
use erp_stock.Service.Movements.{receive_line, receive_purchase, to_stock_from_purchase}
use erp_stock.Service.Reads.{
  has_movement-SameStock, get_warehouse-SameStock, to_stock_from_purchase-SameStock,
}
use erp_stock.Service.Frame.{pre_frame}
use erp_stock.Service.Frame.Requests.{receive_line_frame, serve_frame}
use erp_stock.Service.Request.{Request, serve}
use erp_stock.Service.Redelivery.{KeepsHistory, KeepsHistory-Respects, Remembers}

-- The history has a receipt for the document.
abbrev Received : String → String → Tables → Type 0
Received doc_type doc t = Movements.has_movement doc_type doc "PURCHASE_IN" t.movements ≡ true

nil_if_empty-some : (doc : String) → (doc == "") ≡ false → nil_if_empty doc ≡ some doc
nil_if_empty-some doc e = rw e refl

Applied-Received :
    (p wh sub doc_type doc : String) (d z : ℤ) (t u : Tables)
    → (doc == "") ≡ false
    → Applied d (movement_of p wh "PURCHASE_IN" sub z doc_type doc) t u
    → Received doc_type doc u
unfolding Movements.has_movement
Applied-Received p wh sub doc_type doc d z t u named a =
    rw (a.added, Movements.has_movement, nil_if_empty-some doc named, eq_refl doc_type, eq_refl doc)
      refl

module _ {F : Type 0} ⦃fl : Float F⦄ where
  -- Some line is not skipped.
  abbrev pub delivers : List (OrderItem F) → Bool
  delivers [] = false
  delivers (it ∷ items) = not (Repo.is_void_line it.product_id it.quantity) || delivers items

-- A read before something that leaves the tables alone.
after_read_from :
    {F A B : Type 0} (m : Action F A) (f : A → Action F B) (w v : World F)
    → v.stock ≡ w.stock
    → Always SameStock m
    → ((a : A) (u : World F) → u.stock ≡ w.stock → SameStock w (f a u).1)
    → SameStock w ((m >>= f) v).1
after_read_from {F} {A} {B} m f w v same hm hf =
    bind_rule (λ (x : Result B × World F). SameStock w x.1) m f v
      (λ a u e. hf a u (subst (λ (x : Result A × World F). x.1.stock ≡ v.stock) e (hm.at v) ∙ same))
      (λ x u e. subst (λ (y : Result A × World F). y.1.stock ≡ v.stock) e (hm.at v) ∙ same)

fail_if_ok :
    {F : Type 0} (b : Bool) (x : Error) (w : World F) (a : Unit {0}) (v : World F)
    → fail_if b x w ≡ (ok a, v)
    → (b ≡ false) × (v ≡ w)
fail_if_ok b x w a v e = ground arith

neither : (a b : Bool) → (a || b) ≡ false → a ≡ false
neither a b h = ground arith

module _ {F : Type 0} ⦃fl : Float F⦄ (doc_type doc : String) (named : (doc == "") ≡ false) where
  apply_qty-Received :
      (p wh : String) (qty : F)
      → OnTables (λ t u. Received doc_type doc u) (apply_qty p wh "PURCHASE_IN" qty doc_type doc)
  unfolding apply_qty
  apply_qty-Received p wh qty = record {
    at = λ w a v e.
        let m =
          movement_of p wh "PURCHASE_IN" (default_subtype "PURCHASE_IN") (to_numeric qty) doc_type
            doc in
        Applied-Received p wh (default_subtype "PURCHASE_IN") doc_type doc (to_numeric qty)
          (to_numeric qty) w.stock v.stock named
          (subst (λ x. AppliedOrFails (to_numeric qty) m w.stock (after x)) e
            (apply_qty_sub-AppliedOrFails p wh "PURCHASE_IN" (default_subtype "PURCHASE_IN") qty
              doc_type doc w));
  }

  receive_line-Received :
      (wh : String) (it : OrderItem F)
      → Repo.is_void_line it.product_id it.quantity ≡ false
      → OnTables (λ t u. Received doc_type doc u) (receive_line wh doc_type doc it)
  unfolding receive_line
  receive_line-Received wh it counts = rw counts (
      OnTables-after_read (to_stock_from_purchase it.product_id it.quantity) _
        (to_stock_from_purchase-SameStock it.product_id it.quantity)
        (λ qty. apply_qty-Received it.product_id wh qty))

  loop_frame :
      (wh : String) (items : List (OrderItem F))
      → Always KeepsHistory (for_each (receive_line wh doc_type doc) items)
  loop_frame wh items =
      Always-for_each (receive_line wh doc_type doc) items pre_frame
        (λ it. receive_line_frame {R = KeepsHistory} wh doc_type doc it)

  for_each-Received :
      (wh : String) (items : List (OrderItem F)) (w : World F) (a : Unit {0}) (v : World F)
      → delivers items ≡ true
      → for_each (receive_line wh doc_type doc) items w ≡ (ok a, v)
      → Received doc_type doc v.stock
  unfolding for_each Remembers
  for_each-Received wh [] w a v some_ e = let stop : false ≡ true = some_ in cc
  for_each-Received wh (it ∷ items) w a v some_ e =
      let (x, u, first, rest) =
        bind_ok (receive_line wh doc_type doc it)
          (λ _. for_each (receive_line wh doc_type doc) items) w a v e in
      elim (Bool-cases (Repo.is_void_line it.product_id it.quantity)) [
        | inl void ↦ for_each-Received wh items u a v (rw void at some_) rest
        | inr counts ↦
            let here = (receive_line-Received wh it counts).at w x u first in
            let kept = (loop_frame wh items).at u doc_type doc "PURCHASE_IN" here in
            subst (λ (y : Result (Unit {0}) × World F). Received doc_type doc y.1.stock) rest kept
      ]

  -- What either branch of the test for an earlier receipt leaves.
  answered :
      (wh : String) (items : List (OrderItem F)) (done : Bool) (w : World F) (a : Unit {0})
      (v : World F)
      → delivers items ≡ true
      → done ≡ Movements.has_movement doc_type doc "PURCHASE_IN" w.stock.movements
      → (if done then pure tt else for_each (receive_line wh doc_type doc) items) w ≡ (ok a, v)
      → Received doc_type doc v.stock
  answered wh items true w a v some_ found e =
      let same : w ≡ v = ap (λ (y : Result (Unit {0}) × World F). y.1) e in
      subst (λ u. Received doc_type doc u.stock) same (sym found)
  answered wh items false w a v some_ found e = for_each-Received wh items w a v some_ e

module _ {F : Type 0} ⦃fl : Float F⦄ (order wh : String) (items : List (OrderItem F)) where
  abbrev lines : Bool → Action F (Unit {0})
  lines done = if done then pure tt else for_each (receive_line wh "PURCHASE_ORDER" order) items

  abbrev tested : Action F (Unit {0})
  tested = Repo.has_movement "PURCHASE_ORDER" order "PURCHASE_IN" >>= lines

  receive_purchase-Received :
      (w v : World F)
      → delivers items ≡ true
      → receive_purchase order wh items w ≡ (ok tt, v)
      → Received "PURCHASE_ORDER" order v.stock
  unfolding receive_purchase Repo.has_movement
  receive_purchase-Received w v some_ e =
      let (x, w1, guard, e1) =
        bind_ok (fail_if (order == "" || wh == "") invalid) (λ _. Repo.get_warehouse wh >> tested) w
          tt v e in
      let (y, w2, found, e2) = bind_ok (Repo.get_warehouse wh) (λ _. tested) w1 tt v e1 in
      let (done, w3, asked, e3) =
        bind_ok (Repo.has_movement "PURCHASE_ORDER" order "PURCHASE_IN") lines w2 tt v e2 in
      let answer =
        query_ok (λ t. Movements.has_movement "PURCHASE_ORDER" order "PURCHASE_IN" t.movements) w2
          done w3 asked in
      let named = neither (order == "") (wh == "") ((fail_if_ok _ invalid w x w1 guard).0) in
      answered "PURCHASE_ORDER" order named wh items done w3 tt v some_
        (answer.0
          ∙ ap (λ t. Movements.has_movement "PURCHASE_ORDER" order "PURCHASE_IN" t.movements)
              (sym answer.1))
        e3

  tested_again : (w : World F) → Received "PURCHASE_ORDER" order w.stock → SameStock w (tested w).1
  unfolding Repo.has_movement
  tested_again w had =
      bind_rule (λ x. SameStock w x.1) (Repo.has_movement "PURCHASE_ORDER" order "PURCHASE_IN")
        lines w
        (λ done v asked.
          let answer =
            query_ok (λ t. Movements.has_movement "PURCHASE_ORDER" order "PURCHASE_IN" t.movements)
              w done v asked in
          let yes : done ≡ true = answer.0 ∙ had in rw yes (answer.1))
        (λ e v asked.
          subst (λ (x : Result Bool × World F). SameStock w x.1) asked
            ((has_movement-SameStock "PURCHASE_ORDER" order "PURCHASE_IN").at w))

  receive_again :
      (w : World F)
      → Received "PURCHASE_ORDER" order w.stock
      → SameStock w (receive_purchase order wh items w).1
  unfolding receive_purchase
  receive_again w had =
      after_read_from (fail_if (order == "" || wh == "") invalid)
        (λ _. Repo.get_warehouse wh >> tested) w w refl
        (Always-fail_if SameStock-preorder _ invalid)
        (λ x v same.
          after_read_from (Repo.get_warehouse wh) (λ _. tested) w v same
            (get_warehouse-SameStock wh)
            (λ y u same'.
              tested_again u (subst (λ t. Received "PURCHASE_ORDER" order t) (sym same') had)
              ∙ same'))

-- A purchase order that was received, with at least one line that counts, is received once: whatever
-- requests come between and whatever calls fail, receiving it again, with any lines and into any
-- warehouse, leaves the stock tables as they are.
pub received_once :
    {F : Type 0} ⦃fl : Float F⦄ (order wh : String) (items : List (OrderItem F)) (w v : World F)
    (rs : List (Request F)) (again_wh : String) (again : List (OrderItem F))
    → delivers items ≡ true
    → receive_purchase order wh items w ≡ (ok tt, v)
    → (receive_purchase order again_wh again (serve rs v)).1.stock ≡ (serve rs v).stock
unfolding Remembers
received_once order wh items w v rs again_wh again some_ e =
    receive_again order again_wh again (serve rs v) (
      serve_frame KeepsHistory rs v "PURCHASE_ORDER" order "PURCHASE_IN"
        (receive_purchase-Received order wh items w v some_ e))
