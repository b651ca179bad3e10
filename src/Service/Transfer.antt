-- ===== src/Service/Transfer.antt =====
-- `TransferStock`: what a transfer that returns no error has done.
pub mod Taken
pub mod Undo
pub mod Undoes
use erp_stock.Base.{ℕ, String, ◌≡◌, refl, ap, subst, ◌∙◌, Bool, ◌∷◌}
use erp_stock.Base.Int.{pos, ◌+ℤ◌, ◌-ℤ◌}
use erp_stock.Float.Decimal.{taken}
use erp_stock.Float.{to_numeric, Float}
use erp_stock.Domain.Errors.{Result, ok, err, invalid}
use erp_stock.Domain.Types.{subtype_transfer}
use erp_stock.Store.Tables.{MovementRow, Tables}
use erp_stock.Store.Balances.Effects.{available, reserved, at_key}
use erp_stock.World.{World, Action, ◌>>◌, fail_if}
use erp_stock.World.Rules.{after, bind_ok}
use erp_stock.World.Always.{Always}
use erp_stock.World.SameStock.{
  SameStock, OnTables, OnTables-after_read, OnTables-then_read, new_uuid-SameStock, read_rules,
}
use erp_stock.Service.Reads.{get_product-SameStock, get_warehouse-SameStock}
use erp_stock.Service.Apply.{apply_qty_sub}
use erp_stock.Service.Apply.Effects.{
  signed, movement_of, Applied, AppliedOrFails, apply_qty_sub-AppliedOrFails,
}
use erp_stock.Service.Movements.{transfer_stock, or_credit, credited}

module _ {F : Type 0} ⦃fl : Float F⦄ (p src dst : String) (qty : F) where
  abbrev pub out_row : String → MovementRow
  out_row ref = movement_of p src "TRANSFER_OUT" subtype_transfer (to_numeric qty) "TRANSFER" ref

  abbrev pub in_row : String → MovementRow
  in_row ref = movement_of p dst "TRANSFER_IN" subtype_transfer (to_numeric qty) "TRANSFER" ref

  -- Both halves of a transfer.
  pub record Transferred (t u : Tables) : Type 0 where
    pub ref : String
    pub middle : Tables
    pub left : Applied (pos 0 -ℤ taken (fl.exact qty)) (out_row ref) t middle
    pub arrived : Applied (to_numeric qty) (in_row ref) middle u

  apply_ok :
      (wh typ ref : String) (w : World F) (a : Unit {0}) (v : World F)
      → apply_qty_sub p wh typ subtype_transfer qty "TRANSFER" ref w ≡ (ok a, v)
      → Applied
          (signed typ (fl.exact qty))
          (movement_of p wh typ subtype_transfer (to_numeric qty) "TRANSFER" ref)
          w.stock
          v.stock
  apply_ok wh typ ref w a v e =
      subst
        (λ x.
          AppliedOrFails (signed typ (fl.exact qty))
            (movement_of p wh typ subtype_transfer (to_numeric qty) "TRANSFER" ref) w.stock
            (after x))
        e (apply_qty_sub-AppliedOrFails p wh typ subtype_transfer qty "TRANSFER" ref w)

  credited_ok :
      (credit : Action F (Unit {0})) (x : Result (Unit {0}) × World F) (a : Unit {0}) (v : World F)
      → credited credit x ≡ (ok a, v)
      → x ≡ (ok a, v)
  credited_ok credit (ok b, u) a v e = e
  credited_ok credit (err b, u) a v e = cc

  second_half :
      (ref : String) (w v : World F) (a : Unit {0})
      → or_credit
          (apply_qty_sub p dst "TRANSFER_IN" subtype_transfer qty "TRANSFER" ref)
          (apply_qty_sub p src "TRANSFER_IN" subtype_transfer qty "TRANSFER" ref)
          w
        ≡ (ok a, v)
      → Applied (to_numeric qty) (in_row ref) w.stock v.stock
  unfolding or_credit
  second_half ref w v a e = apply_ok dst "TRANSFER_IN" ref w a v (
      credited_ok (apply_qty_sub p src "TRANSFER_IN" subtype_transfer qty "TRANSFER" ref)
        (apply_qty_sub p dst "TRANSFER_IN" subtype_transfer qty "TRANSFER" ref w) a v e)

  halves :
      (ref : String)
      → OnTables Transferred (do
        apply_qty_sub p src "TRANSFER_OUT" subtype_transfer qty "TRANSFER" ref
        or_credit
            (apply_qty_sub p dst "TRANSFER_IN" subtype_transfer qty "TRANSFER" ref)
            (apply_qty_sub p src "TRANSFER_IN" subtype_transfer qty "TRANSFER" ref))
  halves ref = record {
    at = λ w a u e.
        let (x, v, first, second) =
          bind_ok (apply_qty_sub p src "TRANSFER_OUT" subtype_transfer qty "TRANSFER" ref)
            (λ _.
              or_credit (apply_qty_sub p dst "TRANSFER_IN" subtype_transfer qty "TRANSFER" ref)
                (apply_qty_sub p src "TRANSFER_IN" subtype_transfer qty "TRANSFER" ref))
            w a u e in
        record {
          ref = ref;
          middle = v.stock;
          left = apply_ok src "TRANSFER_OUT" ref w x v first;
          arrived = second_half ref v u a second;
        };
  }

  guard-SameStock : (b : Bool) → Always {F = F} SameStock (fail_if b invalid)
  guard-SameStock b = search read_rules

  transfer_stock-Transferred : OnTables Transferred (transfer_stock p src dst qty)
  unfolding transfer_stock
  transfer_stock-Transferred =
      search
        (
          OnTables-after_read, OnTables-then_read, get_product-SameStock, get_warehouse-SameStock,
          new_uuid-SameStock, guard-SameStock, halves,
        )
        depth 12

-- A transfer that returns no error has taken its quantity in ten-thousandths, a half rounded down,
-- from the one warehouse and put it, a half rounded up, into the other; no other quantity and no reserved quantity has changed, and the two movements are recorded
-- under one reference, the one that arrives last.
pub transfer_moves :
    {F : Type 0} ⦃fl : Float F⦄ (p src dst : String) (qty : F) (w v : World F)
    → transfer_stock p src dst qty w ≡ (ok tt, v)
    → ((q u : String)
        → available q u v.stock
          ≡ available q u w.stock
            +ℤ at_key p src q u (pos 0 -ℤ taken (fl.exact qty))
            +ℤ at_key p dst q u (to_numeric qty))
      × ((q u : String) → reserved q u v.stock ≡ reserved q u w.stock)
      × ((ref : String) × (stamp : ℕ) × (later : ℕ) × (v.stock.movements
            ≡ record (in_row p src dst qty ref) { created_at = later }
              ∷ record (out_row p src dst qty ref) { created_at = stamp }
              ∷ w.stock.movements))
transfer_moves p src dst qty w v e =
    let done = (transfer_stock-Transferred p src dst qty).at w tt v e in
    (
      λ q u. rw (done.arrived.moved q u, done.left.moved q u) refl,
      λ q u. done.arrived.held q u ∙ done.left.held q u,
      (
        done.ref,
        w.stock.clock,
        done.middle.clock,
        done.arrived.added
            ∙ ap
                (λ ms.
                  record (in_row p src dst qty done.ref) { created_at = done.middle.clock } ∷ ms)
                done.left.added,
      ),
    )
