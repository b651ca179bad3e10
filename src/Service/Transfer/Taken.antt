-- ===== src/Service/Transfer/Taken.antt =====
-- What the first half of a transfer that returns no error has done to the balances.
use erp_stock.Base.{String, ◌≡◌, subst}
use erp_stock.Float.Decimal.{Numeric}
use erp_stock.Float.{to_numeric, Float}
use erp_stock.Domain.Errors.{Result, ok, err}
use erp_stock.Store.Tables.{Tables}
use erp_stock.Store.Balances
use erp_stock.Store.Movements.Effects.{Records}
use erp_stock.World.{acquire, deferring, unlock, stock_key, World, Action, ◌>>◌}
use erp_stock.World.Rules.{acquire_stock, after, bind_rule, exec_ok}
use erp_stock.Repo
use erp_stock.Service.Apply.{record_movement, refresh_cache, apply_qty_sub, change_balance}
use erp_stock.Service.Apply.Effects.{record_movement-RecordsOrFails, refresh_cache_lem, movement_of}
use erp_stock.Service.Calm.{StaysCalm-Respects}
use erp_stock.Service.Constraints.{KeepsValid-Respects}

-- What the first half has done, where it returned no error: a removal, and changes outside the
-- balances.
abbrev pub Took : String → String → Numeric → Tables → Result (Unit {0}) × Tables → Type 0
Took p wh z t (ok _, u) =
    (m : Tables) × (Balances.remove_available p wh z t ≡ (ok tt, m)) × (u.balances ≡ m.balances)
Took p wh z t (err _, u) = Unit

module _ {F : Type 0} ⦃fl : Float F⦄ (p wh sub : String) (qty : F) (doc_type doc_id : String) where
  record_refresh-Took :
      (t : Tables) (s : World F)
      → Balances.remove_available p wh (fl.exact qty) t ≡ (ok tt, s.stock)
      → Took p wh (fl.exact qty) t (
          after
            ((record_movement p wh "TRANSFER_OUT" sub qty doc_type doc_id >> refresh_cache p wh) s))
  record_refresh-Took t s removed =
      bind_rule (λ x. Took p wh (fl.exact qty) t (after x))
        (record_movement p wh "TRANSFER_OUT" sub qty doc_type doc_id) (λ _. refresh_cache p wh) s
        (λ a r e.
          let rc : Records (movement_of p wh "TRANSFER_OUT" sub (to_numeric qty) doc_type doc_id)
              s.stock r.stock =
            rw e at
              (record_movement-RecordsOrFails p wh "TRANSFER_OUT" sub qty doc_type doc_id s) in
          let (done, same) = refresh_cache_lem p wh r in
          rw (done, same) (s.stock, removed, rc.same_balances))
        (λ x r e. tt)

  abbrev steps : Action F (Unit {0})
  steps = do
    change_balance "TRANSFER_OUT" p wh qty
    record_movement p wh "TRANSFER_OUT" sub qty doc_type doc_id
    refresh_cache p wh

  steps-Took : (v : World F) → Took p wh (fl.exact qty) v.stock (after (steps v))
  unfolding change_balance Repo.remove_available
  steps-Took v =
      bind_rule (λ x. Took p wh (fl.exact qty) v.stock (after x))
        (change_balance "TRANSFER_OUT" p wh qty)
        (λ _. record_movement p wh "TRANSFER_OUT" sub qty doc_type doc_id >> refresh_cache p wh) v
        (λ a s e.
          record_refresh-Took v.stock s
            (exec_ok (Balances.remove_available p wh (fl.exact qty)) v a s e))
        (λ x s e. tt)

  pub apply_qty_sub-Took :
      (w : World F)
      → Took p wh
          (fl.exact qty)
          w.stock
          (after (apply_qty_sub p wh "TRANSFER_OUT" sub qty doc_type doc_id w))
  unfolding apply_qty_sub unlock
  apply_qty_sub-Took w =
      let kept = acquire_stock (stock_key p wh) w in
      bind_rule (λ x. Took p wh (fl.exact qty) w.stock (after x)) (acquire (stock_key p wh))
        (λ _. deferring (unlock (stock_key p wh)) steps) w
        (λ a v e.
          let same : v.stock ≡ w.stock = rw e at kept in
          subst (λ t. Took p wh (fl.exact qty) t (after (steps v))) same (steps-Took v))
        (λ x v e. tt)
