-- ===== src/Service/Frame.antt =====
-- Relations between the worlds before and after that every part of a request respects, and with
-- them every request. `Respects` names the parts: the calls, the statements, the sections under a
-- lock, the transactions, and the changes outside the stock tables.
pub mod Requests
pub mod SameCatalog
use erp_stock.Base.{String, Option, List, [], ◌∷◌, if◌then◌else◌}
use erp_stock.Base.Int.{ℤ}
use erp_stock.Float.Decimal.{Numeric}
use erp_stock.Float.{Float}
use erp_stock.Domain.Errors.{Result, ok, err}
use erp_stock.Domain.Types.{Balance, OrderEvent}
use erp_stock.Store.Tables.{MovementRow, Tables, Statement}
use erp_stock.Store.Balances
use erp_stock.Store.Movements
use erp_stock.Store.Reservations.{recalc_reserved, upsert_reservation, release_others, confirm_open}
use erp_stock.World.{
  World, Action, ◌>>=◌, ◌>>◌, call, on_stock, acquire, deferring, unlock, new_uuid, transaction,
  modify, push_cached, push_published,
}
use erp_stock.World.Always.{Always, IsPreorder, always_rules}
use erp_stock.Repo
use erp_stock.Service.Lookup.{get_product, list_assemblies}
use erp_stock.Service.Apply.{
  default_subtype, apply_qty_sub, apply_qty, change_balance, record_movement, refresh_cache,
  set_cached, cache_result,
}
use erp_stock.Service.Movements.{create_movement, transfer_stock, or_credit, credited}

-- Each statement of the repository keeps the relation.
pub record StatementsRespect {F : Type 0} (R : World F → World F → Type 0) : Type 0 where
  pub on_upsert : (p w : String) (z : ℤ) → Always R (on_stock (Balances.upsert_balance p w z))
  pub on_add : (p w : String) (z : Numeric) → Always R (on_stock (Balances.add_available p w z))
  pub on_remove :
      (p w : String) (z : Numeric) → Always R (on_stock (Balances.remove_available p w z))
  pub on_sale : (p w : String) (z : Numeric) → Always R (on_stock (Balances.confirm_sale p w z))
  pub on_movement : (m : MovementRow) → Always R (on_stock (Movements.insert_movement m))
  pub on_recalc : (ids : List String) → Always R (on_stock (recalc_reserved ids))
  pub on_line :
      (o p : String) (wh : Option String) (z : ℤ)
      → Always R (on_stock (upsert_reservation o p wh z))
  pub on_release : (o : String) (keep : List String) → Always R (on_stock (release_others o keep))
  pub on_confirm : (o : String) → Always R (on_stock (confirm_open o))

pub record Respects {F : Type 0} (R : World F → World F → Type 0) : Type 1 where
  pub pre : IsPreorder R
  pub statements : StatementsRespect R
  pub on_call : Always R call
  pub on_uuid : Always R new_uuid
  pub on_cache : (b : Balance F) → Always R (modify (push_cached b))
  pub on_publish : (ev : OrderEvent F) → Always R (modify (push_published ev))
  pub on_lock :
      {A : Type 0} (k : String) (m : Action F A)
      → Always R m
      → Always R (acquire k >> deferring (unlock k) m)
  pub on_transaction : {A : Type 0} (m : Action F A) → Always R m → Always R (transaction m)

module _ {F : Type 0} {R : World F → World F → Type 0} ⦃h : Respects R⦄ where
  pub pre_frame : IsPreorder R
  pre_frame = h.pre

  pub call_frame : Always R call
  call_frame = h.on_call

  pub upsert_frame : (p w : String) (z : ℤ) → Always R (on_stock (Balances.upsert_balance p w z))
  upsert_frame = h.statements.on_upsert

  pub add_frame : (p w : String) (z : Numeric) → Always R (on_stock (Balances.add_available p w z))
  add_frame = h.statements.on_add

  pub remove_frame :
      (p w : String) (z : Numeric) → Always R (on_stock (Balances.remove_available p w z))
  remove_frame = h.statements.on_remove

  pub sale_frame : (p w : String) (z : Numeric) → Always R (on_stock (Balances.confirm_sale p w z))
  sale_frame = h.statements.on_sale

  pub movement_frame : (m : MovementRow) → Always R (on_stock (Movements.insert_movement m))
  movement_frame = h.statements.on_movement

  pub recalc_frame : (ids : List String) → Always R (on_stock (recalc_reserved ids))
  recalc_frame = h.statements.on_recalc

  pub line_frame :
      (o p : String) (wh : Option String) (z : ℤ)
      → Always R (on_stock (upsert_reservation o p wh z))
  line_frame = h.statements.on_line

  pub release_frame :
      (o : String) (keep : List String) → Always R (on_stock (release_others o keep))
  release_frame = h.statements.on_release

  pub confirm_frame : (o : String) → Always R (on_stock (confirm_open o))
  confirm_frame = h.statements.on_confirm

  pub uuid_frame : Always R new_uuid
  uuid_frame = h.on_uuid

  pub cache_frame : (b : Balance F) → Always R (modify (push_cached b))
  cache_frame = h.on_cache

  pub publish_frame : (ev : OrderEvent F) → Always R (modify (push_published ev))
  publish_frame = h.on_publish

  pub lock_frame :
      {A : Type 0} (k : String) (m : Action F A)
      → Always R m
      → Always R (acquire k >> deferring (unlock k) m)
  lock_frame k m = h.on_lock k m

  pub transaction_frame : {A : Type 0} (m : Action F A) → Always R m → Always R (transaction m)
  transaction_frame m = h.on_transaction m

pub ruleset frame_rules = (
  always_rules, pre_frame, call_frame, upsert_frame, add_frame, remove_frame, sale_frame,
  movement_frame, recalc_frame, line_frame, release_frame, confirm_frame, uuid_frame, cache_frame,
  publish_frame, lock_frame, transaction_frame,
)

module _ {F : Type 0} ⦃fl : Float F⦄ {R : World F → World F → Type 0} ⦃h : Respects R⦄ where
  pub get_warehouse_frame : (id : String) → Always R (Repo.get_warehouse id)
  unfolding Repo.get_warehouse
  get_warehouse_frame id = search frame_rules

  pub change_balance_frame : (typ p wh : String) (qty : F) → Always R (change_balance typ p wh qty)
  unfolding change_balance Repo.add_available Repo.remove_available
  change_balance_frame typ p wh qty = search frame_rules

  pub record_movement_frame :
      (p wh typ sub : String) (qty : F) (doc_type doc_id : String)
      → Always R (record_movement p wh typ sub qty doc_type doc_id)
  unfolding record_movement Repo.insert_movement
  record_movement_frame p wh typ sub qty doc_type doc_id = search frame_rules

  get_balance_frame : (p wh : String) → Always R (Repo.get_balance p wh)
  unfolding Repo.get_balance
  get_balance_frame p wh = search frame_rules

  pub set_cached_frame : (b : Balance F) → Always R (set_cached b)
  unfolding set_cached
  set_cached_frame b = search frame_rules

  pub refresh_cache_frame : (p wh : String) → Always R (refresh_cache p wh)
  unfolding refresh_cache
  refresh_cache_frame p wh = record {
    at = λ w. go w (Repo.get_balance p wh w) ((get_balance_frame p wh).at w);
  }
    where
      go : (w : World F) (x : Result (Balance F) × World F) → R w x.1 → R w (cache_result x).1
      go w (ok b, v) r = h.pre.chain w v (set_cached b v).1 r ((set_cached_frame b).at v)
      go w (err e, v) r = r

  pub apply_qty_sub_frame :
      (p wh typ sub : String) (qty : F) (doc_type doc_id : String)
      → Always R (apply_qty_sub p wh typ sub qty doc_type doc_id)
  unfolding apply_qty_sub
  apply_qty_sub_frame p wh typ sub qty doc_type doc_id =
      search (frame_rules, change_balance_frame, record_movement_frame, refresh_cache_frame) depth 8

  pub apply_qty_frame :
      (p wh typ : String) (qty : F) (doc_type doc_id : String)
      → Always R (apply_qty p wh typ qty doc_type doc_id)
  unfolding apply_qty
  apply_qty_frame p wh typ qty doc_type doc_id =
      apply_qty_sub_frame p wh typ (default_subtype typ) qty doc_type doc_id

  pub get_product_frame : (id : String) → Always R (get_product id)
  unfolding get_product
  get_product_frame id = search frame_rules

  pub list_assemblies_frame : Always R list_assemblies
  unfolding list_assemblies
  list_assemblies_frame = search frame_rules

  pub create_movement_frame :
      (p wh direction subtype : String) (qty : F)
      → Always R (create_movement p wh direction subtype qty)
  unfolding create_movement
  create_movement_frame p wh direction subtype qty =
      search (frame_rules, get_product_frame, get_warehouse_frame, apply_qty_sub_frame) depth 12

  pub or_credit_frame :
      (m credit : Action F (Unit {0}))
      → Always R m
      → Always R credit
      → Always R (or_credit m credit)
  unfolding or_credit
  or_credit_frame m credit hm hc = record { at = λ w. go w (m w) (hm.at w) }
    where
      go : (w : World F) (x : Result (Unit {0}) × World F) → R w x.1 → R w (credited credit x).1
      go w (ok a, v) e = e
      go w (err x, v) e = h.pre.chain w v (credit v).1 e (hc.at v)

  pub transfer_stock_frame :
      (p src dst : String) (qty : F) → Always R (transfer_stock p src dst qty)
  unfolding transfer_stock
  transfer_stock_frame p src dst qty =
      search
        (
          frame_rules, get_product_frame, get_warehouse_frame, apply_qty_sub_frame, uuid_frame,
          or_credit_frame,
        )
        depth 20
