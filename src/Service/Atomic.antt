-- ===== src/Service/Atomic.antt =====
-- `applyQtySub` while no call fails, for texts that the columns take: it moves the balance and records
-- the movement, or does neither.
use erp_stock.Base.{
  false, String, ◌≡◌, refl, sym, ap, ◌∙◌, subst, true, ◌⊎◌, Bool-cases, inl, inr, [], ◌∷◌,
}
use erp_stock.Base.Int.{ℤ, pos, ◌≤ℤ◌}
use erp_stock.Float.{to_numeric, Float}
use erp_stock.Domain.Errors.{Result, ok, err, Error}
use erp_stock.Store.Tables.{MovementRow, Tables, numeric_ok, warehouse_exists}
use erp_stock.Store.Balances
use erp_stock.Store.Balances.Effects.{Shifts, ShiftsOrFails}
use erp_stock.Store.Movements
use erp_stock.Store.Room.{add_available-room, remove_available-room}
use erp_stock.Store.Valid.{IsValid}
use erp_stock.World.{World, Action, ◌>>◌, unlock, acquire, lock_result, is_held, stock_key, exec}
use erp_stock.World.Rules.{bind_rule, exec_ok, exec_calm, acquire_calm, after}
use erp_stock.Repo
use erp_stock.Service.Apply.{
  is_inbound, change_balance, record_movement, refresh_cache, apply_qty_sub,
}
use erp_stock.Service.Apply.Effects.{
  signed, movement_of, change_balance-ShiftsOrFails, refresh_cache_lem,
}
use erp_stock.Service.Frame.{change_balance_frame}
use erp_stock.Service.Calm.{StaysCalm, StaysCalm-Respects}

-- A row as `applyQtySub` writes it fits its table.
abbrev Fits : String → ℤ → Tables → Type 0
Fits wh z t = (numeric_ok z ≡ true) × (warehouse_exists wh t.warehouses ≡ true)

insert_movement-ok :
    (m : MovementRow) (t : Tables)
    → Fits m.warehouse_id m.quantity t
    → (Movements.insert_movement m t).0 ≡ ok tt
unfolding Movements.insert_movement
insert_movement-ok m t (fits, known) = rw (fits, known) refl

module _ {F : Type 0} ⦃fl : Float F⦄ (typ p wh : String) (qty : F)
    (sign : pos 0 ≤ℤ to_numeric qty) where
  -- Where the balance has changed, the movement fits.
  change_balance-Fits :
      (w v : World F) (a : Unit {0})
      → IsValid w.stock
      → change_balance typ p wh qty w ≡ (ok a, v)
      → Fits wh (to_numeric qty) w.stock
  unfolding change_balance Repo.add_available Repo.remove_available
  change_balance-Fits w v a valid e = elim (Bool-cases (is_inbound typ)) [
    | inl inbound ↦ add_available-room p wh (fl.exact qty) w.stock valid (
        ap (λ (x : Result (Unit {0}) × Tables). x.0)
          (exec_ok (Balances.add_available p wh (fl.exact qty)) w a v (rw inbound at e)))
    | inr outbound ↦ remove_available-room p wh (fl.exact qty) w.stock sign valid (
        ap (λ (x : Result (Unit {0}) × Tables). x.0)
          (exec_ok (Balances.remove_available p wh (fl.exact qty)) w a v (rw outbound at e)))
  ]

  change_balance-Shifts :
      (w v : World F) (a : Unit {0})
      → change_balance typ p wh qty w ≡ (ok a, v)
      → Shifts p wh (signed typ (fl.exact qty)) (pos 0) w.stock v.stock
  change_balance-Shifts w v a e =
      subst (λ x. ShiftsOrFails p wh (signed typ (fl.exact qty)) (pos 0) w.stock (after x)) e
        (change_balance-ShiftsOrFails typ p wh qty w)

  module _ (sub doc_type doc_id : String) where
    -- It returns no error, or the tables are as in `t`.
    abbrev Settles : Tables → Result (Unit {0}) × World F → Type 0
    Settles t x = (x.0 ≡ ok tt) ⊎ (x.1.stock ≡ t)

    recorded_calm :
        (v : World F)
        → v.faults ≡ []
        → Fits wh (to_numeric qty) v.stock
        → ((record_movement p wh typ sub qty doc_type doc_id >> refresh_cache p wh) v).0 ≡ ok tt
    unfolding record_movement Repo.insert_movement
    recorded_calm v calm fits =
        let m = movement_of p wh typ sub (to_numeric qty) doc_type doc_id in
        let good : (exec (Movements.insert_movement m) v).0 ≡ ok tt =
          ap (λ (x : Result (Unit {0}) × World F). x.0)
            (exec_calm (Movements.insert_movement m) v calm)
          ∙ insert_movement-ok m v.stock fits in
        bind_rule (λ y. y.0 ≡ ok tt) (record_movement p wh typ sub qty doc_type doc_id)
          (λ _. refresh_cache p wh) v (λ a u e. (refresh_cache_lem p wh u).0)
          (λ x u e.
            let bad : (exec (Movements.insert_movement m) v).0 ≡ err x =
              ap (λ (y : Result (Unit {0}) × World F). y.0) e in
            cc)

    abbrev steps : Action F (Unit {0})
    steps = do
      change_balance typ p wh qty
      record_movement p wh typ sub qty doc_type doc_id
      refresh_cache p wh

    -- After a change of the balance that succeeded.
    rest_calm :
        (v u : World F) (a : Unit {0})
        → v.faults ≡ []
        → IsValid v.stock
        → change_balance typ p wh qty v ≡ (ok a, u)
        → ((record_movement p wh typ sub qty doc_type doc_id >> refresh_cache p wh) u).0 ≡ ok tt
    rest_calm v u a calm valid e =
        let (still, _) =
          subst (λ (x : Result (Unit {0}) × World F). StaysCalm v x.1) e
            ((change_balance_frame {R = StaysCalm} typ p wh qty).at v) calm in
        let (number, known) = change_balance-Fits v u a valid e in
        let same = (change_balance-Shifts v u a e).same_warehouses in
        recorded_calm u still (number, subst (λ ws. warehouse_exists wh ws ≡ true) (sym same) known)

    steps_calm : (v : World F) → v.faults ≡ [] → IsValid v.stock → Settles v.stock (steps v)
    steps_calm v calm valid =
        bind_rule (Settles v.stock) (change_balance typ p wh qty)
          (λ _. record_movement p wh typ sub qty doc_type doc_id >> refresh_cache p wh) v
          (λ a u e. inl (rest_calm v u a calm valid e))
          (λ x u e. inr (
            subst (λ y. ShiftsOrFails p wh (signed typ (fl.exact qty)) (pos 0) v.stock (after y)) e
              (change_balance-ShiftsOrFails typ p wh qty v)))

    -- It returns no error where the change of the balance does not.
    steps_ok :
        (v : World F)
        → v.faults ≡ []
        → IsValid v.stock
        → (change_balance typ p wh qty v).0 ≡ ok tt
        → (steps v).0 ≡ ok tt
    steps_ok v calm valid done =
        bind_rule (λ y. y.0 ≡ ok tt) (change_balance typ p wh qty)
          (λ _. record_movement p wh typ sub qty doc_type doc_id >> refresh_cache p wh) v
          (λ a u e. rest_calm v u a calm valid e)
          (λ x u e.
            let bad : (change_balance typ p wh qty v).0 ≡ err x =
              ap (λ (y : Result (Unit {0}) × World F). y.0) e in
            cc)

    pub apply_qty_sub_ok :
        (w : World F)
        → w.faults ≡ []
        → is_held (stock_key p wh) w.locks ≡ false
        → IsValid w.stock
        → ((u : World F)
            → u.faults ≡ []
            → u.stock ≡ w.stock
            → (change_balance typ p wh qty u).0 ≡ ok tt)
        → (apply_qty_sub p wh typ sub qty doc_type doc_id w).0 ≡ ok tt
    unfolding apply_qty_sub unlock
    apply_qty_sub_ok w calm free valid done =
        let start : World F = record w { locks = stock_key p wh ∷ w.locks } in
        rw (acquire_calm (stock_key p wh) w calm free)
          (steps_ok start calm valid (done start calm refl))

    locked_calm :
        (w : World F)
        → w.faults ≡ []
        → IsValid w.stock
        → Settles w.stock (apply_qty_sub p wh typ sub qty doc_type doc_id w)
    unfolding apply_qty_sub unlock acquire lock_result
    locked_calm w calm valid =
        let start : World F = record w { locks = stock_key p wh ∷ w.locks } in
        elim (Bool-cases (is_held (stock_key p wh) w.locks)) [
          | inl taken ↦ rw (acquire, lock_result, taken) (inr refl)
          | inr free ↦ rw (acquire_calm (stock_key p wh) w calm free) (steps_calm start calm valid)
        ]

-- On tables that meet their constraints, with a quantity that is not negative and while no call
-- fails, `applyQtySub` that returns an error leaves the stock tables as they were. The types of the
-- text columns are no part of the tables here: for a document id that is no UUID the insert of the
-- movement fails in the database. Transfers draw their reference as a UUID.
pub apply_qty_sub_atomic :
    {F : Type 0} ⦃fl : Float F⦄ (p wh typ sub : String) (qty : F) (doc_type doc_id : String)
    (w v : World F) (x : Error)
    → w.faults ≡ []
    → IsValid w.stock
    → pos 0 ≤ℤ to_numeric qty
    → apply_qty_sub p wh typ sub qty doc_type doc_id w ≡ (err x, v)
    → v.stock ≡ w.stock
apply_qty_sub_atomic {F} p wh typ sub qty doc_type doc_id w v x calm valid sign e = go (
    subst (λ y. Settles typ p wh qty sign sub doc_type doc_id w.stock y) e
      (locked_calm typ p wh qty sign sub doc_type doc_id w calm valid))
  where
    go : (◌≡◌ {A = Result (Unit {0})} (err x) (ok tt)) ⊎ (v.stock ≡ w.stock) → v.stock ≡ w.stock
    go (inl stop) = cc
    go (inr same) = same
