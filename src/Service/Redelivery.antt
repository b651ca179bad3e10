-- ===== src/Service/Redelivery.antt =====
-- Recorded movements are never lost, whatever the service does: the tests for a movement by which
-- it tells a repeated event stay answered.
pub mod Receipts
use erp_stock.Float.Decimal.{rounded}
use erp_stock.Base.{
  String, ◌≡◌, refl, ap, ◌∙◌, Bool, true, false, ◌||◌, ◌&&◌, List, [], ◌∷◌, Option, Option-cases,
  Bool-cases, inl, inr, arith, subst,
}
use erp_stock.Base.Int.{ℤ, leb_ℤ}
use erp_stock.Domain.Errors.{Result, ok, err}
use erp_stock.Store.Tables.{
  Tables, MovementRow, BalanceRow, find_balance, balance_ok, reservation_ok, warehouse_exists,
  Statement,
}
use erp_stock.Store.Balances.{
  row_ok, write_row, insert_row, upsert_row, update_row, upsert_balance, add_available,
  remove_available, confirm_sale,
}
use erp_stock.Store.Reservations.{
  recalc_reserved, recalc_rows, reserved_fit, upsert_reservation, warehouse_ref_ok, release_others,
  confirm_open,
}
use erp_stock.Store.Movements.{insert_movement, has_movement, refers_to}
use erp_stock.Store.Movements.Effects.{Records, RecordsOrFails, insert_movement-RecordsOrFails}
use erp_stock.World.{
  World, Action, ◌>>◌, call, lock_result, acquire, deferring, unlock, new_uuid, transaction,
  rolled_back, next_fault, push_cached, push_published,
}
use erp_stock.World.Always.{Always}
use erp_stock.Service.Frame.{Respects}

-- The history of the one holds all movements that a test finds in that of the other.
unfoldable pub Remembers : Tables → Tables → Type 0
Remembers t u =
    (doc_type doc_id typ : String)
    → has_movement doc_type doc_id typ t.movements ≡ true
    → has_movement doc_type doc_id typ u.movements ≡ true

abbrev pub KeepsHistory : {F : Type 0} → World F → World F → Type 0
KeepsHistory w v = Remembers w.stock v.stock

same_movements : (t u : Tables) → u.movements ≡ t.movements → Remembers t u
unfolding Remembers
same_movements t u e doc_type doc_id typ h = rw e h

write_row-movements : (r : BalanceRow) (t : Tables) → (write_row r t).1.movements ≡ t.movements
unfolding write_row
write_row-movements r t = elim (Bool-cases (row_ok r)) [ inl y ↦ rw y refl | inr n ↦ rw n refl ]

insert_row-movements :
    (p w : String) (z : ℤ) (t : Tables) → (insert_row p w z t).1.movements ≡ t.movements
unfolding insert_row
insert_row-movements p w z t = elim (Bool-cases (warehouse_exists w t.warehouses)) [
  | inl y ↦ rw y refl
  | inr n ↦ rw n refl
]

upsert_row-Remembers :
    (p w : String) (z : ℤ) (change : BalanceRow → BalanceRow) (t : Tables)
    → Remembers t (upsert_row p w z change t).1
unfolding upsert_row
upsert_row-Remembers p w z change t =
    same_movements t (upsert_row p w z change t).1 (elim (Bool-cases (balance_ok z)) [
      | inl fits ↦ elim (Option-cases (find_balance p w t.balances)) [
        | inl missing ↦ rw (fits, missing) (insert_row-movements p w z t)
        | inr (r, found) ↦ rw (fits, found) (write_row-movements (change r) t)
      ]
      | inr no_fit ↦ rw no_fit refl
    ])

update_row-Remembers :
    (p w : String) (guard : BalanceRow → Bool) (change : BalanceRow → BalanceRow) (t : Tables)
    → Remembers t (update_row p w guard change t).1
unfolding update_row
update_row-Remembers p w guard change t =
    same_movements t (update_row p w guard change t).1
      (elim (Option-cases (find_balance p w t.balances)) [
        | inl missing ↦ rw (missing, update_row) refl
        | inr (r, found) ↦ elim (Bool-cases (guard r)) [
          | inl pass ↦ rw (found, pass, update_row) (write_row-movements (change r) t)
          | inr stop ↦ rw (found, stop, update_row) refl
        ]
      ])

or_true : (a b : Bool) → b ≡ true → (a || b) ≡ true
or_true a b h = ground arith

-- A movement more.
has_movement-cons :
    (m : MovementRow) (ms : List MovementRow) (doc_type doc_id typ : String)
    → has_movement doc_type doc_id typ ms ≡ true
    → has_movement doc_type doc_id typ (m ∷ ms) ≡ true
unfolding has_movement
has_movement-cons m ms doc_type doc_id typ h = or_true _ _ h

insert_movement-Remembers : (m : MovementRow) (t : Tables) → Remembers t (insert_movement m t).1
unfolding Remembers
insert_movement-Remembers m t = go (insert_movement m t) (insert_movement-RecordsOrFails m t)
  where
    go : (x : Result (Unit {0}) × Tables) → RecordsOrFails m t x → Remembers t x.1
    go (ok _, u) r = λ doc_type doc_id typ h.
        rw r.added
          (has_movement-cons (record m { created_at = t.clock }) t.movements doc_type doc_id typ h)
    go (err _, u) e = λ doc_type doc_id typ h. rw e h

recalc_reserved-Remembers : (ids : List String) (t : Tables) → Remembers t (recalc_reserved ids t).1
unfolding recalc_reserved
recalc_reserved-Remembers ids t =
    same_movements t (recalc_reserved ids t).1
      (elim (Bool-cases (reserved_fit (recalc_rows ids t.reservations t.balances))) [
        | inl y ↦ rw y refl
        | inr n ↦ rw n refl
      ])

upsert_reservation-Remembers :
    (o p : String) (wh : Option String) (z : ℤ) (t : Tables)
    → Remembers t (upsert_reservation o p wh z t).1
unfolding upsert_reservation
upsert_reservation-Remembers o p wh z t =
    same_movements t (upsert_reservation o p wh z t).1
      (elim (Bool-cases (reservation_ok z && warehouse_ref_ok wh t)) [
        | inl y ↦ rw y refl
        | inr n ↦ rw n refl
      ])

Remembers-self : (t : Tables) → Remembers t t
Remembers-self t = same_movements t t refl

under_lock-KeepsHistory :
    {F A : Type 0} (k : String) (m : Action F A)
    → Always KeepsHistory m
    → Always KeepsHistory (acquire k >> deferring (unlock k) m)
unfolding acquire unlock
under_lock-KeepsHistory {F} {A} k m h = record { at = λ w. go w (lock_result k w) refl }
  where
    go :
        (w : World F) (r : Result (Unit {0}))
        → lock_result k w ≡ r
        → KeepsHistory w ((acquire k >> deferring (unlock k) m) w).1
    go w (ok tt) e = rw e (h.at _)
    go w (err x) e = rw e (Remembers-self w.stock)

transaction-KeepsHistory :
    {F A : Type 0} (m : Action F A) → Always KeepsHistory m → Always KeepsHistory (transaction m)
transaction-KeepsHistory {F} {A} m h = record { at = λ w. go w (m w) (h.at w) }
  where
    go :
        (w : World F) (x : Result A × World F)
        → KeepsHistory w x.1
        → KeepsHistory w (rolled_back w.stock x).1
    go w (ok a, v) keep = keep
    go w (err x, v) keep = Remembers-self w.stock

instance pub KeepsHistory-Respects : {F : Type 0} → Respects {F = F} KeepsHistory
unfolding call new_uuid push_cached push_published Remembers upsert_balance add_available
    remove_available confirm_sale release_others confirm_open
KeepsHistory-Respects = record {
  pre = record {
    same = λ w. Remembers-self w.stock;
    chain = λ w v u f g d i y x. g d i y (f d i y x);
  };
  statements = record {
    on_upsert = λ p w z. record { at = λ v. upsert_row-Remembers p w z _ v.stock };
    on_add = λ p w z. record { at = λ v. upsert_row-Remembers p w (rounded z) _ v.stock };
    on_remove = λ p w z. record { at = λ v. update_row-Remembers p w _ _ v.stock };
    on_sale = λ p w z. record { at = λ v. update_row-Remembers p w _ _ v.stock };
    on_movement = λ m. record { at = λ v. insert_movement-Remembers m v.stock };
    on_recalc = λ ids. record { at = λ v. recalc_reserved-Remembers ids v.stock };
    on_line = λ o p wh z. record { at = λ v. upsert_reservation-Remembers o p wh z v.stock };
    on_release = λ o keep. record { at = λ v. Remembers-self v.stock };
    on_confirm = λ o. record { at = λ v. Remembers-self v.stock };
  };
  on_call = record { at = λ w. Remembers-self w.stock };
  on_uuid = record { at = λ w. Remembers-self w.stock };
  on_cache = λ b. record { at = λ w. Remembers-self w.stock };
  on_publish = λ ev. record { at = λ w. Remembers-self w.stock };
  on_lock = λ k m h. under_lock-KeepsHistory k m h;
  on_transaction = λ m h. transaction-KeepsHistory m h;
}
