-- ===== src/Service/Constraints.antt =====
-- The constraints of the stock tables hold after any requests.
use erp_stock.Base.{String, ◌≡◌, refl}
use erp_stock.Domain.Errors.{Result, ok, err}
use erp_stock.Store.Valid.{IsValid}
use erp_stock.Store.Valid.Balances.{
  upsert_balance-IsValid, add_available-IsValid, remove_available-IsValid, confirm_sale-IsValid,
  insert_movement-IsValid,
}
use erp_stock.Store.Valid.Reservations.{
  recalc_reserved-IsValid, upsert_reservation-IsValid, release_others-IsValid, confirm_open-IsValid,
}
use erp_stock.World.{
  World, Action, ◌>>◌, call, lock_result, acquire, deferring, unlock, new_uuid, transaction,
  rolled_back, push_cached, push_published,
}
use erp_stock.World.Always.{Always}
use erp_stock.Service.Frame.{Respects}

abbrev pub KeepsValid : {F : Type 0} → World F → World F → Type 0
KeepsValid w v = IsValid w.stock → IsValid v.stock

under_lock-KeepsValid :
    {F A : Type 0} (k : String) (m : Action F A)
    → Always KeepsValid m
    → Always KeepsValid (acquire k >> deferring (unlock k) m)
unfolding acquire unlock
under_lock-KeepsValid {F} {A} k m h = record { at = λ w. go w (lock_result k w) refl }
  where
    go :
        (w : World F) (r : Result (Unit {0}))
        → lock_result k w ≡ r
        → KeepsValid w ((acquire k >> deferring (unlock k) m) w).1
    go w (ok tt) e = rw e (h.at _)
    go w (err x) e = rw e (λ v. v)

transaction-KeepsValid :
    {F A : Type 0} (m : Action F A) → Always KeepsValid m → Always KeepsValid (transaction m)
transaction-KeepsValid {F} {A} m h = record { at = λ w. go w (m w) (h.at w) }
  where
    go :
        (w : World F) (x : Result A × World F)
        → KeepsValid w x.1
        → KeepsValid w (rolled_back w.stock x).1
    go w (ok a, v) keep = keep
    go w (err x, v) keep = λ valid. valid

instance pub KeepsValid-Respects : {F : Type 0} → Respects {F = F} KeepsValid
unfolding call new_uuid push_cached push_published
KeepsValid-Respects = record {
  pre = record { same = λ w v. v; chain = λ w v u f g x. g (f x) };
  statements = record {
    on_upsert = λ p w z. record { at = λ v. upsert_balance-IsValid p w z v.stock };
    on_add = λ p w z. record { at = λ v. add_available-IsValid p w z v.stock };
    on_remove = λ p w z. record { at = λ v. remove_available-IsValid p w z v.stock };
    on_sale = λ p w z. record { at = λ v. confirm_sale-IsValid p w z v.stock };
    on_movement = λ m. record { at = λ v. insert_movement-IsValid m v.stock };
    on_recalc = λ ids. record { at = λ v. recalc_reserved-IsValid ids v.stock };
    on_line = λ o p wh z. record { at = λ v. upsert_reservation-IsValid o p wh z v.stock };
    on_release = λ o keep. record { at = λ v. release_others-IsValid o keep v.stock };
    on_confirm = λ o. record { at = λ v. confirm_open-IsValid o v.stock };
  };
  on_call = record { at = λ w v. v };
  on_uuid = record { at = λ w v. v };
  on_cache = λ b. record { at = λ w v. v };
  on_publish = λ ev. record { at = λ w v. v };
  on_lock = λ k m h. under_lock-KeepsValid k m h;
  on_transaction = λ m h. transaction-KeepsValid m h;
}
