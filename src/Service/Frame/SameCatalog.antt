-- ===== src/Service/Frame/SameCatalog.antt =====
-- The requests on stock leave the products, the categories and the warehouses.
use erp_stock.Base.{String, Bool, ap, ◌≡◌, refl, ◌∙◌, arith, List}
use erp_stock.Base.Int.{ℤ}
use erp_stock.Float.Decimal.{rounded}
use erp_stock.Domain.Errors.{Result, ok, err}
use erp_stock.Domain.Types.{Product, Category, Warehouse}
use erp_stock.Store.Tables.{Tables, BalanceRow}
use erp_stock.Store.Balances
use erp_stock.Store.Balances.{upsert_row, update_row, write_row, insert_row}
use erp_stock.Store.Movements
use erp_stock.Store.Reservations.{recalc_reserved, upsert_reservation, release_others, confirm_open}
use erp_stock.World.{
  World, Action, ◌>>◌, call, lock_result, acquire, deferring, unlock, new_uuid, transaction,
  rolled_back, push_cached, push_published,
}
use erp_stock.World.Always.{Always}
use erp_stock.Service.Frame.{Respects}

abbrev pub catalog : {F : Type 0} → World F → List (Product F) × List Category × List Warehouse
catalog w = (w.products, w.categories, w.stock.warehouses)

abbrev pub SameCatalog : {F : Type 0} → World F → World F → Type 0
SameCatalog w v = catalog v ≡ catalog w

under_lock-SameCatalog :
    {F A : Type 0} (k : String) (m : Action F A)
    → Always SameCatalog m
    → Always SameCatalog (acquire k >> deferring (unlock k) m)
unfolding acquire unlock
under_lock-SameCatalog {F} {A} k m h = record { at = λ w. go w (lock_result k w) refl }
  where
    go :
        (w : World F) (r : Result (Unit {0}))
        → lock_result k w ≡ r
        → SameCatalog w ((acquire k >> deferring (unlock k) m) w).1
    go w (ok tt) e = rw e (h.at _)
    go w (err x) e = rw e refl

transaction-SameCatalog :
    {F A : Type 0} (m : Action F A) → Always SameCatalog m → Always SameCatalog (transaction m)
transaction-SameCatalog {F} {A} m h = record { at = λ w. go w (m w) (h.at w) }
  where
    go :
        (w : World F) (x : Result A × World F)
        → SameCatalog w x.1
        → SameCatalog w (rolled_back w.stock x).1
    go w (ok a, v) same = same
    go w (err x, v) same = ground arith

upsert_row-warehouses :
    (p w : String) (z : ℤ) (change : BalanceRow → BalanceRow) (t : Tables)
    → (upsert_row p w z change t).1.warehouses ≡ t.warehouses
unfolding upsert_row write_row insert_row
upsert_row-warehouses p w z change t = ground arith

update_row-warehouses :
    (p w : String) (guard : BalanceRow → Bool) (change : BalanceRow → BalanceRow) (t : Tables)
    → (update_row p w guard change t).1.warehouses ≡ t.warehouses
unfolding update_row write_row
update_row-warehouses p w guard change t = ground arith

beside_warehouses :
    {F : Type 0} (w : World F) (ws : List Warehouse)
    → ws ≡ w.stock.warehouses
    → ◌≡◌ {A = List (Product F) × List Category × List Warehouse}
        (w.products, w.categories, ws)
        (catalog w)
beside_warehouses w ws e = ap (λ l. (w.products, w.categories, l)) e

instance pub SameCatalog-Respects : {F : Type 0} → Respects {F = F} SameCatalog
unfolding call new_uuid push_cached push_published Balances.upsert_balance Balances.add_available
    Balances.remove_available Balances.confirm_sale Movements.insert_movement recalc_reserved
    upsert_reservation release_others confirm_open
SameCatalog-Respects = record {
  pre = record { same = λ w. refl; chain = λ w v u p q. q ∙ p };
  statements = record {
    on_upsert =
        λ p w z. record { at = λ v. beside_warehouses v _ (upsert_row-warehouses p w z _ v.stock) };
    on_add = λ p w z. record {
      at = λ v. beside_warehouses v _ (upsert_row-warehouses p w (rounded z) _ v.stock);
    };
    on_remove =
        λ p w z. record { at = λ v. beside_warehouses v _ (update_row-warehouses p w _ _ v.stock) };
    on_sale =
        λ p w z. record { at = λ v. beside_warehouses v _ (update_row-warehouses p w _ _ v.stock) };
    on_movement = λ m. record { at = λ v. ground arith };
    on_recalc = λ ids. record { at = λ v. ground arith };
    on_line = λ o p wh z. record { at = λ v. ground arith };
    on_release = λ o keep. record { at = λ v. refl };
    on_confirm = λ o. record { at = λ v. refl };
  };
  on_call = record { at = λ w. refl };
  on_uuid = record { at = λ w. refl };
  on_cache = λ b. record { at = λ w. refl };
  on_publish = λ ev. record { at = λ w. refl };
  on_lock = λ k m h. under_lock-SameCatalog k m h;
  on_transaction = λ m h. transaction-SameCatalog m h;
}
