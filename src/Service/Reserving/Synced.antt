-- ===== src/Service/Reserving/Synced.antt =====
-- `ReserveOrder` keeps the reserved column in step with the open reservations.
use erp_stock.Base.{String, ◌≡◌, refl, sym, ap, subst, Bool, List, []}
use erp_stock.Float.{Float}
use erp_stock.Domain.Errors.{Result, ok, err, invalid}
use erp_stock.Domain.Types.{OrderItem, OrderEvent}
use erp_stock.Store.Reservations.Synced.{IsSynced}
use erp_stock.World.{World, Action, fail_if, acquire, unlock, deferring, push_published, ◌>>◌}
use erp_stock.World.Rules.{bind_ok, acquire_stock}
use erp_stock.World.Always.{Always, OnSuccess, OnSuccess-Always, IsPreorder, success_rules}
use erp_stock.World.SameStock.{SameStock, read_rules}
use erp_stock.Repo
use erp_stock.Service.Reads.{list_assemblies-SameStock}
use erp_stock.Service.Orders.{publish_reserved, reserve_order}
use erp_stock.Service.Reserving.Replaced.{replace_reservations-IsSynced}

abbrev KeepsSync : {F : Type 0} → World F → World F → Type 0
KeepsSync w v = IsSynced w.stock → IsSynced v.stock

KeepsSync-preorder : {F : Type 0} → IsPreorder {F = F} KeepsSync
KeepsSync-preorder = record { same = λ w s. s; chain = λ w v u f g s. g (f s) }

-- What leaves the tables alone keeps them in sync.
reads-KeepsSync : {F A : Type 0} (m : Action F A) → Always SameStock m → OnSuccess KeepsSync m
reads-KeepsSync m h =
    OnSuccess-Always m (record { at = λ w s. subst (λ t. IsSynced t) (sym (h.at w)) s })

-- So does what keeps them so under a lock.
under_lock-KeepsSync :
    {F A : Type 0} (k : String) (m : Action F A)
    → OnSuccess KeepsSync m
    → OnSuccess KeepsSync (acquire k >> deferring (unlock k) m)
unfolding unlock
under_lock-KeepsSync {F} {A} k m h = record {
  at = λ w a v e synced.
      let (x, u, locked, e1) = bind_ok (acquire k) (λ _. deferring (unlock k) m) w a v e in
      let start : u.stock ≡ w.stock =
        subst (λ (y : Result (Unit {0}) × World F). y.1.stock ≡ w.stock) locked
          (acquire_stock k w) in
      go u (m u) refl a v e1 (subst (λ t. IsSynced t) (sym start) synced);
}
  where
    go :
        (u : World F) (y : Result A × World F)
        → m u ≡ y
        → (a : A) (v : World F) → ◌≡◌ {A = Result A × World F} (y.0, unlock k y.1) (ok a, v)
        → IsSynced u.stock
        → IsSynced v.stock
    go u (ok b, x) first a v e synced =
        let same : unlock k x ≡ v = ap (λ (y : Result A × World F). y.1) e in
        subst (λ (z : World F). IsSynced z.stock) same (h.at u b x first synced)
    go u (err b, x) first a v e synced = cc

module _ {F : Type 0} ⦃fl : Float F⦄ where
  replace-KeepsSync :
      (o wh : String) (items : List (OrderItem F))
      → OnSuccess KeepsSync (Repo.replace_reservations o wh items)
  replace-KeepsSync o wh items = record {
    at = λ w a v e synced. replace_reservations-IsSynced o wh items w v synced e;
  }

  release-KeepsSync : (o : String) → OnSuccess {F = F} KeepsSync (Repo.release_reservations o)
  unfolding Repo.release_reservations
  release-KeepsSync o = replace-KeepsSync o "" []

  publish_reserved-SameStock : (ev : OrderEvent F) → Always SameStock (publish_reserved ev)
  unfolding publish_reserved push_published
  publish_reserved-SameStock ev = search read_rules

  guard-SameStock : (b : Bool) → Always {F = F} SameStock (fail_if b invalid)
  guard-SameStock b = search read_rules

  reserve_order-KeepsSync : (ev : OrderEvent F) → OnSuccess KeepsSync (reserve_order ev)
  unfolding reserve_order
  reserve_order-KeepsSync ev =
      search
        (
          under_lock-KeepsSync, success_rules, KeepsSync-preorder, reads-KeepsSync, guard-SameStock,
          list_assemblies-SameStock, publish_reserved-SameStock, replace-KeepsSync,
          release-KeepsSync,
        )
        depth 12

-- With every reserved quantity the sum of the open reservations that bear on it, an order event that
-- is handled with no error, be it a new order, a changed one or one with no items, leaves every
-- reserved quantity such a sum.
pub reserve_order-IsSynced :
    {F : Type 0} ⦃fl : Float F⦄ (ev : OrderEvent F) (w v : World F)
    → IsSynced w.stock
    → reserve_order ev w ≡ (ok tt, v)
    → IsSynced v.stock
reserve_order-IsSynced ev w v synced e = (reserve_order-KeepsSync ev).at w tt v e synced
