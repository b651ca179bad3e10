-- ===== src/Service/Reserving.antt =====
-- What the INSERTs of `ReplaceReservations` leave.
pub mod Replaced
pub mod Synced
use erp_stock.Base.{
  String, ◌==◌, ◌≡◌, refl, sym, ap, ◌∙◌, subst, Bool, true, false, ◌||◌, ◌&&◌, Bool-cases, inl, inr,
  Option, List, [], ◌∷◌, ◌++◌, contains, is_empty, if◌then◌else◌, arith, All,
}
use erp_stock.Base.Int.{ℤ}
use erp_stock.Float.{to_numeric, Float}
use erp_stock.Domain.Errors.{Result, ok, err, Error, failure, invalid}
use erp_stock.Domain.Types.{OrderItem, OrderEvent}
use erp_stock.Store.Tables.{Tables, Statement, reservation_ok}
use erp_stock.Store.Valid.{find_line}
use erp_stock.Store.Movements.{nil_if_empty}
use erp_stock.Store.Reservations.{
  open_sum, recalc_reserved, products_of_order, put_reservation, upsert_reservation,
  warehouse_ref_ok, release_others, release_rows,
}
use erp_stock.Store.Reservations.Synced.{
  InSync, InSync-All, IsSynced, SameOutside, recalc_reserved-IsSynced, put_reservation-SameSum,
  find_line-put_reservation, release_rows-SameSum, products_of_order-find_line, contains-append,
  or_left, or_right,
}
use erp_stock.World.{
  World, Action, fail_if, acquire, unlock, deferring, push_published, pure, ◌>>=◌, ◌>>◌, call, exec,
  query, on_stock, transaction, rolled_back, next_fault,
}
use erp_stock.World.Rules.{
  exec_ok, call_ok, pure_rel, committed, bind_ok, query_ok, call_stock, after, acquire_stock,
}
use erp_stock.World.Always.{Always, OnSuccess, OnSuccess-Always, IsPreorder, success_rules}
use erp_stock.World.SameStock.{SameStock, read_rules}
use erp_stock.Repo
use erp_stock.Service.Lookup.{list_assemblies}
use erp_stock.Service.Reads.{list_assemblies-SameStock}
use erp_stock.Service.Orders.{publish_reserved, reserve_order}

-- What the INSERTs of an order's lines leave: the balances, and for a product not among those kept
-- its sums and whether the order has a line of it.
pub record Written (o : String) (keep : List String) (t u : Tables) : Type 0 where
  pub balances_same : u.balances ≡ t.balances
  pub sums_same : SameOutside keep t.reservations u.reservations
  pub lines_same :
      (q : String)
      → contains keep q ≡ false
      → find_line o q u.reservations ≡ find_line o q t.reservations

upsert_reservation-Written :
    (o p : String) (wh : Option String) (z : ℤ) (a : Unit {0}) (t u : Tables)
    → upsert_reservation o p wh z t ≡ (ok a, u)
    → Written o (p ∷ []) t u
unfolding upsert_reservation
upsert_reservation-Written o p wh z a t u e =
    elim (Bool-cases (reservation_ok z && warehouse_ref_ok wh t)) [
      | inl fits ↦
          let here : ◌≡◌ {A = Result (Unit {0}) × Tables}
              (ok tt, record t { reservations = put_reservation o p wh z t.reservations })
              (ok a, u) =
            rw fits at e in
          let same : record t { reservations = put_reservation o p wh z t.reservations } ≡ u =
            ap (λ (x : Result (Unit {0}) × Tables). x.1) here in
          rw (← same) (record {
            balances_same = refl;
            sums_same = λ q w h.
                put_reservation-SameSum o p wh z q w t.reservations (or_left (p == q) false h);
            lines_same = λ q h.
                find_line-put_reservation o p wh z q t.reservations (or_left (p == q) false h);
          })
      | inr no_fit ↦
          let stop : ◌≡◌ {A = Result (Unit {0}) × Tables} (err failure, t) (ok a, u) =
            rw no_fit at e in
          cc
    ]

Written-self : (o : String) (keep : List String) (t : Tables) → Written o keep t t
Written-self o keep t = record {
  balances_same = refl;
  sums_same = λ q w h. refl;
  lines_same = λ q h. refl;
}

-- One line, then the rest.
Written-cons :
    (o p : String) (keep : List String) (t m u : Tables)
    → Written o (p ∷ []) t m
    → Written o keep m u
    → Written o (p ∷ keep) t u
Written-cons o p keep t m u f g = record {
  balances_same = g.balances_same ∙ f.balances_same;
  sums_same = λ q w h.
      g.sums_same q w (or_right (p == q) (contains keep q) h) ∙ f.sums_same q w (first q h);
  lines_same =
      λ q h. g.lines_same q (or_right (p == q) (contains keep q) h) ∙ f.lines_same q (first q h);
}
  where
    first : (q : String) → contains (p ∷ keep) q ≡ false → contains (p ∷ []) q ≡ false
    first q h = let e = or_left (p == q) (contains keep q) h in ground arith

module _ {F : Type 0} ⦃fl : Float F⦄ where
  pub upsert_lines-Written :
      (o : String) (wh : Option String) (items : List (OrderItem F)) (w : World F)
      (keep : List String) (v : World F)
      → Repo.upsert_lines o wh items w ≡ (ok keep, v)
      → Written o keep w.stock v.stock
  unfolding Repo.upsert_lines
  upsert_lines-Written o wh [] w keep v e =
      let same : w ≡ v = ap (λ (x : Result (List String) × World F). x.1) e in
      rw (← same) (Written-self o keep w.stock)
  upsert_lines-Written o wh (it ∷ items) w keep v e =
      elim (Bool-cases (Repo.is_void_line it.product_id it.quantity)) [
        | inl void ↦ upsert_lines-Written o wh items w keep v (rw void at e)
        | inr counts ↦
            let s = upsert_reservation o it.product_id wh (to_numeric it.quantity) in
            let here : (do exec s; rest ← Repo.upsert_lines o wh items; pure (it.product_id ∷ rest))
                  w
                ≡ (ok keep, v) =
              rw counts at e in
            let (a, u, first, e1) =
              bind_ok (exec s)
                (λ _. Repo.upsert_lines o wh items >>= λ rest. pure (it.product_id ∷ rest)) w keep v
                here in
            let (rest, x, others, e2) =
              bind_ok (Repo.upsert_lines o wh items) (λ rest. pure (it.product_id ∷ rest)) u keep v
                e1 in
            let one =
              upsert_reservation-Written o it.product_id wh (to_numeric it.quantity) a w.stock
                u.stock (exec_ok s w a u first) in
            let more = upsert_lines-Written o wh items u rest x others in
            pure_rel (λ k t. Written o k w.stock t) (it.product_id ∷ rest) x keep v e2
              (Written-cons o it.product_id rest w.stock u.stock x.stock one more)
      ]
