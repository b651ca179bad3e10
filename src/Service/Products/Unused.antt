-- ===== src/Service/Products/Unused.antt =====
-- What a product that was deleted was not.
use mathlib.Core.List.{Memᴰ}
use mathlib.Core.List.Memᴰ.{head, tail}
use erp_stock.Base.{String, eq_iff, ◌≡◌, ◌≢◌, ap, ◌∙◌, subst, true, false, List, [], ◌∷◌, arith}
use erp_stock.Base.Int.{ℤ, pos}
use erp_stock.Domain.Types.{Assembly, AssemblyItem, open_status}
use erp_stock.Store.Tables.{MovementRow, BalanceRow, ReservationRow}
use erp_stock.Domain.Errors.{ok, in_use}
use erp_stock.Store.Warehouses.{has_moved, has_balance, has_open, is_nonzero}
use erp_stock.World.{World, call, next_fault, fail_if}
use erp_stock.World.Rules.{bind_ok, fail_if_ok}
use erp_stock.Repo.Warehouses
use erp_stock.Catalog.Products
use erp_stock.Catalog.Products.{product_exists, drop_product}
use erp_stock.Catalog.Assemblies
use erp_stock.Catalog.Assemblies.{assembles, item_uses, any_item_uses}
use erp_stock.Service.Products.{delete_product}

-- No movement, no quantity and no open reservation is of the product, and no assembly makes it or
-- takes it.
pub record IsUnused {F : Type 0} (id : String) (w : World F) : Type 0 where
  pub not_moved : (m : MovementRow) → Memᴰ m w.stock.movements → m.product_id ≢ id
  pub no_balance :
      (b : BalanceRow)
      → Memᴰ b w.stock.balances
      → b.product_id ≡ id
      → (b.available ≡ pos 0) × (b.reserved ≡ pos 0)
  pub not_reserved :
      (r : ReservationRow)
      → Memᴰ r w.stock.reservations
      → r.product_id ≡ id
      → r.status ≢ open_status
  pub not_made : (a : Assembly F) → Memᴰ a w.assemblies → a.product_id ≢ "" → a.product_id ≢ id
  pub in_no_kit :
      (a : Assembly F) (it : AssemblyItem F)
      → Memᴰ a w.assemblies
      → Memᴰ it a.items
      → it.product_id ≢ id

has_moved-false :
    (id : String) (ms : List MovementRow)
    → has_moved id ms ≡ false
    → (m : MovementRow) → Memᴰ m ms
    → m.product_id ≢ id
unfolding has_moved
has_moved-false id [] h m x = elim x [ ]
has_moved-false id (n ∷ ms) h m (head e) = rw e (ground (arith, eq_iff n.product_id id))
has_moved-false id (n ∷ ms) h m (tail x) = has_moved-false id ms (ground arith) m x

zero_of : (z : ℤ) → is_nonzero z ≡ false → z ≡ pos 0
zero_of z h = ground arith

has_balance-false :
    (id : String) (bs : List BalanceRow)
    → has_balance id bs ≡ false
    → (b : BalanceRow) → Memᴰ b bs
    → b.product_id ≡ id
    → (b.available ≡ pos 0) × (b.reserved ≡ pos 0)
unfolding has_balance
has_balance-false id [] h b x e = elim x [ ]
has_balance-false id (n ∷ bs) h b (head y) e = rw y (
    let own = (eq_iff n.product_id id).1 (rw y at e) in
    (zero_of n.available (ground arith), zero_of n.reserved (ground arith)))
has_balance-false id (n ∷ bs) h b (tail x) e = has_balance-false id bs (ground arith) b x e

has_open-false :
    (id : String) (rs : List ReservationRow)
    → has_open id rs ≡ false
    → (r : ReservationRow) → Memᴰ r rs
    → r.product_id ≡ id
    → r.status ≢ open_status
unfolding has_open
has_open-false id [] h r x e = elim x [ ]
has_open-false id (n ∷ rs) h r (head y) e = rw y (ground (arith, eq_iff n.product_id id))
has_open-false id (n ∷ rs) h r (tail x) e = has_open-false id rs (ground arith) r x e

module _ {F : Type 0} where
  assembles-false :
      (id : String) (rows : List (Assembly F))
      → assembles id rows ≡ false
      → (a : Assembly F) → Memᴰ a rows
      → a.product_id ≢ ""
      → a.product_id ≢ id
  unfolding assembles
  assembles-false id [] h a x named = elim x [ ]
  assembles-false id (r ∷ rows) h a (head e) named =
      rw e (ground (arith, named, eq_iff a.product_id id, eq_iff a.product_id "", e))
  assembles-false id (r ∷ rows) h a (tail x) named =
      assembles-false id rows (ground arith) a x named

  item_uses-false :
      (id : String) (its : List (AssemblyItem F))
      → item_uses id its ≡ false
      → (it : AssemblyItem F) → Memᴰ it its
      → it.product_id ≢ id
  unfolding item_uses
  item_uses-false id [] h it x = elim x [ ]
  item_uses-false id (j ∷ its) h it (head e) = rw e (ground (arith, eq_iff j.product_id id))
  item_uses-false id (j ∷ its) h it (tail x) = item_uses-false id its (ground arith) it x

  any_item_uses-false :
      (id : String) (rows : List (Assembly F))
      → any_item_uses id rows ≡ false
      → (a : Assembly F) (it : AssemblyItem F) → Memᴰ a rows
      → Memᴰ it a.items
      → it.product_id ≢ id
  unfolding any_item_uses
  any_item_uses-false id [] h a it x y = elim x [ ]
  any_item_uses-false id (r ∷ rows) h a it (head e) y =
      item_uses-false id r.items (ground arith) it (subst (λ (b : Assembly F). Memᴰ it b.items) e y)
  any_item_uses-false id (r ∷ rows) h a it (tail x) y =
      any_item_uses-false id rows (ground arith) a it x y

  abbrev Same : World F → World F → Type 0
  Same w v = (v.stock ≡ w.stock) × (v.assemblies ≡ w.assemblies) × (v.products ≡ w.products)

  in_stock-false :
      (id : String) (w v : World F)
      → Warehouses.product_in_use id w ≡ (ok false, v)
      → (has_moved id w.stock.movements ≡ false)
        × (has_balance id w.stock.balances ≡ false)
        × (has_open id w.stock.reservations ≡ false)
        × Same w v
  unfolding Warehouses.product_in_use call next_fault
  in_stock-false id w v e = ground arith

  in_kits-false :
      (id : String) (w v : World F)
      → Assemblies.product_in_use id w ≡ (ok false, v)
      → (assembles id w.assemblies ≡ false) × (any_item_uses id w.assemblies ≡ false) × Same w v
  unfolding Assemblies.product_in_use call next_fault
  in_kits-false id w v e = ground arith

  delete_ok :
      (id : String) (w : World F) (a : Unit {0}) (v : World F)
      → Products.delete id w ≡ (ok a, v)
      → (product_exists id w.products ≡ true) × (v.products ≡ drop_product id w.products)
  unfolding Products.delete call next_fault
  delete_ok id w a v e = ground arith

-- A product that DeleteProduct deleted had no movement, no balance that is not zero and no open
-- reservation, was no assembly's product and no assembly's item; it is dropped from the products, and no other
-- product is.
pub delete_product-IsUnused :
    {F : Type 0} (id : String) (w v : World F)
    → delete_product id w ≡ (ok tt, v)
    → IsUnused id w
      × (product_exists id w.products ≡ true)
      × (v.products ≡ drop_product id w.products)
unfolding delete_product
delete_product-IsUnused id w v e =
    let (b, w1, stock, e1) = bind_ok (Warehouses.product_in_use id) _ w tt v e in
    let (_, w2, free, e2) = bind_ok (fail_if b in_use) _ w1 tt v e1 in
    let (c, w3, kits, e3) = bind_ok (Assemblies.product_in_use id) _ w2 tt v e2 in
    let (_, w4, free', e4) = bind_ok (fail_if c in_use) _ w3 tt v e3 in
    let (nb, at1) = fail_if_ok b in_use w1 _ w2 free in
    let (nc, at3) = fail_if_ok c in_use w3 _ w4 free' in
    let (moved, balance, held, same1) =
      in_stock-false id w w1 (subst (λ x. Warehouses.product_in_use id w ≡ (ok x, w1)) nb stock) in
    let (made, kit, same3) =
      in_kits-false id w2 w3 (subst (λ x. Assemblies.product_in_use id w2 ≡ (ok x, w3)) nc kits) in
    let assemblies : w2.assemblies ≡ w.assemblies =
      ap (λ (u : World _). u.assemblies) at1 ∙ same1.1 in
    let products : w4.products ≡ w.products =
      ap (λ (u : World _). u.products) at3
      ∙ same3.2
      ∙ ap (λ (u : World _). u.products) at1
      ∙ same1.2 in
    let (there, gone) = delete_ok id w4 tt v e4 in
    (
      record {
        not_moved = has_moved-false id w.stock.movements moved;
        no_balance = has_balance-false id w.stock.balances balance;
        not_reserved = has_open-false id w.stock.reservations held;
        not_made =
            assembles-false id w.assemblies (subst (λ l. assembles id l ≡ false) assemblies made);
        in_no_kit =
            any_item_uses-false id w.assemblies
              (subst (λ l. any_item_uses id l ≡ false) assemblies kit);
      },
      subst (λ l. product_exists id l ≡ true) products there,
      gone ∙ ap (drop_product id) products,
    )
