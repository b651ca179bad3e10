-- ===== src/Store/Valid/Balances.antt =====
-- The statements on stock_balances and stock_movements keep the constraints.
use erp_stock.Base.{
  String, ◌≡◌, refl, subst, Bool, true, ◌&&◌, some, List, [], ◌∷◌, All, Option-cases, Bool-cases,
  inl, inr,
}
use mathlib.Core.Option.{some-injective}
use erp_stock.Float.Decimal.{Numeric, rounded}
use erp_stock.Base.Int.{ℤ, pos}
use erp_stock.Store.Tables.{
  BalanceRow, MovementRow, Tables, same_key, find_balance, put_balance, balance_ok,
  warehouse_exists, numeric_ok,
}
use erp_stock.Store.Balances.{
  row_ok, write_row, insert_row, upsert_row, update_row, upsert_balance, add_available,
  remove_available, confirm_sale,
}
use erp_stock.Store.Movements.{insert_movement}
use erp_stock.Store.Valid.{IsValid, RowFits, put_balance-All, put_balance-IsKeyed}

pub found-All :
    (P : BalanceRow → Type 0) (p w : String) (rs : List BalanceRow) (r : BalanceRow)
    → All P rs
    → find_balance p w rs ≡ some r
    → P r
unfolding find_balance
found-All P p w [] r ps e = cc
found-All P p w (x ∷ rs) r (px, ps) e = elim (Bool-cases (same_key p w x)) [
  | inl s ↦ subst P (some-injective _ _ (rw s at e)) px
  | inr s ↦ found-All P p w rs r ps (rw s at e)
]

-- A row that fits is written.
put_balance-IsValid :
    (n : BalanceRow) (t : Tables)
    → RowFits t n
    → IsValid t
    → IsValid (record t { balances = put_balance n t.balances })
put_balance-IsValid n t fits v = record {
  rows_fit = put_balance-All (RowFits t) n t.balances fits v.rows_fit;
  keyed = put_balance-IsKeyed n t.balances v.keyed;
  lines_fit = v.lines_fit;
  lines_keyed = v.lines_keyed;
}

write_row-IsValid :
    (n : BalanceRow) (t : Tables)
    → warehouse_exists n.warehouse_id t.warehouses ≡ true
    → IsValid t
    → IsValid (write_row n t).1
unfolding write_row
write_row-IsValid n t known v = elim (Bool-cases (row_ok n)) [
  | inl fits ↦ rw fits (put_balance-IsValid n t (fits, known) v)
  | inr no_fit ↦ rw no_fit v
]

zero_fits : balance_ok (pos 0) ≡ true
unfolding balance_ok
zero_fits = refl

insert_row-IsValid :
    (p w : String) (z : ℤ) (t : Tables)
    → balance_ok z ≡ true
    → IsValid t
    → IsValid (insert_row p w z t).1
unfolding insert_row
insert_row-IsValid p w z t fits v = elim (Bool-cases (warehouse_exists w t.warehouses)) [
  | inl known ↦ rw known (
      put_balance-IsValid
        (record { product_id = p; warehouse_id = w; available = z; reserved = pos 0 }) t
        (rw (fits, zero_fits), known) v)
  | inr unknown ↦ rw unknown v
]

module _ (p w : String) (change : BalanceRow → BalanceRow)
    (keeps : (r : BalanceRow) → (change r).warehouse_id ≡ r.warehouse_id) where
  changed-IsValid :
      (t : Tables) (r : BalanceRow)
      → find_balance p w t.balances ≡ some r
      → IsValid t
      → IsValid (write_row (change r) t).1
  changed-IsValid t r found v =
      let fits : RowFits t r = found-All (RowFits t) p w t.balances r v.rows_fit found in
      write_row-IsValid (change r) t (rw (keeps r) fits.1) v

  upsert_row-IsValid : (z : ℤ) (t : Tables) → IsValid t → IsValid (upsert_row p w z change t).1
  unfolding upsert_row
  upsert_row-IsValid z t v = elim (Bool-cases (balance_ok z)) [
    | inr bad ↦ rw bad v
    | inl good ↦ elim (Option-cases (find_balance p w t.balances)) [
      | inl missing ↦ rw (good, missing) (insert_row-IsValid p w z t good v)
      | inr (r, found) ↦ rw (good, found) (changed-IsValid t r found v)
    ]
  ]

  update_row-IsValid :
      (guard : BalanceRow → Bool) (t : Tables)
      → IsValid t
      → IsValid (update_row p w guard change t).1
  unfolding update_row
  update_row-IsValid guard t v = elim (Option-cases (find_balance p w t.balances)) [
    | inl missing ↦ rw (missing, update_row) v
    | inr (r, found) ↦ elim (Bool-cases (guard r)) [
      | inl pass ↦ rw (found, pass, update_row) (changed-IsValid t r found v)
      | inr stop ↦ rw (found, stop, update_row) v
    ]
  ]

pub upsert_balance-IsValid :
    (p w : String) (z : ℤ) (t : Tables) → IsValid t → IsValid (upsert_balance p w z t).1
unfolding upsert_balance
upsert_balance-IsValid p w z t = upsert_row-IsValid p w _ (λ r. refl) z t

pub add_available-IsValid :
    (p w : String) (z : Numeric) (t : Tables) → IsValid t → IsValid (add_available p w z t).1
unfolding add_available
add_available-IsValid p w z t = upsert_row-IsValid p w _ (λ r. refl) (rounded z) t

pub remove_available-IsValid :
    (p w : String) (z : Numeric) (t : Tables) → IsValid t → IsValid (remove_available p w z t).1
unfolding remove_available
remove_available-IsValid p w z t = update_row-IsValid p w _ (λ r. refl) _ t

pub confirm_sale-IsValid :
    (p w : String) (z : Numeric) (t : Tables) → IsValid t → IsValid (confirm_sale p w z t).1
unfolding confirm_sale
confirm_sale-IsValid p w z t = update_row-IsValid p w _ (λ r. refl) _ t

pub insert_movement-IsValid :
    (m : MovementRow) (t : Tables) → IsValid t → IsValid (insert_movement m t).1
unfolding insert_movement
insert_movement-IsValid m t v =
    elim (Bool-cases (numeric_ok m.quantity && warehouse_exists m.warehouse_id t.warehouses)) [
      | inl fits ↦ rw fits (record {
        rows_fit = v.rows_fit;
        keyed = v.keyed;
        lines_fit = v.lines_fit;
        lines_keyed = v.lines_keyed;
      })
      | inr no_fit ↦ rw no_fit v
    ]
