-- ===== src/Store/Rows.antt =====
-- Laws of the rows of stock_balances: finding after writing, sums, and unique keys.
use erp_stock.Base.{
  String, eq_iff, ◌≡◌, refl, none, some, List, [], ◌∷◌, if◌then◌else◌, arith, Bool-cases, inl, inr,
}
use mathlib.Core.Option.{some-injective}
use erp_stock.Base.Int.{ℤ, ◌+ℤ◌, int_laws}
use erp_stock.Store.Tables.{BalanceRow, same_key, find_balance, put_balance, sum_by}

-- The key of a row that is found is the key that was looked for.
pub find_balance-key :
    (p w : String) (rs : List BalanceRow) (r : BalanceRow)
    → find_balance p w rs ≡ some r
    → (r.product_id ≡ p) × (r.warehouse_id ≡ w)
unfolding find_balance
find_balance-key p w [] r e = cc
find_balance-key p w (x ∷ rs) r e =
    ground (arith, eq_iff x.product_id p, eq_iff x.warehouse_id w, find_balance-key p w rs r)

pub find_balance-put_balance :
    (p w : String) (n : BalanceRow) (rs : List BalanceRow)
    → find_balance p w (put_balance n rs) ≡ (if same_key p w n then some n else find_balance p w rs)
unfolding find_balance put_balance
find_balance-put_balance p w n [] = refl
find_balance-put_balance p w n (r ∷ rs) = ground (
  arith,
  eq_iff r.product_id p,
  eq_iff r.warehouse_id w,
  eq_iff r.product_id n.product_id,
  eq_iff r.warehouse_id n.warehouse_id,
  eq_iff n.product_id p,
  eq_iff n.warehouse_id w,
  find_balance-put_balance p w n rs,
)

-- Replacing a row changes a sum by the difference of the two rows; a new row adds its own number.
pub sum_by-put_balance :
    (g : BalanceRow → ℤ) (n old : BalanceRow) (rs : List BalanceRow)
    → find_balance n.product_id n.warehouse_id rs ≡ some old
    → sum_by g (put_balance n rs) +ℤ g old ≡ sum_by g rs +ℤ g n
unfolding find_balance put_balance sum_by
sum_by-put_balance g n old [] e = cc
sum_by-put_balance g n old (r ∷ rs) e = elim (Bool-cases (same_key n.product_id n.warehouse_id r)) [
  | inl s ↦ let same : r ≡ old = some-injective _ _ (rw s at e) in rw (s, ← same) (omega int_laws)
  | inr s ↦ rw s (grind (int_laws, sum_by-put_balance g n old rs (rw s at e)))
]

pub sum_by-put_balance_new :
    (g : BalanceRow → ℤ) (n : BalanceRow) (rs : List BalanceRow)
    → find_balance n.product_id n.warehouse_id rs ≡ none
    → sum_by g (put_balance n rs) ≡ sum_by g rs +ℤ g n
unfolding find_balance put_balance sum_by
sum_by-put_balance_new g n [] e = omega int_laws
sum_by-put_balance_new g n (r ∷ rs) e = elim (Bool-cases (same_key n.product_id n.warehouse_id r)) [
  | inl s ↦ let found : some r ≡ none = rw s at e in cc
  | inr s ↦ rw s (grind (int_laws, sum_by-put_balance_new g n rs (rw s at e)))
]
