-- ===== src/Store/Reservations/Synced.antt =====
-- The reserved column against the open reservations that it sums up.
use erp_stock.Base.{
  String, ◌==◌, eq_iff, eq_refl, ◌≡◌, refl, sym, ap, ◌∙◌, Bool, true, false, not, ◌||◌, ◌&&◌,
  Bool-cases, inl, inr, Option, List, [], ◌∷◌, ◌++◌, contains, All, arith,
}
use erp_stock.Base.Int.{ℤ, pos, ◌+ℤ◌, int_laws}
use erp_stock.Domain.Errors.{Result, ok, err, failure}
use erp_stock.Store.Tables.{BalanceRow, ReservationRow, Tables, sum_by}
use erp_stock.Store.Valid.{find_line}
use erp_stock.Store.Reservations.{
  is_open, held_by, open_sum, recalc_rows, reserved_fit, recalc_reserved, products_of_order,
  is_line, put_reservation, release_rows,
}

-- Each balance holds the sum of the open reservations of its product that bear on its warehouse.
abbrev pub InSync : List ReservationRow → BalanceRow → Type 0
InSync rsv b = b.reserved ≡ open_sum b.product_id b.warehouse_id rsv

abbrev pub IsSynced : Tables → Type 0
IsSynced t = All (InSync t.reservations) t.balances

-- The sums of the products outside `ids` are as they were.
abbrev pub SameOutside : List String → List ReservationRow → List ReservationRow → Type 0
SameOutside ids old new =
    (p w : String) → contains ids p ≡ false → open_sum p w new ≡ open_sum p w old

-- Rows stay in sync where no sum has changed.
pub InSync-All :
    (old new : List ReservationRow) (bs : List BalanceRow)
    → SameOutside [] old new
    → All (InSync old) bs
    → All (InSync new) bs
InSync-All old new [] same synced = tt
InSync-All old new (b ∷ bs) same (s, ss) =
    (s ∙ sym (same b.product_id b.warehouse_id refl), InSync-All old new bs same ss)

recalc_rows-InSync :
    (ids : List String) (old new : List ReservationRow) (bs : List BalanceRow)
    → SameOutside ids old new
    → All (InSync old) bs
    → All (InSync new) (recalc_rows ids new bs)
unfolding recalc_rows
recalc_rows-InSync ids old new [] same synced = tt
recalc_rows-InSync ids old new (b ∷ bs) same (s, ss) = (
  elim (Bool-cases (contains ids b.product_id)) [
    | inl inside ↦ rw inside refl
    | inr outside ↦ rw outside (s ∙ sym (same b.product_id b.warehouse_id outside))
  ],
  recalc_rows-InSync ids old new bs same ss,
)

-- A successful recalculation of the products whose sums may have changed puts all rows in sync.
pub recalc_reserved-IsSynced :
    (ids : List String) (old : List ReservationRow) (t u : Tables)
    → SameOutside ids old t.reservations
    → All (InSync old) t.balances
    → recalc_reserved ids t ≡ (ok tt, u)
    → IsSynced u
unfolding recalc_reserved
recalc_reserved-IsSynced ids old t u same synced done =
    elim (Bool-cases (reserved_fit (recalc_rows ids t.reservations t.balances))) [
      | inl fit ↦
          let here : ◌≡◌ {A = Result (Unit {0}) × Tables}
              (ok tt, record t { balances = recalc_rows ids t.reservations t.balances })
              (ok tt, u) =
            rw fit at done in
          let e : record t { balances = recalc_rows ids t.reservations t.balances } ≡ u =
            ap (λ (x : Result (Unit {0}) × Tables). x.1) here in
          rw (← e) (recalc_rows-InSync ids old t.reservations t.balances same synced)
      | inr no_fit ↦
          let stop : ◌≡◌ {A = Result (Unit {0}) × Tables} (err failure, t) (ok tt, u) =
            rw no_fit at done in
          cc
    ]

-- A row of one product is not of another.
other_product :
    (p q : String) (r : ReservationRow)
    → (r.product_id == p) ≡ true
    → (p == q) ≡ false
    → (r.product_id == q) ≡ false
other_product p q r mine other = ground (arith, eq_iff r.product_id p)

and_left : (a b : Bool) → (a && b) ≡ true → a ≡ true
and_left a b h = ground arith

and_right : (a b : Bool) → (a && b) ≡ true → b ≡ true
and_right a b h = ground arith

and_false : (a : Bool) → (a && false || false) ≡ false
and_false a = ground arith

pub or_left : (a b : Bool) → (a || b) ≡ false → a ≡ false
or_left a b h = ground arith

pub or_right : (a b : Bool) → (a || b) ≡ false → b ≡ false
or_right a b h = ground arith

module _ (o p : String) (wh : Option String) (z : ℤ) where
  -- Writing a line of one product leaves the sums of the others.
  pub put_reservation-SameSum :
      (q w : String) (rs : List ReservationRow)
      → (p == q) ≡ false
      → open_sum q w (put_reservation o p wh z rs) ≡ open_sum q w rs
  unfolding open_sum put_reservation sum_by
  put_reservation-SameSum q w [] other = rw other (omega int_laws)
  put_reservation-SameSum q w (r ∷ rs) other = elim (Bool-cases (is_line o p r)) [
    | inl mine ↦
        let apart =
          other_product p q r (and_right (r.sales_order_id == o) (r.product_id == p) mine) other in
        rw (mine, apart) refl
    | inr not_mine ↦
        rw not_mine (ap (λ s. held_by q w r +ℤ s) (put_reservation-SameSum q w rs other))
  ]

  -- And where the order has lines.
  pub find_line-put_reservation :
      (q : String) (rs : List ReservationRow)
      → (p == q) ≡ false
      → find_line o q (put_reservation o p wh z rs) ≡ find_line o q rs
  unfolding put_reservation find_line
  find_line-put_reservation q [] other = rw (eq_refl o, other) refl
  find_line-put_reservation q (r ∷ rs) other = elim (Bool-cases (is_line o p r)) [
    | inl mine ↦ rw mine refl
    | inr not_mine ↦
        rw not_mine (ap (λ s. is_line o q r || s) (find_line-put_reservation q rs other))
  ]
  -- Releasing lines of an order leaves the sums of a product of which the order has no line.

pub release_rows-SameSum :
    (o : String) (keep : List String) (q w : String) (rs : List ReservationRow)
    → find_line o q rs ≡ false
    → open_sum q w (release_rows o keep rs) ≡ open_sum q w rs
unfolding open_sum release_rows find_line sum_by
release_rows-SameSum o keep q w [] none_ = refl
release_rows-SameSum o keep q w (r ∷ rs) none_ =
    let rest =
      release_rows-SameSum o keep q w rs (or_right (is_line o q r) (find_line o q rs) none_) in
    elim (Bool-cases
      (r.sales_order_id == o && (is_open r.status && not (contains keep r.product_id)))) [
        | inr keep_ ↦ rw keep_ (ap (λ s. held_by q w r +ℤ s) rest)
        | inl release ↦
            let mine =
              and_left (r.sales_order_id == o)
                (is_open r.status && not (contains keep r.product_id)) release in
            let apart : (r.product_id == q) ≡ false =
              rw mine at (or_left (is_line o q r) (find_line o q rs) none_) in
            rw (release, apart) (ap (λ s. pos 0 +ℤ s) rest)
      ]

-- The products of an order are those of its lines.
pub products_of_order-find_line :
    (o q : String) (rs : List ReservationRow)
    → contains (products_of_order o rs) q ≡ false
    → find_line o q rs ≡ false
unfolding products_of_order find_line
products_of_order-find_line o q [] h = refl
products_of_order-find_line o q (r ∷ rs) h = elim (Bool-cases (r.sales_order_id == o)) [
  | inl same ↦
      let both : (r.product_id == q || contains (products_of_order o rs) q) ≡ false =
        rw same at h in
      let apart = or_left (r.product_id == q) (contains (products_of_order o rs) q) both in
      let rest =
        products_of_order-find_line o q rs
          (or_right (r.product_id == q) (contains (products_of_order o rs) q) both) in
      rw (apart, rest) (and_false (r.sales_order_id == o))
  | inr other ↦ rw other (products_of_order-find_line o q rs (rw other at h))
]

pub contains-append :
    (xs ys : List String) (q : String) → contains (xs ++ ys) q ≡ (contains xs q || contains ys q)
contains-append [] ys q = refl
contains-append (x ∷ xs) ys q = let rest = contains-append xs ys q in ground arith
