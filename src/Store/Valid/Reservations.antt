-- ===== src/Store/Valid/Reservations.antt =====
-- The statements on stock_reservations, and the recomputation, keep the constraints.
use erp_stock.Base.{
  String, ◌==◌, eq_iff, ◌≡◌, refl, ◌∙◌, true, not, ◌&&◌, ◌||◌, Option, none, List, [], ◌∷◌, All,
  arith, Bool-cases, inl, inr, contains,
}
use erp_stock.Base.Int.{ℤ}
use erp_stock.Store.Tables.{BalanceRow, ReservationRow, Tables, find_balance, reservation_ok}
use erp_stock.Store.Reservations.{
  is_open, is_open_of, is_line, put_reservation, upsert_reservation, release_rows, release_others,
  confirm_rows, confirm_open, recalc_rows, recalc_reserved, reserved_fit, warehouse_ref_ok,
}
use erp_stock.Store.Valid.{IsValid, RowFits, IsKeyed, LineFits, LinesKeyed, find_line}

-- Writing a line.
put_reservation-LinesFit :
    (o p : String) (wh : Option String) (z : ℤ) (rs : List ReservationRow)
    → reservation_ok z ≡ true
    → All LineFits rs
    → All LineFits (put_reservation o p wh z rs)
unfolding put_reservation
put_reservation-LinesFit o p wh z [] fits ls = (fits, tt)
put_reservation-LinesFit o p wh z (r ∷ rs) fits (l, ls) = elim (Bool-cases (is_line o p r)) [
  | inl s ↦ rw s (fits, ls)
  | inr s ↦ rw s (l, put_reservation-LinesFit o p wh z rs fits ls)
]

find_line-put_reservation :
    (q s o p : String) (wh : Option String) (z : ℤ) (rs : List ReservationRow)
    → find_line q s (put_reservation o p wh z rs) ≡ ((o == q && p == s) || find_line q s rs)
unfolding put_reservation find_line
find_line-put_reservation q s o p wh z [] = refl
find_line-put_reservation q s o p wh z (r ∷ rs) = ground (
  arith,
  eq_iff r.sales_order_id o,
  eq_iff r.product_id p,
  eq_iff r.sales_order_id q,
  eq_iff r.product_id s,
  eq_iff o q,
  eq_iff p s,
  find_line-put_reservation q s o p wh z rs,
)

put_reservation-LinesKeyed :
    (o p : String) (wh : Option String) (z : ℤ) (rs : List ReservationRow)
    → LinesKeyed rs
    → LinesKeyed (put_reservation o p wh z rs)
unfolding put_reservation find_line
put_reservation-LinesKeyed o p wh z [] k = (refl, tt)
put_reservation-LinesKeyed o p wh z (r ∷ rs) (k, ks) = elim (Bool-cases (is_line o p r)) [
  | inl s ↦ rw s (k, ks)
  | inr s ↦ rw s (
    ground (
      arith,
      find_line-put_reservation r.sales_order_id r.product_id o p wh z rs,
      eq_iff r.sales_order_id o,
      eq_iff r.product_id p,
      eq_iff o r.sales_order_id,
      eq_iff p r.product_id,
    ),
    put_reservation-LinesKeyed o p wh z rs ks,
  )
]

pub upsert_reservation-IsValid :
    (o p : String) (wh : Option String) (z : ℤ) (t : Tables)
    → IsValid t
    → IsValid (upsert_reservation o p wh z t).1
unfolding upsert_reservation
upsert_reservation-IsValid o p wh z t v =
    elim (Bool-cases (reservation_ok z && warehouse_ref_ok wh t)) [
      | inl fits ↦
          let fit : reservation_ok z ≡ true = ground arith in
          rw fits (record {
            rows_fit = v.rows_fit;
            keyed = v.keyed;
            lines_fit = put_reservation-LinesFit o p wh z t.reservations fit v.lines_fit;
            lines_keyed = put_reservation-LinesKeyed o p wh z t.reservations v.lines_keyed;
          })
      | inr no_fit ↦ rw no_fit v
    ]

-- A change of status alone keeps quantities and keys.
release_rows-find_line :
    (q s o : String) (keep : List String) (rs : List ReservationRow)
    → find_line q s (release_rows o keep rs) ≡ find_line q s rs
unfolding release_rows find_line
release_rows-find_line q s o keep [] = refl
release_rows-find_line q s o keep (r ∷ rs) =
    let ih = release_rows-find_line q s o keep rs in
    elim (Bool-cases
      (r.sales_order_id == o && (is_open r.status && not (contains keep r.product_id)))) [
        | inl c ↦ rw (c, ih)
        | inr c ↦ rw (c, ih)
      ]

release_rows-lines :
    (o : String) (keep : List String) (rs : List ReservationRow)
    → All LineFits rs × LinesKeyed rs
    → All LineFits (release_rows o keep rs) × LinesKeyed (release_rows o keep rs)
unfolding release_rows
release_rows-lines o keep [] h = (tt, tt)
release_rows-lines o keep (r ∷ rs) ((l, ls), (k, ks)) =
    let (ls', ks') = release_rows-lines o keep rs (ls, ks) in
    elim (Bool-cases
      (r.sales_order_id == o && (is_open r.status && not (contains keep r.product_id)))) [
        | inl c ↦
            rw c
              ((l, ls'), (release_rows-find_line r.sales_order_id r.product_id o keep rs ∙ k, ks'))
        | inr c ↦
            rw c
              ((l, ls'), (release_rows-find_line r.sales_order_id r.product_id o keep rs ∙ k, ks'))
      ]

pub release_others-IsValid :
    (o : String) (keep : List String) (t : Tables) → IsValid t → IsValid (release_others o keep t).1
unfolding release_others
release_others-IsValid o keep t v =
    let lines = release_rows-lines o keep t.reservations (v.lines_fit, v.lines_keyed) in
    record { rows_fit = v.rows_fit; keyed = v.keyed; lines_fit = lines.0; lines_keyed = lines.1 }

confirm_rows-find_line :
    (q s o : String) (rs : List ReservationRow)
    → find_line q s (confirm_rows o rs) ≡ find_line q s rs
unfolding confirm_rows find_line
confirm_rows-find_line q s o [] = refl
confirm_rows-find_line q s o (r ∷ rs) =
    let ih = confirm_rows-find_line q s o rs in
    elim (Bool-cases (is_open_of o r)) [ inl c ↦ rw (c, ih) | inr c ↦ rw (c, ih) ]

confirm_rows-lines :
    (o : String) (rs : List ReservationRow)
    → All LineFits rs × LinesKeyed rs
    → All LineFits (confirm_rows o rs) × LinesKeyed (confirm_rows o rs)
unfolding confirm_rows
confirm_rows-lines o [] h = (tt, tt)
confirm_rows-lines o (r ∷ rs) ((l, ls), (k, ks)) =
    let (ls', ks') = confirm_rows-lines o rs (ls, ks) in
    elim (Bool-cases (is_open_of o r)) [
      | inl c ↦
          rw c ((l, ls'), (confirm_rows-find_line r.sales_order_id r.product_id o rs ∙ k, ks'))
      | inr c ↦
          rw c ((l, ls'), (confirm_rows-find_line r.sales_order_id r.product_id o rs ∙ k, ks'))
    ]

pub confirm_open-IsValid : (o : String) (t : Tables) → IsValid t → IsValid (confirm_open o t).1
unfolding confirm_open
confirm_open-IsValid o t v =
    let lines = confirm_rows-lines o t.reservations (v.lines_fit, v.lines_keyed) in
    record { rows_fit = v.rows_fit; keyed = v.keyed; lines_fit = lines.0; lines_keyed = lines.1 }

recalc_rows-find_none :
    (p w : String) (ids : List String) (rsv : List ReservationRow) (bs : List BalanceRow)
    → find_balance p w bs ≡ none
    → find_balance p w (recalc_rows ids rsv bs) ≡ none
unfolding recalc_rows find_balance
recalc_rows-find_none p w ids rsv [] e = refl
recalc_rows-find_none p w ids rsv (b ∷ bs) e = elim (Bool-cases (contains ids b.product_id)) [
  | inl c ↦ rw c (ground (arith, recalc_rows-find_none p w ids rsv bs))
  | inr c ↦ rw c (ground (arith, recalc_rows-find_none p w ids rsv bs))
]

recalc_rows-rows :
    (ids : List String) (t : Tables) (bs : List BalanceRow)
    → reserved_fit (recalc_rows ids t.reservations bs) ≡ true
    → All (RowFits t) bs × IsKeyed bs
    → All (RowFits t) (recalc_rows ids t.reservations bs)
      × IsKeyed (recalc_rows ids t.reservations bs)
unfolding recalc_rows reserved_fit
recalc_rows-rows ids t [] fit h = (tt, tt)
recalc_rows-rows ids t (b ∷ bs) fit ((f, fs), (k, ks)) =
    elim (Bool-cases (contains ids b.product_id)) [
      | inl c ↦
          let fits = rw c at fit in
          let (fs', ks') = recalc_rows-rows ids t bs (ground arith) (fs, ks) in
          rw c
            (((ground arith, f.1), fs'), (recalc_rows-find_none _ _ ids t.reservations bs k, ks'))
      | inr c ↦
          let fits = rw c at fit in
          let (fs', ks') = recalc_rows-rows ids t bs (ground arith) (fs, ks) in
          rw c ((f, fs'), (recalc_rows-find_none _ _ ids t.reservations bs k, ks'))
    ]

pub recalc_reserved-IsValid :
    (ids : List String) (t : Tables) → IsValid t → IsValid (recalc_reserved ids t).1
unfolding recalc_reserved
recalc_reserved-IsValid ids t v =
    elim (Bool-cases (reserved_fit (recalc_rows ids t.reservations t.balances))) [
      | inl fit ↦
          let rows = recalc_rows-rows ids t t.balances fit (v.rows_fit, v.keyed) in
          rw fit (record {
            rows_fit = rows.0;
            keyed = rows.1;
            lines_fit = v.lines_fit;
            lines_keyed = v.lines_keyed;
          })
      | inr no_fit ↦ rw no_fit v
    ]
