-- ===== src/Service/Apply/Effects.antt =====
-- The outcome of `applyQtySub`, whatever calls fail.
use erp_stock.Base.{
  String, ◌==◌, ◌≡◌, refl, ◌∙◌, ◌&&◌, subst, ◌⊎◌, inl, inr, ◌∷◌, if◌then◌else◌, Bool-cases,
}
use erp_stock.Base.Int.{ℤ, pos, ◌+ℤ◌, ◌-ℤ◌, int_laws}
use erp_stock.Float.Decimal.{Numeric, rounded, taken}
use erp_stock.Float.{to_numeric, Float}
use erp_stock.Domain.Errors.{Result, ok, err}
use erp_stock.Store.Tables.{MovementRow, Tables}
use erp_stock.Store.Balances.Effects.{
  available, reserved, at_key, Shifts, ShiftsOrFails, add_available-ShiftsOrFails,
  remove_available-ShiftsOrFails,
}
use erp_stock.Store.Movements.{nil_if_empty}
use erp_stock.Store.Movements.Effects.{Records, RecordsOrFails, insert_movement-RecordsOrFails}
use erp_stock.World.{World, Action, ◌>>◌, acquire, deferring, unlock, stock_key, push_cached}
use erp_stock.World.Rules.{bind_rule, exec_rule, after, acquire_stock}
use erp_stock.World.Always.{Always}
use erp_stock.World.SameStock.{SameStock, read_rules}
use erp_stock.Domain.Types.{Balance}
use erp_stock.Repo
use erp_stock.Service.Apply.{
  is_inbound, change_balance, record_movement, refresh_cache, set_cached, cache_result,
  apply_qty_sub,
}

-- What a movement of this type adds to the balance: a half is rounded up on the way in, and down on
-- the way out.
abbrev pub signed : String → Numeric → ℤ
signed typ z = if is_inbound typ then rounded z else pos 0 -ℤ taken z

-- The movement as `applyQtySub` writes it.
abbrev pub movement_of : String → String → String → String → ℤ → String → String → MovementRow
movement_of p wh typ sub z doc_type doc_id = record {
  product_id = p;
  warehouse_id = wh;
  movement_type = typ;
  subtype = sub;
  quantity = z;
  reference_doc_type = doc_type;
  reference_doc_id = nil_if_empty doc_id;
  created_at = 0;
}

-- The balance has moved by `d` and the movement is recorded; nothing else has changed.
pub record Applied (d : ℤ) (m : MovementRow) (t u : Tables) : Type 0 where
  pub moved :
      (q v : String) → available q v u ≡ available q v t +ℤ at_key m.product_id m.warehouse_id q v d
  pub held : (q v : String) → reserved q v u ≡ reserved q v t
  pub added : u.movements ≡ record m { created_at = t.clock } ∷ t.movements
  pub same_reservations : u.reservations ≡ t.reservations
  pub same_warehouses : u.warehouses ≡ t.warehouses

-- A failed call has changed nothing, or has moved the balance and recorded no movement.
abbrev pub AppliedOrFails : ℤ → MovementRow → Tables → Result (Unit {0}) × Tables → Type 0
AppliedOrFails d m t (ok _, u) = Applied d m t u
AppliedOrFails d m t (err _, u) = (u ≡ t) ⊎ Shifts m.product_id m.warehouse_id d (pos 0) t u

module _ {F : Type 0} ⦃fl : Float F⦄ where
  pub change_balance-ShiftsOrFails :
      (typ p wh : String) (qty : F) (w : World F)
      → ShiftsOrFails p wh
          (signed typ (fl.exact qty))
          (pos 0)
          w.stock
          (after (change_balance typ p wh qty w))
  unfolding change_balance Repo.add_available Repo.remove_available
  change_balance-ShiftsOrFails typ p wh qty w = elim (Bool-cases (is_inbound typ)) [
    | inl inbound ↦ rw inbound (
        exec_rule (ShiftsOrFails p wh (to_numeric qty) (pos 0) w.stock) _ w
          (add_available-ShiftsOrFails p wh (fl.exact qty) w.stock) refl)
    | inr outbound ↦ rw outbound (
        exec_rule (ShiftsOrFails p wh (pos 0 -ℤ taken (fl.exact qty)) (pos 0) w.stock) _ w
          (remove_available-ShiftsOrFails p wh (fl.exact qty) w.stock) refl)
  ]

  pub record_movement-RecordsOrFails :
      (p wh typ sub : String) (qty : F) (doc_type doc_id : String) (w : World F)
      → RecordsOrFails
          (movement_of p wh typ sub (to_numeric qty) doc_type doc_id)
          w.stock
          (after (record_movement p wh typ sub qty doc_type doc_id w))
  unfolding record_movement Repo.insert_movement
  record_movement-RecordsOrFails p wh typ sub qty doc_type doc_id w =
      exec_rule (RecordsOrFails (movement_of p wh typ sub (to_numeric qty) doc_type doc_id) w.stock)
        _ w (insert_movement-RecordsOrFails _ w.stock) refl

  get_balance-SameStock : (p wh : String) → Always {F = F} SameStock (Repo.get_balance p wh)
  unfolding Repo.get_balance
  get_balance-SameStock p wh = search read_rules

  set_cached-SameStock : (b : Balance F) → Always SameStock (set_cached b)
  unfolding set_cached push_cached
  set_cached-SameStock b = search read_rules

  cache_result_lem :
      (x : Result (Balance F) × World F)
      → ((cache_result x).0 ≡ ok tt) × ((cache_result x).1.stock ≡ x.1.stock)
  cache_result_lem (ok b, v) = (refl, (set_cached-SameStock b).at v)
  cache_result_lem (err e, v) = (refl, refl)

  -- Refreshing the cache never fails and leaves the tables.
  pub refresh_cache_lem :
      (p wh : String) (w : World F)
      → ((refresh_cache p wh w).0 ≡ ok tt) × ((refresh_cache p wh w).1.stock ≡ w.stock)
  unfolding refresh_cache
  refresh_cache_lem p wh w =
      let (done, same) = cache_result_lem (Repo.get_balance p wh w) in
      (done, same ∙ (get_balance-SameStock p wh).at w)

available-cong :
    (t u : Tables) → u.balances ≡ t.balances → (q v : String) → available q v u ≡ available q v t
unfolding available
available-cong t u e q v = rw e

reserved-cong :
    (t u : Tables) → u.balances ≡ t.balances → (q v : String) → reserved q v u ≡ reserved q v t
unfolding reserved
reserved-cong t u e q v = rw e

-- A change of the balance and then a record of the movement.
Shifts-Records :
    (d : ℤ) (m : MovementRow) (t s u : Tables)
    → Shifts m.product_id m.warehouse_id d (pos 0) t s
    → Records m s u
    → Applied d m t u
Shifts-Records d m t s u sh rc = record {
  moved = λ q v. available-cong s u rc.same_balances q v ∙ sh.moved q v;
  held =
      λ q v. reserved-cong s u rc.same_balances q v ∙ sh.held q v ∙ plus_zero (reserved q v t) q v;
  added = rw (rc.added, sh.same_movements, sh.same_clock);
  same_reservations = rc.same_reservations ∙ sh.same_reservations;
  same_warehouses = rc.same_warehouses ∙ sh.same_warehouses;
}
  where
    plus_zero : (x : ℤ) (q v : String) → x +ℤ at_key m.product_id m.warehouse_id q v (pos 0) ≡ x
    plus_zero x q v = elim (Bool-cases (m.product_id == q && m.warehouse_id == v)) [
      | inl e ↦ rw e (omega int_laws)
      | inr e ↦ rw e (omega int_laws)
    ]

module _ {F : Type 0} ⦃fl : Float F⦄ (p wh typ sub : String) (qty : F)
    (doc_type doc_id : String) where
  abbrev row : MovementRow
  row = movement_of p wh typ sub (to_numeric qty) doc_type doc_id

  abbrev shift : ℤ
  shift = signed typ (fl.exact qty)

  -- After the balance has changed from `t`.
  record_and_refresh :
      (t : Tables) (v : World F)
      → Shifts p wh (signed typ (fl.exact qty)) (pos 0) t v.stock
      → AppliedOrFails shift row t
          (after ((record_movement p wh typ sub qty doc_type doc_id >> refresh_cache p wh) v))
  record_and_refresh t v sh =
      let outcome = record_movement-RecordsOrFails p wh typ sub qty doc_type doc_id v in
      bind_rule (λ x. AppliedOrFails shift row t (after x))
        (record_movement p wh typ sub qty doc_type doc_id) (λ _. refresh_cache p wh) v
        (λ a s eq.
          let rc : Records row v.stock s.stock = rw eq at outcome in
          let (done, same) = refresh_cache_lem p wh s in
          rw (done, same) (Shifts-Records shift row t v.stock s.stock sh rc))
        (λ e s eq. let same : s.stock ≡ v.stock = rw eq at outcome in rw same (inr sh))

  -- The body of `applyQtySub`, under its lock.
  abbrev body : Action F (Unit {0})
  body = do
    change_balance typ p wh qty
    record_movement p wh typ sub qty doc_type doc_id
    refresh_cache p wh

  apply_body : (v : World F) → AppliedOrFails shift row v.stock (after (body v))
  apply_body v =
      let outcome = change_balance-ShiftsOrFails typ p wh qty v in
      bind_rule (λ x. AppliedOrFails shift row v.stock (after x)) (change_balance typ p wh qty)
        (λ _. record_movement p wh typ sub qty doc_type doc_id >> refresh_cache p wh) v
        (λ a s eq. record_and_refresh v.stock s (rw eq at outcome))
        (λ e s eq. inl (rw eq at outcome))

  -- Whatever calls fail, `applyQtySub` that returns no error has moved the balance by its quantity in
  -- ten-thousandths, a half rounded up on the way in and down on the way out, recorded a movement of
  -- its quantity, a half rounded up, and changed no other quantity, movement, reservation or warehouse; one that
  -- returns an error has changed nothing in the tables, or has moved the balance without recording
  -- the movement.
  pub apply_qty_sub-AppliedOrFails :
      (w : World F)
      → AppliedOrFails shift row w.stock (after (apply_qty_sub p wh typ sub qty doc_type doc_id w))
  unfolding apply_qty_sub unlock
  apply_qty_sub-AppliedOrFails w =
      let kept = acquire_stock (stock_key p wh) w in
      bind_rule (λ x. AppliedOrFails shift row w.stock (after x)) (acquire (stock_key p wh))
        (λ _. deferring (unlock (stock_key p wh)) body) w
        (λ a v eq.
          let same : v.stock ≡ w.stock = rw eq at kept in
          subst (λ t. AppliedOrFails shift row t (after (body v))) same (apply_body v))
        (λ e v eq. inl (rw eq at kept))
