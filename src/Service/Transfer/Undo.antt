-- ===== src/Service/Transfer/Undo.antt =====
-- A transfer that fails while no call fails is undone.
use erp_stock.Base.{
  String, ◌≡◌, refl, sym, ap, ◌∙◌, subst, Bool, ◌⊎◌, inl, inr, [], ◌==◌, ◌&&◌, Bool-cases,
}
use erp_stock.Base.Int.{ℤ, pos, ◌+ℤ◌, ◌-ℤ◌, ◌≤ℤ◌, int_laws}
use erp_stock.Float.Decimal.{taken}
use erp_stock.Float.{to_numeric, Float}
use erp_stock.Domain.Errors.{Result, ok, err, Error, invalid}
use erp_stock.Domain.Types.{subtype_transfer}
use erp_stock.Store.Tables.{Tables}
use erp_stock.Store.Balances
use erp_stock.Store.Balances.Effects.{available, reserved, at_key}
use erp_stock.Store.Room.{add_available_back}
use erp_stock.Store.Valid.{IsValid}
use erp_stock.World.{is_held, World, Action, ◌>>◌, fail_if}
use erp_stock.World.Rules.{after, bind_rule, exec_calm}
use erp_stock.World.Always.{Always}
use erp_stock.World.SameStock.{SameStock, new_uuid-SameStock, read_rules}
use erp_stock.Repo
use erp_stock.Service.Reads.{get_product-SameStock, get_warehouse-SameStock}
use erp_stock.Service.Apply.{apply_qty_sub, change_balance}
use erp_stock.Service.Apply.Effects.{
  signed, movement_of, Applied, AppliedOrFails, apply_qty_sub-AppliedOrFails,
}
use erp_stock.Service.Movements.{transfer_stock, or_credit, credited}
use erp_stock.Service.Frame.{
  apply_qty_sub_frame, get_product_frame, get_warehouse_frame, uuid_frame, frame_rules,
}
use erp_stock.Service.Calm.{StaysCalm, StaysCalm-Respects}
use erp_stock.Service.Constraints.{KeepsValid, KeepsValid-Respects}
use erp_stock.Service.Transfer.Undoes.{
  SameQuantities, Undone, Undoes, same_quantities, Undoes-after_read, Undoes-then_read,
}
use erp_stock.Service.Transfer.Taken.{Took, apply_qty_sub-Took}
use erp_stock.Service.Atomic.{apply_qty_sub_ok, apply_qty_sub_atomic}

-- Taken and put back.
there_and_back :
    (p s q u : String) (x z : ℤ) → x +ℤ at_key p s q u (pos 0 -ℤ z) +ℤ at_key p s q u z ≡ x
there_and_back p s q u x z = elim (Bool-cases (p == q && s == u)) [
  | inl here ↦ rw here (omega int_laws)
  | inr else_ ↦ rw else_ (omega int_laws)
]

module _ {F : Type 0} ⦃fl : Float F⦄ (p src dst : String) (qty : F) (sign : pos 0 ≤ℤ to_numeric qty)
    (no_half : to_numeric qty ≡ taken (fl.exact qty)) (ref : String) where
  abbrev out : Action F (Unit {0})
  out = apply_qty_sub p src "TRANSFER_OUT" subtype_transfer qty "TRANSFER" ref

  abbrev back : Action F (Unit {0})
  back = apply_qty_sub p src "TRANSFER_IN" subtype_transfer qty "TRANSFER" ref

  applied :
      (typ : String) (w v : World F) (a : Unit {0})
      → apply_qty_sub p src typ subtype_transfer qty "TRANSFER" ref w ≡ (ok a, v)
      → Applied
          (signed typ (fl.exact qty))
          (movement_of p src typ subtype_transfer (to_numeric qty) "TRANSFER" ref)
          w.stock
          v.stock
  applied typ w v a e =
      subst
        (λ x.
          AppliedOrFails (signed typ (fl.exact qty))
            (movement_of p src typ subtype_transfer (to_numeric qty) "TRANSFER" ref) w.stock
            (after x))
        e (apply_qty_sub-AppliedOrFails p src typ subtype_transfer qty "TRANSFER" ref w)

  round_trip :
      (t u v : Tables)
      → Applied
          (signed "TRANSFER_OUT" (fl.exact qty))
          (movement_of p src "TRANSFER_OUT" subtype_transfer (to_numeric qty) "TRANSFER" ref)
          t
          u
      → Applied
          (signed "TRANSFER_IN" (fl.exact qty))
          (movement_of p src "TRANSFER_IN" subtype_transfer (to_numeric qty) "TRANSFER" ref)
          u
          v
      → SameQuantities t v
  round_trip t u v left returned = λ q w. (
    returned.moved q w
        ∙ rw (left.moved q w) (
            let same = no_half in
            rw (← no_half) (there_and_back p src q w (available q w t) (to_numeric qty))),
    returned.held q w ∙ left.held q w,
  )

  -- The credit to the origin succeeds.
  credit_ok :
      (t : Tables) (y : World F)
      → y.faults ≡ []
      → y.locks ≡ []
      → IsValid t
      → IsValid y.stock
      → (m : Tables) → Balances.remove_available p src (fl.exact qty) t ≡ (ok tt, m)
      → y.stock.balances ≡ m.balances
      → (back y).0 ≡ ok tt
  unfolding change_balance Repo.add_available is_held
  credit_ok t y quiet free valid valid' m removed same =
      apply_qty_sub_ok "TRANSFER_IN" p src qty sign subtype_transfer "TRANSFER" ref y quiet
        (rw (free, is_held) refl) valid'
        (λ u still unchanged.
          ap (λ (x : Result (Unit {0}) × World F). x.0)
            (exec_calm (Balances.add_available p src (fl.exact qty)) u still)
          ∙ add_available_back p src (fl.exact qty) t m sign no_half valid removed u.stock
              (ap (λ (x : Tables). x.balances) unchanged ∙ same))

  of_ok :
      (t : Tables) (x : Result (Unit {0}) × Tables)
      → x.0 ≡ ok tt
      → AppliedOrFails
          (signed "TRANSFER_IN" (fl.exact qty))
          (movement_of p src "TRANSFER_IN" subtype_transfer (to_numeric qty) "TRANSFER" ref)
          t
          x
      → Applied
          (signed "TRANSFER_IN" (fl.exact qty))
          (movement_of p src "TRANSFER_IN" subtype_transfer (to_numeric qty) "TRANSFER" ref)
          t
          x.1
  of_ok t (ok _, u) done a = a
  of_ok t (err x, u) done a = let stop : ◌≡◌ {A = Result (Unit {0})} (err x) (ok tt) = done in cc

  abbrev into : Action F (Unit {0})
  into = apply_qty_sub p dst "TRANSFER_IN" subtype_transfer qty "TRANSFER" ref

  -- The second half, after a first half that returned no error.
  second_half :
      (w v : World F) (a : Unit {0})
      → w.faults ≡ []
      → w.locks ≡ []
      → IsValid w.stock
      → out w ≡ (ok a, v)
      → Undone w.stock (or_credit into back v)
  unfolding or_credit
  second_half w v a quiet free valid e =
      let (still, kept) =
        subst (λ (x : Result (Unit {0}) × World F). StaysCalm w x.1) e
          ((apply_qty_sub_frame {R = StaysCalm} p src "TRANSFER_OUT" subtype_transfer qty "TRANSFER"
              ref).at
            w)
          quiet in
      let valid' =
        subst (λ (x : Result (Unit {0}) × World F). KeepsValid w x.1) e
          ((apply_qty_sub_frame {R = KeepsValid} p src "TRANSFER_OUT" subtype_transfer qty
              "TRANSFER" ref).at
            w)
          valid in
      let took =
        subst (λ x. Took p src (fl.exact qty) w.stock (after x)) e
          (apply_qty_sub-Took p src subtype_transfer qty "TRANSFER" ref w) in
      go still kept valid' took (into v) refl
    where
      go :
          v.faults ≡ []
          → v.locks ≡ w.locks
          → IsValid v.stock
          → Took p src (fl.exact qty) w.stock (ok a, v.stock)
          → (x : Result (Unit {0}) × World F) → into v ≡ x
          → Undone w.stock (credited back x)
      go still kept valid' took (ok b, y) eq = inl refl
      go still kept valid' took (err x, y) eq =
          let left = applied "TRANSFER_OUT" w v a e in
          let same : y.stock ≡ v.stock =
            apply_qty_sub_atomic p dst "TRANSFER_IN" subtype_transfer qty "TRANSFER" ref v y x still
              valid' sign eq in
          let (calm, kept') =
            subst (λ (z : Result (Unit {0}) × World F). StaysCalm v z.1) eq
              ((apply_qty_sub_frame {R = StaysCalm} p dst "TRANSFER_IN" subtype_transfer qty
                  "TRANSFER" ref).at
                v)
              still in
          let fine : IsValid y.stock = subst (λ t. IsValid t) (sym same) valid' in
          let done =
            credit_ok w.stock y calm (kept' ∙ kept ∙ free) valid fine (took.0) (took.1)
              (ap (λ (t : Tables). t.balances) same ∙ took.2) in
          let returned = of_ok y.stock (after (back y)) done (
            apply_qty_sub-AppliedOrFails p src "TRANSFER_IN" subtype_transfer qty "TRANSFER" ref
              y) in
          inr (
            round_trip w.stock v.stock (back y).1.stock left (
              subst
                (λ t.
                  Applied (signed "TRANSFER_IN" (fl.exact qty))
                    (movement_of p src "TRANSFER_IN" subtype_transfer (to_numeric qty) "TRANSFER"
                      ref)
                    t (back y).1.stock)
                same returned))

  halves-Undoes : Undoes (out >> or_credit into back)
  halves-Undoes = record {
    at = λ w quiet free valid.
        bind_rule (Undone w.stock) out (λ _. or_credit into back) w
          (λ a v e. second_half w v a quiet free valid e)
          (λ x v e. inr (
            same_quantities w.stock v.stock (
              apply_qty_sub_atomic p src "TRANSFER_OUT" subtype_transfer qty "TRANSFER" ref w v x
                quiet valid sign e)));
  }

module _ {F : Type 0} ⦃fl : Float F⦄ (p src dst : String) (qty : F) (sign : pos 0 ≤ℤ to_numeric qty)
    (no_half : to_numeric qty ≡ taken (fl.exact qty)) where
  guard-SameStock : (b : Bool) → Always {F = F} SameStock (fail_if b invalid)
  guard-SameStock b = search read_rules

  guard-StaysCalm : (b : Bool) → Always {F = F} StaysCalm (fail_if b invalid)
  guard-StaysCalm b = search frame_rules

  transfer_stock-Undoes : Undoes (transfer_stock p src dst qty)
  unfolding transfer_stock
  transfer_stock-Undoes =
      search
        (
          Undoes-after_read, Undoes-then_read, get_product-SameStock, get_warehouse-SameStock,
          new_uuid-SameStock, guard-SameStock, guard-StaysCalm, get_product_frame,
          get_warehouse_frame, uuid_frame, halves-Undoes, sign, no_half,
        )
        depth 14

-- On tables that meet their constraints, with a quantity that is not negative once it is rounded to
-- the columns' decimals and that is not half way between two of them, while no call fails and no
-- lock is held, a transfer that returns an error leaves every available and every reserved quantity
-- as it was: what it had taken from the origin is put back.
pub transfer_undone :
    {F : Type 0} ⦃fl : Float F⦄ (p src dst : String) (qty : F) (w v : World F) (x : Error)
    (q u : String)
    → w.faults ≡ []
    → w.locks ≡ []
    → IsValid w.stock
    → pos 0 ≤ℤ to_numeric qty
    → to_numeric qty ≡ taken (fl.exact qty)
    → transfer_stock p src dst qty w ≡ (err x, v)
    → (available q u v.stock ≡ available q u w.stock)
      × (reserved q u v.stock ≡ reserved q u w.stock)
transfer_undone {F} p src dst qty w v x q u quiet free valid sign no_half e =
    go
      (subst (λ (y : Result (Unit {0}) × World F). Undone w.stock y) e
        ((transfer_stock-Undoes p src dst qty sign no_half).at w quiet free valid))
      q u
  where
    go :
        (◌≡◌ {A = Result (Unit {0})} (err x) (ok tt)) ⊎ SameQuantities w.stock v.stock
        → SameQuantities w.stock v.stock
    go (inl stop) = cc
    go (inr same) = same
