-- ===== src/Store/Movements/Effects.antt =====
-- What `InsertMovement` does to the tables.
use erp_stock.Base.{◌≡◌, refl, ◌&&◌, ◌∷◌, Bool-cases, inl, inr}
use erp_stock.Domain.Errors.{Result, ok, err}
use erp_stock.Store.Tables.{MovementRow, Tables, numeric_ok, warehouse_exists}
use erp_stock.Store.Movements.{insert_movement}

-- One movement is added, stamped with the time; nothing else but the clock has changed.
pub record Records (m : MovementRow) (t u : Tables) : Type 0 where
  pub added : u.movements ≡ record m { created_at = t.clock } ∷ t.movements
  pub same_balances : u.balances ≡ t.balances
  pub same_reservations : u.reservations ≡ t.reservations
  pub same_warehouses : u.warehouses ≡ t.warehouses

abbrev pub RecordsOrFails : MovementRow → Tables → Result (Unit {0}) × Tables → Type 0
RecordsOrFails m t (ok _, u) = Records m t u
RecordsOrFails m t (err _, u) = u ≡ t

pub insert_movement-RecordsOrFails :
    (m : MovementRow) (t : Tables) → RecordsOrFails m t (insert_movement m t)
unfolding insert_movement
insert_movement-RecordsOrFails m t =
    elim (Bool-cases (numeric_ok m.quantity && warehouse_exists m.warehouse_id t.warehouses)) [
      | inl fits ↦ rw fits (record {
        added = refl;
        same_balances = refl;
        same_reservations = refl;
        same_warehouses = refl;
      })
      | inr no_fit ↦ rw no_fit
    ]
