-- ===== src/Tests/Failures.antt =====
-- The theorems on what fails while no call fails, applied.
use erp_stock.Base.{arith, ◌≡◌, refl, [], ◌∷◌}
use erp_stock.Base.Int.{ℤ, pos, ◌+ℤ◌, ◌-ℤ◌, ◌≤ℤ◌}
use erp_stock.Float.Decimal
use erp_stock.Float.{fixed_float}
use erp_stock.Domain.Errors.{err, failure}
use erp_stock.Store.Tables.{Tables, BalanceRow, ReservationRow}
use erp_stock.Store.Tables
use erp_stock.Store.Balances
use erp_stock.Store.Movements as Store_Movements
use erp_stock.Store.Valid.{IsValid}
use erp_stock.Store.Valid
use erp_stock.World.{World}
use erp_stock.World
use erp_stock.Store.Balances.Effects.{available, reserved}
use erp_stock.Service.Transfer.Undo.{transfer_undone}
use erp_stock.Repo
use erp_stock.Service.Lookup
use erp_stock.Service.Apply
use erp_stock.Service.Movements as Service
use erp_stock.Tests.Sample.{small_stock, small_world}

-- B holds as much flour as its column can.
abbrev full_stock : Tables
full_stock = record small_stock {
  balances =
      record {
        product_id = "flour";
        warehouse_id = "A";
        available = pos 100_000;
        reserved = pos 40_000;
      }
      ∷ record {
        product_id = "flour";
        warehouse_id = "B";
        available = pos 999_999_999_999_999;
        reserved = pos 0;
      }
      ∷ [];
}

abbrev full_world : World ℤ
full_world = record small_world { stock = full_stock }

full_stock-IsValid : IsValid full_stock
unfolding Tables.balance_ok Tables.numeric_ok Tables.reservation_ok Tables.warehouse_exists
    Tables.find_balance Valid.find_line
full_stock-IsValid = record {
  rows_fit = ((refl, refl), ((refl, refl), tt));
  keyed = (refl, (refl, tt));
  lines_fit = (refl, tt);
  lines_keyed = (refl, tt);
}

stopped_world : World ℤ
stopped_world = (Service.transfer_stock "flour" "A" "B" (pos 30_000) full_world).1

transfer_stops :
    Service.transfer_stock "flour" "A" "B" (pos 30_000) full_world ≡ (err failure, stopped_world)
unfolding Service.transfer_stock Service.or_credit Lookup.get_product Lookup.find_product
    Repo.get_warehouse Repo.find_warehouse Decimal.add_rest Decimal.sub_rest Decimal.numeric_le
    World.call World.next_fault World.later_faults World.new_uuid World.acquire World.unlock
    World.drop_lock World.is_held World.lock_result World.stock_key World.push_cached
    Apply.apply_qty_sub Apply.change_balance Apply.record_movement Apply.refresh_cache
    Apply.set_cached Repo.add_available Repo.remove_available Repo.insert_movement Repo.get_balance
    Repo.scan_found Repo.scan_balance Balances.add_available Balances.remove_available
    Balances.upsert_row Balances.insert_row Balances.update_row Balances.write_row
    Tables.find_balance Tables.put_balance Tables.balance_ok Tables.numeric_ok
    Tables.warehouse_exists Store_Movements.insert_movement ◌+ℤ◌ ◌-ℤ◌ stopped_world
transfer_stops = refl

thirty_thousand : pos 0 ≤ℤ pos 30_000
thirty_thousand = omega arith

transfer_undone_example :
    (available "flour" "A" stopped_world.stock ≡ available "flour" "A" full_stock)
    × (reserved "flour" "A" stopped_world.stock ≡ reserved "flour" "A" full_stock)
unfolding Decimal.add_rest Decimal.taken
transfer_undone_example =
    transfer_undone "flour" "A" "B" (pos 30_000) full_world stopped_world failure "flour" "A" refl
      refl full_stock-IsValid thirty_thousand refl transfer_stops
