-- ===== src/Tests.antt =====
-- The theorems applied to a small stock and to requests on it.
pub mod Sample
pub mod Failures
pub mod Catalog
pub mod Kits
pub mod Routes
use mathlib.Core.List.{Memᴰ}
use erp_stock.Base.{arith, ◌↔◌, ℕ, String, ◌≡◌, refl, true, List, [], ◌∷◌, some}
use erp_stock.Base.Int.{ℤ, pos, ◌+ℤ◌, ◌-ℤ◌, ◌≤ℤ◌}
use erp_stock.Float.Decimal
use erp_stock.Float.{fixed_float}
use erp_stock.Domain.Errors.{ok, err, failure}
use erp_stock.Domain.Types.{
  Product, Assembly, OrderItem, OrderEvent, Warehouse, kind_final, role_component, open_status,
}
use erp_stock.Domain.Uom
use erp_stock.Domain.Kit
use erp_stock.Domain.Product
use erp_stock.Store.Tables.{Tables, BalanceRow, ReservationRow}
use erp_stock.Store.Tables
use erp_stock.Store.Balances
use erp_stock.Store.Movements as Store_Movements
use erp_stock.Store.Valid.{IsValid}
use erp_stock.Store.Valid
use erp_stock.World.{World}
use erp_stock.World
use erp_stock.World.Rules.{after}
use erp_stock.Text
use erp_stock.Store.Balances.Effects.{available, reserved, at_key}
use erp_stock.Domain.Kit.Consumption.{Expands, expand_kit_items-Expands}
use erp_stock.Domain.Product.Units.{is_ok, convert_both_ways}
use erp_stock.Service.Redelivery.Receipts.{received_once}
use erp_stock.Store.Reservations.Synced.{IsSynced}
use erp_stock.Service.Reserving.Synced.{reserve_order-IsSynced}
use erp_stock.Service.Transfer.Undo.{transfer_undone}
use erp_stock.Service.Atomic.{apply_qty_sub_atomic}
use erp_stock.Service.Locks.{locks-serve}
use erp_stock.Service.Transfer.{transfer_moves, in_row, out_row}
use erp_stock.Service.Ledger.{Drifts}
use erp_stock.Service.Ledger.Requests.{drift-handle}
use erp_stock.Service.Apply.Effects.{
  signed, movement_of, AppliedOrFails, apply_qty_sub-AppliedOrFails,
}
use erp_stock.Repo
use erp_stock.Service.Lookup
use erp_stock.Service.Apply
use erp_stock.Service.Orders
use erp_stock.Store.Reservations
use erp_stock.Service.Movements as Service
use erp_stock.Service.Request.{Request, post_transfer, post_receive, order_event, handle, serve}
use erp_stock.Tests.Sample.{
  flour, basket, warehouse, small_stock, small_world, small_stock-IsValid, line, some_requests,
}

moved_world : World ℤ
moved_world = (Service.transfer_stock "flour" "A" "B" (pos 30_000) small_world).1

transfer_runs :
    Service.transfer_stock "flour" "A" "B" (pos 30_000) small_world ≡ (ok tt, moved_world)
unfolding Service.transfer_stock Service.or_credit Lookup.get_product Lookup.find_product
    Repo.get_warehouse Repo.find_warehouse Decimal.add_rest Decimal.sub_rest Decimal.numeric_le
    World.call World.next_fault World.later_faults World.new_uuid World.acquire World.unlock
    World.drop_lock World.is_held World.lock_result World.stock_key World.push_cached
    Apply.apply_qty_sub Apply.change_balance Apply.record_movement Apply.refresh_cache
    Apply.set_cached Repo.add_available Repo.remove_available Repo.insert_movement Repo.get_balance
    Repo.scan_found Repo.scan_balance Balances.add_available Balances.remove_available
    Balances.upsert_row Balances.insert_row Balances.update_row Balances.write_row
    Tables.find_balance Tables.put_balance Tables.balance_ok Tables.numeric_ok
    Tables.warehouse_exists Store_Movements.insert_movement ◌+ℤ◌ ◌-ℤ◌ moved_world
transfer_runs = refl

handle_runs : handle (post_transfer "flour" "A" "B" (pos 30_000)) small_world ≡ (ok tt, moved_world)
unfolding handle
handle_runs = transfer_runs

transfer_moves_example :
    ((q u : String)
      → available q u moved_world.stock
        ≡ available q u small_stock
          +ℤ at_key "flour" "A" q u (pos 0 -ℤ pos 30_000)
          +ℤ at_key "flour" "B" q u (pos 30_000))
    × ((q u : String) → reserved q u moved_world.stock ≡ reserved q u small_stock)
    × ((ref : String) × (stamp : ℕ) × (later : ℕ) × (moved_world.stock.movements
          ≡ record (in_row "flour" "A" "B" (pos 30_000) ref) { created_at = later }
            ∷ record (out_row "flour" "A" "B" (pos 30_000) ref) { created_at = stamp }
            ∷ []))
unfolding Decimal.add_rest Decimal.taken
transfer_moves_example =
    transfer_moves "flour" "A" "B" (pos 30_000) small_world moved_world transfer_runs

drift-handle_example : Drifts "flour" "B" small_stock moved_world.stock
drift-handle_example =
    drift-handle (post_transfer "flour" "A" "B" (pos 30_000)) small_world moved_world "flour" "B"
      refl handle_runs

locks-serve_example : (serve some_requests small_world).locks ≡ []
locks-serve_example = locks-serve some_requests small_world refl

apply_qty_sub-AppliedOrFails_example :
    AppliedOrFails
      (signed "SALE_OUT" (fixed_float.exact (pos 70_000)))
      (movement_of "flour" "A" "SALE_OUT" "SALE" (pos 70_000) "INVOICE" "i1")
      small_stock
      (after
        (Apply.apply_qty_sub "flour" "A" "SALE_OUT" "SALE" (pos 70_000) "INVOICE" "i1" small_world))
unfolding Decimal.add_rest
apply_qty_sub-AppliedOrFails_example =
    apply_qty_sub-AppliedOrFails "flour" "A" "SALE_OUT" "SALE" (pos 70_000) "INVOICE" "i1"
      small_world

expand_kit_items-Expands_example :
    Expands
      (basket ∷ [])
      (line "kit" (pos 10_000) ∷ [])
      (Kit.expand_kit_items (line "kit" (pos 10_000) ∷ []) (basket ∷ []))
expand_kit_items-Expands_example =
    expand_kit_items-Expands (line "kit" (pos 10_000) ∷ []) (basket ∷ [])

convert_both_ways_example :
    is_ok (Uom.convert (pos 10_000) "BAG" "KG" flour.conversions)
    ≡ is_ok (Uom.convert (pos 50_000) "KG" "BAG" flour.conversions)
convert_both_ways_example = convert_both_ways (pos 10_000) (pos 50_000) "BAG" "KG" flour.conversions

abbrev one_bag : List (OrderItem ℤ)
one_bag = line "flour" (pos 10_000) ∷ []

received_world : World ℤ
received_world = (Service.receive_purchase "po1" "B" one_bag small_world).1

receipt_runs : Service.receive_purchase "po1" "B" one_bag small_world ≡ (ok tt, received_world)
unfolding received_world Service.receive_purchase Service.receive_line
    Service.to_stock_from_purchase World.for_each Lookup.get_product Lookup.find_product
    Repo.get_warehouse Repo.find_warehouse Repo.has_movement Store_Movements.has_movement
    Decimal.add_rest Decimal.sub_rest Decimal.numeric_le World.call World.next_fault
    World.later_faults World.acquire World.unlock World.drop_lock World.is_held World.lock_result
    World.stock_key World.push_cached Apply.apply_qty Apply.default_subtype Apply.apply_qty_sub
    Apply.change_balance Apply.record_movement Apply.refresh_cache Apply.set_cached
    Repo.add_available Repo.insert_movement Repo.get_balance Repo.scan_found Repo.scan_balance
    Balances.add_available Balances.upsert_row Balances.insert_row Balances.write_row
    Tables.find_balance Tables.put_balance Tables.balance_ok Tables.numeric_ok
    Tables.warehouse_exists Store_Movements.insert_movement ◌+ℤ◌ ◌-ℤ◌ Product.normalize_product
    Product.purchase_unit Product.sale_unit Text.trim_space Text.trim_left Text.trim_right
    Uom.to_stock_qty Uom.convert Uom.convert_by
receipt_runs = refl

received_once_example :
    (Service.receive_purchase "po1" "A" one_bag (serve some_requests received_world)).1.stock
    ≡ (serve some_requests received_world).stock
received_once_example =
    received_once "po1" "B" one_bag small_world received_world some_requests "A" one_bag refl
      receipt_runs

abbrev kit_order : OrderEvent ℤ
kit_order = record {
  order_id = "o2";
  warehouse_id = "A";
  items = line "kit" (pos 10_000) ∷ [];
  total_amount = pos 0;
}

reserved_world : World ℤ
reserved_world = (Orders.reserve_order kit_order small_world).1

reservation_runs : Orders.reserve_order kit_order small_world ≡ (ok tt, reserved_world)
unfolding reserved_world Orders.reserve_order Orders.publish_reserved World.push_published
    World.reserve_key Decimal.add_rest Decimal.sub_rest Decimal.numeric_le World.call
    World.next_fault World.later_faults World.acquire World.unlock World.drop_lock World.is_held
    World.lock_result Lookup.list_assemblies Repo.replace_reservations Repo.replace_lines
    Repo.upsert_lines Repo.recalc Reservations.products_of_order Reservations.put_reservation
    Reservations.upsert_reservation Reservations.release_rows Reservations.release_others
    Reservations.open_sum Reservations.recalc_rows Reservations.reserved_fit
    Reservations.recalc_reserved Tables.sum_by Tables.balance_ok Tables.reservation_ok
    Tables.warehouse_exists Kit.expand_kit_items Kit.expand_line Kit.kit_of Kit.from_recipe ◌+ℤ◌
    ◌-ℤ◌
reservation_runs = refl

small_stock-IsSynced : IsSynced small_stock
unfolding Reservations.open_sum Tables.sum_by ◌+ℤ◌
small_stock-IsSynced = (refl, tt)

reserve_order-IsSynced_example : IsSynced reserved_world.stock
reserve_order-IsSynced_example =
    reserve_order-IsSynced kit_order small_world reserved_world small_stock-IsSynced
      reservation_runs
