-- ===== src/Store/Movements.antt =====
-- The statements of StockRepo on stock_movements.
pub mod Effects
use erp_stock.Base.{
  ℕ, ◌+◌, String, ◌==◌, Bool, true, false, ◌&&◌, ◌||◌, Option, none, some, List, [], ◌∷◌,
  if◌then◌else◌, leb, take, keep_if,
}
use erp_stock.Base.Int.{ℤ, pos, ◌+ℤ◌, ◌-ℤ◌}
use erp_stock.Domain.Errors.{Result, ok, err, failure}
use erp_stock.Domain.Types.{MovementFilter}
use erp_stock.Store.Tables.{MovementRow, Tables, Statement, numeric_ok, warehouse_exists}

-- A blank reference id is stored as NULL.
abbrev pub nil_if_empty : String → Option String
nil_if_empty s = if s == "" then none else some s

-- `COALESCE(reference_doc_id::text, '')`
abbrev pub or_blank : Option String → String
or_blank none = ""
or_blank (some s) = s

-- `StockRepo.InsertMovement`
unfoldable pub insert_movement : MovementRow → Statement (Unit {0})
insert_movement m t =
    if numeric_ok m.quantity && warehouse_exists m.warehouse_id t.warehouses
    then (
      ok tt,
      record t { movements = record m { created_at = t.clock } ∷ t.movements; clock = t.clock + 1 },
    )
    else (err failure, t)

abbrev pub refers_to : String → String → String → MovementRow → Bool
refers_to doc_type doc_id typ m =
    m.reference_doc_type == doc_type && (is_some_text m.reference_doc_id && m.movement_type == typ)
  where
    -- a NULL reference equals nothing
    is_some_text : Option String → Bool
    is_some_text none = false
    is_some_text (some s) = s == doc_id

-- `StockRepo.HasMovement`, as n > 0.
unfoldable pub has_movement : String → String → String → List MovementRow → Bool
has_movement doc_type doc_id typ [] = false
has_movement doc_type doc_id typ (m ∷ ms) =
    refers_to doc_type doc_id typ m || has_movement doc_type doc_id typ ms

abbrev at_or_after : Option ℕ → ℕ → Bool
at_or_after none x = true
at_or_after (some a) x = leb a x

abbrev at_or_before : Option ℕ → ℕ → Bool
at_or_before none x = true
at_or_before (some b) x = leb x b

abbrev blank_or_eq : String → String → Bool
blank_or_eq want x = want == "" || x == want

-- The WHERE clause of `ListMovements`.
unfoldable pub passes : MovementFilter → MovementRow → Bool
passes f m =
    blank_or_eq f.product_id m.product_id
    && blank_or_eq f.warehouse_id m.warehouse_id
    && blank_or_eq f.subtype m.subtype
    && at_or_after f.since m.created_at
    && at_or_before f.until m.created_at

abbrev is_unset : Option ℕ → Bool
is_unset none = true
is_unset (some _) = false

-- The filter for which the feed is capped.
unfoldable pub is_zero_filter : MovementFilter → Bool
is_zero_filter f =
    f.product_id == ""
    && f.warehouse_id == ""
    && f.subtype == ""
    && is_unset f.since
    && is_unset f.until

-- `StockRepo.ListMovements`, the rows: newest first, at most 200 of them with no filter.
unfoldable pub list_movement_rows : MovementFilter → List MovementRow → List MovementRow
unfolding passes is_zero_filter
list_movement_rows f ms =
    let rows = keep_if (passes f) ms in if is_zero_filter f then take 200 rows else rows
