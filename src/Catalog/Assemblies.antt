-- ===== src/Catalog/Assemblies.antt =====
-- The assembly tables of migrations/002_pricing.sql, 006 and 007, and the methods of
-- internal/adapters/postgres/catalog_repo.go on them. A row of `assemblies` stands with its items,
-- and holds its numbers as they are read back.
use erp_stock.Base.{
  ◌^◌, String, ◌==◌, Bool, false, not, ◌&&◌, ◌||◌, List, [], ◌∷◌, ◌++◌, if◌then◌else◌,
}
use erp_stock.Base.Int.{ℤ, pos, ◌-ℤ◌, ltb_ℤ}
use erp_stock.Float.{to_numeric, Float}
use erp_stock.Domain.Errors.{Result, ok, err, not_found, conflict, failure}
use erp_stock.Domain.Types.{Assembly, AssemblyItem}
use erp_stock.Store.Tables.{numeric_ok, reservation_ok}
use erp_stock.World.{World, Action, pure, lift, ◌>>=◌, ◌>>◌, fail_if, call, gets, modify, new_uuid}
use erp_stock.Catalog.Prices.{rounded}

-- A number fits NUMERIC(8,4).
unfoldable pub margin_ok : ℤ → Bool
margin_ok z = ltb_ℤ z (pos (10 ^ 8)) && ltb_ℤ (pos 0 -ℤ z) (pos (10 ^ 8))

-- A transaction on the assemblies: an error rolls them back.
abbrev pub undone : {F A : Type 0} → List (Assembly F) → Result A × World F → Result A × World F
undone rows (ok a, w) = (ok a, w)
undone rows (err e, w) = (err e, record w { assemblies = rows })

abbrev pub in_transaction : {F A : Type 0} → Action F A → Action F A
in_transaction m w = undone w.assemblies (m w)

module _ {F : Type 0} where
  unfoldable pub assembly_exists : String → List (Assembly F) → Bool
  assembly_exists id [] = false
  assembly_exists id (a ∷ rows) = a.id == id || assembly_exists id rows

  unfoldable pub code_exists : String → List (Assembly F) → Bool
  code_exists code [] = false
  code_exists code (a ∷ rows) = a.code == code || code_exists code rows

  unfoldable pub code_elsewhere : String → String → List (Assembly F) → Bool
  code_elsewhere id code [] = false
  code_elsewhere id code (a ∷ rows) =
      (a.code == code && not (a.id == id)) || code_elsewhere id code rows

  unfoldable pub find_assembly : String → List (Assembly F) → Result (Assembly F)
  find_assembly id [] = err not_found
  find_assembly id (a ∷ rows) = if a.id == id then ok a else find_assembly id rows

  unfoldable pub change_assembly :
      String → (Assembly F → Assembly F) → List (Assembly F) → List (Assembly F)
  change_assembly id f [] = []
  change_assembly id f (a ∷ rows) = if a.id == id then f a ∷ rows else a ∷ change_assembly id f rows

  -- A blank product is stored as NULL, which equals nothing.
  unfoldable pub assembles : String → List (Assembly F) → Bool
  assembles p [] = false
  assembles p (a ∷ rows) = (not (a.product_id == "") && a.product_id == p) || assembles p rows

  unfoldable pub item_uses : String → List (AssemblyItem F) → Bool
  item_uses p [] = false
  item_uses p (it ∷ its) = it.product_id == p || item_uses p its

  unfoldable pub any_item_uses : String → List (Assembly F) → Bool
  any_item_uses p [] = false
  any_item_uses p (a ∷ rows) = item_uses p a.items || any_item_uses p rows

  unfoldable pub get_assembly : String → Action F (Assembly F)
  get_assembly id = do
    call
    rows ← gets (λ w. w.assemblies)
    a ← lift (find_assembly id rows)
    call
    pure a

  -- `CatalogRepo.ProductInUse`: the second query is run where the first counts nothing.
  unfoldable pub product_in_use : String → Action F Bool
  product_in_use p = do
    call
    made ← gets (λ w. assembles p w.assemblies)
    let more = call >> gets (λ w. any_item_uses p w.assemblies)
    if made then pure made else more

module _ {F : Type 0} ⦃fl : Float F⦄ where
  unfoldable pub assembly_fits : Assembly F → Bool
  assembly_fits a =
      margin_ok (to_numeric a.margin_percent)
      && numeric_ok (to_numeric a.cost)
      && numeric_ok (to_numeric a.suggested_price)

  -- CHECK (quantity > 0), and both numbers fit NUMERIC(15,4).
  unfoldable pub item_fits : AssemblyItem F → Bool
  item_fits it = reservation_ok (to_numeric it.quantity) && numeric_ok (to_numeric it.unit_price)

  -- The columns of `assemblies` that are written, with the items that stand there.
  unfoldable pub assembly_row : Assembly F → List (AssemblyItem F) → Assembly F
  assembly_row a items = record a {
    margin_percent = rounded a.margin_percent;
    cost = rounded a.cost;
    suggested_price = rounded a.suggested_price;
    items = items;
  }

  unfoldable pub item_row : AssemblyItem F → AssemblyItem F
  item_row it = record it { quantity = rounded it.quantity; unit_price = rounded it.unit_price }

  unfoldable pub insert_item : String → AssemblyItem F → Action F (AssemblyItem F)
  insert_item assembly it = do
    call
    fail_if (not (item_fits it)) failure
    id ← new_uuid
    let new = record it { id = id }
    modify (λ w. record w {
      assemblies =
          change_assembly assembly (λ a. record a { items = a.items ++ item_row new ∷ [] })
            w.assemblies;
    })
    pure new

  -- `insertItems`
  unfoldable pub insert_items : String → List (AssemblyItem F) → Action F (List (AssemblyItem F))
  insert_items assembly [] = pure []
  insert_items assembly (it ∷ its) = do
    new ← insert_item assembly it
    news ← insert_items assembly its
    pure (new ∷ news)

  -- The transaction of `CreateAssembly`. A duplicate id or code is a unique violation; a number
  -- that fits no column is another error.
  unfoldable pub create_rows : Assembly F → Action F (Assembly F)
  create_rows a = do
    call
    fail_if (not (assembly_fits a)) failure
    id ← new_uuid
    rows ← gets (λ w. w.assemblies)
    fail_if (assembly_exists id rows || code_exists a.code rows) conflict
    now ← gets (λ w. w.stock.clock)
    let a1 = record a { id = id; created_at = now }
    modify (λ w. record w { assemblies = w.assemblies ++ assembly_row a1 [] ∷ [] })
    items ← insert_items id a1.items
    call
    pure (record a1 { items = items })

  unfoldable pub create_assembly : Assembly F → Action F (Assembly F)
  create_assembly a = call >> in_transaction (create_rows a)

  -- The columns of the UPDATE in the row of the assembly; its time and items stand.
  unfoldable pub rewrite_row : Assembly F → Assembly F → Assembly F
  rewrite_row a old = record (assembly_row a old.items) { id = old.id; created_at = old.created_at }

  -- `DELETE FROM assembly_items`, and `insertItems`.
  unfoldable pub replace_items : Assembly F → Action F (Unit {0})
  replace_items a = do
    call
    modify (λ w. record w {
      assemblies = change_assembly a.id (λ r. record r { items = [] }) w.assemblies;
    })
    insert_items a.id a.items
    call

  -- The transaction of `UpdateAssembly`. Here a unique violation is returned as it is.
  unfoldable pub update_rows : Assembly F → Action F (Unit {0})
  update_rows a = do
    call
    fail_if (not (assembly_fits a)) failure
    rows ← gets (λ w. w.assemblies)
    fail_if (not (assembly_exists a.id rows)) not_found
    fail_if (code_elsewhere a.id a.code rows) failure
    modify (λ w. record w { assemblies = change_assembly a.id (rewrite_row a) w.assemblies })
    replace_items a

  unfoldable pub update_assembly : Assembly F → Action F (Unit {0})
  update_assembly a = call >> in_transaction (update_rows a)
