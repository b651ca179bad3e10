-- ===== src/Store/Warehouses/Distinct.antt =====
-- Ids and codes of the warehouses stay distinct, and the warehouses that rows name stay known.
use erp_stock.Base.{
  String, ◌==◌, eq_iff, ◌≡◌, refl, true, false, ◌||◌, List, [], ◌∷◌, ◌++◌, arith, All-weaken,
}
use erp_stock.Domain.Types.{Warehouse}
use erp_stock.Store.Tables.{Tables, warehouse_exists}
use erp_stock.Store.Valid.{IsValid, RowFits}
use erp_stock.Store.Warehouses.{
  code_exists, code_elsewhere, set_warehouse, insert_warehouse, update_warehouse,
}

-- No id and no code stands twice.
abbrev pub IsCoded : List Warehouse → Type 0
IsCoded [] = Unit
IsCoded (w ∷ ws) = (warehouse_exists w.id ws ≡ false) × (code_exists w.code ws ≡ false) × IsCoded ws

warehouse_exists-append :
    (id : String) (ws : List Warehouse) (n : Warehouse)
    → warehouse_exists id (ws ++ n ∷ []) ≡ (warehouse_exists id ws || n.id == id)
unfolding warehouse_exists
warehouse_exists-append id [] n = ground arith
warehouse_exists-append id (w ∷ ws) n = ground (arith, warehouse_exists-append id ws n)

code_exists-append :
    (code : String) (ws : List Warehouse) (n : Warehouse)
    → code_exists code (ws ++ n ∷ []) ≡ (code_exists code ws || n.code == code)
unfolding code_exists
code_exists-append code [] n = ground arith
code_exists-append code (w ∷ ws) n = ground (arith, code_exists-append code ws n)

IsCoded-append :
    (ws : List Warehouse) (n : Warehouse)
    → IsCoded ws
    → warehouse_exists n.id ws ≡ false
    → code_exists n.code ws ≡ false
    → IsCoded (ws ++ n ∷ [])
unfolding warehouse_exists code_exists
IsCoded-append [] n d i k = (refl, refl, tt)
IsCoded-append (w ∷ ws) n (e, s, d) i k = (
  ground (arith, warehouse_exists-append w.id ws n, eq_iff w.id n.id, eq_iff n.id w.id),
  ground (arith, code_exists-append w.code ws n, eq_iff w.code n.code, eq_iff n.code w.code),
  IsCoded-append ws n d (ground arith) (ground arith),
)

warehouse_exists-set :
    (n : Warehouse) (q : String) (ws : List Warehouse)
    → warehouse_exists q (set_warehouse n ws) ≡ warehouse_exists q ws
unfolding warehouse_exists set_warehouse
warehouse_exists-set n q [] = refl
warehouse_exists-set n q (w ∷ ws) = ground (arith, warehouse_exists-set n q ws)

-- The code of the changed warehouse is new, or its own.
code_exists-set :
    (n : Warehouse) (code : String) (ws : List Warehouse)
    → code_exists code ws ≡ false
    → n.code == code ≡ false
    → code_exists code (set_warehouse n ws) ≡ false
unfolding code_exists set_warehouse
code_exists-set n code [] h k = refl
code_exists-set n code (w ∷ ws) h k = ground (arith, code_exists-set n code ws)

elsewhere-false :
    (n : Warehouse) (ws : List Warehouse)
    → code_elsewhere n.id n.code ws ≡ false
    → warehouse_exists n.id ws ≡ false
    → code_exists n.code ws ≡ false
unfolding code_elsewhere warehouse_exists code_exists
elsewhere-false n [] h k = refl
elsewhere-false n (w ∷ ws) h k = ground (arith, elsewhere-false n ws)

IsCoded-set :
    (n : Warehouse) (ws : List Warehouse)
    → IsCoded ws
    → code_elsewhere n.id n.code ws ≡ false
    → IsCoded (set_warehouse n ws)
unfolding code_elsewhere set_warehouse
IsCoded-set n [] d h = tt
IsCoded-set n (w ∷ ws) (e, s, d) h = ground (
  arith,
  eq_iff w.id n.id,
  eq_iff n.code w.code,
  eq_iff w.code n.code,
  elsewhere-false n ws,
  code_exists-set n w.code ws,
  warehouse_exists-set n w.id ws,
  IsCoded-set n ws d,
)

pub insert_warehouse-IsCoded :
    (n : Warehouse) (t : Tables)
    → IsCoded t.warehouses
    → IsCoded (insert_warehouse n t).1.warehouses
unfolding insert_warehouse
insert_warehouse-IsCoded n t d = ground (arith, IsCoded-append t.warehouses n d)

pub update_warehouse-IsCoded :
    (n : Warehouse) (t : Tables)
    → IsCoded t.warehouses
    → IsCoded (update_warehouse n t).1.warehouses
unfolding update_warehouse
update_warehouse-IsCoded n t d = ground (arith, IsCoded-set n t.warehouses d)

-- Tables whose warehouses become more, or are renamed, stay valid.
more_warehouses :
    (t : Tables) (ws : List Warehouse)
    → ((id : String) → warehouse_exists id t.warehouses ≡ true → warehouse_exists id ws ≡ true)
    → IsValid t
    → IsValid (record t { warehouses = ws })
more_warehouses t ws more v = record {
  rows_fit =
      All-weaken (RowFits t) (RowFits (record t { warehouses = ws })) t.balances
        (λ r (fits, there). (fits, more r.warehouse_id there)) v.rows_fit;
  keyed = v.keyed;
  lines_fit = v.lines_fit;
  lines_keyed = v.lines_keyed;
}

pub insert_warehouse-IsValid :
    (n : Warehouse) (t : Tables) → IsValid t → IsValid (insert_warehouse n t).1
unfolding insert_warehouse
insert_warehouse-IsValid n t v =
    let grown =
      more_warehouses t (t.warehouses ++ n ∷ [])
        (λ id h. ground (arith, warehouse_exists-append id t.warehouses n)) v in
    ground arith

pub update_warehouse-IsValid :
    (n : Warehouse) (t : Tables) → IsValid t → IsValid (update_warehouse n t).1
unfolding update_warehouse
update_warehouse-IsValid n t v =
    let changed =
      more_warehouses t (set_warehouse n t.warehouses)
        (λ id h. ground (arith, warehouse_exists-set n id t.warehouses)) v in
    ground arith
