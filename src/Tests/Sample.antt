-- ===== src/Tests/Sample.antt =====
-- A small stock, a product, a kit, and requests.
use erp_stock.Base.{String, refl, true, List, [], ◌∷◌, some}
use erp_stock.Base.Int.{ℤ, pos}
use erp_stock.Float.{fixed_float}
use erp_stock.Domain.Types.{
  Product, Assembly, OrderItem, Warehouse, kind_final, role_component, open_status,
}
use erp_stock.Domain.Kit
use erp_stock.Store.Tables.{Tables, BalanceRow, ReservationRow}
use erp_stock.Store.Tables
use erp_stock.Store.Valid.{IsValid}
use erp_stock.Store.Valid
use erp_stock.World.{World}
use erp_stock.Service.Request.{Request, post_transfer, post_receive, order_event}

abbrev pub flour : Product ℤ
flour = record {
  id = "flour";
  sku = "000001";
  barcode = "";
  name = "Flour";
  popular_name = "";
  category_id = "";
  ncm = "";
  unit_of_measure = "KG";
  purchase_uom = "BAG";
  sale_uom = "KG";
  stock_uom = "KG";
  conversions = record { from_uom = "BAG"; to_uom = "KG"; factor = pos 250_000 } ∷ [];
  kind = kind_final;
  sale_price = pos 0;
  purchase_price = pos 0;
  weight_kg = pos 0;
  volume_m3 = pos 0;
  attributes = [];
  created_at = 0;
}

abbrev pub basket : Assembly ℤ
basket = record {
  id = "basket";
  code = "B1";
  name = "Basket";
  product_id = "kit";
  margin_percent = pos 0;
  cost = pos 0;
  suggested_price = pos 0;
  active = true;
  items =
      record {
        id = "1";
        product_id = "flour";
        quantity = pos 20_000;
        role = role_component;
        unit_price = pos 0;
      }
      ∷ [];
  created_at = 0;
}

abbrev pub warehouse : String → Warehouse
warehouse id = record { id = id; code = id; name = id; active = true; created_at = 0 }

-- Ten units of flour in A, of which an order holds four.
abbrev pub small_stock : Tables
small_stock = record {
  warehouses = warehouse "A" ∷ warehouse "B" ∷ [];
  balances =
      record {
        product_id = "flour";
        warehouse_id = "A";
        available = pos 100_000;
        reserved = pos 40_000;
      }
      ∷ [];
  reservations =
      record {
        sales_order_id = "o1";
        product_id = "flour";
        warehouse_id = some "A";
        quantity = pos 40_000;
        status = open_status;
      }
      ∷ [];
  movements = [];
  clock = 7;
}

abbrev pub small_world : World ℤ
small_world = record {
  stock = small_stock;
  products = flour ∷ [];
  categories = [];
  assemblies = basket ∷ [];
  sale_history = [];
  purchase_history = [];
  cache = [];
  locks = [];
  published = [];
  faults = [];
  uuid = λ n. "ref";
  drawn = 0;
}

pub small_stock-IsValid : IsValid small_stock
unfolding Tables.balance_ok Tables.numeric_ok Tables.reservation_ok Tables.warehouse_exists
    Tables.find_balance Valid.find_line
small_stock-IsValid = record {
  rows_fit = ((refl, refl), tt);
  keyed = (refl, tt);
  lines_fit = (refl, tt);
  lines_keyed = (refl, tt);
}

abbrev pub line : String → ℤ → OrderItem ℤ
line p qty = Kit.plain_item p qty

abbrev pub some_requests : List (Request ℤ)
some_requests =
    order_event (record {
      order_id = "o2";
      warehouse_id = "A";
      items = line "kit" (pos 10_000) ∷ [];
      total_amount = pos 0;
    })
    ∷ post_transfer "flour" "A" "B" (pos 30_000)
    ∷ post_receive "po1" "B" (line "flour" (pos 10_000) ∷ [])
    ∷ []
