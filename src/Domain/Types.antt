-- ===== src/Domain/Types.antt =====
-- The structs of internal/domain/stock.go. A slice is a list; nil and empty slices are told apart
-- only where the code does. Times are numbers, and a product's attributes are opaque texts.
use erp_stock.Base.{ℕ, String, Bool, Option, List}

-- `Category` as it is stored: its children are not.
pub record Category : Type 0 where
  pub id : String
  pub parent_id : String
  pub name : String

pub record UomConversion (F : Type 0) : Type 0 where
  pub from_uom : String
  pub to_uom : String
  pub factor : F

pub record Product (F : Type 0) : Type 0 where
  pub id : String
  pub sku : String
  pub barcode : String
  pub name : String
  pub popular_name : String
  pub category_id : String
  pub ncm : String
  pub unit_of_measure : String
  pub purchase_uom : String
  pub sale_uom : String
  pub stock_uom : String
  pub conversions : List (UomConversion F)
  pub kind : String
  pub sale_price : F
  pub purchase_price : F
  pub weight_kg : F
  pub volume_m3 : F
  pub attributes : List (String × String)
  pub created_at : ℕ

abbrev pub kind_final : String
kind_final = "FINAL"

abbrev pub kind_support : String
kind_support = "SUPPORT"

abbrev pub kind_fixed_asset : String
kind_fixed_asset = "FIXED_ASSET"

abbrev pub role_component : String
role_component = "COMPONENT"

abbrev pub role_support : String
role_support = "SUPPORT"

pub record PriceHistory (F : Type 0) : Type 0 where
  pub id : String
  pub product_id : String
  pub sku : String
  pub previous_price : F
  pub new_price : F
  pub reference_doc_id : String
  pub created_at : ℕ

pub record AssemblyItem (F : Type 0) : Type 0 where
  pub id : String
  pub product_id : String
  pub quantity : F
  pub role : String
  pub unit_price : F

pub record Assembly (F : Type 0) : Type 0 where
  pub id : String
  pub code : String
  pub name : String
  pub product_id : String
  pub margin_percent : F
  pub cost : F
  pub suggested_price : F
  pub active : Bool
  pub items : List (AssemblyItem F)
  pub created_at : ℕ

pub record Warehouse : Type 0 where
  pub id : String
  pub code : String
  pub name : String
  pub active : Bool
  pub created_at : ℕ

pub record OrderItemComponent (F : Type 0) : Type 0 where
  pub product_id : String
  pub quantity : F

pub record OrderItem (F : Type 0) : Type 0 where
  pub product_id : String
  pub quantity : F
  pub unit_price : F
  pub subtotal : F
  pub components : List (OrderItemComponent F)

pub record OrderEvent (F : Type 0) : Type 0 where
  pub order_id : String
  pub warehouse_id : String
  pub items : List (OrderItem F)
  pub total_amount : F

pub record InvoiceEvent (F : Type 0) : Type 0 where
  pub invoice_id : String
  pub sales_order_id : String
  pub purchase_order_id : String
  pub direction : String
  pub warehouse_id : String
  pub access_key : String
  pub items : List (OrderItem F)

-- The statuses that the column's CHECK admits.
pub data ReservationStatus : Type 0 where
  open_status released confirmed : ReservationStatus

-- `Reservation`, without its id and times, which nothing reads.
pub record Reservation (F : Type 0) : Type 0 where
  pub sales_order_id : String
  pub product_id : String
  pub warehouse_id : String
  pub quantity : F
  pub status : ReservationStatus

-- `Balance`, without its id and time.
pub record Balance (F : Type 0) : Type 0 where
  pub product_id : String
  pub warehouse_id : String
  pub quantity_available : F
  pub quantity_reserved : F

-- `Movement`, without its id.
pub record Movement (F : Type 0) : Type 0 where
  pub product_id : String
  pub warehouse_id : String
  pub movement_type : String
  pub subtype : String
  pub quantity : F
  pub reference_doc_type : String
  pub reference_doc_id : String
  pub created_at : ℕ

pub record MovementFilter : Type 0 where
  pub product_id : String
  pub warehouse_id : String
  pub subtype : String
  pub since : Option ℕ
  pub until : Option ℕ

abbrev pub subtype_purchase : String
subtype_purchase = "PURCHASE"

abbrev pub subtype_sale : String
subtype_sale = "SALE"

abbrev pub subtype_loss : String
subtype_loss = "LOSS"

abbrev pub subtype_transfer : String
subtype_transfer = "TRANSFER"
