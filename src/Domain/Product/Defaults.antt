-- ===== src/Domain/Product/Defaults.antt =====
-- The defaults of the units of a product.
use erp_stock.Base.{String, ◌==◌, ◌≡◌, refl, true, false, ◌||◌, arith}
use erp_stock.Domain.Product.{purchase_unit, sale_unit}

-- Units that are set stay.
pub purchase_unit_settled : (a b : String) → (a == "") ≡ false → purchase_unit a b ≡ a
unfolding purchase_unit
purchase_unit_settled a b x = rw (x, x) refl

pub sale_unit_settled : (a b : String) → (b == "") ≡ false → sale_unit a b ≡ b
unfolding sale_unit
sale_unit_settled a b y = rw (y, y) refl

-- Where one unit is missing, both are set to the same.
pub units_same : (a b : String) → (a == "" || b == "") ≡ true → sale_unit a b ≡ purchase_unit a b
unfolding purchase_unit sale_unit
units_same a b h = ground arith
