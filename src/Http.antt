-- ===== src/Http.antt =====
-- internal/adapters/http/handler.go: what each route does and answers. A request body that
-- `ShouldBindJSON` refuses is `none`; the JSON of a body and of an answer is not modelled.
pub mod Catalog
pub mod Stock
pub mod Kits
pub mod Routes
pub mod Answers
use erp_stock.Base.{ℕ, Option, none, some}
use erp_stock.Domain.Errors.{
  Error, not_found, insufficient, already_processed, no_conversion, invalid, in_use, conflict,
  failure, Result, ok, err,
}
use erp_stock.World.{World, Action}

pub record Response (A : Type 0) : Type 0 where
  pub status : ℕ
  pub body : Option A

abbrev pub Handler : Type 0 → Type 0 → Type 0
Handler F A = World F → Response A × World F

-- `statusFrom`
unfoldable pub status_from : Error → ℕ
status_from not_found = 404
status_from in_use = 409
status_from conflict = 409
status_from insufficient = 409
status_from invalid = 400
status_from no_conversion = 400
status_from already_processed = 500
status_from failure = 500

-- The status of every error of a listing.
abbrev pub server_error : Error → ℕ
server_error e = 500

abbrev pub respond : {A : Type 0} → ℕ → (Error → ℕ) → Result A → Response A
respond good bad (ok a) = record { status = good; body = some a }
respond good bad (err e) = record { status = bad e; body = none }

-- A call of the service, answered by `good` or by the status of its error.
unfoldable pub answer : {F A : Type 0} → ℕ → (Error → ℕ) → Action F A → Handler F A
answer good bad m w = (respond good bad (m w).0, (m w).1)

-- `if err := c.ShouldBindJSON(&in); err != nil { … StatusBadRequest … return }`
unfoldable pub with_body : {F A B : Type 0} → Option B → (B → Handler F A) → Handler F A
with_body none h w = (record { status = 400; body = none }, w)
with_body (some b) h w = h b w
