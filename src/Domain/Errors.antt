-- ===== src/Domain/Errors.antt =====
-- The error values of internal/domain/stock.go, and the result of a call that may return one.

-- `failure` is any other error: of the database, the cache, the lock server, the message broker.
pub data Error : Type 0 where
  not_found insufficient already_processed no_conversion invalid in_use conflict failure : Error

-- Go's pair of a value and an error.
pub data Result {ℓ} (A : Type ℓ) : Type ℓ where
  ok : A → Result A
  err : Error → Result A
