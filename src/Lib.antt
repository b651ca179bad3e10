-- ===== src/Lib.antt =====
-- Verification of the stock service (module erp/services/stock-service).
--
-- The service keeps the balances of products in warehouses. HTTP routes
-- (internal/adapters/http/handler.go) and message consumers (internal/adapters/rabbit/consumer.go)
-- call `application.Service` (internal/application/service.go), which works on a Postgres database
-- through `StockRepo` (internal/adapters/postgres/stock_repo.go), on product and assembly stores, on
-- a cache, a lock server and a publisher.
--
-- Parts and files:
--   Float     the operations on float64 that the code uses, as an interface with no laws, so that
--             nothing exact is assumed of floats; the driver's conversions to NUMERIC and back are
--             part of it. `fixed_float` is an instance to run the definitions with.
--   Text      strings.TrimSpace and strings.ToUpper; letters whose upper case is not an ASCII letter
--             are left alone, as no constant that the service compares with has one.
--   Domain    internal/domain/stock.go: the structs and errors (Types, Errors), Convert and
--             ToStockQty (Uom), ExpandKitItems (Kit), from service.go normalizeProduct, validateProduct
--             and validateConversions (Product), and internal/domain/category.go (Category).
--   Store     the tables of migrations/001_init.sql and 005_reservations.sql (Tables), and each SQL
--             statement of StockRepo as a function from the tables to a result and tables (Balances,
--             Reservations, Movements). NUMERIC(15,4) cells are integers of ten-thousandths with
--             their CHECKs and their limit of 10^15; a parameter of a statement is exact, and a
--             result is rounded when it is written (Float.Decimal). Valid states the constraints as an invariant.
--   World     what a request runs in, and actions on it. Every call of a server takes the next of a
--             list of faults: `true` makes it fail with no effect, and once the list is used up no
--             call fails. Theorems on all worlds so cover every pattern of failures. `transaction`
--             rolls the tables back; locks are the list of the keys held, a lock and a release are
--             calls too, and a held key is refused; uuid.NewString is a
--             function of a counter.
--   Repo      the methods of StockRepo as actions; Repo.Warehouses has those on warehouses.
--   Catalog   the other repositories: the document collections of internal/adapters/mongo
--             (Categories, Products) and the tables of internal/adapters/postgres/catalog_repo.go
--             (Prices, Assemblies).
--   Service   the operations of the service: applyQtySub (Apply), SetBalance, CreateMovement,
--             TransferStock and ReceivePurchase (Movements), ReserveOrder and ConfirmInvoice
--             (Orders), and the requests that reach them (Request); the operations on categories
--             (Categories), on products and warehouses (Products), on prices and assemblies
--             (Assemblies). Frame carries a relation between worlds through every request on stock,
--             and Outside through every operation on products, prices and assemblies; Locks,
--             Constraints, Calm, Redelivery and the modules under Http use them. Ledger, Transfer,
--             Atomic and Reserving compose what the parts do.
--   Http      the routes of handler.go with their statuses, and runs of requests and events
--             (Routes); Routes.Sound says what every run keeps.
--   Tests     a small stock, and the theorems applied to it.
--
-- Recursion is structural but for the two functions on categories: the loop of
-- CategoryParentWouldCycle has fuel for one round more than there are categories, as each round
-- sees another one, and `attach` for as many as there are, as each node of a branch is another
-- one. Nil and empty slices are told apart only in ConfirmReservations, the one place where the
-- code does. Row ids and the time stamps that no code reads are left out; `clock` stands for NOW()
-- and for time.Now().
--
-- What other packages do comes as an argument: `codes.Assign` by what it returns on a call, the
-- collation of ORDER BY code, time.Parse, and whether a request body binds. The unique index on the
-- SKU, which NewProductRepo asks for and whose failure it ignores, is taken to be there.
--
-- Not modelled: the jwt middleware in front of the routes, so that a request that it refuses is none
-- here; NaN and infinite quantities; the JSON of bodies and answers; how BSON types the free attributes
-- of a product, which are kept as opaque texts; UUID syntax and VARCHAR lengths; the order of
-- ListBalances and ListAssemblies; FormatSKU, which nothing calls; the start-up in cmd/api; requests
-- that run at the same time, and locks that expire: requests run one after the other. The packages
-- erp/pkg, pgx, the Mongo driver, redis and uuid are outside the repository.
pub mod Base
pub mod Float
pub mod Domain
pub mod Store
pub mod Text
pub mod World
pub mod Catalog
pub mod Repo
pub mod Service
pub mod Http
pub mod Tests
