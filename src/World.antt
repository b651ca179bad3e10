-- ===== src/World.antt =====
-- What a request runs in: the data of the servers that the service talks to, the locks it holds,
-- what it has published, and the faults to come. Each call of a server takes the next of `faults`;
-- `true` means that the call fails, with no effect, and no call fails once they are used up.
pub mod Rules
pub mod Always
pub mod SameStock
pub mod Apart
pub mod Unchanged
use Prim.Native.String.{◌++◌ as str_append}
use erp_stock.Base.{ℕ, ◌+◌, String, ◌==◌, Bool, true, false, ◌||◌, List, [], ◌∷◌, if◌then◌else◌}
use erp_stock.Domain.Errors.{Error, Result, ok, err, failure}
use erp_stock.Domain.Types.{Product, Category, Assembly, Balance, OrderEvent, PriceHistory}
use erp_stock.Store.Tables.{Tables, Statement}

pub record World (F : Type 0) : Type 0 where
  pub stock : Tables
  pub products : List (Product F)
  pub categories : List Category
  pub assemblies : List (Assembly F)
  pub sale_history : List (PriceHistory F)
  pub purchase_history : List (PriceHistory F)
  pub cache : List (Balance F)
  pub locks : List String
  pub published : List (OrderEvent F)
  pub faults : List Bool
  pub uuid : ℕ → String
  pub drawn : ℕ

abbrev pub Action : Type 0 → Type 0 → Type 0
Action F A = World F → Result A × World F

module _ {F : Type 0} {A : Type 0} where
  abbrev pub pure : A → Action F A
  pure a w = (ok a, w)

  abbrev pub fail : Error → Action F A
  fail e w = (err e, w)

  -- A value, or an error, already computed.
  abbrev pub lift : Result A → Action F A
  lift r w = (r, w)

-- What follows an outcome: nothing after an error.
abbrev pub follow : {F A B : Type 0} → (A → Action F B) → Result A × World F → Result B × World F
follow f (ok a, w) = f a w
follow f (err e, w) = (err e, w)

infixl 5 ◌>>=◌ ◌>>◌
abbrev pub ◌>>=◌ : {F A B : Type 0} → Action F A → (A → Action F B) → Action F B
◌>>=◌ m f w = follow f (m w)

abbrev pub ◌>>◌ : {F A B : Type 0} → Action F A → Action F B → Action F B
m >> k = m >>= λ _. k

-- `if b { return e }`
abbrev pub fail_if : {F : Type 0} → Bool → Error → Action F (Unit {0})
fail_if b e w = (if b then err e else ok tt, w)

-- `_ = m`
abbrev pub ignore : {F A : Type 0} → Action F A → Action F (Unit {0})
ignore m w = (ok tt, (m w).1)

-- `defer u(ctx)`
abbrev pub deferring : {F A : Type 0} → (World F → World F) → Action F A → Action F A
deferring u m w = let (r, w') = m w in (r, u w')

abbrev pub gets : {F A : Type 0} → (World F → A) → Action F A
gets f w = (ok (f w), w)

abbrev pub modify : {F : Type 0} → (World F → World F) → Action F (Unit {0})
modify f w = (ok tt, f w)

-- `for _, x := range xs { … }` over a body that may return an error.
unfoldable pub for_each : {F X : Type 0} → (X → Action F (Unit {0})) → List X → Action F (Unit {0})
for_each f [] = pure tt
for_each f (x ∷ xs) = f x >> for_each f xs

-- The outcome of the next call, and the faults after it.
unfoldable pub next_fault : List Bool → Result (Unit {0})
next_fault [] = ok tt
next_fault (true ∷ _) = err failure
next_fault (false ∷ _) = ok tt

unfoldable pub later_faults : List Bool → List Bool
later_faults [] = []
later_faults (_ ∷ fs) = fs

-- A call of a server, before its effect.
unfoldable pub call : {F : Type 0} → Action F (Unit {0})
unfolding next_fault later_faults
call w = (next_fault w.faults, record w { faults = later_faults w.faults })

-- A statement run on the stock database.
abbrev pub on_stock : {F A : Type 0} → Statement A → Action F A
on_stock s w = let (r, t) = s w.stock in (r, record w { stock = t })

abbrev pub exec : {F A : Type 0} → Statement A → Action F A
exec s = call >> on_stock s

abbrev pub query : {F A : Type 0} → (Tables → A) → Action F A
query f = call >> gets (λ w. f w.stock)

-- A transaction: an error rolls the tables back.
abbrev pub rolled_back : {F A : Type 0} → Tables → Result A × World F → Result A × World F
rolled_back t (ok a, w) = (ok a, w)
rolled_back t (err e, w) = (err e, record w { stock = t })

abbrev pub transaction : {F A : Type 0} → Action F A → Action F A
transaction m w = rolled_back w.stock (m w)

-- `uuid.NewString()`
unfoldable pub new_uuid : {F : Type 0} → Action F String
new_uuid w = (ok (w.uuid w.drawn), record w { drawn = w.drawn + 1 })

unfoldable pub drop_lock : String → List String → List String
drop_lock k [] = []
drop_lock k (j ∷ js) = if j == k then js else j ∷ drop_lock k js

unfoldable pub is_held : String → List String → Bool
is_held k [] = false
is_held k (j ∷ js) = j == k || is_held k js

-- The lock of a key that is held is refused: a request that runs alone waits for it in vain.
unfoldable pub lock_result : {F : Type 0} → String → World F → Result (Unit {0})
unfolding next_fault
lock_result k w = if is_held k w.locks then err failure else next_fault w.faults

abbrev pub locked : String → List String → Result (Unit {0}) → List String
locked k ks (ok _) = k ∷ ks
locked k ks (err _) = ks

-- `Locker.Lock`
unfoldable pub acquire : {F : Type 0} → String → Action F (Unit {0})
unfolding lock_result later_faults
acquire k w = (
  lock_result k w,
  record w { locks = locked k w.locks (lock_result k w); faults = later_faults w.faults },
)

abbrev pub unlocked : String → List String → Result (Unit {0}) → List String
unlocked k ks (ok _) = drop_lock k ks
unlocked k ks (err _) = ks

-- The function that `Lock` returns: a call too, and where it fails the key stays held.
unfoldable pub unlock : {F : Type 0} → String → World F → World F
unfolding drop_lock next_fault later_faults
unlock k w = record w {
  locks = unlocked k w.locks (next_fault w.faults);
  faults = later_faults w.faults;
}

-- `fmt.Sprintf("stock:%s:%s", productID, warehouseID)`
unfoldable pub stock_key : String → String → String
stock_key p w = str_append "stock:" (str_append p (str_append ":" w))

unfoldable pub reserve_key : String → String
reserve_key o = str_append "reserve:" o

unfoldable pub push_cached : {F : Type 0} → Balance F → World F → World F
push_cached b w = record w { cache = b ∷ w.cache }

unfoldable pub push_published : {F : Type 0} → OrderEvent F → World F → World F
push_published ev w = record w { published = ev ∷ w.published }
