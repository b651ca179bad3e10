-- ===== src/World/Rules.antt =====
-- Rules for reasoning about actions by the outcome of each part, while the parts stay shut.
use erp_stock.Base.{
  ap, sym, subst, ◌≡◌, refl, Bool, List, [], ◌∷◌, true, false, String, arith, eq_refl,
}
use erp_stock.Domain.Errors.{Result, ok, err, Error, failure}
use erp_stock.Store.Tables.{Tables, Statement}
use erp_stock.World.{
  pure, rolled_back, World, Action, ◌>>=◌, call, exec, query, next_fault, later_faults, lock_result,
  is_held, acquire, drop_lock, fail_if,
}

module _ {F : Type 0} {A B : Type 0} (P : Result B × World F → Type 0) where
  bind_at :
      (m : Action F A) (f : A → Action F B) (w : World F) (x : Result A × World F)
      → m w ≡ x
      → ((a : A) (v : World F) → m w ≡ (ok a, v) → P (f a v))
      → ((e : Error) (v : World F) → m w ≡ (err e, v) → P (err e, v))
      → P ((m >>= f) w)
  bind_at m f w (ok a, v) eq good bad = rw eq (good a v eq)
  bind_at m f w (err e, v) eq good bad = rw eq (bad e v eq)

  -- What holds after `m >>= f`: what holds after `f` at each value of `m`, or at the error of `m`.
  pub bind_rule :
      (m : Action F A) (f : A → Action F B) (w : World F)
      → ((a : A) (v : World F) → m w ≡ (ok a, v) → P (f a v))
      → ((e : Error) (v : World F) → m w ≡ (err e, v) → P (err e, v))
      → P ((m >>= f) w)
  bind_rule m f w = bind_at m f w (m w) refl

-- A successful bind has two successful parts.
pub bind_ok :
    {F A B : Type 0} (m : Action F A) (f : A → Action F B) (w : World F) (b : B) (u : World F)
    → (m >>= f) w ≡ (ok b, u)
    → (a : A) × (v : World F) × (m w ≡ (ok a, v)) × (f a v ≡ (ok b, u))
bind_ok {F} {A} {B} m f w b u h = go (m w) refl
  where
    go :
        (x : Result A × World F)
        → m w ≡ x
        → (a : A) × (v : World F) × (m w ≡ (ok a, v)) × (f a v ≡ (ok b, u))
    go (ok a, v) eq = (a, v, eq, rw eq at h)
    go (err e, v) eq =
        let stop : ◌≡◌ {A = Result B × World F} (err e, v) (ok b, u) = rw eq at h in cc

-- The stock tables and the result of an outcome.
abbrev pub after : {F A : Type 0} → Result A × World F → Result A × Tables
after (r, w) = (r, w.stock)

-- A statement's outcome on the tables, or the failure of the call, which leaves them.
pub exec_rule :
    {F A : Type 0} (P : Result A × Tables → Type 0) (s : Statement A) (w : World F)
    → P (s w.stock)
    → P (err failure, w.stock)
    → P (after (exec s w))
unfolding call next_fault
exec_rule P s w good bad = go w.faults refl
  where
    go : (fs : List Bool) → w.faults ≡ fs → P (after (exec s w))
    go [] eq = rw (eq, next_fault) good
    go (true ∷ fs) eq = rw (eq, next_fault) bad
    go (false ∷ fs) eq = rw (eq, next_fault) good

-- A query returns what it reads, or fails; the tables are as they were.
pub query_ok :
    {F A : Type 0} (f : Tables → A) (w : World F) (a : A) (v : World F)
    → query f w ≡ (ok a, v)
    → (a ≡ f w.stock) × (v.stock ≡ w.stock)
unfolding call next_fault
query_ok f w a v h = ground arith

pub call_stock : {F : Type 0} (w : World F) → (call w).1.stock ≡ w.stock
unfolding call
call_stock w = refl

pub acquire_stock : {F : Type 0} (k : String) (w : World F) → (acquire k w).1.stock ≡ w.stock
unfolding acquire
acquire_stock k w = refl

-- With no faults to come a call succeeds and changes nothing.
pub call_calm : {F : Type 0} (w : World F) → w.faults ≡ [] → call w ≡ (ok tt, w)
unfolding call next_fault later_faults
call_calm w h = ground arith

pub exec_calm :
    {F A : Type 0} (s : Statement A) (w : World F)
    → w.faults ≡ []
    → exec s w ≡ ((s w.stock).0, record w { stock = (s w.stock).1 })
exec_calm s w h = rw (call_calm w h)

pub acquire_calm :
    {F : Type 0} (k : String) (w : World F)
    → w.faults ≡ []
    → is_held k w.locks ≡ false
    → acquire k w ≡ (ok tt, record w { locks = k ∷ w.locks })
unfolding acquire lock_result next_fault later_faults
acquire_calm k w h free = ground arith

-- Unlocking what was locked last gives the locks back as they were.
pub drop_lock_self : (k : String) (ks : List String) → drop_lock k (k ∷ ks) ≡ ks
unfolding drop_lock
drop_lock_self k ks = rw (eq_refl k)

-- A successful statement has run on the tables.
pub exec_ok :
    {F A : Type 0} (s : Statement A) (w : World F) (a : A) (v : World F)
    → exec s w ≡ (ok a, v)
    → s w.stock ≡ (ok a, v.stock)
unfolding call next_fault
exec_ok s w a v e = ground arith

pub call_ok :
    {F : Type 0} (w : World F) (a : Unit {0}) (v : World F) → call w ≡ (ok a, v) → v.stock ≡ w.stock
call_ok w a v e = subst (λ (x : Result (Unit {0}) × World _). x.1.stock ≡ w.stock) e (call_stock w)

-- A relation of a value and the tables, at the end of an action.
pub pure_rel :
    {F A : Type 0} (R : A → Tables → Type 0) (a : A) (w : World F) (b : A) (v : World F)
    → pure a w ≡ (ok b, v)
    → R a w.stock
    → R b v.stock
pure_rel {F} {A} R a w b v e r =
    let value : a ≡ b = cc in
    let world : w ≡ v = ap (λ (x : Result A × World F). x.1) e in
    subst (λ y. R y v.stock) value (subst (λ (u : World F). R a u.stock) world r)

-- A transaction that returns a value has committed.
pub committed :
    {F A : Type 0} (t : Tables) (x : Result A × World F) (a : A) (v : World F)
    → rolled_back t x ≡ (ok a, v)
    → x ≡ (ok a, v)
committed t (ok b, u) a v e = e
committed {F} {A} t (err b, u) a v e = cc

-- After a test that did not fail, it was false.
pub fail_if_ok :
    {F : Type 0} (b : Bool) (x : Error) (w : World F) (a : Unit {0}) (v : World F)
    → fail_if b x w ≡ (ok a, v)
    → (b ≡ false) × (v ≡ w)
fail_if_ok true x w a v e = cc
fail_if_ok {F} false x w a v e = (refl, ap (λ (y : Result (Unit {0}) × World F). y.1) (sym e))
