-- ===== src/Service/Transfer/Undoes.antt =====
-- An action that returns no error or leaves all quantities as they were.
use erp_stock.Base.{String, ◌≡◌, ◌∙◌, sym, ap, subst, ◌⊎◌, inr, []}
use erp_stock.Domain.Errors.{Result, ok}
use erp_stock.Store.Tables.{Tables}
use erp_stock.Store.Balances.Effects.{available, reserved}
use erp_stock.Store.Valid.{IsValid}
use erp_stock.World.{World, Action, ◌>>=◌, ◌>>◌}
use erp_stock.World.Rules.{bind_rule}
use erp_stock.World.Always.{Always}
use erp_stock.World.SameStock.{SameStock}
use erp_stock.Service.Calm.{StaysCalm, StaysCalm-Respects}
use erp_stock.Service.Constraints.{KeepsValid-Respects}

-- All quantities are as they were.
abbrev pub SameQuantities : Tables → Tables → Type 0
SameQuantities t u =
    (q w : String) → (available q w u ≡ available q w t) × (reserved q w u ≡ reserved q w t)

-- No error, or all quantities as in `t`.
abbrev pub Undone : {F : Type 0} → Tables → Result (Unit {0}) × World F → Type 0
Undone t x = (x.0 ≡ ok tt) ⊎ SameQuantities t x.1.stock

pub record Undoes {F : Type 0} (m : Action F (Unit {0})) : Type 0 where
  pub at : (w : World F) → w.faults ≡ [] → w.locks ≡ [] → IsValid w.stock → Undone w.stock (m w)

pub same_quantities : (t u : Tables) → u ≡ t → SameQuantities t u
same_quantities t u e = λ q w. (ap (available q w) e, ap (reserved q w) e)

-- A read first.
pub Undoes-after_read :
    {F A : Type 0} (m : Action F A) (f : A → Action F (Unit {0}))
    → Always SameStock m
    → Always StaysCalm m
    → ((a : A) → Undoes (f a))
    → Undoes (m >>= f)
Undoes-after_read {F} {A} m f reads calm rest = record {
  at = λ w quiet free valid.
      bind_rule (Undone w.stock) m f w
        (λ a v e.
          let same : v.stock ≡ w.stock =
            subst (λ (x : Result A × World F). x.1.stock ≡ w.stock) e (reads.at w) in
          let (still, kept) =
            subst (λ (x : Result A × World F). StaysCalm w x.1) e (calm.at w) quiet in
          subst (λ t. Undone t (f a v)) same
            ((rest a).at v still (kept ∙ free) (subst (λ t. IsValid t) (sym same) valid)))
        (λ x v e. inr (
          same_quantities w.stock v.stock
            (subst (λ (y : Result A × World F). y.1.stock ≡ w.stock) e (reads.at w))));
}

pub Undoes-then_read :
    {F A : Type 0} (m : Action F A) (k : Action F (Unit {0}))
    → Always SameStock m
    → Always StaysCalm m
    → Undoes k
    → Undoes (m >> k)
Undoes-then_read m k reads calm rest = Undoes-after_read m (λ _. k) reads calm (λ _. rest)
