-- ===== src/World/SameStock.antt =====
-- Actions that leave the stock tables as they are, and relations on the stock tables alone.
use erp_stock.Base.{◌≡◌, refl, ◌∙◌, subst}
use erp_stock.Domain.Errors.{Result, ok}
use erp_stock.Store.Tables.{Tables}
use erp_stock.World.{World, Action, ◌>>=◌, ◌>>◌, call, new_uuid}
use erp_stock.World.Rules.{bind_ok}
use erp_stock.World.Always.{Always, IsPreorder, always_rules}

abbrev pub SameStock : {F : Type 0} → World F → World F → Type 0
SameStock w v = v.stock ≡ w.stock

pub SameStock-preorder : {F : Type 0} → IsPreorder {F = F} SameStock
SameStock-preorder = record { same = λ w. refl; chain = λ w v u p q. q ∙ p }

pub call-SameStock : {F : Type 0} → Always {F = F} SameStock call
unfolding call
call-SameStock = record { at = λ w. refl }

pub new_uuid-SameStock : {F : Type 0} → Always {F = F} SameStock new_uuid
unfolding new_uuid
new_uuid-SameStock = record { at = λ w. refl }

pub ruleset read_rules = (always_rules, SameStock-preorder, call-SameStock)

-- A relation of the stock tables before and after, where the action returns no error.
pub record OnTables {F A : Type 0} (Q : Tables → Tables → Type 0) (m : Action F A) : Type 0 where
  pub at : (w : World F) (a : A) (v : World F) → m w ≡ (ok a, v) → Q w.stock v.stock

-- A read before an action that relates the tables.
pub OnTables-after_read :
    {F A B : Type 0} {Q : Tables → Tables → Type 0} (m : Action F A) (f : A → Action F B)
    → Always SameStock m
    → ((a : A) → OnTables Q (f a))
    → OnTables Q (m >>= f)
OnTables-after_read {F} {A} {B} {Q} m f hm hf = record {
  at = λ w b u e.
      let (a, v, first, second) = bind_ok m f w b u e in
      let same : v.stock ≡ w.stock =
        subst (λ (x : Result A × World F). x.1.stock ≡ w.stock) first (hm.at w) in
      subst (λ t. Q t u.stock) same ((hf a).at v b u second);
}

pub OnTables-then_read :
    {F A B : Type 0} {Q : Tables → Tables → Type 0} (m : Action F A) (k : Action F B)
    → Always SameStock m
    → OnTables Q k
    → OnTables Q (m >> k)
OnTables-then_read m k hm hk = OnTables-after_read m (λ _. k) hm (λ _. hk)
