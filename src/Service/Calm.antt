-- ===== src/Service/Calm.antt =====
-- Requests while no call fails: none fails from then on, and every lock is given back.
use erp_stock.Base.{String, ◌≡◌, refl, ◌∙◌, [], ◌∷◌}
use erp_stock.Domain.Errors.{Result, ok, err}
use erp_stock.World.{
  World, Action, ◌>>◌, call, acquire, deferring, unlock, new_uuid, transaction, rolled_back,
  next_fault, later_faults, lock_result, drop_lock, push_cached, push_published,
}
use erp_stock.World.Rules.{drop_lock_self}
use erp_stock.World.Always.{Always}
use erp_stock.Service.Frame.{Respects}

abbrev pub StaysCalm : {F : Type 0} → World F → World F → Type 0
StaysCalm w v = w.faults ≡ [] → (v.faults ≡ []) × (v.locks ≡ w.locks)

under_lock-StaysCalm :
    {F A : Type 0} (k : String) (m : Action F A)
    → Always StaysCalm m
    → Always StaysCalm (acquire k >> deferring (unlock k) m)
unfolding acquire unlock later_faults next_fault drop_lock
under_lock-StaysCalm {F} {A} k m h = record { at = λ w. go w (lock_result k w) refl }
  where
    go :
        (w : World F) (r : Result (Unit {0}))
        → lock_result k w ≡ r
        → StaysCalm w ((acquire k >> deferring (unlock k) m) w).1
    go w (ok tt) e calm =
        let v : World F = record w { locks = k ∷ w.locks; faults = later_faults w.faults } in
        let (still, same) = h.at v (rw (calm, later_faults) refl) in
        rw e
          (rw (still, later_faults) refl, rw (still, same, next_fault) (drop_lock_self k w.locks))
    go w (err x) e calm = rw e (rw (calm, later_faults) refl, refl)

transaction-StaysCalm :
    {F A : Type 0} (m : Action F A) → Always StaysCalm m → Always StaysCalm (transaction m)
transaction-StaysCalm {F} {A} m h = record { at = λ w. go w (m w) (h.at w) }
  where
    go :
        (w : World F) (x : Result A × World F)
        → StaysCalm w x.1
        → StaysCalm w (rolled_back w.stock x).1
    go w (ok a, v) keep = keep
    go w (err x, v) keep = keep

instance pub StaysCalm-Respects : {F : Type 0} → Respects {F = F} StaysCalm
unfolding call new_uuid push_cached push_published later_faults
StaysCalm-Respects = record {
  pre = record {
    same = λ w c. (c, refl);
    chain = λ w v u f g c. ((g (f c).0).0, (g (f c).0).1 ∙ (f c).1);
  };
  statements = record {
    on_upsert = λ p w z. record { at = λ v c. (c, refl) };
    on_add = λ p w z. record { at = λ v c. (c, refl) };
    on_remove = λ p w z. record { at = λ v c. (c, refl) };
    on_sale = λ p w z. record { at = λ v c. (c, refl) };
    on_movement = λ m. record { at = λ v c. (c, refl) };
    on_recalc = λ ids. record { at = λ v c. (c, refl) };
    on_line = λ o p wh z. record { at = λ v c. (c, refl) };
    on_release = λ o keep. record { at = λ v c. (c, refl) };
    on_confirm = λ o. record { at = λ v c. (c, refl) };
  };
  on_call = record { at = λ w calm. (rw (calm, later_faults) refl, refl) };
  on_uuid = record { at = λ w c. (c, refl) };
  on_cache = λ b. record { at = λ w c. (c, refl) };
  on_publish = λ ev. record { at = λ w c. (c, refl) };
  on_lock = λ k m h. under_lock-StaysCalm k m h;
  on_transaction = λ m h. transaction-StaysCalm m h;
}
