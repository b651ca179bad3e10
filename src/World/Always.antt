-- ===== src/World/Always.antt =====
-- Relations between the world before and after an action, composed along the action: `Always`
-- holds on every path, `OnSuccess` where the action returns no error.
use erp_stock.Base.{◌≡◌, refl, subst, ap, Bool, true, false, List, [], ◌∷◌, if◌then◌else◌}
use erp_stock.Domain.Errors.{Result, ok, err, Error}
use erp_stock.World.{
  World, Action, pure, fail, lift, follow, ◌>>=◌, ◌>>◌, fail_if, ignore, gets, modify, for_each,
}
use erp_stock.World.Rules.{bind_ok}

pub record Always {F A : Type 0} (R : World F → World F → Type 0) (m : Action F A) : Type 0 where
  pub at : (w : World F) → R w (m w).1

pub record OnSuccess {F A : Type 0} (R : World F → World F → Type 0) (m : Action F A) : Type 0 where
  pub at : (w : World F) (a : A) (v : World F) → m w ≡ (ok a, v) → R w v

pub record IsPreorder {F : Type 0} (R : World F → World F → Type 0) : Type 0 where
  pub same : (w : World F) → R w w
  pub chain : (w v u : World F) → R w v → R v u → R w u

module _ {F : Type 0} {R : World F → World F → Type 0} where
  module _ {A : Type 0} where
    pub Always-pure : IsPreorder R → (a : A) → Always R (pure a)
    Always-pure pre a = record { at = pre.same }

    pub Always-fail : IsPreorder R → (e : Error) → Always {A = A} R (fail e)
    Always-fail pre e = record { at = pre.same }

    pub Always-lift : IsPreorder R → (r : Result A) → Always R (lift r)
    Always-lift pre r = record { at = pre.same }

    pub Always-gets : IsPreorder R → (f : World F → A) → Always R (gets f)
    Always-gets pre f = record { at = pre.same }

    pub Always-ignore : (m : Action F A) → Always R m → Always R (ignore m)
    Always-ignore m h = record { at = h.at }

    pub Always-if :
        (b : Bool) (m k : Action F A) → Always R m → Always R k → Always R (if b then m else k)
    Always-if true m k hm hk = hm
    Always-if false m k hm hk = hk

  pub Always-modify : (f : World F → World F) → ((w : World F) → R w (f w)) → Always R (modify f)
  Always-modify f h = record { at = h }

  pub Always-fail_if : IsPreorder R → (b : Bool) (e : Error) → Always R (fail_if b e)
  Always-fail_if pre b e = record { at = pre.same }

  follow-rel :
      {A B : Type 0} (pre : IsPreorder R) (f : A → Action F B) (w : World F)
      (x : Result A × World F)
      → ((a : A) → Always R (f a))
      → R w x.1
      → R w (follow f x).1
  follow-rel pre f w (ok a, v) hf r = pre.chain w v (f a v).1 r ((hf a).at v)
  follow-rel pre f w (err e, v) hf r = r

  module _ {A B : Type 0} where
    pub Always-bind :
        IsPreorder R
        → (m : Action F A) (f : A → Action F B) → Always R m
        → ((a : A) → Always R (f a))
        → Always R (m >>= f)
    Always-bind pre m f hm hf = record { at = λ w. follow-rel pre f w (m w) hf (hm.at w) }

    pub Always-then :
        IsPreorder R
        → (m : Action F A) (k : Action F B) → Always R m
        → Always R k
        → Always R (m >> k)
    Always-then pre m k hm hk = Always-bind pre m (λ _. k) hm (λ _. hk)

    -- What follows a computed result may use it.
    pub Always-lift_then :
        IsPreorder R
        → (r : Result A) (f : A → Action F B) → ((a : A) → r ≡ ok a → Always R (f a))
        → Always R (lift r >>= f)
    Always-lift_then pre (ok a) f h = record { at = (h a refl).at }
    Always-lift_then pre (err e) f h = record { at = pre.same }

    pub OnSuccess-bind :
        IsPreorder R
        → (m : Action F A) (f : A → Action F B) → OnSuccess R m
        → ((a : A) → OnSuccess R (f a))
        → OnSuccess R (m >>= f)
    OnSuccess-bind pre m f hm hf = record {
      at = λ w b u h.
          let (a, v, first, second) = bind_ok m f w b u h in
          pre.chain w v u (hm.at w a v first) ((hf a).at v b u second);
    }

    pub OnSuccess-then :
        IsPreorder R
        → (m : Action F A) (k : Action F B) → OnSuccess R m
        → OnSuccess R k
        → OnSuccess R (m >> k)
    OnSuccess-then pre m k hm hk = OnSuccess-bind pre m (λ _. k) hm (λ _. hk)

  module _ {A : Type 0} where
    pub OnSuccess-Always : (m : Action F A) → Always R m → OnSuccess R m
    OnSuccess-Always m h = record {
      at = λ w a v e. subst (R w) (ap (λ (x : Result A × World F). x.1) e) (h.at w);
    }

    pub OnSuccess-if :
        (b : Bool) (m k : Action F A)
        → OnSuccess R m
        → OnSuccess R k
        → OnSuccess R (if b then m else k)
    OnSuccess-if true m k hm hk = hm
    OnSuccess-if false m k hm hk = hk

  pub Always-for_each :
      {X : Type 0} (f : X → Action F (Unit {0})) (xs : List X)
      → IsPreorder R
      → ((x : X) → Always R (f x))
      → Always R (for_each f xs)
  unfolding for_each
  Always-for_each f [] pre h = Always-pure pre tt
  Always-for_each f (x ∷ xs) pre h =
      Always-then pre (f x) (for_each f xs) (h x) (Always-for_each f xs pre h)

  pub OnSuccess-for_each :
      {X : Type 0} (f : X → Action F (Unit {0})) (xs : List X)
      → IsPreorder R
      → ((x : X) → OnSuccess R (f x))
      → OnSuccess R (for_each f xs)
  unfolding for_each
  OnSuccess-for_each f [] pre h = OnSuccess-Always (pure tt) (Always-pure pre tt)
  OnSuccess-for_each f (x ∷ xs) pre h =
      OnSuccess-then pre (f x) (for_each f xs) (h x) (OnSuccess-for_each f xs pre h)

pub ruleset always_rules = (
  Always-pure, Always-fail, Always-lift, Always-gets, Always-ignore, Always-if, Always-fail_if,
  Always-modify, Always-bind, Always-then, Always-for_each,
)

pub ruleset success_rules = (OnSuccess-bind, OnSuccess-then, OnSuccess-if, OnSuccess-for_each)
