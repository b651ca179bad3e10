-- ===== src/Http/Answers.antt =====
-- Relations between the worlds before and after a request, from those of the service's calls.
use erp_stock.Base.{ℕ, Option, none, some}
use erp_stock.Domain.Errors.{Error}
use erp_stock.World.{World, Action}
use erp_stock.World.Always.{Always, IsPreorder}
use erp_stock.Http.{Handler, answer, with_body}

pub record Answers {F A : Type 0} (R : World F → World F → Type 0) (h : Handler F A) : Type 0 where
  pub at : (w : World F) → R w (h w).1

module _ {F : Type 0} {R : World F → World F → Type 0} where
  pub answer-Answers :
      {A : Type 0} (good : ℕ) (bad : Error → ℕ) (m : Action F A)
      → Always R m
      → Answers R (answer good bad m)
  unfolding answer
  answer-Answers good bad m h = record { at = h.at }

  pub with_body-Answers :
      {A B : Type 0} (o : Option B) (h : B → Handler F A)
      → IsPreorder R
      → ((b : B) → Answers R (h b))
      → Answers R (with_body o h)
  unfolding with_body
  with_body-Answers none h pre each = record { at = pre.same }
  with_body-Answers (some b) h pre each = record { at = (each b).at }
