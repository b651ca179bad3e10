-- ===== src/Service/Locks.antt =====
-- No operation keeps a lock.
use erp_stock.Base.{◌≡◌, List, []}
use erp_stock.Float.{Float}
use erp_stock.World.{World}
use erp_stock.Service.Frame.Requests.{serve_frame}
use erp_stock.Service.Request.{Request, serve}
use erp_stock.Service.Calm.{StaysCalm, StaysCalm-Respects}

-- While no call fails, the keys held after any requests are exactly those held before, whatever
-- errors the requests return.
pub locks-serve :
    {F : Type 0} ⦃fl : Float F⦄ (rs : List (Request F)) (w : World F)
    → w.faults ≡ []
    → (serve rs w).locks ≡ w.locks
locks-serve rs w calm = (serve_frame StaysCalm rs w calm).1
