-- ===== src/Http/Routes/Sound/Run.antt =====
-- Every input keeps the state of the service sound.
use erp_stock.Base.{ℕ, String, ◌≡◌, false, Bool-cases, Option, List, [], ◌∷◌, inl, inr}
use erp_stock.Float.{Float}
use erp_stock.Domain.Errors.{Error, Result}
use erp_stock.Domain.Types.{Product}
use erp_stock.World.{World, Action, pure, ◌>>◌}
use erp_stock.World.Always.{Always, Always-then, Always-pure}
use erp_stock.Service.Request.{Request, order_event, invoice_event, handle}
use erp_stock.Service.Constraints.{KeepsValid-Respects}
use erp_stock.Service.Frame.{create_movement_frame, transfer_stock_frame}
use erp_stock.Service.Frame.SameCatalog.{SameCatalog-Respects}
use erp_stock.Service.Frame.Requests.{handle_frame, set_balance_frame, receive_purchase_frame}
use erp_stock.Service.Products.{create_product}
use erp_stock.Service.Outside.{
  create_product_frame, update_product_frame, delete_product_frame, register_sale_price_frame,
  register_purchase_price_frame, create_assembly_frame, update_assembly_frame,
  recalculate_assembly_frame, apply_assembly_price_frame,
}
use erp_stock.Service.Outside.Instances.{
  SameBeside-Respects, KeepsDistinct-Respects, KeepsAccepted-Respects,
}
use erp_stock.Http.Answers.{Answers, answer-Answers, with_body-Answers}
use erp_stock.Http.{answer, with_body}
use erp_stock.Http.Catalog
use erp_stock.Http.Stock
use erp_stock.Http.Kits
use erp_stock.Http.Routes
use erp_stock.Http.Routes.{Route, dispatch, Input, request, order, invoice, step, run}
use erp_stock.Http.Routes.Reads.{is_get, get-Unchanged}
use erp_stock.Http.Routes.Sound.{
  IsSound, KeepsSound, KeepsSound-preorder, sound_reads, sound_stock, sound_goods,
}
use erp_stock.Http.Routes.Sound.Parts.{
  create_category-KeepsSound, update_category-KeepsSound, delete_category-KeepsSound,
  create_warehouse-KeepsSound, update_warehouse-KeepsSound,
}

module _ {F : Type 0} ⦃fl : Float F⦄ where
  -- A body, and the call made with it.
  sends :
      {A B : Type 0} (o : Option B) (good : ℕ) (bad : Error → ℕ) (m : B → Action F A)
      → ((b : B) → Always KeepsSound (m b))
      → Answers KeepsSound (with_body o (λ b. answer good bad (m b)))
  sends o good bad m h =
      with_body-Answers o _ KeepsSound-preorder (λ b. answer-Answers good bad (m b) (h b))

  -- A call whose answer is the value that was sent.
  echoes :
      {A B : Type 0} (m : Action F A) (b : B)
      → Always KeepsSound m
      → Always KeepsSound (m >> pure b)
  echoes m b h = Always-then KeepsSound-preorder m (pure b) h (Always-pure KeepsSound-preorder b)

module _ {F : Type 0} ⦃fl : Float F⦄ where
  handle-KeepsSound : (r : Request F) → Always KeepsSound (handle r)
  handle-KeepsSound r = sound_stock (handle r) (handle_frame r) (handle_frame r)

  create_now-KeepsSound :
      (assign : String → Result String) (p : Product F)
      → Answers KeepsSound (Catalog.create_now assign p)
  unfolding Catalog.create_now answer
  create_now-KeepsSound assign p = record {
    at = λ w.
        (sound_goods (create_product assign (record p { created_at = w.stock.clock }))
            (create_product_frame assign (record p { created_at = w.stock.clock }))
            (create_product_frame assign (record p { created_at = w.stock.clock }))
            (create_product_frame assign (record p { created_at = w.stock.clock }))).at
          w;
  }

  -- The requests that change something, one by one.
  dispatch-KeepsSound :
      (r : Route F) (w : World F) → is_get r ≡ false → KeepsSound w (dispatch r w).1
  unfolding dispatch Catalog.create_product Catalog.update_product Catalog.delete_product
      Catalog.create_category Catalog.update_category Catalog.delete_category
      Catalog.create_warehouse Catalog.update_warehouse Stock.set_balance Stock.create_movement
      Stock.transfer_stock Stock.receive_purchase Kits.create_sale_price Kits.create_purchase_price
      Kits.create_assembly Kits.update_assembly Kits.recalculate_assembly Kits.apply_assembly_price
  dispatch-KeepsSound (Routes.post_products assign body) w g =
      (with_body-Answers body _ KeepsSound-preorder (create_now-KeepsSound assign)).at w
  dispatch-KeepsSound (Routes.put_product id body) w g =
      (sends body 200 _ _ (λ p. echoes _ _ (
          sound_goods _ (update_product_frame (record p { id = id }))
            (update_product_frame (record p { id = id }))
            (update_product_frame (record p { id = id }))))).at
        w
  dispatch-KeepsSound (Routes.delete_product id) w g =
      (answer-Answers 204 _ _ (
          sound_goods _ (delete_product_frame id) (delete_product_frame id)
            (delete_product_frame id))).at
        w
  dispatch-KeepsSound (Routes.post_categories body) w g =
      (sends body 201 _ _ create_category-KeepsSound).at w
  dispatch-KeepsSound (Routes.put_category id body) w g =
      (sends body 200 _ _ (λ c. echoes _ _ (update_category-KeepsSound (record c { id = id })))).at
        w
  dispatch-KeepsSound (Routes.delete_category id) w g =
      (answer-Answers 204 _ _ (delete_category-KeepsSound id)).at w
  dispatch-KeepsSound (Routes.post_warehouses assign body) w g =
      (sends body 201 _ _ (create_warehouse-KeepsSound assign)).at w
  dispatch-KeepsSound (Routes.put_warehouse id body) w g =
      (sends body 200 _ _ (λ n. echoes _ _ (update_warehouse-KeepsSound (record n { id = id })))).at
        w
  dispatch-KeepsSound (Routes.put_balances body) w g =
      (sends body 200 _ _ (λ i.
          sound_stock _ (set_balance_frame i.product_id i.warehouse_id i.quantity)
            (set_balance_frame i.product_id i.warehouse_id i.quantity))).at
        w
  dispatch-KeepsSound (Routes.post_movements body) w g =
      (sends body 201 _ _ (λ i.
          sound_stock _
            (create_movement_frame i.product_id i.warehouse_id i.direction i.subtype i.quantity)
            (create_movement_frame i.product_id i.warehouse_id i.direction i.subtype
              i.quantity))).at
        w
  dispatch-KeepsSound (Routes.post_transfer body) w g =
      (sends body 201 _ _ (λ i.
          sound_stock _
            (transfer_stock_frame i.product_id i.from_warehouse_id i.to_warehouse_id i.quantity)
            (transfer_stock_frame i.product_id i.from_warehouse_id i.to_warehouse_id
              i.quantity))).at
        w
  dispatch-KeepsSound (Routes.post_receive body) w g =
      (sends body 201 _ _ (λ i.
          sound_stock _ (receive_purchase_frame i.order_id i.warehouse_id i.items)
            (receive_purchase_frame i.order_id i.warehouse_id i.items))).at
        w
  dispatch-KeepsSound (Routes.post_sale_prices body) w g =
      (sends body 201 _ _ (λ i.
          sound_goods _ (register_sale_price_frame i.product_id i.new_price)
            (register_sale_price_frame i.product_id i.new_price)
            (register_sale_price_frame i.product_id i.new_price))).at
        w
  dispatch-KeepsSound (Routes.post_purchase_prices body) w g =
      (sends body 201 _ _ (λ i.
          sound_goods _ (register_purchase_price_frame i.product_id i.new_price i.reference_doc_id)
            (register_purchase_price_frame i.product_id i.new_price i.reference_doc_id)
            (register_purchase_price_frame i.product_id i.new_price i.reference_doc_id))).at
        w
  dispatch-KeepsSound (Routes.post_assemblies assign body) w g =
      (sends body 201 _ _ (λ a.
          sound_goods _ (create_assembly_frame assign a) (create_assembly_frame assign a)
            (create_assembly_frame assign a))).at
        w
  dispatch-KeepsSound (Routes.put_assembly id body) w g =
      (sends body 200 _ _ (λ a.
          sound_goods _ (update_assembly_frame (record a { id = id }))
            (update_assembly_frame (record a { id = id }))
            (update_assembly_frame (record a { id = id })))).at
        w
  dispatch-KeepsSound (Routes.post_recalculate id) w g =
      (answer-Answers 200 _ _ (
          sound_goods _ (recalculate_assembly_frame id) (recalculate_assembly_frame id)
            (recalculate_assembly_frame id))).at
        w
  dispatch-KeepsSound (Routes.post_apply_price id) w g =
      (answer-Answers 200 _ _ (
          sound_goods _ (apply_assembly_price_frame id) (apply_assembly_price_frame id)
            (apply_assembly_price_frame id))).at
        w
  dispatch-KeepsSound _ w g = cc

  step-KeepsSound : (i : Input F) (w : World F) → KeepsSound w (step i w)
  unfolding step
  step-KeepsSound (request r) w s = elim (Bool-cases (is_get r)) [
    | inl g ↦ sound_reads w (dispatch r w).1 (get-Unchanged r w g) s
    | inr g ↦ dispatch-KeepsSound r w g s
  ]
  step-KeepsSound (order ev) w s = (handle-KeepsSound (order_event ev)).at w s
  step-KeepsSound (invoice ev) w s = (handle-KeepsSound (invoice_event ev)).at w s

-- From a state that is sound, any requests on any routes and any events, whatever calls fail on the
-- way, lead to a state that is: the stock tables meet their constraints, no two products share an id
-- or a SKU and validateProduct accepts each, no two warehouses share an id or a code, and the
-- categories are a forest, in which every parent that is named exists and no category is above
-- itself.
pub run-IsSound :
    {F : Type 0} ⦃fl : Float F⦄ (is : List (Input F)) (w : World F) → IsSound w → IsSound (run is w)
unfolding run
run-IsSound [] w s = s
run-IsSound (i ∷ is) w s = run-IsSound is (step i w) (step-KeepsSound i w s)
