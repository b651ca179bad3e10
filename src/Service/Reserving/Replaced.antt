-- ===== src/Service/Reserving/Replaced.antt =====
-- What a successful `ReplaceReservations` leaves.
use erp_stock.Base.{String, ◌≡◌, sym, ap, ◌∙◌, subst, Option, List, [], ◌∷◌, ◌++◌, contains, All}
use erp_stock.Float.{Float}
use erp_stock.Domain.Errors.{Result, ok}
use erp_stock.Domain.Types.{OrderItem}
use erp_stock.Store.Tables.{Tables}
use erp_stock.Store.Movements.{nil_if_empty}
use erp_stock.Store.Reservations.{recalc_reserved, products_of_order, release_others, release_rows}
use erp_stock.Store.Reservations.Synced.{
  InSync, InSync-All, IsSynced, SameOutside, recalc_reserved-IsSynced, release_rows-SameSum,
  products_of_order-find_line, contains-append, or_left, or_right,
}
use erp_stock.World.{World, Action, pure, ◌>>=◌, ◌>>◌, call, exec, query, transaction}
use erp_stock.World.Rules.{exec_ok, call_ok, pure_rel, committed, bind_ok, query_ok}
use erp_stock.Repo
use erp_stock.Service.Reserving.{Written, upsert_lines-Written}

-- The balances are as they were, and so are the sums of all products but those returned.
record Replaced (products : List String) (t u : Tables) : Type 0 where
  kept_balances : u.balances ≡ t.balances
  kept_sums : SameOutside products t.reservations u.reservations

release_others-Replaced :
    (o : String) (keep : List String) (t m u : Tables) (a : Unit {0})
    → Written o keep t m
    → release_others o keep m ≡ (ok a, u)
    → Replaced (products_of_order o t.reservations ++ keep) t u
unfolding release_others
release_others-Replaced o keep t m u a done e =
    let tables : record m { reservations = release_rows o keep m.reservations } ≡ u =
      ap (λ (y : Result (Unit {0}) × Tables). y.1) e in
    subst (λ x. Replaced (products_of_order o t.reservations ++ keep) t x) tables
      (record {
        kept_balances = done.balances_same;
        kept_sums = λ q w h.
            let neither = sym (contains-append (products_of_order o t.reservations) keep q) ∙ h in
            let not_old =
              or_left (contains (products_of_order o t.reservations) q) (contains keep q) neither in
            let not_kept =
              or_right (contains (products_of_order o t.reservations) q) (contains keep q)
                neither in
            let no_line =
              done.lines_same q not_kept ∙ products_of_order-find_line o q t.reservations not_old in
            release_rows-SameSum o keep q w m.reservations no_line ∙ done.sums_same q w not_kept;
      })

module _ {F : Type 0} ⦃fl : Float F⦄ where
  -- The transaction of `ReplaceReservations` as a chain, part by part.
  abbrev with_kept : String → List String → List String → Action F (List String)
  with_kept o old keep = do exec (release_others o keep); call; pure (old ++ keep)

  abbrev with_old :
      String → Option String → List (OrderItem F) → List String → Action F (List String)
  with_old o wh items old = do keep ← Repo.upsert_lines o wh items; with_kept o old keep

  with_kept-Replaced :
      (o : String) (keep : List String) (t : Tables) (w : World F) (products : List String)
      (v : World F)
      → Written o keep t w.stock
      → with_kept o (products_of_order o t.reservations) keep w ≡ (ok products, v)
      → Replaced products t v.stock
  with_kept-Replaced o keep t w products v done e =
      let old = products_of_order o t.reservations in
      let (a, u, release, e1) =
        bind_ok (exec (release_others o keep)) (λ _. call >> pure (old ++ keep)) w products v e in
      let (b, x, commit, e2) = bind_ok call (λ _. pure (old ++ keep)) u products v e1 in
      pure_rel (λ k y. Replaced k t y) (old ++ keep) x products v e2
        (subst (λ y. Replaced (old ++ keep) t y) (sym (call_ok u b x commit))
          (release_others-Replaced o keep t w.stock u.stock a done
            (exec_ok (release_others o keep) w a u release)))

  with_old-Replaced :
      (o : String) (wh : Option String) (items : List (OrderItem F)) (old : List String)
      (w : World F) (products : List String) (v : World F)
      → old ≡ products_of_order o w.stock.reservations
      → with_old o wh items old w ≡ (ok products, v)
      → Replaced products w.stock v.stock
  with_old-Replaced o wh items old w products v found e =
      let (keep, y, wrote, e1) =
        bind_ok (Repo.upsert_lines o wh items) (with_kept o old) w products v e in
      with_kept-Replaced o keep w.stock y products v
        (upsert_lines-Written o wh items w keep y wrote)
        (subst (λ l. with_kept o l keep y ≡ (ok products, v)) found e1)

  replace_lines-Replaced :
      (o wh : String) (items : List (OrderItem F)) (w : World F) (products : List String)
      (v : World F)
      → Repo.replace_lines o wh items w ≡ (ok products, v)
      → Replaced products w.stock v.stock
  unfolding Repo.replace_lines
  replace_lines-Replaced o wh items w products v e =
      let body =
        query (λ t. products_of_order o t.reservations) >>= with_old o (nil_if_empty wh) items in
      let (a, u, begun, e1) = bind_ok call (λ _. transaction body) w products v e in
      let inside = committed u.stock (body u) products v e1 in
      let (old, x, asked, e2) =
        bind_ok (query (λ t. products_of_order o t.reservations))
          (with_old o (nil_if_empty wh) items) u products v inside in
      let answer = query_ok (λ t. products_of_order o t.reservations) u old x asked in
      let start : x.stock ≡ w.stock = answer.1 ∙ call_ok w a u begun in
      subst (λ t. Replaced products t v.stock) start
        (with_old-Replaced o (nil_if_empty wh) items old x products v
          (answer.0 ∙ ap (λ t. products_of_order o t.reservations) (sym answer.1)) e2)

  recalc-IsSynced :
      (products : List String) (t : Tables) (w : World F) (v : World F)
      → IsSynced t
      → Replaced products t w.stock
      → Repo.recalc products w ≡ (ok tt, v)
      → IsSynced v.stock
  unfolding Repo.recalc
  recalc-IsSynced [] t w v synced done e =
      let same : w ≡ v = ap (λ (x : Result (Unit {0}) × World F). x.1) e in
      subst (λ (u : World F). IsSynced u.stock) same
        (subst (λ bs. All (InSync w.stock.reservations) bs) (sym done.kept_balances)
          (InSync-All t.reservations w.stock.reservations t.balances done.kept_sums synced))
  recalc-IsSynced (p ∷ ps) t w v synced done e =
      recalc_reserved-IsSynced (p ∷ ps) t.reservations w.stock v.stock done.kept_sums
        (subst (λ bs. All (InSync t.reservations) bs) (sym done.kept_balances) synced)
        (exec_ok (recalc_reserved (p ∷ ps)) w tt v e)

  -- With reserved quantities that are the sums of the open reservations, replacing the reservations of
  -- an order, or releasing them, keeps them so, where it returns no error.
  pub replace_reservations-IsSynced :
      (o wh : String) (items : List (OrderItem F)) (w v : World F)
      → IsSynced w.stock
      → Repo.replace_reservations o wh items w ≡ (ok tt, v)
      → IsSynced v.stock
  unfolding Repo.replace_reservations
  replace_reservations-IsSynced o wh items w v synced e =
      let (products, u, replaced, rest) =
        bind_ok (Repo.replace_lines o wh items) Repo.recalc w tt v e in
      recalc-IsSynced products w.stock u v synced
        (replace_lines-Replaced o wh items w products u replaced) rest
