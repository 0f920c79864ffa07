-- ===== src/Orders/PlaceKeeps.antt =====
-- Finished orders through `place_order` (orders/order_manager.py).
use stocks_fno.Prelude.{
  ℕ, ◌≡◌, ◌≢◌, refl, ◌∙◌, Bool, true, false, not, ◌&&◌, Option, none, some, String, ◌==◌,
  Bool-cases, inl, inr, arith,
}
use stocks_fno.Float.{Float}
use stocks_fno.Orders.Store.{
  Order, Reply, answered, timed_out, raised, Outside, Oms, Moment, get_by_id, has_open, write_fill,
  FillUpdates,
}
use stocks_fno.Orders.Place.{
  Request, reconcile_after_timeout, immediate_fill, opened_with, persist, accept, fail, settle,
  after_reply, route, after_check, receive, check, place_order,
}
use stocks_fno.Orders.Settled.{
  table, Keeps, Keeps-same, table-audit, table-note, table-deploy, table-append_position,
  update-Keeps,
}
use stocks_fno.Orders.Table.{get_by_id-lt}

module _ {F : Type 0} ⦃f : Float F⦄ {W : Type 0} (x : Outside F W) where
  persist-Keeps :
      {P : Order F → Type 0} {i : ℕ} (q : Request F) (o : Order F) (b : String) (u : FillUpdates F)
      (went : Bool) (s : Oms F W)
      → i ≢ o.id
      → Keeps P i (table s)
      → Keeps P i (table (persist x q o b u went s).1)
  unfolding persist write_fill
  persist-Keeps q o b u false s ne h = Keeps-same (table-note x _ _ s) h
  persist-Keeps q o b u true s ne h =
      Keeps-same (table-append_position x q _ ∙ table-deploy x _ _ _ ∙ table-note x _ _ _)
        (update-Keeps x o (opened_with b u) s (λ p. refl) ne h)

  fail-Keeps :
      {P : Order F → Type 0} {i : ℕ} (a : String) (o : Order F) (s : Oms F W)
      → i ≢ o.id
      → Keeps P i (table s)
      → Keeps P i (table (fail x a o s).1)
  unfolding fail
  fail-Keeps a o s ne h = Keeps-same (table-note x _ _ _) (update-Keeps x o _ s (λ p. refl) ne h)

  settle-Keeps :
      {P : Order F → Type 0} {i : ℕ} (q : Request F) (o : Order F) (found : Option (Option String))
      (s : Oms F W)
      → i ≢ o.id
      → Keeps P i (table s)
      → Keeps P i (table (settle x q o found s).1)
  unfolding settle
  settle-Keeps q o none s ne h =
      Keeps-same (table-note x _ _ _) (update-Keeps x o _ s (λ p. refl) ne h)
  settle-Keeps q o (some none) s ne h = fail-Keeps _ o s ne h
  settle-Keeps q o (some (some b)) s ne h =
      Keeps-same (table-deploy x _ _ _ ∙ table-note x _ _ _) (update-Keeps x o _ s (λ p. refl) ne h)

  after_reply-Keeps :
      {P : Order F → Type 0} {i : ℕ} (q : Request F) (o : Order F) (reply : Reply String)
      (s : Oms F W)
      → i ≢ o.id
      → Keeps P i (table s)
      → Keeps P i (table (after_reply x q o reply s).1)
  unfolding after_reply accept immediate_fill reconcile_after_timeout
  after_reply-Keeps q o (answered b) s ne h = persist-Keeps q o b _ _ _ ne h
  after_reply-Keeps q o timed_out s ne h = settle-Keeps q o _ _ ne h
  after_reply-Keeps q o raised s ne h = fail-Keeps _ o s ne h

  after_check-Keeps :
      {P : Order F → Type 0} {i : ℕ} (q : Request F) (o : Order F) (ok : Bool) (s : Oms F W)
      → i ≢ o.id
      → Keeps P i (table s)
      → Keeps P i (table (after_check x q o ok s).1)
  unfolding after_check route
  after_check-Keeps q o true s ne h = after_reply-Keeps q o _ _ ne h
  after_check-Keeps q o false s ne h =
      Keeps-same (table-note x _ _ _) (update-Keeps x o _ s (λ p. refl) ne h)

  receive-Keeps :
      {P : Order F → Type 0} {i : ℕ} (t : Moment) (q : Request F) (s : Oms F W)
      → Keeps P i (table s)
      → (i ≢ (receive x t q s).0.id) × Keeps P i (table (receive x t q s).1)
  unfolding receive get_by_id
  receive-Keeps {i = i} t q s h =
      let lt = get_by_id-lt i s.next_id s.orders h.row h.keys h.found in
      let miss : (s.next_id == i) ≡ false = ground arith in
      (
        ground arith,
        Keeps-same (table-audit x _ _) (record {
          keys = (omega arith, h.keys);
          row = h.row;
          found = rw miss h.found;
          holds = h.holds;
        }),
      )

  pub place_order-Keeps :
      {P : Order F → Type 0} {i : ℕ} (t : Moment) (q : Request F) (s : Oms F W)
      → Keeps P i (table s)
      → Keeps P i (table (place_order x t q s).1)
  unfolding place_order check
  place_order-Keeps t q s h =
      elim (Bool-cases (not q.is_exit_order && has_open q.symbol s.orders)) [
        | inl e ↦ rw e h
        | inr e ↦
            let (ne, h') = receive-Keeps t q s h in
            rw e (after_check-Keeps q (receive x t q s).0 _ _ ne h')
      ]
