-- ===== src/Engine/Tests.antt =====
-- Checks of the exits (live_trading/live_trading_engine.py) on concrete structures.
use stocks_fno.Prelude.{map, ◌≡◌, ◌⊎◌, inl, refl, true, false, none, some, [], ◌∷◌, All, arith}
use stocks_fno.Int.{ℤ, pos}
use stocks_fno.Float.{Float, nought}
use stocks_fno.Float.Fixed.{Fixed, fixed_float}
use stocks_fno.Calendar.{Date, date}
use stocks_fno.Dict.{lookup, insert}
use stocks_fno.Risk.Manager.{RiskManager, init, add_deployed_capital, release_deployed_capital}
use stocks_fno.Risk.Validate.{buy, Clock}
use stocks_fno.Orders.Store.{
  opened, completed, expired, Order, BrokerOrder, Reply, answered, timed_out, Outside, Oms, Moment,
  get_by_id,
}
use stocks_fno.Orders.Finished.{expires}
use stocks_fno.Engine.Legs.{Leg, Holdings, resolve_pending_exit_order, resolved_ok}
use stocks_fno.Engine.Course.{tries, does, follow, lost_orders, IsLost}
use stocks_fno.Engine.CloseOnce.{leg_closes_once}
use stocks_fno.Engine.State.{kept, dte_floor, managed, is_tracked}
use stocks_fno.Engine.Condor.{
  CondorPlan, CondorAnswers, Quotes, gain_at, leg_orders, condor_of, place_legs, enter_condor,
  close_condor,
}
use stocks_fno.Engine.Condor.{released as condor_released}
use stocks_fno.Engine.Rollback.{IsOpened, Unwinds, condor_all_or_nothing}
use stocks_fno.Engine.CondorReserve.{placing, all_tried, condor_releases_its_reserve}
use stocks_fno.Engine.Reasons.{quote_of, spread_gain, spread_reason}
use stocks_fno.Engine.Leaving.{IsAccounted, no_structure_is_lost}
use stocks_fno.Engine.Check.{
  Event, enters_spread, checks_spreads, checks_condors, calls, after, check_exits,
}
use stocks_fno.Engine.Exclusive.{Exclusive, structures_exclude}
use stocks_fno.Engine.Reserve.{both_placed, both_tried, spread_releases_its_reserve}
use stocks_fno.Engine.Spread.{
  SpreadPlan, SpreadAnswers, fresh_leg, spread_of, enter_spread, close_spread, released,
}
use stocks_fno.Engine.Samples.{
  manager, moment, prompt, mute, sold, course, holdings, idle, plan, answers, view, events, waits,
  recorded, decayed, loaded, narrow, holding, condor_plan, condor_answers, opened_condor, prices,
  passes,
}

-- the exit is tried, its order stays unverified, and it is tried again after a sweep
leg_closes_once_example :
    let c = follow mute course (
      tries holdings moment (pos 500) (fixed_float.lit 5 0)
      ∷ does ((moment, expires) ∷ [])
      ∷ tries holdings moment (pos 500) (fixed_float.lit 6 0)
      ∷ []) in
    All (IsLost c.oms) (lost_orders c.leg c.sent)
unfolding get_by_id
leg_closes_once_example =
    leg_closes_once mute course
      (tries holdings moment (pos 500) (fixed_float.lit 5 0)
        ∷ does ((moment, expires) ∷ [])
        ∷ tries holdings moment (pos 500) (fixed_float.lit 6 0)
        ∷ [])
      1 sold
      (record {
        keys = (ground arith, tt);
        row = refl;
        fill = refl;
        pending_exit = refl;
        unsent = refl;
      })

structures_exclude_example : Exclusive (after prompt idle events)
unfolding lookup
structures_exclude_example = structures_exclude prompt idle events (λ k. inl refl)

spread_releases_its_reserve_example :
    let e₁ = enter_spread prompt moment plan answers idle in
    let e₂ = after prompt e₁ waits in
    let (v, e₃) =
      close_spread prompt holdings moment "RELIANCE" dte_floor
        (fixed_float.lit 12 0)
        (fixed_float.lit 6 0)
        recorded
        e₂ in
    (e₁.oms.risk_manager
      ≡ add_deployed_capital
          (both_placed prompt moment plan idle.oms).risk_manager
          "credit_spread_v1"
          (released recorded))
    × ((v ≡ kept)
        ⊎ (e₃.oms.risk_manager
            ≡ release_deployed_capital
                (both_tried prompt holdings moment
                  (fixed_float.lit 12 0)
                  (fixed_float.lit 6 0)
                  recorded
                  e₂.oms).risk_manager
                "credit_spread_v1"
                (released recorded)))
unfolding manager stocks_fno.Orders.Store.has_open stocks_fno.Risk.Validate.validate_trade
    stocks_fno.Risk.Validate.loss_limit_hit stocks_fno.Risk.Validate.sector_ok
    stocks_fno.Risk.Validate.budget_ok stocks_fno.Risk.Validate.count_ok
    stocks_fno.Risk.Validate.exposure_ok stocks_fno.Risk.Validate.premium_ok
    stocks_fno.Calendar.date_lt stocks_fno.Int.◌+ℤ◌ stocks_fno.Int.◌-ℤ◌ stocks_fno.Int.◌*ℤ◌
    stocks_fno.Risk.Validate.sector_of stocks_fno.Dict.lookup stocks_fno.Constants.fno_sectors
    stocks_fno.Risk.Underlying.get_underlying stocks_fno.Risk.Underlying.first_prefix
    stocks_fno.Risk.Underlying.sort_by_length stocks_fno.Constants.fno_symbols
    stocks_fno.Risk.Validate.count_if stocks_fno.Constants.allocated_strategies
    stocks_fno.Risk.Validate.capital_needed stocks_fno.Risk.Manager.deployed
    stocks_fno.Risk.Validate.holds stocks_fno.Orders.Store.get_by_id
    stocks_fno.Orders.Store.update_row stocks_fno.Orders.Store.with_status
    stocks_fno.Orders.Store.first_listed stocks_fno.Orders.Store.last_listed
    stocks_fno.Orders.Store.find_live stocks_fno.Orders.Store.received
    stocks_fno.Orders.Store.context_of stocks_fno.Orders.Store.map_broker_status
    stocks_fno.Orders.Store.adjusted_retry_price stocks_fno.Orders.Store.extract_fill_updates
    stocks_fno.Orders.Store.write_fill stocks_fno.Orders.Place.audit stocks_fno.Orders.Place.note
    stocks_fno.Orders.Place.update stocks_fno.Orders.Place.get_retry_context
    stocks_fno.Orders.Place.deploy stocks_fno.Orders.Place.release
    stocks_fno.Orders.Place.reconcile_after_timeout stocks_fno.Orders.Place.immediate_fill
    stocks_fno.Orders.Place.attempts stocks_fno.Orders.Place.append_position
    stocks_fno.Orders.Place.persist stocks_fno.Orders.Place.accept stocks_fno.Orders.Place.fail
    stocks_fno.Orders.Place.settle stocks_fno.Orders.Place.after_reply stocks_fno.Orders.Place.route
    stocks_fno.Orders.Place.after_check stocks_fno.Orders.Place.receive
    stocks_fno.Orders.Place.check stocks_fno.Orders.Place.place_order stocks_fno.Orders.Sync.synced
    stocks_fno.Orders.Sync.has_updates stocks_fno.Orders.Sync.release_capital_if_was_deployed
    stocks_fno.Orders.Sync.add_capital_if_should_have_been_deployed stocks_fno.Orders.Sync.verified
    stocks_fno.Orders.Sync.verify_each stocks_fno.Orders.Sync.retry_pending_verification_orders
    stocks_fno.Orders.Sync.after_change stocks_fno.Orders.Sync.after_write
    stocks_fno.Orders.Sync.sync_with stocks_fno.Orders.Sync.sync_one
    stocks_fno.Orders.Sync.sync_each stocks_fno.Orders.Sync.sync_open
    stocks_fno.Orders.Sync.sync_orders stocks_fno.Orders.Sync.after_cancel
    stocks_fno.Orders.Sync.cancel_found stocks_fno.Orders.Sync.cancel_order
    stocks_fno.Orders.Expire.is_stale stocks_fno.Orders.Expire.is_eligible
    stocks_fno.Orders.Expire.release_remainder stocks_fno.Orders.Expire.retry_or_leave
    stocks_fno.Orders.Expire.expire stocks_fno.Orders.Expire.cancel_at_broker
    stocks_fno.Orders.Expire.expire_one stocks_fno.Orders.Expire.expire_each
    stocks_fno.Orders.Expire.expire_stale_orders stocks_fno.Orders.Text.upper
    stocks_fno.Orders.Text.str_of_id stocks_fno.Orders.Text.broker_order_tag
    stocks_fno.Risk.Manager.release_deployed_capital stocks_fno.Dict.insert stocks_fno.Float.py_max
    stocks_fno.Risk.Underlying.prefix_of stocks_fno.Engine.Spread.enter_spread
    stocks_fno.Engine.Spread.enter_long stocks_fno.Engine.Spread.track_spread
    stocks_fno.Engine.Spread.unwind_short stocks_fno.Engine.Spread.width
    stocks_fno.Engine.Spread.reserved stocks_fno.Engine.Legs.real_fill stocks_fno.Engine.Check.after
    stocks_fno.Engine.Check.happens stocks_fno.Engine.Check.check_condor_exits
    stocks_fno.Engine.Check.check_each stocks_fno.Engine.Check.drop_losing_condors
    stocks_fno.Engine.Check.drop_winning_condors stocks_fno.Orders.Finished.run
    stocks_fno.Orders.Finished.step
spread_releases_its_reserve_example =
    spread_releases_its_reserve prompt moment moment plan answers idle waits recorded holdings
      dte_floor (fixed_float.lit 12 0) (fixed_float.lit 6 0) refl (tt, (tt, tt)) refl

-- A spread that is closed for the profit of its short leg, at a loss of both.
exits_at_a_loss :
    (spread_reason (some loaded) false decayed narrow ≡ some managed)
    × (fixed_float.lt
          (spread_gain narrow
            (quote_of decayed decayed.short_quote narrow.short)
            (quote_of decayed decayed.long_quote narrow.long))
          nought
        ≡ true)
unfolding spread_reason loaded stocks_fno.Int.◌*ℤ◌ stocks_fno.Int.◌-ℤ◌
exits_at_a_loss = (refl, refl)

no_structure_is_lost_example : IsAccounted "TCS" (check_exits prompt none none (λ u. view) holding)
unfolding is_tracked lookup
no_structure_is_lost_example = no_structure_is_lost prompt none none (λ u. view) "TCS" holding refl

-- An exit order that was cancelled as stale, with nothing filled, counts as a close.
expired_counts_as_closed :
    let stale : Order Fixed = record sold {
      order_status = expired;
      filled_quantity = none;
      fill_price = none;
    } in
    resolve_pending_exit_order (some 1) (stale ∷ []) ≡ resolved_ok stale
unfolding get_by_id resolve_pending_exit_order
expired_counts_as_closed = refl

-- no answer comes, so that the first leg stops the entry
condor_all_or_nothing_example :
    let q = place_legs mute moment [] (leg_orders condor_plan) idle.oms in
    let e = enter_condor mute moment condor_plan condor_answers idle in
    All IsOpened q.placed
    × (((map (λ z. z.0) q.placed ≡ leg_orders condor_plan)
          × (e.active_condors
              ≡ insert "TCS" (condor_of condor_plan condor_answers q.placed) idle.active_condors))
        ⊎ ((e.active_condors ≡ idle.active_condors)
            × Unwinds mute moment condor_answers e.alerts (map (λ z. z.0) q.placed) q.oms e.oms))
condor_all_or_nothing_example = condor_all_or_nothing mute moment condor_plan condor_answers idle

condor_releases_its_reserve_example :
    let e₁ = enter_condor prompt moment condor_plan condor_answers idle in
    let e₂ = after prompt e₁ passes in
    let (v, e₃) = close_condor prompt holdings moment "TCS" dte_floor prices opened_condor e₂ in
    (e₁.oms.risk_manager
      ≡ add_deployed_capital
          (placing prompt moment condor_plan idle.oms).oms.risk_manager
          "iron_condor_v1"
          (condor_released opened_condor))
    × ((v ≡ kept)
        ⊎ (e₃.oms.risk_manager
            ≡ release_deployed_capital
                (all_tried prompt holdings moment prices opened_condor e₂.oms).risk_manager
                "iron_condor_v1"
                (condor_released opened_condor)))
unfolding manager stocks_fno.Orders.Store.has_open stocks_fno.Risk.Validate.validate_trade
    stocks_fno.Risk.Validate.loss_limit_hit stocks_fno.Risk.Validate.sector_ok
    stocks_fno.Risk.Validate.budget_ok stocks_fno.Risk.Validate.count_ok
    stocks_fno.Risk.Validate.exposure_ok stocks_fno.Risk.Validate.premium_ok
    stocks_fno.Calendar.date_lt stocks_fno.Int.◌+ℤ◌ stocks_fno.Int.◌-ℤ◌ stocks_fno.Int.◌*ℤ◌
    stocks_fno.Risk.Validate.sector_of stocks_fno.Dict.lookup stocks_fno.Constants.fno_sectors
    stocks_fno.Risk.Underlying.get_underlying stocks_fno.Risk.Underlying.first_prefix
    stocks_fno.Risk.Underlying.sort_by_length stocks_fno.Constants.fno_symbols
    stocks_fno.Risk.Validate.count_if stocks_fno.Constants.allocated_strategies
    stocks_fno.Risk.Validate.capital_needed stocks_fno.Risk.Manager.deployed
    stocks_fno.Risk.Validate.holds stocks_fno.Orders.Store.get_by_id
    stocks_fno.Orders.Store.update_row stocks_fno.Orders.Store.with_status
    stocks_fno.Orders.Store.first_listed stocks_fno.Orders.Store.last_listed
    stocks_fno.Orders.Store.find_live stocks_fno.Orders.Store.received
    stocks_fno.Orders.Store.context_of stocks_fno.Orders.Store.map_broker_status
    stocks_fno.Orders.Store.adjusted_retry_price stocks_fno.Orders.Store.extract_fill_updates
    stocks_fno.Orders.Store.write_fill stocks_fno.Orders.Place.audit stocks_fno.Orders.Place.note
    stocks_fno.Orders.Place.update stocks_fno.Orders.Place.get_retry_context
    stocks_fno.Orders.Place.deploy stocks_fno.Orders.Place.release
    stocks_fno.Orders.Place.reconcile_after_timeout stocks_fno.Orders.Place.immediate_fill
    stocks_fno.Orders.Place.attempts stocks_fno.Orders.Place.append_position
    stocks_fno.Orders.Place.persist stocks_fno.Orders.Place.accept stocks_fno.Orders.Place.fail
    stocks_fno.Orders.Place.settle stocks_fno.Orders.Place.after_reply stocks_fno.Orders.Place.route
    stocks_fno.Orders.Place.after_check stocks_fno.Orders.Place.receive
    stocks_fno.Orders.Place.check stocks_fno.Orders.Place.place_order stocks_fno.Orders.Sync.synced
    stocks_fno.Orders.Sync.has_updates stocks_fno.Orders.Sync.release_capital_if_was_deployed
    stocks_fno.Orders.Sync.add_capital_if_should_have_been_deployed stocks_fno.Orders.Sync.verified
    stocks_fno.Orders.Sync.verify_each stocks_fno.Orders.Sync.retry_pending_verification_orders
    stocks_fno.Orders.Sync.after_change stocks_fno.Orders.Sync.after_write
    stocks_fno.Orders.Sync.sync_with stocks_fno.Orders.Sync.sync_one
    stocks_fno.Orders.Sync.sync_each stocks_fno.Orders.Sync.sync_open
    stocks_fno.Orders.Sync.sync_orders stocks_fno.Orders.Sync.after_cancel
    stocks_fno.Orders.Sync.cancel_found stocks_fno.Orders.Sync.cancel_order
    stocks_fno.Orders.Expire.is_stale stocks_fno.Orders.Expire.is_eligible
    stocks_fno.Orders.Expire.release_remainder stocks_fno.Orders.Expire.retry_or_leave
    stocks_fno.Orders.Expire.expire stocks_fno.Orders.Expire.cancel_at_broker
    stocks_fno.Orders.Expire.expire_one stocks_fno.Orders.Expire.expire_each
    stocks_fno.Orders.Expire.expire_stale_orders stocks_fno.Orders.Text.upper
    stocks_fno.Orders.Text.str_of_id stocks_fno.Orders.Text.broker_order_tag
    stocks_fno.Risk.Manager.release_deployed_capital stocks_fno.Dict.insert stocks_fno.Float.py_max
    stocks_fno.Risk.Underlying.prefix_of stocks_fno.Engine.Condor.enter_condor
    stocks_fno.Engine.Condor.place_legs stocks_fno.Engine.Condor.track_condor
    stocks_fno.Engine.Condor.fills_into stocks_fno.Engine.Condor.wing_spread
    stocks_fno.Engine.Spread.width stocks_fno.Engine.Condor.reserved
    stocks_fno.Engine.Legs.real_fill stocks_fno.Engine.Check.after stocks_fno.Engine.Check.happens
    stocks_fno.Engine.Check.check_spread_exits stocks_fno.Engine.Check.check_each
    stocks_fno.Engine.Check.drop_losing_spreads stocks_fno.Engine.Check.drop_winning_spreads
    stocks_fno.Orders.Finished.run stocks_fno.Orders.Finished.step
condor_releases_its_reserve_example =
    condor_releases_its_reserve prompt moment moment condor_plan condor_answers idle passes
      opened_condor holdings dte_floor prices refl (tt, (tt, tt)) refl
