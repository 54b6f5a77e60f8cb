-- ===== src/Execution/Handlers.antt =====
-- `execute_signal` of backend/src/polycopy/execution/service.py, and the commit of what it writes.
use poly.Prelude.{ℕ, ◌+◌, Bool, false, not, ◌||◌, List, [], ◌∷◌, ltb, ◌==◌, if◌then◌else◌}
use poly.Decimals.{Decimals}
use poly.Fees.{FeeCurve}
use poly.Execution.Store.{Signal, MissReason, PaperOrder, Store, Settings}
use poly.Execution.Gates.{GateResult, check_gates, is_paper_mode, eligible_at, is_stale_signal}
use poly.Execution.Trade.{Client, TradeError, TradePlan, plan_trade, record_skip, record_fill}

pub data Outcome : Type 0 where
  ordered : PaperOrder → Outcome
  deferred : Outcome
  failed : TradeError → Outcome

-- The unique constraint on the idempotency key, which the commit checks.
unfoldable pub has_order : ℕ → List PaperOrder → Bool
has_order key [] = false
has_order key (o ∷ os) = o.idempotency_key == key || has_order key os

-- `session.commit()`: the new rows stand, or the constraint fails and the caller rolls back.
unfoldable pub commit_order : Store → Signal → Store × PaperOrder → Store × Outcome
unfolding has_order
commit_order db s (db', order) =
    if has_order s.source_trade_id db.orders
    then (db, Outcome.failed TradeError.integrity_error)
    else (db', Outcome.ordered order)

pub count_deferral : Signal → List Signal → List Signal
count_deferral s [] = []
count_deferral s (x ∷ xs) =
    if x.id == s.id
    then record x { kill_switch_deferrals = x.kill_switch_deferrals + 1 } ∷ xs
    else x ∷ count_deferral s xs

module _ (d : Decimals) (c : FeeCurve) where
  -- A failure leaves the store as it was: every write of a failed attempt is rolled back.
  unfoldable pub execute_signal : Settings → Client → ℕ → Store → Signal → Store × Outcome
  unfolding is_paper_mode is_stale_signal eligible_at check_gates plan_trade record_skip record_fill
      commit_order count_deferral
  execute_signal st client now db s =
      if not (is_paper_mode st)
      then (db, Outcome.failed TradeError.not_paper_mode)
      else if is_stale_signal st s now
      then commit_order db s (record_skip db s MissReason.stale_signal now)
      else if st.order_kill_switch
      then (record db { signals = count_deferral s db.signals }, Outcome.deferred)
      else if ltb now (eligible_at st s)
      then (db, Outcome.deferred)
      else elim (check_gates st db s) [
        | GateResult.miss reason ↦ commit_order db s (record_skip db s reason now)
        | GateResult.pass m token ↦ elim (plan_trade d c st db s client m token) [
          | TradePlan.error e ↦ (db, Outcome.failed e)
          | TradePlan.miss reason ↦ commit_order db s (record_skip db s reason now)
          | TradePlan.fill f ↦ commit_order db s (record_fill d st db s f now)
        ]
      ]
