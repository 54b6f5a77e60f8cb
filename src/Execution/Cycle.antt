-- ===== src/Execution/Cycle.antt =====
-- `run_execution_cycle` of backend/src/polycopy/execution/service.py. A session holds the committed
-- store and the working one: a failed signal rolls back to the committed store, and a commit rounds the
-- amounts to their columns. The clock and the
-- venue's answers may differ from signal to signal, so both are functions of the signal's id.
use poly.Prelude.{
  ℕ, ◌+◌, Bool, true, false, not, ◌&&◌, Option, none, some, List, [], ◌∷◌, map, filter, take, ltb,
  ◌==◌, if◌then◌else◌, ℤ, pos, ltb_ℤ,
}
use poly.Decimals.{Decimals}
use poly.Bookwalk.{FillStatus}
use poly.Bankroll.{sweep_profit_if_due}
use poly.Fees.{FeeCurve}
use poly.Execution.Store.{
  Signal, SignalStatus, MissReason, PaperOrder, Store, Settings, find, open_position_cost,
}
use poly.Execution.Gates.{eligible_at, is_paper_mode}
use poly.Execution.Trade.{Client}
use poly.Execution.Handlers.{Outcome, execute_signal}
use poly.Execution.Signals.{order_by, detect_signals}
use poly.Execution.Columns.{Columns, stored}
use poly.Execution.Settle.{SettleStats, settle_paper_positions}

pub record CycleStats : Type 0 where
  pub signals_created : ℕ
  pub filled : ℕ
  pub partial : ℕ
  pub missed : ℕ
  pub deferred : ℕ
  pub errors : ℕ
  pub positions_settled : ℕ
  pub stale : ℕ

pub record Session : Type 0 where
  pub committed : Store
  pub working : Store
  pub stats : CycleStats

pub is_pending : Signal → Bool
is_pending s = elim s.status [ SignalStatus.pending ↦ true | _ ↦ false ]

unfoldable pub is_stale_miss : PaperOrder → Bool
is_stale_miss o = elim o.miss_reason [ some MissReason.stale_signal ↦ true | _ ↦ false ]

unfoldable pub count_order : PaperOrder → CycleStats → CycleStats
unfolding is_stale_miss
count_order o c =
    let late = if is_stale_miss o then c.stale + 1 else c.stale in
    elim o.status [
      | FillStatus.filled ↦ record c { filled = c.filled + 1; stale = late }
      | FillStatus.partial ↦ record c { partial = c.partial + 1; stale = late }
      | FillStatus.missed ↦ record c { missed = c.missed + 1; stale = late }
    ]

-- The end of one round of the loop, by what `execute_signal` came to.
unfoldable pub close_round : Columns → Session → Store × Outcome → Session
unfolding count_order stored
close_round cols w (db, Outcome.failed e) = record w {
  working = w.committed;
  stats = record w.stats { errors = w.stats.errors + 1 };
}
close_round cols w (db, Outcome.deferred) = record w {
  working = db;
  stats = record w.stats { deferred = w.stats.deferred + 1 };
}
close_round cols w (db, Outcome.ordered o) = record {
  committed = stored cols db;
  working = stored cols db;
  stats = count_order o w.stats;
}

-- The pending signals, oldest first, as ids.
pub pending_ids : Settings → Store → List ℕ
unfolding is_pending order_by
pending_ids st db =
    map (λ s. s.id)
      (take st.execution_batch_size
        (order_by (λ s. s.t1_detected_at) (filter is_pending db.signals)))

-- `sweep_profit_if_due`, at the cost of the open positions.
unfoldable pub sweep_store : Settings → Store → Store × ℤ
unfolding open_position_cost sweep_profit_if_due
sweep_store st db =
    let (b, amount) =
      sweep_profit_if_due st.bankroll (pos (open_position_cost db.positions)) db.bankroll in
    (record db { bankroll = b }, amount)

-- The last commits: the deferrals of the batch, and a sweep that has moved something.
unfoldable pub end_cycle : Columns → Settings → Session → Store
unfolding sweep_store stored
end_cycle cols st w =
    let (swept, amount) = sweep_store st w.working in
    if ltb_ℤ (pos 0) amount
    then stored cols swept
    else if ltb 0 w.stats.deferred
    then stored cols w.working
    else w.committed

unfoldable pub start_session : Columns → Store → ℕ → SettleStats → Session
unfolding stored
start_session cols db created settled = record {
  committed = stored cols db;
  working = stored cols db;
  stats = record {
    signals_created = created;
    filled = 0;
    partial = 0;
    missed = 0;
    deferred = 0;
    errors = 0;
    positions_settled = settled.settled;
    stale = 0;
  };
}

module _ (d : Decimals) (c : FeeCurve) (cols : Columns) where
  -- The loop: none is the end of it by `break`.
  unfoldable pub run_signal : Settings → (ℕ → Client) → (ℕ → ℕ) → ℕ → Session → Option Session
  unfolding find is_pending eligible_at execute_signal close_round
  run_signal st client clock id w = elim (find (λ (s : Signal). s.id == id) w.working.signals) [
    | none ↦ some w
    | some s ↦
        if not (is_pending s)
        then some w
        else if ltb (clock id) (eligible_at st s) && not st.order_kill_switch
        then none
        else some (close_round cols w (execute_signal d c st (client id) (clock id) w.working s))
  ]

  unfoldable pub run_signals : Settings → (ℕ → Client) → (ℕ → ℕ) → List ℕ → Session → Session
  unfolding run_signal
  run_signals st client clock [] w = w
  run_signals st client clock (id ∷ ids) w = elim (run_signal st client clock id w) [
    | none ↦ w
    | some w' ↦ run_signals st client clock ids w'
  ]

  -- The session at the end of the loop.
  unfoldable pub cycle_session :
      Settings → (List Signal → ℕ) → (ℕ → Client) → (ℕ → ℕ) → ℕ → Store → Session
  unfolding detect_signals settle_paper_positions pending_ids run_signals start_session
  cycle_session st fresh client clock started db =
      let (detected, created) = detect_signals fresh st db in
      let (settled, counts) = settle_paper_positions d st started detected in
      run_signals st client clock (pending_ids st settled)
        (start_session cols settled created counts)

  -- The store that is committed at the end of the cycle, and the counts. None is the refusal to
  -- run outside paper mode.
  unfoldable pub run_execution_cycle :
      Settings
      → (List Signal → ℕ)
      → (ℕ → Client)
      → (ℕ → ℕ)
      → ℕ
      → Store
      → Option (Store × CycleStats)
  unfolding is_paper_mode cycle_session end_cycle
  run_execution_cycle st fresh client clock started db =
      let w = cycle_session st fresh client clock started db in
      if not (is_paper_mode st) then none else some (end_cycle cols st w, w.stats)
