-- ===== src/Execution/Tests.antt =====
-- Runs of backend/src/polycopy/execution/service.py at concrete rows.
use poly.Prelude.{
  ◌*◌, ◌/◌, negsuc, ℕ, ◌+◌, ◌≡◌, refl, true, false, some, none, List, [], ◌∷◌, pos, length, ◌+ℤ◌,
  ◌-ℤ◌, ◌*ℤ◌, map,
}
use poly.Decimals.{micros}
use poly.Bookwalk.{Amount, Side}
use poly.Fees.{FeeCurve, MarketInfo, RawFlag, RawNumber}
use poly.Execution.Store.{ApprovalState, Trade, SignalStatus, Signal, Position, Store, Settings}
use poly.Execution.Gates.{is_paper_mode}
use poly.Execution.Trade.{RawLevel, Client, Filled, record_fill}
use poly.Execution.Handlers.{Outcome, execute_signal}
use poly.Execution.Safety.{IsFill, Covered, execute_signal-MayFill, execute_signal-Covered}
use poly.Execution.Outcomes.{MayFill}
use poly.Execution.Columns.{Columns}
use poly.Execution.Books.{Grown}
use poly.Execution.Cycle.{CycleStats, cycle_session, run_execution_cycle}
use poly.Execution.Rounds.{run_execution_cycle-Grown}
use poly.Execution.Counts.{Tells, cycle_session-Tells}
use poly.Execution.Signals.{detect_signals}
use poly.Execution.Detection.{DistinctSources, detect_signals-DistinctSources}
use poly.Execution.Settle.{settle_paper_positions}
use poly.Execution.Settled.{settle_twice}
use poly.Execution.Resolved.{if_unsettled, settle_paper_positions-positions}

abbrev test_curve : FeeCurve
test_curve = record { power = λ x e. some x; curve_unit = 1_000_000_000_000; quantum = 10 }

-- Columns that round money down to millionths of a dollar.
abbrev test_columns : Columns
test_columns = record {
  shares = λ n. n;
  price = λ n. n;
  fee = λ n. n;
  money = λ z. elim z [ pos n ↦ pos (n / 1_000_000 * 1_000_000) | negsuc n ↦ negsuc n ];
}

abbrev test_settings : Settings
test_settings = record {
  paper_mode = true;
  allow_live_trading = false;
  order_kill_switch = false;
  max_order_size_usd = 50_000_000;
  max_exposure_per_market_usd = 500_000_000;
  max_exposure_global_usd = 900_000_000;
  review_delay = 10;
  max_signal_execution_age = 1000;
  signal_detection_batch_size = 5;
  execution_batch_size = 5;
  max_copy_price = 900_000;
  bankroll = record {
    starting_bankroll_usd = pos 1_000_000_000;
    profit_limit_usd = pos 100_000_000;
    stop_loss_floor_usd = pos 0;
  };
}

abbrev test_level : RawLevel
test_level = RawLevel.level (Amount.finite (pos 500_000)) (Amount.finite (pos 300))

abbrev test_client : Client
test_client = record {
  order_book = λ token. some (test_level ∷ [], RawLevel.unparsable ∷ test_level ∷ []);
  clob_market_info = λ condition. some (
      MarketInfo.fd RawFlag.no_flag (RawNumber.number (Amount.finite (pos 2)))
        (RawNumber.number (Amount.finite (pos 1))));
}

abbrev test_trade : Trade
test_trade = record {
  polymarket_trade_id = 5;
  market_id = 1;
  wallet_id = 1;
  asset_id = none;
  side = Side.buy;
  outcome = 1;
  price = 480_000;
  traded_at = 200;
  ingested_at = 210;
}

abbrev test_signal : Signal
test_signal = record {
  id = 1;
  wallet_id = 1;
  market_id = 1;
  source_trade_id = 5;
  asset_id = none;
  side = Side.buy;
  outcome = 1;
  source_price = 480_000;
  status = SignalStatus.pending;
  kill_switch_deferrals = 0;
  t0_traded_at = 200;
  t1_detected_at = 210;
}

-- A position of another market, which is resolved.
abbrev test_position : Position
test_position = record {
  wallet_id = 1;
  market_id = 2;
  outcome = 0;
  quantity = 10;
  avg_price = 400_000;
  realized_pnl = pos 0;
  settlement_realized_pnl = none;
  settled_at = none;
}

abbrev test_store : Store
test_store = record {
  wallets = record { id = 1; approval_state = ApprovalState.approved; approved_at = some 100 } ∷ [];
  markets = record { id = 1; condition_id = 7; clob_token_ids = (1, 11) ∷ []; closed = false } ∷ [];
  trades = test_trade ∷ [];
  signals = [];
  orders = [];
  positions = test_position ∷ [];
  settlements = record { market_id = 2; winning_outcome = 0 } ∷ [];
  bankroll = record { account = none; ledger = []; decisions = [] };
  log = [];
}

test-IsFill :
    IsFill (execute_signal micros test_curve test_settings test_client 300 test_store test_signal).1
unfolding execute_signal ◌-ℤ◌ ◌+ℤ◌
test-IsFill = refl

execute_signal-MayFill_example : MayFill test_settings test_store test_signal 300
execute_signal-MayFill_example =
    execute_signal-MayFill micros test_curve test_settings test_client 300 test_store test_signal
      test-IsFill

execute_signal-Covered_example :
    (f : Filled) × Covered test_settings test_store test_signal Side.buy f
    × (execute_signal micros test_curve test_settings test_client 300 test_store test_signal ≡ (
      (record_fill micros test_settings test_store test_signal f 300).0,
      Outcome.ordered (record_fill micros test_settings test_store test_signal f 300).1,
    ))
execute_signal-Covered_example =
    execute_signal-Covered micros test_curve test_settings test_client 300 test_store test_signal
      test-IsFill

abbrev test_fresh : List Signal → ℕ
test_fresh signals = length signals + 1

test_paper : is_paper_mode test_settings ≡ true
unfolding is_paper_mode
test_paper = refl

run_execution_cycle-Grown_example :
    (out : Store × CycleStats) × (run_execution_cycle micros test_curve test_columns test_settings
        test_fresh
        (λ id. test_client)
        (λ id. 300)
        290
        test_store
      ≡ some out)
    × Grown [] out.0.orders
run_execution_cycle-Grown_example =
    run_execution_cycle-Grown micros test_curve test_columns test_settings test_fresh
      (λ id. test_client) (λ id. 300) 290 test_store test_paper tt

-- One signal is detected and filled, and one position is settled.
test_counts :
    let s =
      (cycle_session micros test_curve test_columns test_settings test_fresh
        (λ id. test_client)
        (λ id. 300)
        290
        test_store).stats in
    (s.signals_created ≡ 1) × (s.filled ≡ 1) × (s.errors ≡ 0) × (s.positions_settled ≡ 1)
unfolding cycle_session ◌-ℤ◌ ◌+ℤ◌ ◌*ℤ◌
test_counts = (refl, refl, refl, refl)

cycle_session-Tells_example : Tells [] (
    cycle_session micros test_curve test_columns test_settings test_fresh
      (λ id. test_client)
      (λ id. 300)
      290
      test_store)
cycle_session-Tells_example =
    cycle_session-Tells micros test_curve test_columns test_settings test_fresh (λ id. test_client)
      (λ id. 300) 290 test_store

detect_signals-DistinctSources_example :
    DistinctSources (detect_signals test_fresh test_settings test_store).0.signals
detect_signals-DistinctSources_example =
    detect_signals-DistinctSources test_fresh test_settings test_store (tt, tt) tt

settle_twice_example :
    let db' = (settle_paper_positions micros test_settings 290 test_store).0 in
    settle_paper_positions micros test_settings 400 db'
    ≡ (db', record { settled = 0; winners = 0; losers = 0 })
settle_twice_example = settle_twice micros test_settings 290 400 test_store

settle_paper_positions-positions_example :
    (settle_paper_positions micros test_settings 290 test_store).0.positions
    ≡ map (if_unsettled 1_000_000 290 test_store.settlements) (test_position ∷ [])
settle_paper_positions-positions_example =
    settle_paper_positions-positions micros test_settings 290 test_store
