-- ===== src/Ingestion/Bootstrap/Tests.antt =====
-- Witnesses of `bootstrap_wallet_history` of backend/src/polycopy/ingestion/service.py, on a database
-- whose pages `ingest_trade_rows` stores.
use poly.Prelude.{
  ◌≤◌, ◌≡◌, subst, none, some, List, [], ◌∷◌, length, take, length-take, false, arith,
}
use poly.Ingestion.Identity.{RawTrade}
use poly.Ingestion.Rows.{Page, ingest_trade_rows}
use poly.Ingestion.Written.{ingest_trade_rows_counts}
use poly.Ingestion.Tests.{test_outside, test_rows, empty_page}
use poly.Ingestion.Bootstrap.{BootstrapSettings, History, IsLawful}
use poly.Ingestion.Bootstrap.Backfill.{blank, Result, bootstrap_wallet_history}
use poly.Ingestion.Bootstrap.Budget.{
  IsOutcome, bootstrap_wallet_history-IsBounded, spent_by_runs, spent_by_runs-max_requests,
}

abbrev test_settings : BootstrapSettings
test_settings = record {
  bootstrap_page_size = 3;
  bootstrap_max_pages = 4;
  bootstrap_max_trades = 100;
  bootstrap_max_requests = 6;
  bootstrap_pages_per_run = 2;
  bootstrap_max_settlement_markets = 1;
}

-- The venue answers each request with the same rows, and one market is never settled.
abbrev test_history : History Page
test_history = record {
  get_trades = λ limit offset end w. (some (take limit test_rows), w);
  ingest = λ rows w. (
    (
      (ingest_trade_rows test_outside false 9 1 rows w).inserted,
      (ingest_trade_rows test_outside false 9 1 rows w).quarantined,
    ),
    ingest_trade_rows test_outside false 9 1 rows w,
  );
  gamma_backoff = λ w. false;
  unsettled = λ checked limit w. take limit (7 ∷ []);
  refresh = λ markets w. (some (0, 0), w);
  evidence = λ w. record {
    local_count = length w.trades;
    settled_count = 0;
    oldest = none;
    newest = none;
  };
  traded_at = λ row. some 5_000_000;
}

-- The laws of the ingestion are those that its theorem gives.
test_history-IsLawful : IsLawful test_history
test_history-IsLawful = record {
  pages = λ limit offset end w rows e.
      let same : take limit test_rows ≡ rows = grind arith in
      subst (λ (r : List RawTrade). length r ≤ limit) same (length-take limit test_rows);
  queries = λ checked limit w. length-take limit (7 ∷ []);
  counts = λ rows w. (ingest_trade_rows_counts test_outside false 9 1 rows w).1;
}

bootstrap_wallet_history-IsBounded_example :
    (result : Result Page) × (bootstrap_wallet_history test_history test_settings 9_000_000 none
        empty_page
      ≡ some result)
    × IsOutcome test_history test_settings blank result
bootstrap_wallet_history-IsBounded_example =
    bootstrap_wallet_history-IsBounded test_history test_settings 9_000_000 none empty_page
      test_history-IsLawful

spent_by_runs-max_requests_example :
    spent_by_runs test_history test_settings
      ((9_000_000, empty_page) ∷ (10_000_000, empty_page) ∷ [])
      none
    ≤ 6
spent_by_runs-max_requests_example =
    spent_by_runs-max_requests test_history test_settings
      ((9_000_000, empty_page) ∷ (10_000_000, empty_page) ∷ []) test_history-IsLawful
