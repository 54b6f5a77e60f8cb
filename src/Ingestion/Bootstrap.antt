-- ===== src/Ingestion/Bootstrap.antt =====
-- `bootstrap_wallet_history` of backend/src/polycopy/ingestion/service.py. The database and the venue
-- are one state with the operations that the function uses, in `History`. Times are microseconds and
-- the ends of windows are seconds; the addresses and the texts of the log are left out. The log entries
-- and the calls stand in a trace, the latest first.
pub mod Turn
pub mod Bounds
pub mod Turns
pub mod Backfill
pub mod Loop
pub mod Budget
mod Tests
use poly.Prelude.{
  ℕ, ◌+◌, ◌-◌, ◌*◌, ◌/◌, ◌≤◌, ◌≡◌, min, max, Bool, false, true, ◌&&◌, ◌||◌, not, Option, none, some,
  List, [], ◌∷◌, ◌++◌, ltb, leb, ◌==◌, if◌then◌else◌, length,
}
use poly.Scoring.{min_settled_markets, min_trades, min_account_age_days}
use poly.Settlements.{second_micros}
use poly.Ingestion.Identity.{RawTrade}

pub record BootstrapSettings : Type 0 where
  pub bootstrap_page_size : ℕ
  pub bootstrap_max_pages : ℕ
  pub bootstrap_max_trades : ℕ
  pub bootstrap_max_requests : ℕ
  pub bootstrap_pages_per_run : ℕ
  pub bootstrap_max_settlement_markets : ℕ

abbrev pub max_trades : BootstrapSettings → ℕ
max_trades c = max 1 c.bootstrap_max_trades

abbrev pub page_size : BootstrapSettings → ℕ
page_size c = min (min (max 1 c.bootstrap_page_size) (max_trades c)) 500

abbrev pub max_pages : BootstrapSettings → ℕ
max_pages c = max 1 c.bootstrap_max_pages

abbrev pub max_requests : BootstrapSettings → ℕ
max_requests c = max 1 c.bootstrap_max_requests

-- The bound of the venue on an offset.
abbrev pub max_offset : ℕ
max_offset = 10000

pub record Evidence : Type 0 where
  pub local_count : ℕ
  pub settled_count : ℕ
  pub oldest : Option ℕ
  pub newest : Option ℕ

-- The client and the database: `client.get_trades` by limit, offset and end, where none is one of the
-- errors that are caught; `ingest_trade_rows` with what it inserted and quarantined;
-- `gamma_backoff_active`; the query of the markets to settle, by those that were checked and a limit;
-- `refresh_settlements` with its errors and its number checked, where none is a caught error; the
-- evidence; and `_parse_traded_at`, where none is a caught error.
pub record History (W : Type 0) : Type 0 where
  pub get_trades : ℕ → ℕ → ℕ → W → Option (List RawTrade) × W
  pub ingest : List RawTrade → W → (ℕ × ℕ) × W
  pub gamma_backoff : W → Bool
  pub unsettled : List ℕ → ℕ → W → List ℕ
  pub refresh : List ℕ → W → Option (ℕ × ℕ) × W
  pub evidence : W → Evidence
  pub traded_at : RawTrade → Option ℕ

-- What the function relies on: a page and a query have no more rows than their limit, and ingestion
-- accounts for no more rows than it is given.
pub record IsLawful {W : Type 0} (x : History W) : Type 0 where
  pub pages :
      (limit offset end : ℕ) (w : W) (rows : List RawTrade)
      → (x.get_trades limit offset end w).0 ≡ some rows
      → length rows ≤ limit
  pub queries :
      (checked : List ℕ) (limit : ℕ) (w : W) → length (x.unsettled checked limit w) ≤ limit
  pub counts :
      (rows : List RawTrade) (w : W) → (x.ingest rows w).0.0 + (x.ingest rows w).0.1 ≤ length rows

pub data Reason : Type 0 where
  configured_limit_reached upstream_error history_exhausted maturity_satisfied in_progress : Reason

-- The context of a log entry, which is also the state that the next run reads.
pub record Context : Type 0 where
  pub pages_requested : ℕ
  pub rows_fetched : ℕ
  pub new_trades_inserted : ℕ
  pub duplicates_skipped : ℕ
  pub quarantined_rows : ℕ
  pub oldest_trade_observed : Option ℕ
  pub newest_trade_observed : Option ℕ
  pub settled_market_count : ℕ
  pub total_local_trade_count : ℕ
  pub satisfied : Bool
  pub termination_reason : Reason
  pub next_offset : ℕ
  pub end_timestamp : ℕ
  pub window_oldest : Option ℕ
  pub requests_used : ℕ
  pub settlement_checked : List ℕ

pub data Event : Type 0 where
  persisted : Context → Event
  -- a page by its limit and offset, and a settlement round on a number of markets
  requested : ℕ → ℕ → Event
  refreshed : ℕ → Event

pub record Run (W : Type 0) : Type 0 where
  pub world : W
  pub trace : List Event
  pub end_ts : ℕ
  pub offset : ℕ
  pub window_oldest : Option ℕ
  pub pages : ℕ
  pub pages_this_run : ℕ
  pub rows_fetched : ℕ
  pub requests : ℕ
  pub settlement_checked : List ℕ
  pub inserted_total : ℕ
  pub duplicates_total : ℕ
  pub quarantined_total : ℕ
  pub oldest : Option ℕ
  pub newest : Option ℕ
  pub mature : Bool

-- `persist_progress`, by the state that the run started from.
unfoldable pub persist_progress : {W : Type 0} → Context → Run W → Run W
persist_progress state r =
    let context : Context = record {
      pages_requested = r.pages;
      rows_fetched = r.rows_fetched;
      new_trades_inserted = state.new_trades_inserted + r.inserted_total;
      duplicates_skipped = state.duplicates_skipped + r.duplicates_total;
      quarantined_rows = state.quarantined_rows + r.quarantined_total;
      oldest_trade_observed = r.oldest;
      newest_trade_observed = r.newest;
      settled_market_count = state.settled_market_count;
      total_local_trade_count = state.total_local_trade_count;
      satisfied = false;
      termination_reason = Reason.in_progress;
      next_offset = r.offset;
      end_timestamp = r.end_ts;
      window_oldest = r.window_oldest;
      requests_used = r.requests;
      settlement_checked = r.settlement_checked;
    } in
    record r { trace = persisted context ∷ r.trace }

-- `min` and `max` with a value that may be missing.
unfoldable pub earliest : Option ℕ → Option ℕ → Option ℕ
earliest none b = b
earliest (some a) none = some a
earliest (some a) (some b) = some (min a b)

unfoldable pub latest : Option ℕ → Option ℕ → Option ℕ
latest none b = b
latest (some a) none = some a
latest (some a) (some b) = some (max a b)

-- The test of maturity, where the age in days is a floor.
unfoldable pub is_mature : ℕ → ℕ → ℕ → Option ℕ → Bool
is_mature now count settled none = false
is_mature now count settled (some oldest) =
    leb min_trades count
    && leb min_settled_markets settled
    && leb (oldest + min_account_age_days * 86400 * second_micros) now

-- The test of the loop.
unfoldable pub has_budget : {W : Type 0} → BootstrapSettings → Run W → Bool
has_budget c r =
    ltb r.pages (max_pages c)
    && ltb r.rows_fetched (max_trades c)
    && ltb r.requests (max_requests c)
    && ltb r.pages_this_run c.bootstrap_pages_per_run
