-- ===== src/Ingestion/Tests.antt =====
-- Witnesses and runs of backend/src/polycopy/ingestion: a venue that always answers the same page, whose
-- rows are stored by `ingest_trade_rows`.
use poly.Prelude.{ℕ, ◌+◌, ◌*◌, ◌≡◌, refl, true, false, none, some, List, [], ◌∷◌, length}
use poly.Bookwalk.{Side}
use poly.Execution.Detection.{DistinctTrades}
use poly.Ingestion.Identity.{Text, TextOps, RawTrade, colon, data_api, canonical_trade_id}
use poly.Ingestion.Split.{split, canonical_trade_id-parts}
use poly.Ingestion.Rows.{Outside, Page, ingest_trade_rows}
use poly.Ingestion.Written.{ingest_trade_rows-DistinctTrades}
use poly.Ingestion.Replay.{ingest_trade_rows_again}

abbrev test_ops : TextOps
test_ops = record { strip = λ t. t; lower = λ t. t; number = λ t. some t }

-- A trade of the hash "a", the wallet "w", the asset "1", the size "2", the price "3" and a time.
abbrev pub test_row : ℕ → RawTrade
test_row time = record {
  transaction_hash = some (97 ∷ []);
  proxy_wallet = some (119 ∷ []);
  asset = some (49 ∷ []);
  size = some (50 ∷ []);
  price = some (51 ∷ []);
  timestamp = some (time ∷ []);
  condition_id = some 7;
  side = some Side.buy;
  outcome = 1;
}

-- A trade with no hash has no key.
abbrev nameless_row : RawTrade
nameless_row = record (test_row 48) { transaction_hash = none }

canonical_trade_id-parts_example :
    (id : Text) × (canonical_trade_id test_ops (test_row 48) ≡ some id)
    × (split colon id
        ≡ data_api ∷ (97 ∷ []) ∷ (119 ∷ []) ∷ (49 ∷ []) ∷ (50 ∷ []) ∷ (51 ∷ []) ∷ (48 ∷ []) ∷ [])
canonical_trade_id-parts_example =
    canonical_trade_id-parts test_ops (test_row 48) refl refl refl refl refl refl refl refl
      ((refl, tt), ((refl, tt), ((refl, tt), ((refl, tt), ((refl, tt), ((refl, tt), tt))))))

abbrev pub text_code : Text → ℕ
text_code [] = 0
text_code (c ∷ cs) = c + 256 * text_code cs

abbrev pub test_outside : Outside
test_outside = record {
  text_ops = test_ops;
  code = text_code;
  instant = λ t. some (1_000_000 * text_code t);
  price_count = λ t. some (text_code t);
  accepts = λ t. true;
  fresh_market = λ ms. length ms;
  gamma_market = λ condition. none;
  signature = λ identity wallet raw. wallet;
}

abbrev pub empty_page : Page
empty_page = record {
  markets = [];
  trades = [];
  throttle = record { trace_interval = 300; summary_every = 20; states = [] };
  quarantine_log = [];
  inserted = 0;
  quarantined = 0;
}

abbrev pub test_rows : List RawTrade
test_rows = test_row 48 ∷ test_row 49 ∷ test_row 48 ∷ []

ingest_trade_rows-DistinctTrades_example :
    DistinctTrades
      (ingest_trade_rows test_outside true 5 1 (nameless_row ∷ test_rows) empty_page).trades
ingest_trade_rows-DistinctTrades_example =
    ingest_trade_rows-DistinctTrades test_outside true 5 1 (nameless_row ∷ test_rows) empty_page tt

-- The row with no key is quarantined, and a row that comes twice is stored once.
page_counts :
    let w = ingest_trade_rows test_outside true 5 1 (nameless_row ∷ test_rows) empty_page in
    (w.inserted ≡ 2) × (w.quarantined ≡ 1) × (length w.trades ≡ 2) × (length w.markets ≡ 1)
unfolding ingest_trade_rows
page_counts = (refl, refl, refl, refl)

ingest_trade_rows_again_example :
    ingest_trade_rows test_outside false 9 1 test_rows
      (ingest_trade_rows test_outside true 5 1 test_rows empty_page)
    ≡ record (ingest_trade_rows test_outside true 5 1 test_rows empty_page) {
      inserted = 0;
      quarantined = 0;
    }
unfolding ingest_trade_rows
ingest_trade_rows_again_example =
    ingest_trade_rows_again test_outside true 5 1 false 9 test_rows empty_page refl
