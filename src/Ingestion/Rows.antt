-- ===== src/Ingestion/Rows.antt =====
-- `ingest_trade_rows`, `ingest_wallet_trades`, `_record_quarantine` and `_get_or_create_market` of
-- backend/src/polycopy/ingestion/service.py. A row is written in a savepoint, so that one that fails
-- leaves nothing. The unique constraint on the key is not in the model: the code does not rely on it.
use poly.Prelude.{
  ℕ, ◌+◌, Bool, true, false, not, ◌||◌, Option, none, some, List, [], ◌∷◌, ◌++◌, ◌==◌,
  if◌then◌else◌, any, filter, Dict, setdefault,
}
use poly.Throttle.{FailureLogThrottle, record_failure}
use poly.Execution.Store.{Market, Trade, find}
use poly.Ingestion.Identity.{Text, TextOps, RawTrade, canonical_trade_id}

-- What is outside: the number that stands for a text, datetimes, the prices and the rows that the
-- database takes, its ids, the metadata of Gamma (none is a failure or no answer), and the number that
-- stands for the signature of a failure, by whether the identity is invalid.
pub record Outside : Type 0 where
  pub text_ops : TextOps
  pub code : Text → ℕ
  pub instant : Text → Option ℕ
  pub price_count : Text → Option ℕ
  pub accepts : Trade → Bool
  pub fresh_market : List Market → ℕ
  pub gamma_market : ℕ → Option (Dict ℕ × Bool)
  pub signature : Bool → ℕ → RawTrade → ℕ

-- The state that a page changes, with the counts of its result; the quarantine log holds the repeat
-- counts of its rows.
pub record Page : Type 0 where
  pub markets : List Market
  pub trades : List Trade
  pub throttle : FailureLogThrottle
  pub quarantine_log : List ℕ
  pub inserted : ℕ
  pub quarantined : ℕ

-- `_record_quarantine`: the failure is logged if the throttle lets it through.
unfoldable pub record_quarantine : ℕ → ℕ → Page → Page
unfolding record_failure
record_quarantine now signature w =
    let (throttle, decision) = record_failure w.throttle signature now in
    record w {
      throttle = throttle;
      quarantine_log =
          if decision.full_trace || decision.emit_summary
          then w.quarantine_log ++ (decision.repeat_count ∷ [])
          else w.quarantine_log;
      quarantined = w.quarantined + 1;
    }

unfoldable pub has_trade : ℕ → List Trade → Bool
has_trade key trades = any (λ t. t.polymarket_trade_id == key) trades

-- `new_keys`, with their rows.
unfoldable pub new_entries : List Trade → Dict RawTrade → Dict RawTrade
unfolding has_trade
new_entries trades keyed = filter (λ (e : ℕ × RawTrade). not (has_trade e.0 trades)) keyed

module _ (x : Outside) where
  unfoldable pub page_key : RawTrade → Option ℕ
  unfolding canonical_trade_id
  page_key raw = elim (canonical_trade_id x.text_ops raw) [
    | none ↦ none
    | some id ↦ some (x.code id)
  ]

  -- One turn of the loop that keys the rows of a page, with the key of the row.
  unfoldable pub key_row : ℕ → ℕ → RawTrade → Option ℕ → Dict RawTrade × Page → Dict RawTrade × Page
  unfolding record_quarantine
  key_row now wallet raw none s = (s.0, record_quarantine now (x.signature true wallet raw) s.1)
  key_row now wallet raw (some key) s = (setdefault key raw s.0, s.1)

  unfoldable pub key_rows : ℕ → ℕ → List RawTrade → Dict RawTrade × Page → Dict RawTrade × Page
  unfolding page_key key_row
  key_rows now wallet [] s = s
  key_rows now wallet (raw ∷ rest) s =
      key_rows now wallet rest (key_row now wallet raw (page_key raw) s)

  -- `_get_or_create_market`: the market of a condition, and the markets with it.
  unfoldable pub get_or_create_market : Bool → ℕ → List Market → Market × List Market
  unfolding find
  get_or_create_market fetch condition markets =
      let bare : Market = record {
        id = x.fresh_market markets;
        condition_id = condition;
        clob_token_ids = [];
        closed = false;
      } in
      let fetched : Market = elim (x.gamma_market condition) [
        | none ↦ bare
        | some (tokens, closed) ↦ record bare { clob_token_ids = tokens; closed = closed }
      ] in
      let made = if fetch then fetched else bare in
      elim (find (λ (m : Market). m.condition_id == condition) markets) [
        | some m ↦ (m, markets)
        | none ↦ (made, markets ++ (made ∷ []))
      ]

  -- The asset id of a row: an empty text is none.
  unfoldable pub asset_name : Option Text → Option ℕ
  asset_name none = none
  asset_name (some []) = none
  asset_name (some text) = some (x.code text)

  -- The row of a trade with the markets that it needs; none is any error of the savepoint.
  unfoldable pub trade_row :
      Bool → ℕ → ℕ → ℕ → RawTrade → List Market → Option (Trade × List Market)
  unfolding get_or_create_market asset_name
  trade_row fetch now wallet key raw markets = elim raw.condition_id [
    | none ↦ none
    | some condition ↦
        let (market, all) = get_or_create_market fetch condition markets in
        elim raw.side [
          | none ↦ none
          | some side ↦ elim raw.price [
            | none ↦ none
            | some price_text ↦ elim (x.price_count price_text) [
              | none ↦ none
              | some price ↦ elim raw.timestamp [
                | none ↦ none
                | some time ↦ elim (x.instant time) [
                  | none ↦ none
                  | some traded_at ↦
                      let trade : Trade = record {
                        polymarket_trade_id = key;
                        market_id = market.id;
                        wallet_id = wallet;
                        asset_id = asset_name raw.asset;
                        side = side;
                        outcome = raw.outcome;
                        price = price;
                        traded_at = traded_at;
                        ingested_at = now;
                      } in
                      if x.accepts trade then some (trade, all) else none
                ]
              ]
            ]
          ]
        ]
  ]

  -- The end of one savepoint.
  unfoldable pub write_row : ℕ → ℕ → RawTrade → Option (Trade × List Market) → Page → Page
  unfolding record_quarantine
  write_row now wallet raw none w = record_quarantine now (x.signature false wallet raw) w
  write_row now wallet raw (some (trade, markets)) w = record w {
    markets = markets;
    trades = w.trades ++ (trade ∷ []);
    inserted = w.inserted + 1;
  }

  -- The loop over the new keys.
  unfoldable pub write_rows : Bool → ℕ → ℕ → Dict RawTrade → Page → Page
  unfolding trade_row write_row
  write_rows fetch now wallet [] w = w
  write_rows fetch now wallet (e ∷ rest) w =
      write_rows fetch now wallet rest
        (write_row now wallet e.1 (trade_row fetch now wallet e.0 e.1 w.markets) w)

  -- The page as it is read, with the counts of its result at 0.
  unfoldable pub ingest_trade_rows : Bool → ℕ → ℕ → List RawTrade → Page → Page
  unfolding key_rows new_entries write_rows
  ingest_trade_rows fetch now wallet raws w =
      let (keyed, w') = key_rows now wallet raws ([], record w { inserted = 0; quarantined = 0 }) in
      write_rows fetch now wallet (new_entries w'.trades keyed) w'
