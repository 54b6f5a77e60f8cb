-- ===== src/Execution/Trade.antt =====
-- The trade of `execute_signal` in backend/src/polycopy/execution/service.py: the book, the walk, the
-- fee, the last checks, and the writes of a fill.
use poly.Prelude.{
  ℕ, ◌+◌, ◌-◌, ◌*◌, min, Bool, true, false, ◌&&◌, Option, none, some, List, [], ◌∷◌, ◌++◌, ltb, leb,
  if◌then◌else◌, ℤ, pos, ◌+ℤ◌, ◌-ℤ◌, ◌*ℤ◌, ltb_ℤ,
}
use poly.Decimals.{Decimals}
use poly.Bookwalk.{
  Amount, BookLevel, Side, FillStatus, FillResult, WalkError, WalkResult, ok_amounts, walk_book,
}
use poly.Bankroll.{post_realized_pnl}
use poly.Fees.{MarketInfo, FeeError, FeeResult, FeeCurve, from_market_info, taker_fee}
use poly.Execution.Store.{
  Market, Signal, SignalStatus, MissReason, PaperOrder, Position, LogEntry, Store, Settings,
  position_of, put_position, set_status,
}
use poly.Execution.Gates.{owned, available_cash, exceeds_caps}

-- A level as the venue sends it.
pub data RawLevel : Type 0 where
  unparsable : RawLevel
  level : Amount → Amount → RawLevel

-- The venue's answers during one attempt: none is a request that failed.
pub record Client : Type 0 where
  pub order_book : ℕ → Option (List RawLevel × List RawLevel)
  pub clob_market_info : ℕ → Option MarketInfo

pub data TradeError : Type 0 where
  not_paper_mode request_failed no_fill_price integrity_error : TradeError
  walk_error : WalkError → TradeError
  fee_error : FeeError → TradeError

-- An executable fill: shares, volume-weighted price and fee.
pub record Filled : Type 0 where
  pub status : FillStatus
  pub size : ℕ
  pub price : ℕ
  pub fee : ℕ

pub data TradePlan : Type 0 where
  miss : MissReason → TradePlan
  fill : Filled → TradePlan
  error : TradeError → TradePlan

unfoldable pub is_buy : Side → Bool
is_buy Side.buy = true
is_buy _ = false

is_missed : FillStatus → Bool
is_missed FillStatus.missed = true
is_missed _ = false

-- `filled_size * fill_price + fee`
abbrev pub cost_of : Filled → ℕ
cost_of f = f.size * f.price + f.fee

-- The checks on the exact cost of a BUY.
unfoldable pub check_cost : Settings → Store → Signal → Filled → TradePlan
unfolding is_buy exceeds_caps available_cash
check_cost st db s f =
    if is_buy s.side && exceeds_caps st db s (cost_of f)
    then TradePlan.miss MissReason.exposure_cap
    else if is_buy s.side && ltb_ℤ (available_cash st db) (pos (cost_of f))
    then TradePlan.miss MissReason.bankroll_insufficient
    else TradePlan.fill f

-- The cap of the walk: the shares owned, for a SELL.
unfoldable pub share_cap : Store → Signal → Side → Option ℕ
unfolding owned
share_cap db s Side.sell = some (owned db s)
share_cap db s _ = none

module _ (d : Decimals) (c : FeeCurve) where
  -- `_parse_levels`: levels that do not parse and invalid ones are dropped.
  pub parse_levels : List RawLevel → List BookLevel
  unfolding ok_amounts
  parse_levels [] = []
  parse_levels (RawLevel.unparsable ∷ ls) = parse_levels ls
  parse_levels (RawLevel.level p s ∷ ls) = elim (ok_amounts d p s) [
    | none ↦ parse_levels ls
    | some _ ↦ record { price = p; size = s } ∷ parse_levels ls
  ]

  -- The fee of a fill that passed the price zone.
  unfoldable pub plan_fee :
      Settings → Store → Signal → Option MarketInfo → FillResult → ℕ → TradePlan
  unfolding check_cost from_market_info taker_fee
  plan_fee st db s none r price = TradePlan.error TradeError.request_failed
  plan_fee st db s (some info) r price = elim (from_market_info info) [
    | FeeResult.err e ↦ TradePlan.error (TradeError.fee_error e)
    | FeeResult.ok fee ↦ elim (taker_fee d c fee r.filled_size price) [
      | FeeResult.err e ↦ TradePlan.error (TradeError.fee_error e)
      | FeeResult.ok f ↦
          check_cost st db s
            (record { status = r.status; size = r.filled_size; price = price; fee = f })
    ]
  ]

  -- The result of the walk: a miss, the price zone of a BUY, and then the fee.
  unfoldable pub plan_fill : Settings → Store → Signal → Client → Market → FillResult → TradePlan
  unfolding is_missed is_buy plan_fee
  plan_fill st db s client m r =
      if is_missed r.status then TradePlan.miss MissReason.no_book_depth else elim r.fill_price [
        | none ↦ TradePlan.error TradeError.no_fill_price
        | some price ↦
            if is_buy s.side && leb st.max_copy_price price
            then TradePlan.miss MissReason.price_zone
            else plan_fee st db s (client.clob_market_info m.condition_id) r price
      ]

  unfoldable pub plan_trade : Settings → Store → Signal → Client → Market → ℕ → TradePlan
  unfolding parse_levels plan_fill share_cap walk_book
  plan_trade st db s client m token = elim (client.order_book token) [
    | none ↦ TradePlan.error TradeError.request_failed
    | some (bids, asks) ↦
        elim (walk_book d s.side st.max_order_size_usd (parse_levels bids) (parse_levels asks)
          (share_cap db s s.side)) [
            | WalkResult.raised e ↦ TradePlan.error (TradeError.walk_error e)
            | WalkResult.walked r ↦ plan_fill st db s client m r
          ]
  ]

-- BUY: the fee goes into the cost basis.
unfoldable pub bought : Decimals → Position → Filled → Position
bought d p f =
    let quantity = p.quantity + f.size in
    record p {
      quantity = quantity;
      avg_price =
          if ltb 0 quantity then d.quotient (p.quantity * p.avg_price + cost_of f) quantity else 0;
    }

-- SELL: the fee comes out of the realized P&L.
sold_shares : Position → Filled → ℕ
sold_shares p f = min p.quantity f.size

pub realized_delta : Position → Filled → ℤ
unfolding sold_shares
realized_delta p f = pos (sold_shares p f) *ℤ (pos f.price -ℤ pos p.avg_price) -ℤ pos f.fee

unfoldable pub sold : Position → Filled → Position
unfolding sold_shares realized_delta
sold p f = record p {
  quantity = p.quantity - sold_shares p f;
  realized_pnl = p.realized_pnl +ℤ realized_delta p f;
}

abbrev fill_order : Signal → ℕ → Filled → Option ℤ → PaperOrder
fill_order s now f delta = record {
  idempotency_key = s.source_trade_id;
  signal_id = s.id;
  side = s.side;
  size = f.size;
  price = f.price;
  status = f.status;
  t2_decided_at = now;
  fee = some f.fee;
  realized_pnl_delta = delta;
  miss_reason = none;
}

abbrev miss_order : Signal → ℕ → MissReason → PaperOrder
miss_order s now reason = record {
  idempotency_key = s.source_trade_id;
  signal_id = s.id;
  side = s.side;
  size = 0;
  price = 0;
  status = FillStatus.missed;
  t2_decided_at = now;
  fee = none;
  realized_pnl_delta = none;
  miss_reason = some reason;
}

-- `_record_skip`
unfoldable pub record_skip : Store → Signal → MissReason → ℕ → Store × PaperOrder
unfolding set_status
record_skip db s reason now =
    let order = miss_order s now reason in
    (
      record db {
        orders = db.orders ++ (order ∷ []);
        signals = set_status s.id SignalStatus.skipped db.signals;
        log = db.log ++ (LogEntry.signal_skipped s.id reason ∷ []);
      },
      order,
    )

-- The writes of a fill.
unfoldable pub record_fill : Decimals → Settings → Store → Signal → Filled → ℕ → Store × PaperOrder
unfolding set_status bought sold realized_delta post_realized_pnl position_of put_position is_buy
record_fill d st db s f now =
    let p = position_of s db.positions in
    let delta = realized_delta p f in
    let order = fill_order s now f (if is_buy s.side then none else some delta) in
    (
      record db {
        orders = db.orders ++ (order ∷ []);
        signals = set_status s.id SignalStatus.executed db.signals;
        positions = put_position s (if is_buy s.side then bought d p f else sold p f) db.positions;
        bankroll =
            if is_buy s.side
            then db.bankroll
            else (post_realized_pnl st.bankroll delta db.bankroll).0;
        log = db.log ++ (LogEntry.paper_order_executed s.id f.status ∷ []);
      },
      order,
    )
