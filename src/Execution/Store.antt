-- ===== src/Execution/Store.antt =====
-- The rows that backend/src/polycopy/execution/service.py reads and writes, from
-- backend/src/polycopy/models.py. Identifiers, outcomes and token ids are only compared, so they are
-- numbers, and an absent or empty `asset_id` is none; times are microseconds. Shares, prices and
-- money are the exact counts of Decimals, as a session holds them before it commits; what the NUMERIC
-- columns keep of them at a commit is in Columns. Rows of orders and of the log are appended. The
-- columns that repeat a field of the signal or the operands of the fee are left out.
use poly.Prelude.{
  ℕ, ◌*◌, Bool, false, ◌&&◌, Option, none, some, List, [], ◌∷◌, ◌==◌, if◌then◌else◌, ℤ, pos, ltb,
  sum_by, filter, or_else, Dict,
}
use poly.Bookwalk.{Side, FillStatus}
use poly.Bankroll.{Bankroll, BankrollSettings}

pub data ApprovalState : Type 0 where
  discovered pending_review approved rejected disabled : ApprovalState

pub record Wallet : Type 0 where
  pub id : ℕ
  pub approval_state : ApprovalState
  pub approved_at : Option ℕ

pub record Market : Type 0 where
  pub id : ℕ
  pub condition_id : ℕ
  pub clob_token_ids : Dict ℕ
  pub closed : Bool

pub record Trade : Type 0 where
  pub polymarket_trade_id : ℕ
  pub market_id : ℕ
  pub wallet_id : ℕ
  pub asset_id : Option ℕ
  pub side : Side
  pub outcome : ℕ
  pub price : ℕ
  pub traded_at : ℕ
  pub ingested_at : ℕ

pub data SignalStatus : Type 0 where
  pending executed skipped : SignalStatus

pub record Signal : Type 0 where
  pub id : ℕ
  pub wallet_id : ℕ
  pub market_id : ℕ
  pub source_trade_id : ℕ
  pub asset_id : Option ℕ
  pub side : Side
  pub outcome : ℕ
  pub source_price : ℕ
  pub status : SignalStatus
  pub kill_switch_deferrals : ℕ
  pub t0_traded_at : ℕ
  pub t1_detected_at : ℕ

pub data MissReason : Type 0 where
  stale_signal wallet_not_approved market_closed no_token_for_outcome no_position_to_sell
        exposure_cap bankroll_stop_loss bankroll_insufficient no_book_depth price_zone :
      MissReason

pub record PaperOrder : Type 0 where
  pub idempotency_key : ℕ
  pub signal_id : ℕ
  pub side : Side
  pub size : ℕ
  pub price : ℕ
  pub status : FillStatus
  pub t2_decided_at : ℕ
  pub fee : Option ℕ
  pub realized_pnl_delta : Option ℤ
  pub miss_reason : Option MissReason

pub record Position : Type 0 where
  pub wallet_id : ℕ
  pub market_id : ℕ
  pub outcome : ℕ
  pub quantity : ℕ
  pub avg_price : ℕ
  pub realized_pnl : ℤ
  pub settlement_realized_pnl : Option ℤ
  pub settled_at : Option ℕ

pub record Settlement : Type 0 where
  pub market_id : ℕ
  pub winning_outcome : ℕ

-- The decision-log rows of this component.
pub data LogEntry : Type 0 where
  signal_skipped : ℕ → MissReason → LogEntry
  paper_order_executed : ℕ → FillStatus → LogEntry
  paper_position_settled : ℕ → ℕ → LogEntry

pub record Store : Type 0 where
  pub wallets : List Wallet
  pub markets : List Market
  pub trades : List Trade
  pub signals : List Signal
  pub orders : List PaperOrder
  pub positions : List Position
  pub settlements : List Settlement
  pub bankroll : Bankroll
  pub log : List LogEntry

pub record Settings : Type 0 where
  pub paper_mode : Bool
  pub allow_live_trading : Bool
  pub order_kill_switch : Bool
  pub max_order_size_usd : ℕ
  pub max_exposure_per_market_usd : ℕ
  pub max_exposure_global_usd : ℕ
  pub review_delay : ℕ
  pub max_signal_execution_age : ℕ
  pub signal_detection_batch_size : ℕ
  pub execution_batch_size : ℕ
  pub max_copy_price : ℕ
  pub bankroll : BankrollSettings

-- `session.get` and `scalar_one_or_none`: the first row that passes.
unfoldable pub find {ℓ} : {A : Type ℓ} → (A → Bool) → List A → Option A
find p [] = none
find p (x ∷ xs) = if p x then some x else find p xs

-- The unique key of a position.
pub is_position : Signal → Position → Bool
is_position s p =
    p.wallet_id == s.wallet_id && (p.market_id == s.market_id && p.outcome == s.outcome)

-- The position of a signal, or the new empty one.
abbrev pub empty_position : Signal → Position
empty_position s = record {
  wallet_id = s.wallet_id;
  market_id = s.market_id;
  outcome = s.outcome;
  quantity = 0;
  avg_price = 0;
  realized_pnl = pos 0;
  settlement_realized_pnl = none;
  settled_at = none;
}

unfoldable pub position_of : Signal → List Position → Position
unfolding find is_position
position_of s ps = or_else (find (is_position s) ps) (empty_position s)

-- The row that the signal's position is written back to; it is added if it is new.
unfoldable pub put_position : Signal → Position → List Position → List Position
unfolding is_position
put_position s p [] = p ∷ []
put_position s p (q ∷ qs) = if is_position s q then p ∷ qs else q ∷ put_position s p qs

-- Cost basis: quantity times average price.
abbrev cost_basis : Position → ℕ
cost_basis p = p.quantity * p.avg_price

unfoldable pub global_exposure : List Position → ℕ
global_exposure = sum_by cost_basis

unfoldable pub market_exposure : ℕ → List Position → ℕ
market_exposure market ps = sum_by cost_basis (filter (λ p. p.market_id == market) ps)

-- `open_position_cost` of backend/src/polycopy/bankroll.py.
unfoldable pub is_open : Position → Bool
is_open p = elim p.settled_at [ none ↦ ltb 0 p.quantity | some _ ↦ false ]

unfoldable pub open_position_cost : List Position → ℕ
unfolding is_open
open_position_cost ps = sum_by cost_basis (filter is_open ps)

unfoldable pub set_status : ℕ → SignalStatus → List Signal → List Signal
set_status id status [] = []
set_status id status (s ∷ ss) =
    if s.id == id then record s { status = status } ∷ ss else s ∷ set_status id status ss
