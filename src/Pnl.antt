-- ===== src/Pnl.antt =====
-- backend/src/polycopy/accounting/pnl.py: cash-flow accounting of one market and the roll-up over
-- markets. Sizes and prices are counts, cash is a signed count of size units times price units, and
-- `one` is the price of 1 dollar; outcomes and market keys are only compared. Amounts that the feed
-- may deliver negative are outside the model.
pub mod Direct
pub mod Summary
mod Tests
use poly.Prelude.{
  ℕ, ◌+◌, ◌*◌, Bool, true, false, not, Option, none, some, List, [], ◌∷◌, ◌==◌, if◌then◌else◌, ℤ,
  pos, ◌+ℤ◌, ◌-ℤ◌, ◌*ℤ◌, ltb_ℤ, sum_ℤ, sum_by, filter, length, Dict, lookup, insert, or_else,
  is_some,
}

pub record TradeLeg : Type 0 where
  pub market_key : ℕ
  pub outcome : ℕ
  -- `side == "BUY"`
  pub is_buy : Bool
  pub size : ℕ
  pub price : ℕ
  pub fee : ℤ

pub record MarketPosition : Type 0 where
  pub shares : ℤ
  pub cash_flow : ℤ

pub record MarketAccounting : Type 0 where
  pub market_key : ℕ
  pub resolved : Bool
  pub winning_outcome : Option ℕ
  pub realized_pnl : Option ℤ
  pub payout : ℤ
  pub positions : Dict MarketPosition
  pub trade_count : ℕ

abbrev pub no_position : MarketPosition
no_position = record { shares = pos 0; cash_flow = pos 0 }

-- `leg.size if leg.side == "BUY" else -leg.size`
pub signed_size : TradeLeg → ℤ
signed_size leg = if leg.is_buy then pos leg.size else pos 0 -ℤ pos leg.size

-- `gross - leg.fee`
pub leg_cash : TradeLeg → ℤ
leg_cash leg =
    let gross =
      if leg.is_buy then pos 0 -ℤ pos (leg.size * leg.price) else pos (leg.size * leg.price) in
    gross -ℤ leg.fee

-- One round of the loop over the legs.
pub add_leg : Dict MarketPosition → TradeLeg → Dict MarketPosition
add_leg positions leg =
    let p = or_else (lookup leg.outcome positions) no_position in
    insert leg.outcome
      (record { shares = p.shares +ℤ signed_size leg; cash_flow = p.cash_flow +ℤ leg_cash leg })
      positions

pub add_legs : Dict MarketPosition → List TradeLeg → Dict MarketPosition
unfolding add_leg
add_legs positions [] = positions
add_legs positions (leg ∷ legs) = add_legs (add_leg positions leg) legs

-- The price of a share of the winner is $1: `one` price units.
pub winning_payout : ℕ → Option MarketPosition → ℤ
winning_payout one none = pos 0
winning_payout one (some p) = if ltb_ℤ (pos 0) p.shares then p.shares *ℤ pos one else pos 0

pub account_market : ℕ → ℕ → List TradeLeg → Option ℕ → MarketAccounting
unfolding add_legs winning_payout
account_market one key legs winner =
    let positions = add_legs [] legs in
    let total_cash = sum_ℤ (λ e. e.1.cash_flow) positions in
    let payout : ℤ = elim winner [
      | none ↦ pos 0
      | some w ↦ winning_payout one (lookup w positions)
    ] in
    record {
      market_key = key;
      resolved = is_some winner;
      winning_outcome = winner;
      realized_pnl = elim winner [ none ↦ none | some w ↦ some (total_cash +ℤ payout) ];
      payout = payout;
      positions = positions;
      trade_count = length legs;
    }

pub record WalletSummary : Type 0 where
  pub realized_pnl : ℤ
  pub settled_market_count : ℕ
  pub open_market_count : ℕ
  pub trade_count : ℕ
  pub winning_market_count : ℕ
  pub gross_profit : ℤ
  pub gross_loss : ℤ

-- `m.realized_pnl or Decimal(0)`
abbrev pub pnl_or_zero : MarketAccounting → ℤ
pnl_or_zero m = or_else m.realized_pnl (pos 0)

pub is_winning : MarketAccounting → Bool
is_winning m = ltb_ℤ (pos 0) (pnl_or_zero m)

pub is_losing : MarketAccounting → Bool
is_losing m = ltb_ℤ (pnl_or_zero m) (pos 0)

pub summarize : List MarketAccounting → WalletSummary
unfolding is_winning is_losing
summarize markets =
    let resolved = filter (λ (m : MarketAccounting). m.resolved) markets in
    record {
      realized_pnl = sum_ℤ pnl_or_zero resolved;
      settled_market_count = length resolved;
      open_market_count = length (filter (λ (m : MarketAccounting). not m.resolved) markets);
      trade_count = sum_by (λ (m : MarketAccounting). m.trade_count) markets;
      winning_market_count = length (filter is_winning resolved);
      gross_profit = sum_ℤ pnl_or_zero (filter is_winning resolved);
      gross_loss = pos 0 -ℤ sum_ℤ pnl_or_zero (filter is_losing resolved);
    }
