-- ===== src/Accounting.antt =====
-- backend/src/polycopy/accounting/service.py: the accounting of a wallet from its trades. A row is a
-- trade joined with its market and the settlement of it, if there is one. A market stands by its
-- condition, which is unique, as the key of its leg; times are microseconds.
pub mod Grouping
pub mod Window
pub mod Recent
mod Tests
use poly.Prelude.{
  ℕ, ◌+◌, ◌*◌, min, Bool, true, false, ◌&&◌, Option, none, some, List, [], ◌∷◌, ◌++◌, ◌==◌,
  if◌then◌else◌, leb, Dict, lookup, insert, or_else, map, filter, ℤ, pos, ◌+ℤ◌, ◌-ℤ◌,
}
use poly.Pnl.{TradeLeg, MarketAccounting, WalletSummary, account_market, summarize}

pub record Row : Type 0 where
  pub wallet_id : ℕ
  pub traded_at : ℕ
  pub leg : TradeLeg
  pub winning_outcome : Option ℕ

pub record WalletAccounting : Type 0 where
  pub summary : WalletSummary
  pub markets : List MarketAccounting
  pub api_realized_pnl : Option ℤ
  pub reconciliation_delta : Option ℤ

-- `legs_by_market` and `winners`.
pub record Groups : Type 0 where
  pub legs : Dict (List TradeLeg)
  pub winners : Dict (Option ℕ)

unfoldable pub add_row : Groups → Row → Groups
add_row g r =
    let key = r.leg.market_key in
    record {
      legs = insert key (or_else (lookup key g.legs) [] ++ (r.leg ∷ [])) g.legs;
      winners = insert key r.winning_outcome g.winners;
    }

unfoldable pub add_rows : Groups → List Row → Groups
unfolding add_row
add_rows g [] = g
add_rows g (r ∷ rows) = add_rows (add_row g r) rows

-- `_assemble_wallet_accounting`
unfoldable pub assemble_wallet_accounting : ℕ → List Row → WalletAccounting
unfolding add_rows
assemble_wallet_accounting one rows =
    let g = add_rows (record { legs = []; winners = [] }) rows in
    let markets =
      map
        (λ (e : ℕ × List TradeLeg).
          account_market one e.0 e.1 (or_else (lookup e.0 g.winners) none))
        g.legs in
    record {
      summary = summarize markets;
      markets = markets;
      api_realized_pnl = none;
      reconciliation_delta = none;
    }

unfoldable pub compute_wallet_accounting : ℕ → ℕ → List Row → WalletAccounting
unfolding assemble_wallet_accounting
compute_wallet_accounting one wallet rows =
    assemble_wallet_accounting one (filter (λ (r : Row). r.wallet_id == wallet) rows)

-- `func.min(Trade.traded_at)` of a wallet in a market.
unfoldable pub first_trade_at : ℕ → ℕ → List Row → Option ℕ
first_trade_at wallet market [] = none
first_trade_at wallet market (r ∷ rows) =
    let rest = first_trade_at wallet market rows in
    if r.wallet_id == wallet && r.leg.market_key == market
    then some (min r.traded_at (or_else rest r.traded_at))
    else rest

-- The test of the query on the first trade, by the length of the window.
unfoldable pub is_recent : ℕ → ℕ → Option ℕ → Bool
is_recent now window none = false
is_recent now window (some first) = leb now (first + window) && leb first now

unfoldable pub compute_wallet_accounting_for_decision_window :
    ℕ → ℕ → ℕ → ℕ → List Row → WalletAccounting
unfolding is_recent first_trade_at assemble_wallet_accounting
compute_wallet_accounting_for_decision_window one wallet now window rows =
    assemble_wallet_accounting one (
      filter
        (λ (r : Row).
          r.wallet_id == wallet
          && is_recent now window (first_trade_at wallet r.leg.market_key rows))
        rows)

-- The sum over the positions of the venue, where a position may have no figure.
unfoldable pub api_total : List (Option ℤ) → ℤ
api_total [] = pos 0
api_total (none ∷ rest) = api_total rest
api_total (some raw ∷ rest) = raw +ℤ api_total rest

-- `reconcile_wallet`, where none is an error of the venue.
unfoldable pub reconcile_wallet : WalletAccounting → Option (List (Option ℤ)) → WalletAccounting
unfolding api_total
reconcile_wallet acct none = acct
reconcile_wallet acct (some positions) =
    let total = api_total positions in
    record acct {
      api_realized_pnl = some total;
      reconciliation_delta = some (acct.summary.realized_pnl -ℤ total);
    }
