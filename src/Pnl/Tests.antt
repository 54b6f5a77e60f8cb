-- ===== src/Pnl/Tests.antt =====
-- The accounting of backend/src/polycopy/accounting/pnl.py at concrete legs.
use poly.Prelude.{
  ◌≡◌, refl, true, false, some, none, List, [], ◌∷◌, pos, ◌+ℤ◌, ◌-ℤ◌, ◌*ℤ◌, max_ℤ, sum_ℤ,
}
use poly.Pnl.{TradeLeg, MarketAccounting, WalletSummary, leg_cash, account_market, summarize}
use poly.Pnl.Direct.{net_shares, account_market_direct}

abbrev test_legs : List TradeLeg
test_legs =
    record { market_key = 1; outcome = 0; is_buy = true; size = 10; price = 40; fee = pos 3 }
    ∷ record { market_key = 1; outcome = 0; is_buy = false; size = 4; price = 55; fee = pos 1 }
    ∷ []

test_pnl : (account_market 100 1 test_legs (some 0)).realized_pnl ≡ some (pos 416)
unfolding account_market ◌+ℤ◌ ◌-ℤ◌ ◌*ℤ◌ leg_cash poly.Pnl.signed_size
test_pnl = refl

account_market_direct_example :
    (account_market 100 1 test_legs (some 0)).realized_pnl
    ≡ some (sum_ℤ leg_cash test_legs +ℤ max_ℤ (pos 0) (net_shares 0 test_legs) *ℤ pos 100)
account_market_direct_example = account_market_direct 100 1 test_legs (some 0)

abbrev test_markets : List MarketAccounting
test_markets =
    account_market 100 1 test_legs (some 0)
    ∷ account_market 100 2 test_legs (some 1)
    ∷ account_market 100 3 [] none
    ∷ []
