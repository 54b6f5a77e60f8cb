-- ===== src/Accounting/Tests.antt =====
-- A witness and a run of backend/src/polycopy/accounting/service.py: the market 7 is first traded in the
-- window, the market 8 before it, and a trade of another wallet is left out.
use mathlib.Core.List.{Mem}
use poly.Prelude.{ℕ, ◌≡◌, refl, true, none, some, List, [], ◌∷◌, map, All, pos, ◌+ℤ◌}
use poly.Accounting.{
  Row, compute_wallet_accounting_for_decision_window, reconcile_wallet, compute_wallet_accounting,
}
use poly.Accounting.Window.{market_of, of_wallet}
use poly.Accounting.Recent.{IsRecent, decision_window_markets}

abbrev test_row : ℕ → ℕ → ℕ → Row
test_row wallet market time = record {
  wallet_id = wallet;
  traded_at = time;
  leg = record {
    market_key = market;
    outcome = 1;
    is_buy = true;
    size = 10;
    price = 4;
    fee = pos 0;
  };
  winning_outcome = none;
}

abbrev test_rows : List Row
test_rows =
    test_row 1 7 95 ∷ test_row 1 8 50 ∷ test_row 2 7 10 ∷ test_row 1 8 96 ∷ test_row 1 7 120 ∷ []

decision_window_markets_example :
    (ks : List ℕ) × ((compute_wallet_accounting_for_decision_window 10 1 100 20 test_rows).markets
      ≡ map (market_of 10 (of_wallet 1 test_rows)) ks)
    × All (IsRecent 100 20 (of_wallet 1 test_rows)) ks
    × ((k : ℕ) → IsRecent 100 20 (of_wallet 1 test_rows) k → Mem k ks)
decision_window_markets_example = decision_window_markets 10 1 100 20 test_rows

-- A figure that is missing counts nothing.
reconciled :
    (reconcile_wallet
      (compute_wallet_accounting 10 1 test_rows)
      (some (some (pos 3) ∷ none ∷ []))).api_realized_pnl
    ≡ some (pos 3)
unfolding reconcile_wallet ◌+ℤ◌
reconciled = refl
