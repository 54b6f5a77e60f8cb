-- ===== src/Settlements/Tests.antt =====
-- Rounds of backend/src/polycopy/accounting/settlements.py on concrete markets.
use poly.Prelude.{◌≡◌, refl, true, false, some, none, [], ◌∷◌, pos, arith}
use poly.Settlements.{Price, GammaMarket, Detection, detect_winning_outcome, Lookup, Refresh}
use poly.Settlements.Winner.{IsWinner, detect_winning_outcome_winner}
use poly.Settlements.Loop.{refresh_settlements}
use poly.Settlements.Unique.{IsOnce, OfRefreshed, refresh_settlements-IsOnce}

abbrev test_market : GammaMarket
test_market = record {
  closed = some true;
  outcomes = 3 ∷ 4 ∷ [];
  prices = some (Price.number (pos 0) ∷ Price.number (pos 100) ∷ []);
}

test_winner : detect_winning_outcome 100 test_market ≡ Detection.winner 4
unfolding detect_winning_outcome
test_winner = refl

detect_winning_outcome_winner_example : IsWinner 100 test_market 4
detect_winning_outcome_winner_example = detect_winning_outcome_winner 100 test_market test_winner

abbrev test_refresh : Refresh
test_refresh = record {
  market = record {
    id = 9;
    closed = false;
    resolved_outcome = none;
    settlement_last_checked_at = none;
    settlement_attempt_count = 3;
    settlement_next_check_at = none;
  };
  throttle = none;
  settlements = [];
  stats = record {
    checked = 0;
    settled = 0;
    skipped_ambiguous = 0;
    not_found_or_open = 0;
    token_fallback_hits = 0;
    errors = 0;
  };
}

-- Gamma answers the settled market for each of two markets.
refresh_settlements-IsOnce_example : OfRefreshed IsOnce (
    refresh_settlements 100 50 false
      (some 2)
      (λ m. Lookup.answered (some test_market) false)
      (test_refresh.market ∷ record (test_refresh.market) { id = 10 } ∷ [])
      test_refresh)
refresh_settlements-IsOnce_example =
    refresh_settlements-IsOnce 100 50 false (some 2) (λ m. Lookup.answered (some test_market) false)
      (test_refresh.market ∷ record (test_refresh.market) { id = 10 } ∷ []) test_refresh tt
      (((λ e. ground arith), tt), (tt, tt))
